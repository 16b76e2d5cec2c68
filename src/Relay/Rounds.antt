-- ===== src/Relay/Rounds.antt =====
-- The verdict on a round of checksums.
pub mod Sorted
pub mod Whole
pub mod Sent
use fujinet_intv_golf.Base.{
  ℕ, suc, ◌≤◌, ◌<◌, ◌≡◌, refl, true, false, List, [], ◌∷◌, ◌++◌, map, arith, ◌==◌, ==-eq, ==-self,
  length, contains, All, Bool-cases, inl, inr,
}
use fujinet_intv_golf.Relay.World.{World, crc_mismatch}
use fujinet_intv_golf.Relay.Crc.{Entry, set_of, report, sorted_items, close_round, log_round}

contains-set_of : (v : ℕ) (vs : List ℕ) → contains (set_of vs) v ≡ contains vs v
unfolding set_of
contains-set_of v [] = refl
contains-set_of v (x ∷ vs) = ground (arith, contains-set_of v vs, contains-set_of x vs, ==-eq v x)

-- A list of equal values has one value.
pub set_of-uniform : (v : ℕ) (vs : List ℕ) → All (λ x. x ≡ v) vs → set_of (v ∷ vs) ≡ v ∷ []
unfolding set_of
set_of-uniform v [] h = refl
set_of-uniform v (x ∷ vs) h =
    ground (arith, set_of-uniform v vs h.1, contains-set_of v vs, ==-self v)

one_value :
    (l : List ℕ) (a b : ℕ) → contains l a ≡ true → contains l b ≡ true → length l ≡ 1 → a ≡ b
one_value [] a b ha hb e = cc
one_value (x ∷ []) a b ha hb e = ground (arith, ==-eq a x, ==-eq b x)
one_value (x ∷ y ∷ l) a b ha hb e = absurd (omega arith)

-- Two different values make two.
pub set_of-two :
    (vs : List ℕ) (a b : ℕ)
    → contains vs a ≡ true
    → contains vs b ≡ true
    → (a == b) ≡ false
    → (length (set_of vs) == 1) ≡ false
set_of-two vs a b ha hb ne = elim (Bool-cases (length (set_of vs) == 1)) [
  | inr e ↦ e
  | inl e ↦ ground (
    arith,
    one_value (set_of vs) a b,
    contains-set_of a vs,
    contains-set_of b vs,
    ==-eq (length (set_of vs)) 1,
  )
]

abbrev pub values : Entry → List ℕ
values entry = map (λ e. e.1) entry

-- The reports for the tick, with this one.
abbrev pub entry_with : ℕ → ℕ → ℕ → ℕ → World → Entry
entry_with r seat tick crc w = (report tick seat crc (w.crc r)).0

module _ (r seat tick crc : ℕ) (w : World) where
  -- While the members of the room outnumber the reports for the tick, with this one, nothing is
  -- counted and nothing logged.
  pub log_round-waits :
      length (entry_with r seat tick crc w) < length (w.members r)
      → ((log_round r seat tick crc w).crc_ok r ≡ w.crc_ok r)
        × ((log_round r seat tick crc w).journal ≡ w.journal)
  unfolding log_round
  log_round-waits h = ground arith

  -- When as many reports for the tick as the room has members are in, with this one, and all their
  -- values are equal, the count of good rounds grows by one.
  pub log_round-agrees :
      (v : ℕ) (vs : List ℕ)
      → length (w.members r) ≤ length (entry_with r seat tick crc w)
      → values (entry_with r seat tick crc w) ≡ v ∷ vs
      → All (λ x. x ≡ v) vs
      → (log_round r seat tick crc w).crc_ok r ≡ suc (w.crc_ok r)
  unfolding log_round close_round
  log_round-agrees v vs full e all = ground (arith, set_of-uniform v vs all, ==-self r)

  -- When as many reports for the tick as the room has members are in, with this one, and two of
  -- their values differ, the count of good rounds stays and the log gets a mismatch line with the
  -- tick and the reports, sorted.
  pub log_round-differs :
      (a b : ℕ)
      → length (w.members r) ≤ length (entry_with r seat tick crc w)
      → contains (values (entry_with r seat tick crc w)) a ≡ true
      → contains (values (entry_with r seat tick crc w)) b ≡ true
      → (a == b) ≡ false
      → ((log_round r seat tick crc w).crc_ok r ≡ w.crc_ok r)
        × ((log_round r seat tick crc w).journal
            ≡ w.journal ++ crc_mismatch tick (sorted_items (entry_with r seat tick crc w)) ∷ [])
  unfolding log_round close_round
  log_round-differs a b full ha hb ne =
      ground (arith, set_of-two (values (entry_with r seat tick crc w)) a b ha hb ne)
