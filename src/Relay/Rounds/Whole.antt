-- ===== src/Relay/Rounds/Whole.antt =====
-- A whole round of checksums: each seat reports once.
use fujinet_intv_golf.Base.{
  ℕ, suc, ◌%◌, ◌≤◌, ◌<◌, ◌≡◌, refl, sym, ap, ◌∙◌, Bool, true, false, ◌&&◌, List, [], ◌∷◌, ◌++◌,
  none, arith, ltb, ◌==◌, ==-eq, ==-self, if◌then◌else◌, update, length, length-append, append_nil,
  contains, All, Bool-cases, inl, inr,
}
use fujinet_intv_golf.Base.NatMap
use fujinet_intv_golf.Base.NatMap.{lookup-last, insert_new, insert-last, pop-last}
use fujinet_intv_golf.Relay.World.{World, LogLine, crc_mismatch, crc_ok_through}
use fujinet_intv_golf.Relay.Crc.{Entry, set_of, report, sorted_items, close_round, log_round}
use fujinet_intv_golf.Relay.Rounds.{values, set_of-uniform, set_of-two}

-- Are all of the values this one?
abbrev pub every : ℕ → List ℕ → Bool
every v [] = true
every v (x ∷ xs) = x == v && every v xs

abbrev pub all_same : List ℕ → Bool
all_same [] = true
all_same (v ∷ vs) = every v vs

every-All : (v : ℕ) (vs : List ℕ) → every v vs ≡ true → All (λ x. x ≡ v) vs
every-All v [] h = tt
every-All v (x ∷ xs) h = (==-eq x v (ground arith), every-All v xs (ground arith))

every-false :
    (v : ℕ) (vs : List ℕ)
    → every v vs ≡ false
    → (x : ℕ) × (contains vs x ≡ true) × ((v == x) ≡ false)
every-false v [] h = cc
every-false v (x ∷ xs) h = elim (Bool-cases (x == v)) [
  | inr e ↦ (x, ground (arith, ==-self x), ground (arith, e, ==-eq v x, ==-self x))
  | inl e ↦ let (y, p, q) = every-false v xs (ground arith) in (y, ground arith, q)
]

-- The test that `log_crc` makes.
set_of-all_same : (v : ℕ) (vs : List ℕ) → (length (set_of (v ∷ vs)) == 1) ≡ all_same (v ∷ vs)
set_of-all_same v vs = elim (Bool-cases (every v vs)) [
  | inl e ↦ rw e (rw (set_of-uniform v vs (every-All v vs e)) refl)
  | inr e ↦
      let (x, p, q) = every-false v vs e in
      rw e (set_of-two (v ∷ vs) v x (ground (arith, ==-self v)) (ground (arith, p)) q)
]

-- What is logged of a round that is complete, by the count of good rounds with it.
abbrev pub verdict_lines : Bool → ℕ → Entry → ℕ → List LogLine
verdict_lines true tick entry rounds =
    if rounds % 4 == 0 then crc_ok_through tick rounds ∷ [] else []
verdict_lines false tick entry rounds = crc_mismatch tick (sorted_items entry) ∷ []

-- The table with these reports for a tick that it has nothing of.
abbrev pub with_slot : ℕ → List (ℕ × Entry) → Entry → List (ℕ × Entry)
with_slot tick table [] = table
with_slot tick table (e ∷ es) = table ++ (tick, e ∷ es) ∷ []

module _ (tick : ℕ) (table : List (ℕ × Entry)) (fresh : NatMap.lookup tick table ≡ none) where
  get_or-slot : (p : Entry) → NatMap.get_or tick [] (with_slot tick table p) ≡ p
  get_or-slot [] = rw (fresh, NatMap.get_or) refl
  get_or-slot (e ∷ es) = rw (lookup-last tick (e ∷ es) table fresh, NatMap.get_or) refl

  insert-slot :
      (p : Entry) (q : Entry)
      → NatMap.insert tick q (with_slot tick table p) ≡ table ++ (tick, q) ∷ []
  insert-slot [] q = insert_new tick q table fresh
  insert-slot (e ∷ es) q = insert-last tick (e ∷ es) q table fresh

  -- One more report, in a table that has room for the tick.
  report-slot :
      (seat crc : ℕ) (p : Entry)
      → NatMap.lookup seat p ≡ none
      → suc (length table) ≤ 64
      → report tick seat crc (with_slot tick table p)
        ≡ (p ++ (seat, crc) ∷ [], table ++ (tick, p ++ (seat, crc) ∷ []) ∷ [])
  unfolding report
  report-slot seat crc p new size = rw (get_or-slot p) (
      rw (insert_new seat crc p new)
        (rw (insert-slot p (p ++ (seat, crc) ∷ [])) (rw (small (p ++ (seat, crc) ∷ [])) refl)))
    where
      small : (q : Entry) → ltb 64 (length (table ++ (tick, q) ∷ [])) ≡ false
      small q = ground (arith, length-append table ((tick, q) ∷ []), size)

  with_slot-concat :
      (p : Entry) (e : ℕ × ℕ)
      → with_slot tick table (p ++ e ∷ []) ≡ table ++ (tick, p ++ e ∷ []) ∷ []
  with_slot-concat [] e = refl
  with_slot-concat (x ∷ p) e = refl

-- `log_round`, once the report is in.
abbrev log_with : ℕ → ℕ → Entry → List (ℕ × Entry) → World → World
log_with r tick entry table w =
    let logged = record w { crc = update w.crc r table } in
    if ltb (length entry) (length (w.members r)) then logged else close_round r tick entry logged

-- What a report does to its room and the log.
pub record Logged (r : ℕ) (members : ℕ → List ℕ) (v : World) (left : List (ℕ × Entry)) (count : ℕ)
    (log : List LogLine) : Type 0 where
  pub table : v.crc r ≡ left
  pub good : v.crc_ok r ≡ count
  pub lines : v.journal ≡ log
  pub same_members : v.members ≡ members

set_of-values :
    (p : Entry) (e : ℕ × ℕ)
    → (length (set_of (values (p ++ e ∷ []))) == 1) ≡ all_same (values (p ++ e ∷ []))
set_of-values [] e = set_of-all_same e.1 []
set_of-values (x ∷ p) e = set_of-all_same x.1 (values (p ++ e ∷ []))

journal_end :
    (b : Bool) (lines : List LogLine) (line : LogLine)
    → (if b then lines ++ line ∷ [] else lines) ≡ lines ++ (if b then line ∷ [] else [])
journal_end true lines line = refl
journal_end false lines line = append_nil lines

close_round-Logged :
    (b : Bool) (r tick : ℕ) (table : List (ℕ × Entry)) (entry : Entry) (u : World)
    → NatMap.lookup tick table ≡ none
    → u.crc r ≡ table ++ (tick, entry) ∷ []
    → (length (set_of (values entry)) == 1) ≡ b
    → Logged r u.members
        (close_round r tick entry u)
        table
        (if b then suc (u.crc_ok r) else u.crc_ok r)
        (u.journal ++ verdict_lines b tick entry (suc (u.crc_ok r)))
unfolding close_round
close_round-Logged true r tick table entry u fresh now e = rw e (record {
  table = rw (==-self r) (rw now (pop-last tick entry table fresh));
  good = rw (==-self r) refl;
  lines =
      journal_end (suc (u.crc_ok r) % 4 == 0) u.journal (crc_ok_through tick (suc (u.crc_ok r)));
  same_members = refl;
})
close_round-Logged false r tick table entry u fresh now e = rw e (record {
  table = rw (==-self r) (rw now (pop-last tick entry table fresh));
  good = refl;
  lines = refl;
  same_members = refl;
})

module _ (r tick seat crc : ℕ) (table : List (ℕ × Entry)) (p : Entry) (w : World)
    (fresh : NatMap.lookup tick table ≡ none) (new : NatMap.lookup seat p ≡ none)
    (size : suc (length table) ≤ 64) (now : w.crc r ≡ with_slot tick table p) where
  abbrev entry : Entry
  entry = p ++ (seat, crc) ∷ []

  reported : log_round r seat tick crc w ≡ log_with r tick entry (table ++ (tick, entry) ∷ []) w
  unfolding log_round
  reported =
      ap (λ (q : Entry × List (ℕ × Entry)). log_with r tick q.0 q.1 w)
        (ap (report tick seat crc) now ∙ report-slot tick table fresh seat crc p new size)

  -- The tick waits for more.
  pub log_round-more :
      length entry < length (w.members r)
      → Logged r w.members
          (log_round r seat tick crc w)
          (with_slot tick table entry)
          (w.crc_ok r)
          w.journal
  log_round-more h =
      let more : ltb (length entry) (length (w.members r)) ≡ true = ground (arith, h) in
      rw reported (
        rw more (record {
          table = rw (==-self r) (sym (with_slot-concat tick table fresh p (seat, crc)));
          good = refl;
          lines = refl;
          same_members = refl;
        }))

  -- The round is complete.
  pub log_round-done :
      length (w.members r) ≤ length entry
      → Logged r w.members
          (log_round r seat tick crc w)
          table
          (if all_same (values entry) then suc (w.crc_ok r) else w.crc_ok r)
          (w.journal ++ verdict_lines (all_same (values entry)) tick entry (suc (w.crc_ok r)))
  unfolding close_round
  log_round-done h =
      let done : ltb (length entry) (length (w.members r)) ≡ false = ground (arith, h) in
      rw reported (
        rw done (
          close_round-Logged (all_same (values entry)) r tick table entry
            (record w { crc = update w.crc r (table ++ (tick, entry) ∷ []) }) fresh
            (rw (==-self r) refl) (set_of-values p (seat, crc))))
