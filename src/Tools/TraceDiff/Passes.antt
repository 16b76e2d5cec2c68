-- ===== src/Tools/TraceDiff/Passes.antt =====
-- About `trace_diff`: what a pass means, and a run against itself.
use fujinet_intv_golf.Base.{
  ℕ, zero, suc, ◌+◌, ◌<◌, ◌≡◌, ◌⊎◌, refl, sym, ap, ap₂, ◌∙◌, Bool, false, not, ◌&&◌, ◌||◌, List, [],
  ◌∷◌, Option, none, some, arith, ◌==◌, ==-eq, ==-self, keep_if, Bool-cases, Option-cases, inl, inr,
}
use fujinet_intv_golf.Base.NatMap
use fujinet_intv_golf.Tools.Dump.{Mem}
use fujinet_intv_golf.Tools.CellDiff.{common, unequal, differs}
use fujinet_intv_golf.Tools.TraceDiff.{
  pair_at, has_cell, Mismatch, ring_addr, compare_sums, scan_slot, add_round, scan_slots,
  anim_field, in_settled_range, settled, Verdict, no_park_dump, key_error, determinism_pass,
  conclude, compare_rings, compare_parks, trace_diff,
}
use fujinet_intv_golf.Tools.TraceDiff.Ring.{SlotAgrees, scan_slots-SlotAgrees}

-- No mismatch so far: a KeyError, or a count of missing slots.
abbrev IsClean : Option (ℕ × List Mismatch) → Type 0
IsClean o = (o ≡ none) ⊎ ((missing : ℕ) × (o ≡ some (missing, [])))

add_round-IsClean :
    (o r : Option (ℕ × List Mismatch)) → IsClean o → IsClean r → IsClean (add_round o r)
unfolding add_round
add_round-IsClean o r (inl e) s = inl (rw (e, add_round) refl)
add_round-IsClean o r (inr (m, e)) (inl f) = inl (rw (e, add_round) (rw (f, add_round) refl))
add_round-IsClean o r (inr (m, e)) (inr (n, f)) =
    inr (m + n, rw (e, add_round) (rw (f, add_round) refl))

compare_sums_self : (tick slot : ℕ) (o : Option ℕ) → IsClean (compare_sums tick slot o o)
unfolding compare_sums
compare_sums_self tick slot none = inl refl
compare_sums_self tick slot (some sum) = inr (0, rw (==-self sum) refl)

-- The scan of a run against itself finds no mismatch.
scan_slots_self : (a : Mem) (tick n start : ℕ) → IsClean (scan_slots a a tick n start)
unfolding scan_slots scan_slot
scan_slots_self a tick zero start = inr (0, refl)
scan_slots_self a tick (suc n) start =
    add_round-IsClean (scan_slot a a tick start) (scan_slots a a tick n (suc start))
      (elim (Bool-cases
        (not (has_cell (ring_addr start) a) || not (has_cell (ring_addr start) a))) [
          | inl f ↦ rw (f, scan_slot) (inr (1, refl))
          | inr f ↦ rw (f, scan_slot) (compare_sums_self tick start (pair_at (ring_addr start) a))
        ])
      (scan_slots_self a tick n (suc start))

unequal_self : (o : Option ℕ) → unequal o o ≡ false
unfolding unequal
unequal_self none = refl
unequal_self (some v) = ap not (==-self v)

differs_self : (a : Mem) (x : ℕ) → differs a a x ≡ false
unfolding differs
differs_self a x = unequal_self (NatMap.lookup x a)

keep_if_none :
    {A : Type 0} → (p : A → Bool) → ((x : A) → p x ≡ false) → (xs : List A) → keep_if p xs ≡ []
keep_if_none p h [] = refl
keep_if_none p h (x ∷ xs) = rw (h x) (keep_if_none p h xs)

settled_self : (a : Mem) → settled a a ≡ []
unfolding settled
settled_self a =
    keep_if_none (λ x. (differs a a x && not (anim_field x)) && in_settled_range x)
      (λ x. rw (differs_self a x) refl) (common a a)

-- Nothing was found wrong: there was too little to compare, or it is all the same.
abbrev IsFine : Verdict → Type 0
IsFine v = (v ≡ no_park_dump) ⊎ (v ≡ key_error) ⊎ ((missing : ℕ) × (v ≡ determinism_pass missing))

compare_rings_self : (a : Mem) (tick : ℕ) → IsFine (compare_rings a a tick tick)
unfolding compare_rings conclude
compare_rings_self a tick = elim (scan_slots_self a tick 256 0) [
  | inl e ↦ inr (inl (rw (==-self tick) (rw (e, compare_rings) refl)))
  | inr (m, e) ↦ inr (inr (m, rw (==-self tick) (rw (e, compare_rings) (rw (settled_self a) refl))))
]

compare_parks_self : (a : Mem) (o : Option ℕ) → IsFine (compare_parks a a o o)
unfolding compare_parks
compare_parks_self a none = inr (inl refl)
compare_parks_self a (some tick) = compare_rings_self a tick

-- A run compared with itself never fails: the verdict is that its dumps lack the tick, or a cell, or
-- else a pass.
pub trace_diff_self :
    (a : Mem)
    → (trace_diff a a ≡ no_park_dump)
      ⊎ (trace_diff a a ≡ key_error)
      ⊎ ((missing : ℕ) × (trace_diff a a ≡ determinism_pass missing))
unfolding trace_diff
trace_diff_self a = elim (Bool-cases (not (has_cell 0x8108 a) || not (has_cell 0x8108 a))) [
  | inl e ↦ inl (rw (e, trace_diff) refl)
  | inr e ↦ rw (e, trace_diff) (compare_parks_self a (pair_at 0x8108 a))
]

-- A pass comes from a scan without mismatches and a state without differences.
conclude_pass :
    (xs : List ℕ) (missing n : ℕ) (ms : List Mismatch)
    → conclude xs missing ms ≡ determinism_pass n
    → (xs ≡ []) × (missing ≡ n) × (ms ≡ [])
unfolding conclude
conclude_pass (x ∷ xs) missing n ms e = absurd (cc)
conclude_pass [] missing n (m ∷ ms) e = absurd (cc)
conclude_pass [] missing n [] e = (refl, cc, refl)

compare_rings_pass :
    (a b : Mem) (tick_a tick_b slot missing : ℕ)
    → compare_rings a b tick_a tick_b ≡ determinism_pass missing
    → slot < 256
    → (tick_a ≡ tick_b) × SlotAgrees a b slot missing × (settled a b ≡ [])
unfolding compare_rings
compare_rings_pass a b tick_a tick_b slot missing e h = elim (Bool-cases (tick_a == tick_b)) [
  | inr f ↦ absurd (ground (arith, rw (f, compare_rings) at e))
  | inl f ↦ elim (Option-cases (scan_slots a b tick_a 256 0)) [
    | inl g ↦ absurd (ground (arith, rw (g, compare_rings) at rw (f, compare_rings) at e))
    | inr ((m, ms), g) ↦
        let (none_left, same_missing, none_bad) =
          conclude_pass (settled a b) m missing ms
            (rw (g, compare_rings) at rw (f, compare_rings) at e) in
        (
          ==-eq tick_a tick_b f,
          scan_slots-SlotAgrees a b tick_a 256 0 slot missing
              (g ∙ ap (λ p. some p) (ap₂ (λ x y. (x, y)) same_missing none_bad)) (omega arith)
              (omega (arith, h)),
          none_left,
        )
  ]
]

compare_parks_pass :
    (a b : Mem) (o r : Option ℕ) (slot missing : ℕ)
    → compare_parks a b o r ≡ determinism_pass missing
    → slot < 256
    → (tick : ℕ) × (o ≡ some tick)
      × (r ≡ some tick)
      × SlotAgrees a b slot missing
      × (settled a b ≡ [])
unfolding compare_parks
compare_parks_pass a b none r slot missing e h = absurd (cc)
compare_parks_pass a b (some tick_a) none slot missing e h = absurd (cc)
compare_parks_pass a b (some tick_a) (some tick_b) slot missing e h =
    let (same_tick, agrees, none_left) = compare_rings_pass a b tick_a tick_b slot missing e h in
    (tick_a, refl, ap some (sym same_tick), agrees, none_left)

-- If two runs pass with some number of missing slots, then both parked at one tick, no cell of the
-- settled state differs, and for each of the 256 slots of the ring either both runs have one checksum
-- there, or one of them lacks the slot and the number is not 0.
pub trace_diff_pass :
    (a b : Mem) (slot missing : ℕ)
    → trace_diff a b ≡ determinism_pass missing
    → slot < 256
    → (tick : ℕ) × (pair_at 0x8108 a ≡ some tick)
      × (pair_at 0x8108 b ≡ some tick)
      × SlotAgrees a b slot missing
      × (settled a b ≡ [])
unfolding trace_diff
trace_diff_pass a b slot missing e h =
    elim (Bool-cases (not (has_cell 0x8108 a) || not (has_cell 0x8108 b))) [
      | inl f ↦ absurd (ground (arith, rw (f, trace_diff) at e))
      | inr f ↦
          compare_parks_pass a b (pair_at 0x8108 a) (pair_at 0x8108 b) slot missing
            (rw (f, trace_diff) at e) h
    ]
