-- ===== src/Tools/TraceDiff/Ring.antt =====
-- About `trace_diff`: the ticks that are named, and a scan that finds nothing.
use fujinet_intv_golf.Base.{
  ℕ, zero, suc, ◌+◌, ◌*◌, ◌/◌, ◌%◌, ◌≤◌, ◌<◌, ◌≡◌, ◌⊎◌, refl, subst, false, not, ◌||◌, List, [],
  ◌∷◌, Option, none, some, arith, leb, ◌==◌, ==-eq, Bool-cases, inl, inr,
}
use fujinet_intv_golf.Base.Int.{pos, ◌+ℤ◌}
use fujinet_intv_golf.Tools.Dump.{Mem}
use fujinet_intv_golf.Tools.TraceDiff.{
  pair_at, has_cell, slot_tick, Mismatch, ring_addr, compare_sums, scan_slot, add_round, scan_slots,
}

-- For a slot below 256, the tick that is named for it, 256 added, has the slot as its low byte, and
-- lies between the tick at which the run parked and 255 more: so the ring's ticks are the last 256
-- before the park, and each slot names the one that it was written at.
pub slot_tick_range :
    (tick slot : ℕ)
    → slot < 256
    → (n : ℕ) × (slot_tick tick slot +ℤ pos 256 ≡ pos n)
      × (n % 256 ≡ slot)
      × (tick ≤ n)
      × (n < tick + 256)
unfolding slot_tick
slot_tick_range tick slot h = elim (Bool-cases (leb (tick % 256) slot)) [
  | inl e ↦ (tick / 256 * 256 + slot, rw e (ground arith), omega arith, ground arith, omega arith)
  | inr e ↦
      (tick / 256 * 256 + slot + 256, rw e (ground arith), omega arith, omega arith, ground arith)
]

-- A slot of the ring: both runs have it, with one checksum; or one lacks it, and that is counted.
abbrev pub SlotAgrees : Mem → Mem → ℕ → ℕ → Type 0
SlotAgrees a b slot missing =
    ((sum : ℕ) × (pair_at (ring_addr slot) a ≡ some sum) × (pair_at (ring_addr slot) b ≡ some sum))
    ⊎ ((0 < missing)
        × ((has_cell (ring_addr slot) a ≡ false) ⊎ (has_cell (ring_addr slot) b ≡ false)))

SlotAgrees-mono : (a b : Mem) (slot m n : ℕ) → m ≤ n → SlotAgrees a b slot m → SlotAgrees a b slot n
SlotAgrees-mono a b slot m n h (inl agrees) = inl agrees
SlotAgrees-mono a b slot m n h (inr (counted, lacks)) = inr (omega arith, lacks)

both_clean :
    (o r : Option (ℕ × List Mismatch)) (missing : ℕ)
    → add_round o r ≡ some (missing, [])
    → (m n : ℕ) × (o ≡ some (m, [])) × (r ≡ some (n, [])) × (missing ≡ m + n)
unfolding add_round
both_clean none r missing e = absurd (cc)
both_clean (some _) none missing e = absurd (cc)
both_clean (some (m, [])) (some (n, [])) missing e = (m, n, refl, refl, cc)
both_clean (some (m, [])) (some (n, y ∷ ys)) missing e = absurd (cc)
both_clean (some (m, x ∷ xs)) (some (n, ys)) missing e = absurd (cc)

compare_sums_clean :
    (tick slot missing : ℕ) (o r : Option ℕ)
    → compare_sums tick slot o r ≡ some (missing, [])
    → (sum : ℕ) × (o ≡ some sum) × (r ≡ some sum)
unfolding compare_sums
compare_sums_clean tick slot missing none r e = absurd (cc)
compare_sums_clean tick slot missing (some ca) none e = absurd (cc)
compare_sums_clean tick slot missing (some ca) (some cb) e =
    (ca, refl, ground (arith, e, ==-eq ca cb))

scan_slot-SlotAgrees :
    (a b : Mem) (tick slot missing : ℕ)
    → scan_slot a b tick slot ≡ some (missing, [])
    → SlotAgrees a b slot missing
unfolding scan_slot
scan_slot-SlotAgrees a b tick slot missing e =
    elim (Bool-cases (not (has_cell (ring_addr slot) a) || not (has_cell (ring_addr slot) b))) [
      | inr f ↦ inl (
          compare_sums_clean tick slot missing (pair_at (ring_addr slot) a)
            (pair_at (ring_addr slot) b) (rw (f, scan_slot) at e))
      | inl f ↦
          let one_more : 1 ≡ missing = cc (rw (f, scan_slot) at e) in
          inr (
            omega arith,
            elim (Bool-cases (has_cell (ring_addr slot) a)) [
              | inr g ↦ inl g
              | inl g ↦ inr (ground (arith, f, g))
            ],
          )
    ]

pub scan_slots-SlotAgrees :
    (a b : Mem) (tick n start slot missing : ℕ)
    → scan_slots a b tick n start ≡ some (missing, [])
    → start ≤ slot
    → slot < start + n
    → SlotAgrees a b slot missing
unfolding scan_slots
scan_slots-SlotAgrees a b tick zero start slot missing e lo hi = absurd (omega arith)
scan_slots-SlotAgrees a b tick (suc n) start slot missing e lo hi =
    let (k, m, here, rest, total) =
      both_clean (scan_slot a b tick start) (scan_slots a b tick n (suc start)) missing e in
    elim (Bool-cases (start == slot)) [
      | inl f ↦ SlotAgrees-mono a b slot k missing (omega (arith, total)) (
          subst (λ s. SlotAgrees a b s k) (==-eq start slot f)
            (scan_slot-SlotAgrees a b tick start k here))
      | inr f ↦
          SlotAgrees-mono a b slot m missing (omega (arith, total))
            (scan_slots-SlotAgrees a b tick n (suc start) slot m rest (ground arith) (omega arith))
    ]
