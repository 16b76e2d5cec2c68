-- ===== src/Tools/TraceDiff.antt =====
-- `main` of tools/crc_trace_diff.py: the checksums of two runs, tick by tick, and their state at the
-- end.
pub mod Ring
pub mod Passes
pub mod Cells
use fujinet_intv_golf.Base.{
  ℕ, zero, suc, ◌+◌, ◌*◌, ◌-◌, ◌/◌, ◌%◌, ◌≤◌, ◌<◌, ◌≡◌, refl, bit_or, Bool, true, false, not, ◌&&◌,
  ◌||◌, List, [], ◌∷◌, ◌++◌, Option, none, some, arith, ltb, leb, ◌==◌, if◌then◌else◌, keep_if,
  is_empty,
}
use fujinet_intv_golf.Base.Int.{ℤ, pos, sub_ℕ, ltb_ℤ}
use fujinet_intv_golf.Base.NatMap
use fujinet_intv_golf.Tools.Dump.{Mem}
use fujinet_intv_golf.Tools.CellDiff.{common, differs}

-- `mem[a] | (mem[a + 1] << 8)`, where a missing cell raises KeyError.
unfoldable pub pair_at : ℕ → Mem → Option ℕ
pair_at addr mem = elim (NatMap.lookup addr mem) [
  | none ↦ none
  | some lo ↦ elim (NatMap.lookup (suc addr) mem) [
    | none ↦ none
    | some hi ↦ some (bit_or lo (hi * 256))
  ]
]

abbrev pub has_cell : ℕ → Mem → Bool
has_cell addr mem = elim (NatMap.lookup addr mem) [ none ↦ false | some _ ↦ true ]

-- The tick whose checksum a slot of the ring holds, for a run that parked at a tick. `t & ~0xFF` is
-- `t / 256 * 256`.
unfoldable pub slot_tick : ℕ → ℕ → ℤ
slot_tick tick slot =
    if leb (tick % 256) slot
    then sub_ℕ (tick / 256 * 256 + slot) 0x100
    else pos (tick / 256 * 256 + slot)

pub record Mismatch : Type 0 where
  pub tick : ℤ
  pub slot : ℕ
  pub sum_a : ℕ
  pub sum_b : ℕ

abbrev pub ring_addr : ℕ → ℕ
ring_addr slot = 0x9000 + slot * 2

-- What one round of the loop adds to the count of missing slots and to the mismatches, for the sums
-- of both runs.
unfoldable pub compare_sums : ℕ → ℕ → Option ℕ → Option ℕ → Option (ℕ × List Mismatch)
unfolding slot_tick
compare_sums tick slot none sum_b = none
compare_sums tick slot (some ca) none = none
compare_sums tick slot (some ca) (some cb) = some (
  0,
  if ca == cb
      then []
      else record { tick = slot_tick tick slot; slot = slot; sum_a = ca; sum_b = cb } ∷ [],
)

unfoldable pub scan_slot : Mem → Mem → ℕ → ℕ → Option (ℕ × List Mismatch)
unfolding compare_sums pair_at
scan_slot a b tick slot =
    if not (has_cell (ring_addr slot) a) || not (has_cell (ring_addr slot) b)
    then some (1, [])
    else compare_sums tick slot (pair_at (ring_addr slot) a) (pair_at (ring_addr slot) b)

-- A round and the rounds after it; none is a KeyError.
unfoldable pub add_round :
    Option (ℕ × List Mismatch) → Option (ℕ × List Mismatch) → Option (ℕ × List Mismatch)
add_round none rest = none
add_round (some _) none = none
add_round (some (m, xs)) (some (n, ys)) = some (m + n, xs ++ ys)

-- So many slots, from one on.
unfoldable pub scan_slots : Mem → Mem → ℕ → ℕ → ℕ → Option (ℕ × List Mismatch)
unfolding scan_slot add_round
scan_slots a b tick zero slot = some (0, [])
scan_slots a b tick (suc n) slot =
    add_round (scan_slot a b tick slot) (scan_slots a b tick n (suc slot))

-- A frame counter of an object, which runs with real frames.
abbrev pub anim_field : ℕ → Bool
anim_field x = (leb 0x031D x && ltb x 0x035D) && (x - 0x031D) % 8 == 5

abbrev pub in_settled_range : ℕ → Bool
in_settled_range x = (leb 0x015D x && ltb x 0x01F0) || (leb 0x0315 x && ltb x 0x035E)

unfoldable pub settled : Mem → Mem → List ℕ
settled a b =
    keep_if (λ x. (differs a b x && not (anim_field x)) && in_settled_range x) (common a b)

-- `min(mismatches)[0]`
unfoldable pub first_tick : ℤ → List Mismatch → ℤ
first_tick t [] = t
first_tick t (m ∷ ms) = first_tick (if ltb_ℤ m.tick t then m.tick else t) ms

pub data Verdict : Type 0 where
  no_park_dump key_error park_mismatch : Verdict
  settled_fail : List ℕ → Verdict
  determinism_fail : ℤ → List Mismatch → Verdict
  determinism_pass : ℕ → Verdict

-- What is said once the slots have been compared.
unfoldable pub conclude : List ℕ → ℕ → List Mismatch → Verdict
unfolding first_tick
conclude (x ∷ xs) missing ms = settled_fail (x ∷ xs)
conclude [] missing (m ∷ ms) = determinism_fail (first_tick m.tick ms) (m ∷ ms)
conclude [] missing [] = determinism_pass missing

-- With the ticks at which the runs parked.
unfoldable pub compare_rings : Mem → Mem → ℕ → ℕ → Verdict
unfolding scan_slots settled conclude
compare_rings a b tick_a tick_b =
    if not (tick_a == tick_b) then park_mismatch else elim (scan_slots a b tick_a 256 0) [
      | none ↦ key_error
      | some (missing, ms) ↦ conclude (settled a b) missing ms
    ]

unfoldable pub compare_parks : Mem → Mem → Option ℕ → Option ℕ → Verdict
unfolding compare_rings
compare_parks a b none o = key_error
compare_parks a b (some tick_a) none = key_error
compare_parks a b (some tick_a) (some tick_b) = compare_rings a b tick_a tick_b

unfoldable pub trace_diff : Mem → Mem → Verdict
unfolding compare_parks
trace_diff a b =
    if not (has_cell 0x8108 a) || not (has_cell 0x8108 b)
    then no_park_dump
    else compare_parks a b (pair_at 0x8108 a) (pair_at 0x8108 b)
