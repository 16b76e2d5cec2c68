-- ===== src/Relay/Rounds/Sorted.antt =====
-- The reports of a mismatch line: `sorted(entry.items())`.
use mathlib.Core.List.{Perm}
use mathlib.Core.List.Perm
use fujinet_intv_golf.Base.{
  ℕ, ◌≤◌, ◌≡◌, true, false, [], ◌∷◌, arith, ==-eq, All, Bool-cases, inl, inr,
}
use fujinet_intv_golf.Relay.Crc.{Entry, comes_before, insert_item, sorted_items}

-- Ascending seats.
abbrev pub InSeatOrder : Entry → Type 0
InSeatOrder [] = Unit
InSeatOrder (e ∷ es) = All (λ f. e.0 ≤ f.0) es × InSeatOrder es

insert_item-perm : (e : ℕ × ℕ) (l : Entry) → Perm (insert_item e l) (e ∷ l)
unfolding insert_item
insert_item-perm e [] = Perm.rfl
insert_item-perm e (f ∷ fs) = elim (Bool-cases (comes_before f e)) [
  | inl h ↦ rw h (Perm.trans (Perm.cons f (insert_item-perm e fs)) (Perm.swap e f fs))
  | inr h ↦ rw h Perm.rfl
]

-- The line has each report of the tick, once.
pub sorted_items-perm : (l : Entry) → Perm (sorted_items l) l
unfolding sorted_items
sorted_items-perm [] = Perm.rfl
sorted_items-perm (e ∷ es) =
    Perm.trans (insert_item-perm e (sorted_items es)) (Perm.cons e (sorted_items-perm es))

All-le : (m n : ℕ) (l : Entry) → m ≤ n → All (λ f. n ≤ f.0) l → All (λ (f : ℕ × ℕ). m ≤ f.0) l
All-le m n [] h a = tt
All-le m n (f ∷ fs) h a = (omega (arith, a.0), All-le m n fs h a.1)

All-insert_item :
    (m : ℕ) (e : ℕ × ℕ) (l : Entry)
    → m ≤ e.0
    → All (λ f. m ≤ f.0) l
    → All (λ (f : ℕ × ℕ). m ≤ f.0) (insert_item e l)
unfolding insert_item
All-insert_item m e [] h a = (h, tt)
All-insert_item m e (f ∷ fs) h a = elim (Bool-cases (comes_before f e)) [
  | inl g ↦ rw g (a.0, All-insert_item m e fs h a.1)
  | inr g ↦ rw g (h, a)
]

comes_before-le : (f e : ℕ × ℕ) → comes_before f e ≡ true → f.0 ≤ e.0
comes_before-le f e h = ground (arith, h, ==-eq f.0 e.0)

not_before-le : (f e : ℕ × ℕ) → comes_before f e ≡ false → e.0 ≤ f.0
not_before-le f e h = ground (arith, h)

insert_item-InSeatOrder : (e : ℕ × ℕ) (l : Entry) → InSeatOrder l → InSeatOrder (insert_item e l)
unfolding insert_item
insert_item-InSeatOrder e [] s = (tt, tt)
insert_item-InSeatOrder e (f ∷ fs) s = elim (Bool-cases (comes_before f e)) [
  | inl h ↦
      rw h (All-insert_item f.0 e fs (comes_before-le f e h) s.0, insert_item-InSeatOrder e fs s.1)
  | inr h ↦ let l = not_before-le f e h in rw h ((l, All-le e.0 f.0 fs l s.0), s)
]

-- And they ascend by seat.
pub sorted_items-InSeatOrder : (l : Entry) → InSeatOrder (sorted_items l)
unfolding sorted_items
sorted_items-InSeatOrder [] = tt
sorted_items-InSeatOrder (e ∷ es) =
    insert_item-InSeatOrder e (sorted_items es) (sorted_items-InSeatOrder es)
