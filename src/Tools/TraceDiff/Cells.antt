-- ===== src/Tools/TraceDiff/Cells.antt =====
-- About `settled`, next to tools/cell_diff.py.
use fujinet_intv_golf.Base.{
  ℕ, ◌≡◌, refl, ap, ◌∙◌, Bool, true, false, not, ◌&&◌, List, [], ◌∷◌, arith, ◌==◌, ==-eq, keep_if,
  contains, Bool-cases, inl, inr,
}
use fujinet_intv_golf.Tools.Dump.{Mem}
use fujinet_intv_golf.Tools.CellDiff.{common, differs, is_checksummed, cell_diff}
use fujinet_intv_golf.Tools.TraceDiff.{anim_field, in_settled_range, settled}

-- What a filter keeps.
contains-keep_if :
    (p : ℕ → Bool) (xs : List ℕ) (x : ℕ) → contains (keep_if p xs) x ≡ (p x && contains xs x)
contains-keep_if p [] x = ground arith
contains-keep_if p (y ∷ xs) x = elim (Bool-cases (x == y)) [
  | inl e ↦
      let same_test : p x ≡ p y = ap p (==-eq x y e) in
      ground (arith, contains-keep_if p xs x, same_test, e)
  | inr e ↦ ground (arith, contains-keep_if p xs x, e)
]

-- The ranges of the settled state are checksummed.
range_checksummed : (x : ℕ) → in_settled_range x ≡ true → is_checksummed x ≡ true
range_checksummed x h = ground (arith, h)

parts :
    (d anim range any : Bool)
    → (((d && not anim) && range) && any) ≡ true
    → (d ≡ true) × (range ≡ true) × (any ≡ true)
parts true false true true h = (refl, refl, refl)
parts true false true false h = absurd (cc)
parts true false false any h = absurd (cc)
parts true true range any h = absurd (cc)
parts false anim range any h = absurd (cc)

-- Each cell that the comparison of two runs reports as a difference of their settled state is among
-- the cells that tools/cell_diff.py lists for them.
pub settled-cell_diff :
    (a b : Mem) (x : ℕ) → contains (settled a b) x ≡ true → contains (cell_diff a b) x ≡ true
unfolding settled cell_diff
settled-cell_diff a b x h =
    let reported =
      contains-keep_if (λ x. (differs a b x && not (anim_field x)) && in_settled_range x)
        (common a b) x in
    let listed = contains-keep_if (λ x. differs a b x && is_checksummed x) (common a b) x in
    let (differing, range, shared) =
      parts (differs a b x) (anim_field x) (in_settled_range x) (contains (common a b) x)
        (rw reported at h) in
    let checksummed = range_checksummed x range in
    listed ∙ (rw (differing, checksummed, shared) refl)
