-- ===== src/Clients/Diff/Verdicts.antt =====
-- About `compare`: what a success means.
use mathlib.Core.List.{Perm}
use mathlib.Core.List.Perm
use fujinet_intv_golf.Base.{
  ℕ, ◌≡◌, ◌⊎◌, refl, sym, ap₂, subst, All, if◌then◌else◌, Bool, true, false, not, ◌&&◌, List, [],
  ◌∷◌, arith, ◌==◌, same, same-eq, Bool-cases, inl, inr,
}
use fujinet_intv_golf.Base.Texts.{codes}
use fujinet_intv_golf.Wire.{Text}
use fujinet_intv_golf.Clients.Diff.{
  before, insert_text, sorted_texts, same_texts, compare, all_pass, exit_status,
}

same_texts-eq : (ss ts : List Text) → same_texts ss ts ≡ true → ss ≡ ts
unfolding same_texts
same_texts-eq [] [] e = refl
same_texts-eq [] (t ∷ ts) e = absurd (cc)
same_texts-eq (s ∷ ss) [] e = absurd (cc)
same_texts-eq (s ∷ ss) (t ∷ ts) e =
    ap₂ ◌∷◌ (same-eq s t (ground (arith, e))) (same_texts-eq ss ts (ground (arith, e)))

insert_text-perm : (x : Text) (l : List Text) → Perm (insert_text x l) (x ∷ l)
unfolding insert_text
insert_text-perm x [] = Perm.rfl
insert_text-perm x (y ∷ ys) = elim (Bool-cases (before x y)) [
  | inl e ↦ rw e Perm.rfl
  | inr e ↦ rw e (Perm.trans (Perm.cons y (insert_text-perm x ys)) (Perm.swap x y ys))
]

sorted_texts-perm : (l : List Text) → Perm (sorted_texts l) l
unfolding sorted_texts
sorted_texts-perm [] = Perm.rfl
sorted_texts-perm (x ∷ xs) =
    Perm.trans (insert_text-perm x (sorted_texts xs)) (Perm.cons x (sorted_texts-perm xs))

sorted_texts-eq : (ss ts : List Text) → sorted_texts ss ≡ sorted_texts ts → Perm ss ts
sorted_texts-eq ss ts e =
    Perm.trans (Perm.symm (sorted_texts-perm ss))
      (subst (λ l. Perm l ts) (sym e) (sorted_texts-perm ts))

-- The records of a scenario match: up to their order for the connection limits, else exactly.
abbrev pub Matches : Bool → List Text → List Text → Type 0
Matches true py c = Perm py c
Matches false py c = py ≡ c

-- Or it is the scenario of framing under protocol 2, and the run is not strict.
abbrev pub Passed : ℕ → Bool → Text × List Text × List Text → Type 0
Passed proto strict (name, py, c) =
    Matches (same name (codes "limits")) py c
    ⊎ ((same name (codes "framing") && proto == 2) && not strict ≡ true)

allowed : (b strict : Bool) → (if b then not strict else false) ≡ true → (b && not strict) ≡ true
allowed true strict e = e
allowed false strict e = e

-- By the test for the scenario of the limits.
passed_if :
    (limits framing strict : Bool) (py c : List Text)
    → (if (if limits then same_texts (sorted_texts py) (sorted_texts c) else same_texts py c)
        then true
        else if framing
        then not strict
        else false)
      ≡ true
    → Matches limits py c ⊎ (framing && not strict ≡ true)
passed_if true framing strict py c h =
    elim (Bool-cases (same_texts (sorted_texts py) (sorted_texts c))) [
      | inl e ↦ inl (sorted_texts-eq py c (same_texts-eq (sorted_texts py) (sorted_texts c) e))
      | inr e ↦ inr (allowed framing strict (rw e at h))
    ]
passed_if false framing strict py c h = elim (Bool-cases (same_texts py c)) [
  | inl e ↦ inl (same_texts-eq py c e)
  | inr e ↦ inr (allowed framing strict (rw e at h))
]

all_pass-Passed :
    (proto : ℕ) (strict : Bool) (runs : List (Text × List Text × List Text))
    → all_pass proto strict runs ≡ true
    → All (Passed proto strict) runs
unfolding all_pass compare
all_pass-Passed proto strict [] h = tt
all_pass-Passed proto strict ((name, py, c) ∷ runs) h = (
  passed_if (same name (codes "limits")) (same name (codes "framing") && proto == 2) strict py c
      (ground (arith, h)),
  all_pass-Passed proto strict runs (ground (arith, h)),
)

-- When the program exits with 0, then for each scenario that was run the records of the two servers
-- are equal, for the scenario of the connection limits up to their order; but the scenario of
-- framing may differ in any way, under protocol 2 and without `strict`.
pub exit_status-Passed :
    (proto : ℕ) (strict : Bool) (runs : List (Text × List Text × List Text))
    → exit_status proto strict runs ≡ 0
    → All (Passed proto strict) runs
exit_status-Passed proto strict runs h = elim (Bool-cases (all_pass proto strict runs)) [
  | inl e ↦ all_pass-Passed proto strict runs e
  | inr e ↦ absurd (cc (rw e at h))
]
