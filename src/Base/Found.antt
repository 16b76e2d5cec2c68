-- ===== src/Base/Found.antt =====
-- The elements of a list, by their places.
use Prim.Native.Nat.{ℕ, zero, suc}
use mathlib.Core.Path.{◌≡◌}
use mathlib.Core.Logic.{◌⊎◌, inl, inr}
use mathlib.Core.Option.{some}
use mathlib.Core.List.{List, [], ◌∷◌, ◌++◌}
use fujinet_intv_golf.Base.Lists.{get_elem?}

-- Being found, at some place of a list.
abbrev pub Found {ℓ} : {A : Type ℓ} → A → List A → Type ℓ
Found x xs = (k : ℕ) × (get_elem? xs k ≡ some x)

pub Found-left {ℓ} : {A : Type ℓ} → (x : A) (xs ys : List A) → Found x xs → Found x (xs ++ ys)
Found-left x [] ys (k, e) = absurd (cc)
Found-left x (z ∷ xs) ys (zero, e) = (0, e)
Found-left x (z ∷ xs) ys (suc k, e) = let (n, f) = Found-left x xs ys (k, e) in (suc n, f)

pub Found-right {ℓ} : {A : Type ℓ} → (x : A) (xs ys : List A) → Found x ys → Found x (xs ++ ys)
Found-right x [] ys h = h
Found-right x (z ∷ xs) ys h = let (n, f) = Found-right x xs ys h in (suc n, f)

pub Found-append {ℓ} :
    {A : Type ℓ} → (x : A) (xs ys : List A) → Found x (xs ++ ys) → Found x xs ⊎ Found x ys
Found-append x [] ys h = inr h
Found-append x (z ∷ xs) ys (zero, e) = inl (0, e)
Found-append x (z ∷ xs) ys (suc k, e) = elim (Found-append x xs ys (k, e)) [
  | inl (n, f) ↦ inl (suc n, f)
  | inr h ↦ inr h
]

pub Found-single {ℓ} : {A : Type ℓ} → (x y : A) → Found x (y ∷ []) → x ≡ y
Found-single x y (zero, e) = cc
Found-single x y (suc k, e) = absurd (cc)
