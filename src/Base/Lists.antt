-- ===== src/Base/Lists.antt =====
-- Lists measured and indexed by native numbers, under the library's names.
use Prim.Native.Nat.{ℕ, zero, suc, ◌+◌, ◌-◌, ◌≤◌, ◌<◌, min}
use mathlib.Core.Path.{◌≡◌, refl, ap}
use mathlib.Core.Bool.{Bool, true, false, ◌||◌}
use mathlib.Core.Logic.{inl, inr}
use mathlib.Core.Option.{Option, none, some}
use mathlib.Core.List.{List, [], ◌∷◌, ◌++◌}
use native.Mathlib.Omega.{arith}
use fujinet_intv_golf.Base.Tests.{◌==◌, if◌then◌else◌, ==-eq, ==-self, Bool-cases}

module _ {ℓ} {A : Type ℓ} where
  abbrev pub length : List A → ℕ
  length [] = 0
  length (x ∷ xs) = suc (length xs)

  abbrev pub get_elem? : List A → ℕ → Option A
  get_elem? [] i = none
  get_elem? (x ∷ xs) zero = some x
  get_elem? (x ∷ xs) (suc i) = get_elem? xs i

  abbrev pub take : ℕ → List A → List A
  take zero xs = []
  take (suc n) [] = []
  take (suc n) (x ∷ xs) = x ∷ take n xs

  abbrev pub drop : ℕ → List A → List A
  drop zero xs = xs
  drop (suc n) [] = []
  drop (suc n) (x ∷ xs) = drop n xs

  abbrev pub replicate : ℕ → A → List A
  replicate zero a = []
  replicate (suc n) a = a ∷ replicate n a

  -- A comprehension with a Boolean test.
  abbrev pub keep_if : (A → Bool) → List A → List A
  keep_if p [] = []
  keep_if p (x ∷ xs) = if p x then x ∷ keep_if p xs else keep_if p xs

  abbrev pub is_empty : List A → Bool
  is_empty [] = true
  is_empty (x ∷ xs) = false

  abbrev pub All {κ} : (A → Type κ) → List A → Type κ
  All P [] = Unit
  All P (x ∷ xs) = P x × All P xs

module _ {ℓ} {A : Type ℓ} where
  pub append_nil : (xs : List A) → xs ≡ xs ++ []
  append_nil [] = refl
  append_nil (x ∷ xs) = ap (◌∷◌ x) (append_nil xs)

  pub concat_assoc : (xs ys zs : List A) → (xs ++ ys) ++ zs ≡ xs ++ (ys ++ zs)
  concat_assoc [] ys zs = refl
  concat_assoc (x ∷ xs) ys zs = ap (◌∷◌ x) (concat_assoc xs ys zs)

  pub length-append : (xs ys : List A) → length (xs ++ ys) ≡ length xs + length ys
  length-append [] ys = omega arith
  length-append (x ∷ xs) ys = omega (arith, length-append xs ys)

  pub length-take : (n : ℕ) (xs : List A) → length (take n xs) ≡ min n (length xs)
  length-take zero xs = omega arith
  length-take (suc n) [] = omega arith
  length-take (suc n) (x ∷ xs) = omega (arith, length-take n xs)

  pub length-drop : (n : ℕ) (xs : List A) → length (drop n xs) ≡ length xs - n
  length-drop zero xs = omega arith
  length-drop (suc n) [] = omega arith
  length-drop (suc n) (x ∷ xs) = omega (arith, length-drop n xs)

  pub length-replicate : (n : ℕ) (a : A) → length (replicate n a) ≡ n
  length-replicate zero a = refl
  length-replicate (suc n) a = ap suc (length-replicate n a)

  pub take-append-drop : (n : ℕ) (xs : List A) → take n xs ++ drop n xs ≡ xs
  take-append-drop zero xs = refl
  take-append-drop (suc n) [] = refl
  take-append-drop (suc n) (x ∷ xs) = ap (◌∷◌ x) (take-append-drop n xs)

  pub take-append_self : (xs ys : List A) → take (length xs) (xs ++ ys) ≡ xs
  take-append_self [] ys = refl
  take-append_self (x ∷ xs) ys = ap (◌∷◌ x) (take-append_self xs ys)

  pub drop-append_self : (xs ys : List A) → drop (length xs) (xs ++ ys) ≡ ys
  drop-append_self [] ys = refl
  drop-append_self (x ∷ xs) ys = drop-append_self xs ys

  pub length-keep_if-le : (p : A → Bool) (xs : List A) → length (keep_if p xs) ≤ length xs
  length-keep_if-le p [] = omega arith
  length-keep_if-le p (x ∷ xs) = ground (arith, length-keep_if-le p xs)

  pub get_elem?-ge : (xs : List A) (i : ℕ) → length xs ≤ i → get_elem? xs i ≡ none
  get_elem?-ge [] i h = refl
  get_elem?-ge (x ∷ xs) zero h = absurd (omega arith)
  get_elem?-ge (x ∷ xs) (suc i) h = get_elem?-ge xs i (omega arith)

-- Membership of a number, removal of its first occurrence, its position.
abbrev pub contains : List ℕ → ℕ → Bool
contains [] a = false
contains (x ∷ xs) a = a == x || contains xs a

abbrev pub erase : ℕ → List ℕ → List ℕ
erase a [] = []
erase a (x ∷ xs) = if a == x then xs else x ∷ erase a xs

abbrev pub index_of? : ℕ → List ℕ → Option ℕ
index_of? a [] = none
index_of? a (x ∷ xs) =
    if a == x then some 0 else elim (index_of? a xs) [ none ↦ none | some i ↦ some (suc i) ]

abbrev pub AllDistinct : List ℕ → Type 0
AllDistinct [] = Unit
AllDistinct (x ∷ xs) = (contains xs x ≡ false) × AllDistinct xs

pub contains-erase_self : (a : ℕ) (xs : List ℕ) → AllDistinct xs → contains (erase a xs) a ≡ false
contains-erase_self a [] d = refl
contains-erase_self a (x ∷ xs) d = ground (arith, contains-erase_self a xs d.1, ==-eq a x)

pub contains-erase_ne :
    (a b : ℕ) (xs : List ℕ) → (a == b) ≡ false → contains (erase b xs) a ≡ contains xs a
contains-erase_ne a b [] h = refl
contains-erase_ne a b (x ∷ xs) h = ground (arith, contains-erase_ne a b xs h)

pub contains_of-erase :
    (a b : ℕ) (xs : List ℕ) → contains (erase b xs) a ≡ true → contains xs a ≡ true
contains_of-erase a b [] h = h
contains_of-erase a b (x ∷ xs) h = ground (arith, contains_of-erase a b xs)

pub erase-AllDistinct : (a : ℕ) (xs : List ℕ) → AllDistinct xs → AllDistinct (erase a xs)
erase-AllDistinct a [] d = tt
erase-AllDistinct a (x ∷ xs) d =
    ground (arith, erase-AllDistinct a xs d.1, contains_of-erase x a xs)

pub length-erase :
    (a : ℕ) (xs : List ℕ) → contains xs a ≡ true → suc (length (erase a xs)) ≡ length xs
length-erase a [] h = cc
length-erase a (x ∷ xs) h = ground (arith, length-erase a xs)

pub length-erase-le : (a : ℕ) (xs : List ℕ) → length (erase a xs) ≤ length xs
length-erase-le a [] = omega arith
length-erase-le a (x ∷ xs) = ground (arith, length-erase-le a xs)

pub contains-concat :
    (a b : ℕ) (xs : List ℕ) → contains (xs ++ b ∷ []) a ≡ (contains xs a || a == b)
contains-concat a b [] = ground arith
contains-concat a b (x ∷ xs) = ground (arith, contains-concat a b xs)

pub concat-AllDistinct :
    (b : ℕ) (xs : List ℕ) → contains xs b ≡ false → AllDistinct xs → AllDistinct (xs ++ b ∷ [])
concat-AllDistinct b [] h d = (refl, tt)
concat-AllDistinct b (x ∷ xs) h d =
    ground (arith, concat-AllDistinct b xs, contains-concat x b xs, d)

pub index_of?_lem :
    (a : ℕ) (xs : List ℕ)
    → contains xs a ≡ true
    → (i : ℕ) × (index_of? a xs ≡ some i) × (i < length xs) × (get_elem? xs i ≡ some a)
index_of?_lem a [] h = cc
index_of?_lem a (x ∷ xs) h = elim (Bool-cases (a == x)) [
  | inl e ↦ (0, ground arith, omega arith, ground (arith, ==-eq a x))
  | inr e ↦
      let (i, p, q, r) = index_of?_lem a xs (ground arith) in
      (suc i, ground arith, omega arith, ground arith)
]

pub contains_of-get_elem? : (xs : List ℕ) (i m : ℕ) → get_elem? xs i ≡ some m → contains xs m ≡ true
contains_of-get_elem? [] i m e = absurd (cc)
contains_of-get_elem? (x ∷ xs) zero m e = ground (arith, e, ==-self m)
contains_of-get_elem? (x ∷ xs) (suc i) m e = ground (arith, contains_of-get_elem? xs i m e)

-- The place of an element that occurs once.
pub index_of?-get_elem? :
    (xs : List ℕ) (i a : ℕ) → AllDistinct xs → get_elem? xs i ≡ some a → index_of? a xs ≡ some i
index_of?-get_elem? [] i a d e = absurd (cc)
index_of?-get_elem? (x ∷ xs) zero a d e = ground (arith, e, ==-self a)
index_of?-get_elem? (x ∷ xs) (suc i) a d e =
    ground (arith, e, d.0, index_of?-get_elem? xs i a d.1, contains_of-get_elem? xs i a, ==-eq a x)

-- One element more is taken.
pub contains-take-suc :
    (xs : List ℕ) (i m a : ℕ)
    → get_elem? xs i ≡ some m
    → contains (take (suc i) xs) a ≡ (contains (take i xs) a || a == m)
contains-take-suc [] i m a e = absurd (cc)
contains-take-suc (x ∷ xs) zero m a e = ground (arith, e)
contains-take-suc (x ∷ xs) (suc i) m a e = ground (arith, contains-take-suc xs i m a e)

-- An element is not among those before it.
pub contains-take_fresh :
    (xs : List ℕ) (i m : ℕ)
    → AllDistinct xs
    → get_elem? xs i ≡ some m
    → contains (take i xs) m ≡ false
contains-take_fresh [] i m d e = absurd (cc)
contains-take_fresh (x ∷ xs) zero m d e = refl
contains-take_fresh (x ∷ xs) (suc i) m d e =
    ground (arith, contains-take_fresh xs i m d.1 e, contains_of-get_elem? xs i m e, d.0, ==-eq m x)

-- Past the end, all is taken.
pub take_all : (xs : List ℕ) (i : ℕ) → get_elem? xs i ≡ none → take i xs ≡ xs
take_all [] zero e = refl
take_all [] (suc i) e = refl
take_all (x ∷ xs) zero e = absurd (cc)
take_all (x ∷ xs) (suc i) e = ap (◌∷◌ x) (take_all xs i e)
