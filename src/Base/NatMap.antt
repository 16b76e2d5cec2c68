-- ===== src/Base/NatMap.antt =====
-- Python dicts keyed by numbers, in insertion order.
use Prim.Native.Nat.{ℕ, suc, ◌≤◌, ◌<◌}
use mathlib.Core.Path.{◌≡◌, refl, ap}
use mathlib.Core.Logic.{◌⊎◌, inl, inr}
use mathlib.Core.Bool.{false}
use mathlib.Core.Option.{Option, none, some}
use mathlib.Core.List.{List, [], ◌∷◌, ◌++◌}
use native.Mathlib.Omega.{arith}
use fujinet_intv_golf.Base.Tests.{◌==◌, ==-self, leb, if◌then◌else◌, Bool-cases}
use fujinet_intv_golf.Base.Lists.{length}

module _ {ℓ} {V : Type ℓ} where
  -- `d.get(k)`
  unfoldable pub lookup : ℕ → List (ℕ × V) → Option V
  lookup k [] = none
  lookup k ((j, v) ∷ d) = if j == k then some v else lookup k d

  -- `d.get(k, v)`, and what `d.setdefault(k, v)` returns
  abbrev pub get_or : ℕ → V → List (ℕ × V) → V
  get_or k v d = elim (lookup k d) [ none ↦ v | some w ↦ w ]

  -- `d[k] = v`: an existing key keeps its place.
  unfoldable pub insert : ℕ → V → List (ℕ × V) → List (ℕ × V)
  insert k v [] = (k, v) ∷ []
  insert k v ((j, w) ∷ d) = if j == k then (k, v) ∷ d else (j, w) ∷ insert k v d

  -- `d.pop(k, None)`
  unfoldable pub pop : ℕ → List (ℕ × V) → List (ℕ × V)
  pop k [] = []
  pop k ((j, v) ∷ d) = if j == k then d else (j, v) ∷ pop k d

  -- `min(d)`
  unfoldable pub min_from : ℕ → List (ℕ × V) → ℕ
  min_from j [] = j
  min_from j ((i, v) ∷ d) = min_from (if leb j i then j else i) d

  unfoldable pub min_key : List (ℕ × V) → ℕ
  unfolding min_from
  min_key [] = 0
  min_key ((j, v) ∷ d) = min_from j d

  pub lookup-insert :
      (k j : ℕ) (v : V) (d : List (ℕ × V))
      → lookup j (insert k v d) ≡ (if k == j then some v else lookup j d)
  unfolding lookup insert
  lookup-insert k j v [] = refl
  lookup-insert k j v ((i, w) ∷ d) = ground (arith, lookup-insert k j v d)

  pub length-insert-le : (k : ℕ) (v : V) (d : List (ℕ × V)) → length (insert k v d) ≤ suc (length d)
  unfolding insert
  length-insert-le k v [] = omega arith
  length-insert-le k v ((i, w) ∷ d) = ground (arith, length-insert-le k v d)

  pub length-insert_old :
      (k : ℕ) (u v : V) (d : List (ℕ × V)) → lookup k d ≡ some u → length (insert k v d) ≡ length d
  unfolding lookup insert
  length-insert_old k u v [] e = cc
  length-insert_old k u v ((i, w) ∷ d) e = ground (arith, length-insert_old k u v d)

  pub length-insert_new :
      (k : ℕ) (v : V) (d : List (ℕ × V))
      → lookup k d ≡ none
      → length (insert k v d) ≡ suc (length d)
  unfolding lookup insert
  length-insert_new k v [] e = refl
  length-insert_new k v ((i, w) ∷ d) e = ground (arith, length-insert_new k v d)

  pub length-pop-le : (k : ℕ) (d : List (ℕ × V)) → length (pop k d) ≤ length d
  unfolding pop
  length-pop-le k [] = omega arith
  length-pop-le k ((i, w) ∷ d) = ground (arith, length-pop-le k d)

  pub length-pop_old :
      (k : ℕ) (u : V) (d : List (ℕ × V)) → lookup k d ≡ some u → suc (length (pop k d)) ≡ length d
  unfolding lookup pop
  length-pop_old k u [] e = cc
  length-pop_old k u ((i, w) ∷ d) e = ground (arith, length-pop_old k u d)

  pub lookup-pop_ne :
      (k j : ℕ) (d : List (ℕ × V)) → (k == j) ≡ false → lookup j (pop k d) ≡ lookup j d
  unfolding lookup pop
  lookup-pop_ne k j [] e = refl
  lookup-pop_ne k j ((i, w) ∷ d) e = ground (arith, lookup-pop_ne k j d)

  min_from_cases :
      (j : ℕ) (d : List (ℕ × V))
      → (min_from j d ≡ j) ⊎ ((u : V) × (lookup (min_from j d) d ≡ some u))
  unfolding lookup min_from
  min_from_cases j [] = inl refl
  min_from_cases j ((i, v) ∷ d) = elim (Bool-cases (i == min_from (if leb j i then j else i) d)) [
    | inl e ↦ inr (v, rw e)
    | inr e ↦ elim (min_from_cases (if leb j i then j else i) d) [
      | inl f ↦ inl (ground arith)
      | inr (u, f) ↦ inr (u, rw e f)
    ]
  ]

  -- The least key is a key.
  pub lookup-min_key :
      (e : ℕ × V) (d : List (ℕ × V)) → (u : V) × (lookup (min_key (e ∷ d)) (e ∷ d) ≡ some u)
  unfolding lookup min_key
  lookup-min_key (j, v) d = elim (min_from_cases j d) [
    | inl e ↦ (v, rw e (ground arith))
    | inr (u, e) ↦ elim (Bool-cases (j == min_from j d)) [ inl f ↦ (v, rw f) | inr f ↦ (u, rw f e) ]
  ]

  -- Taking out the least key of a dict that is not empty makes it shorter.
  pub length-pop-min_key :
      (d : List (ℕ × V)) → 0 < length d → suc (length (pop (min_key d) d)) ≡ length d
  length-pop-min_key [] h = absurd (omega arith)
  length-pop-min_key (e ∷ d) h =
      let (u, f) = lookup-min_key e d in length-pop_old (min_key (e ∷ d)) u (e ∷ d) f

  -- A key that is only in the last entry.
  pub lookup-last :
      (k : ℕ) (v : V) (d : List (ℕ × V)) → lookup k d ≡ none → lookup k (d ++ (k, v) ∷ []) ≡ some v
  unfolding lookup
  lookup-last k v [] e = rw (==-self k) refl
  lookup-last k v ((i, w) ∷ d) e = ground (arith, lookup-last k v d)

  pub insert_new :
      (k : ℕ) (v : V) (d : List (ℕ × V)) → lookup k d ≡ none → insert k v d ≡ d ++ (k, v) ∷ []
  unfolding lookup insert
  insert_new k v [] e = refl
  insert_new k v ((i, w) ∷ d) e = elim (Bool-cases (i == k)) [
    | inl f ↦ absurd (ground (arith, e, f))
    | inr f ↦ rw f (ap (◌∷◌ (i, w)) (insert_new k v d (ground (arith, e, f))))
  ]

  pub insert-last :
      (k : ℕ) (u v : V) (d : List (ℕ × V))
      → lookup k d ≡ none
      → insert k v (d ++ (k, u) ∷ []) ≡ d ++ (k, v) ∷ []
  unfolding lookup insert
  insert-last k u v [] e = rw (==-self k) refl
  insert-last k u v ((i, w) ∷ d) e = elim (Bool-cases (i == k)) [
    | inl f ↦ absurd (ground (arith, e, f))
    | inr f ↦ rw f (ap (◌∷◌ (i, w)) (insert-last k u v d (ground (arith, e, f))))
  ]

  pub pop-last :
      (k : ℕ) (v : V) (d : List (ℕ × V)) → lookup k d ≡ none → pop k (d ++ (k, v) ∷ []) ≡ d
  unfolding lookup pop
  pop-last k v [] e = rw (==-self k) refl
  pop-last k v ((i, w) ∷ d) e = elim (Bool-cases (i == k)) [
    | inl f ↦ absurd (ground (arith, e, f))
    | inr f ↦ rw f (ap (◌∷◌ (i, w)) (pop-last k v d (ground (arith, e, f))))
  ]
