-- ===== src/Base/Assoc.antt =====
-- Python dicts as association lists: keyed by texts, in insertion order.
use Prim.Native.Nat.{ℕ}
use mathlib.Core.Path.{◌≡◌, refl, ap}
use mathlib.Core.Bool.{Bool, true, not}
use mathlib.Core.Logic.{inl, inr}
use mathlib.Core.Option.{Option, none, some}
use mathlib.Core.List.{List, [], ◌∷◌}
use native.Mathlib.Omega.{arith}
use fujinet_intv_golf.Base.Tests.{if◌then◌else◌, same, same_iff, Bool-cases}
use fujinet_intv_golf.Base.Lists.{keep_if, is_empty}

module _ {ℓ} {V : Type ℓ} where
  -- `d.get(k)`
  unfoldable pub lookup : List ℕ → List (List ℕ × V) → Option V
  lookup k [] = none
  lookup k ((j, v) ∷ d) = if same j k then some v else lookup k d

  -- `d[k] = v`: an existing key keeps its place.
  unfoldable pub insert : List ℕ → V → List (List ℕ × V) → List (List ℕ × V)
  insert k v [] = (k, v) ∷ []
  insert k v ((j, w) ∷ d) = if same j k then (k, v) ∷ d else (j, w) ∷ insert k v d

  -- `del d[k]`
  abbrev pub erase_key : List ℕ → List (List ℕ × V) → List (List ℕ × V)
  erase_key k d = keep_if (λ e. not (same e.0 k)) d

  pub lookup-insert :
      (k j : List ℕ) (v : V) (d : List (List ℕ × V))
      → lookup j (insert k v d) ≡ (if same k j then some v else lookup j d)
  unfolding lookup insert
  lookup-insert k j v [] = refl
  lookup-insert k j v ((i, w) ∷ d) =
      ground (arith, same_iff k j, same_iff i k, same_iff i j, lookup-insert k j v d)

  -- Whatever is found after a filter that drops whole keys was there before.
  pub lookup-erase_key :
      (k j : List ℕ) (d : List (List ℕ × V))
      → lookup j (erase_key k d) ≡ (if same k j then none else lookup j d)
  unfolding lookup
  lookup-erase_key k j [] = ground arith
  lookup-erase_key k j ((i, w) ∷ d) =
      ground (arith, same_iff k j, same_iff i k, same_iff i j, lookup-erase_key k j d)

  -- Every key stands once.
  abbrev pub Unique : List (List ℕ × V) → Type ℓ
  Unique [] = Unit
  Unique ((k, v) ∷ d) = (lookup k d ≡ none) × Unique d

  pub insert-Unique :
      (k : List ℕ) (v : V) (d : List (List ℕ × V)) → Unique d → Unique (insert k v d)
  unfolding insert lookup
  insert-Unique k v [] u = (refl, tt)
  insert-Unique k v ((j, w) ∷ d) u =
      ground (arith, insert-Unique k v d u.1, lookup-insert k j v d, same_iff k j, same_iff j k)

  pub lookup-keep_if :
      (p : List ℕ × V → Bool) (j : List ℕ) (v : V) (d : List (List ℕ × V))
      → Unique d
      → lookup j (keep_if p d) ≡ some v
      → lookup j d ≡ some v
  unfolding lookup
  lookup-keep_if p j v [] u e = e
  lookup-keep_if p j v ((i, w) ∷ d) u e = ground (arith, lookup-keep_if p j v d u.1, same_iff i j)

  pub lookup-keep_if-none :
      (p : List ℕ × V → Bool) (j : List ℕ) (d : List (List ℕ × V))
      → lookup j d ≡ none
      → lookup j (keep_if p d) ≡ none
  unfolding lookup
  lookup-keep_if-none p j [] e = refl
  lookup-keep_if-none p j ((i, w) ∷ d) e = ground (arith, lookup-keep_if-none p j d)

  pub keep_if-Unique :
      (p : List ℕ × V → Bool) (d : List (List ℕ × V)) → Unique d → Unique (keep_if p d)
  keep_if-Unique p [] u = tt
  keep_if-Unique p ((i, w) ∷ d) u =
      ground (arith, keep_if-Unique p d u.1, lookup-keep_if-none p i d u.0)

  -- A filter that finds nothing to drop changes nothing.
  pub keep_if-eq_self :
      (q : List ℕ × V → Bool) (d : List (List ℕ × V))
      → is_empty (keep_if q d) ≡ true
      → keep_if (λ e. not (q e)) d ≡ d
  keep_if-eq_self q [] e = refl
  keep_if-eq_self q (x ∷ d) e = elim (Bool-cases (q x)) [
    | inl gone ↦ absurd (ground arith)
    | inr kept ↦ rw kept (ap (◌∷◌ x) (keep_if-eq_self q d (ground arith)))
  ]
