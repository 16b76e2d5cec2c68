-- ===== src/Tools/CellDiff.antt =====
-- tools/cell_diff.py: the cells of two dumps that differ, in the ranges that are checksummed.
use fujinet_intv_golf.Base.{
  ℕ, Bool, false, not, ◌&&◌, ◌||◌, List, [], ◌∷◌, map, Option, none, some, leb, ◌==◌, if◌then◌else◌,
  keep_if, contains,
}
use fujinet_intv_golf.Base.NatMap
use fujinet_intv_golf.Tools.Dump.{Mem}

-- `sorted`, of numbers.
unfoldable pub insert_sorted : ℕ → List ℕ → List ℕ
insert_sorted x [] = x ∷ []
insert_sorted x (y ∷ ys) = if leb x y then x ∷ y ∷ ys else y ∷ insert_sorted x ys

unfoldable pub sorted : List ℕ → List ℕ
unfolding insert_sorted
sorted [] = []
sorted (x ∷ xs) = insert_sorted x (sorted xs)

abbrev pub keys : Mem → List ℕ
keys mem = map (λ e. e.0) mem

-- `sorted(set(a) & set(b))`
unfoldable pub common : Mem → Mem → List ℕ
unfolding sorted
common a b = sorted (keep_if (contains (keys b)) (keys a))

-- `a[x] != b[x]`, at an address that both have.
unfoldable pub unequal : Option ℕ → Option ℕ → Bool
unequal none w = false
unequal (some v) none = false
unequal (some v) (some w) = not (v == w)

unfoldable pub differs : Mem → Mem → ℕ → Bool
unfolding unequal
differs a b x = unequal (NatMap.lookup x a) (NatMap.lookup x b)

abbrev pub is_checksummed : ℕ → Bool
is_checksummed x = (leb 0x015D x && leb x 0x01EF) || (leb 0x02F0 x && leb x 0x035F)

-- The addresses that `main` prints, with the values there.
unfoldable pub cell_diff : Mem → Mem → List ℕ
unfolding common differs
cell_diff a b = keep_if (λ x. differs a b x && is_checksummed x) (common a b)
