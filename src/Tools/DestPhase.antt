-- ===== src/Tools/DestPhase.antt =====
-- tools/check_dest_phase.py: whether a run has left the prompt for the number of players.
use fujinet_intv_golf.Base.{
  ℕ, zero, suc, ◌+◌, ◌*◌, ◌-◌, ◌≤◌, ◌<◌, ◌≡◌, ◌≢◌, ◌⊎◌, refl, ap, bit_or, Bool, true, false, not,
  ◌&&◌, ◌||◌, List, [], ◌∷◌, ◌++◌, Option, none, some, arith, leb, ◌==◌, ==-eq, if◌then◌else◌,
  is_empty, Bool-cases, inl, inr,
}
use fujinet_intv_golf.Base.NatMap
use fujinet_intv_golf.Tools.Dump.{Mem}

abbrev pub gf_htbl_prompt : ℕ
gf_htbl_prompt = 0x51DD

abbrev pub gf_htbl_live : ℕ
gf_htbl_live = 0x51D3

-- What the messages say.
pub data Failure : Type 0 where
  no_dumps no_player_count prompt_not_answered parked_on_prompt no_hole no_progress empty_objects :
      Failure

-- `table`, from its two cells.
unfoldable pub table_of : Option ℕ → Option ℕ → Option ℕ
table_of none hi = none
table_of (some lo) none = none
table_of (some lo) (some hi) = some (bit_or lo (hi * 256))

-- `table == value`
unfoldable pub is_table : Option ℕ → ℕ → Bool
is_table none value = false
is_table (some table) value = table == value

unfoldable pub check_player_count : Option ℕ → List Failure
check_player_count none = no_player_count ∷ []
check_player_count (some n) = if leb 1 n && leb n 4 then [] else prompt_not_answered ∷ []

unfoldable pub check_table : Option ℕ → List Failure
unfolding is_table
check_table table = if is_table table gf_htbl_prompt then parked_on_prompt ∷ [] else []

unfoldable pub check_hole : Option ℕ → Option ℕ → List Failure
unfolding is_table
check_hole none table = no_hole ∷ []
check_hole (some hole) table =
    if hole == 0 && not (is_table table gf_htbl_live) then no_progress ∷ [] else []

-- Whether `mem.get(a, 0)` counts as true.
unfoldable pub is_set : Option ℕ → Bool
is_set none = false
is_set (some v) = not (v == 0)

-- `any(mem.get(a, 0) for a in range(start, start + n))`
unfoldable pub any_cell : Mem → ℕ → ℕ → Bool
unfolding is_set
any_cell mem zero start = false
any_cell mem (suc n) start = is_set (NatMap.lookup start mem) || any_cell mem n (suc start)

unfoldable pub unless_set : Bool → List Failure
unless_set true = []
unless_set false = empty_objects ∷ []

unfoldable pub check_objects : Mem → List Failure
unfolding any_cell unless_set
check_objects mem = unless_set (any_cell mem (0x35D - 0x31D) 0x31D)

-- The failures, for the cells that were read.
unfoldable pub check_cells : Mem → Option ℕ → List Failure
unfolding check_player_count check_table check_hole check_objects
check_cells mem table =
    check_player_count (NatMap.lookup 0x161 mem)
    ++ (check_table table ++ (check_hole (NatMap.lookup 0x16C mem) table ++ check_objects mem))

unfoldable pub check : Mem → List Failure
unfolding check_cells table_of
check mem =
    if is_empty mem
    then no_dumps ∷ []
    else check_cells mem (table_of (NatMap.lookup 0x80C0 mem) (NatMap.lookup 0x80C1 mem))

concat_none : {A : Type 0} → (xs ys : List A) → xs ++ ys ≡ [] → (xs ≡ []) × (ys ≡ [])
concat_none [] ys e = (refl, e)
concat_none (x ∷ xs) ys e = absurd (cc)

check_player_count_none :
    (o : Option ℕ) → check_player_count o ≡ [] → (n : ℕ) × (o ≡ some n) × (1 ≤ n) × (n ≤ 4)
unfolding check_player_count
check_player_count_none none e = absurd (cc)
check_player_count_none (some n) e = (n, refl, ground (arith, e), ground (arith, e))

is_table-false : (o : Option ℕ) (value : ℕ) → is_table o value ≡ false → o ≢ some value
unfolding is_table
is_table-false none value e f = cc
is_table-false (some table) value e f = ground (arith, e, f)

is_table-true : (o : Option ℕ) (value : ℕ) → is_table o value ≡ true → o ≡ some value
unfolding is_table
is_table-true none value e = absurd (cc)
is_table-true (some table) value e = ap some (==-eq table value e)

check_table_none : (o : Option ℕ) → check_table o ≡ [] → o ≢ some gf_htbl_prompt
unfolding check_table
check_table_none o e = is_table-false o gf_htbl_prompt (ground (arith, e))

check_hole_none :
    (o table : Option ℕ)
    → check_hole o table ≡ []
    → (hole : ℕ) × (o ≡ some hole) × ((0 < hole) ⊎ (table ≡ some gf_htbl_live))
unfolding check_hole
check_hole_none none table e = absurd (cc)
check_hole_none (some hole) table e = elim (Bool-cases (is_table table gf_htbl_live)) [
  | inl f ↦ (hole, refl, inr (is_table-true table gf_htbl_live f))
  | inr f ↦ (hole, refl, inl (ground (arith, e, f)))
]

is_set-true : (o : Option ℕ) → is_set o ≡ true → (v : ℕ) × (o ≡ some v) × (0 < v)
unfolding is_set
is_set-true none e = absurd (cc)
is_set-true (some v) e = (v, refl, ground (arith, e))

-- A cell that is there and not zero.
any_cell-true :
    (mem : Mem) (n start : ℕ)
    → any_cell mem n start ≡ true
    → (a v : ℕ) × (start ≤ a) × (a < start + n) × (NatMap.lookup a mem ≡ some v) × (0 < v)
unfolding any_cell
any_cell-true mem zero start e = absurd (cc)
any_cell-true mem (suc n) start e = elim (Bool-cases (is_set (NatMap.lookup start mem))) [
  | inl f ↦
      let (v, found, some_value) = is_set-true (NatMap.lookup start mem) f in
      (start, v, omega arith, omega arith, found, some_value)
  | inr f ↦
      let (a, v, lo, hi, found, some_value) =
        any_cell-true mem n (suc start) (ground (arith, e, f)) in
      (a, v, omega arith, omega arith, found, some_value)
]

unless_set_none : (b : Bool) → unless_set b ≡ [] → b ≡ true
unfolding unless_set
unless_set_none true e = refl
unless_set_none false e = absurd (cc)

check_objects_none :
    (mem : Mem)
    → check_objects mem ≡ []
    → (a v : ℕ) × (0x31D ≤ a) × (a < 0x35D) × (NatMap.lookup a mem ≡ some v) × (0 < v)
unfolding check_objects
check_objects_none mem e = any_cell-true mem 64 0x31D (unless_set_none (any_cell mem 64 0x31D) e)

-- A run whose dumps pass the check shows that the game was played: they have a number of players
-- from 1 to 4, the handler table is not the prompt's, the hole is past 0 or the table is the live
-- one, and a cell of the objects is not zero.
pub check_pass :
    (mem : Mem)
    → check mem ≡ []
    → ((n : ℕ) × (NatMap.lookup 0x161 mem ≡ some n) × (1 ≤ n) × (n ≤ 4))
      × (table_of (NatMap.lookup 0x80C0 mem) (NatMap.lookup 0x80C1 mem) ≢ some gf_htbl_prompt)
      × ((hole : ℕ) × (NatMap.lookup 0x16C mem ≡ some hole)
          × ((0 < hole)
              ⊎ (table_of (NatMap.lookup 0x80C0 mem) (NatMap.lookup 0x80C1 mem)
                  ≡ some gf_htbl_live)))
      × ((a v : ℕ) × (0x31D ≤ a) × (a < 0x35D) × (NatMap.lookup a mem ≡ some v) × (0 < v))
unfolding check check_cells
check_pass mem e =
    let table = table_of (NatMap.lookup 0x80C0 mem) (NatMap.lookup 0x80C1 mem) in
    let count = check_player_count (NatMap.lookup 0x161 mem) in
    let holes = check_hole (NatMap.lookup 0x16C mem) table in
    let not_empty : is_empty mem ≡ false = ground (arith, e) in
    let all_of : check_cells mem table ≡ [] = rw not_empty at e in
    let (p, rest) = concat_none count (check_table table ++ (holes ++ check_objects mem)) all_of in
    let (q, others) = concat_none (check_table table) (holes ++ check_objects mem) rest in
    let (r, s) = concat_none holes (check_objects mem) others in
    (
      check_player_count_none (NatMap.lookup 0x161 mem) p,
      check_table_none table q,
      check_hole_none (NatMap.lookup 0x16C mem) table r,
      check_objects_none mem s,
    )
