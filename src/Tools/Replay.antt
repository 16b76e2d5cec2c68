-- ===== src/Tools/Replay.antt =====
-- tools/mk_replay.py: a recorded session as a table of controller states.
use fujinet_intv_golf.Base.{
  ℕ, zero, suc, ◌+◌, ◌*◌, ◌≤◌, ◌<◌, ◌≡◌, refl, ap, ◌∙◌, bit_or, bit_and, List, [], ◌∷◌, Option,
  none, some, arith, leb, if◌then◌else◌, length, get_elem?,
}
use fujinet_intv_golf.Base.NatMap
use fujinet_intv_golf.Base.Bits.{bit_and_low}
use fujinet_intv_golf.Tools.Dump.{Mem}

abbrev pub rec_cap : ℕ
rec_cap = 768

-- One row of REPLAY_TBL: what both sides sent, decoded and as keypad codes.
pub record Row : Type 0 where
  pub l_dec : ℕ
  pub r_dec : ℕ
  pub l_kp : ℕ
  pub r_kp : ℕ

-- `mem.get(addr, default) & 0xFF`
unfoldable pub byte_of : Option ℕ → ℕ → ℕ
byte_of none default = bit_and default 0xFF
byte_of (some v) default = bit_and v 0xFF

unfoldable pub recorded_byte : Mem → ℕ → ℕ → ℕ
unfolding byte_of
recorded_byte mem addr default = byte_of (NatMap.lookup addr mem) default

unfoldable pub row_at : Mem → ℕ → Row
unfolding recorded_byte
row_at mem t = record {
  l_dec = recorded_byte mem (0x9000 + t * 4) 0x40;
  r_dec = recorded_byte mem (0x9000 + t * 4 + 1) 0x40;
  l_kp = recorded_byte mem (0x9000 + t * 4 + 2) 0;
  r_kp = recorded_byte mem (0x9000 + t * 4 + 3) 0;
}

-- The rows of so many ticks, from one on.
unfoldable pub rows_from : Mem → ℕ → ℕ → List Row
unfolding row_at
rows_from mem zero t = []
rows_from mem (suc n) t = row_at mem t ∷ rows_from mem n (suc t)

abbrev pub recorded_ticks : Mem → ℕ
recorded_ticks mem = bit_or (NatMap.get_or 0x8108 0 mem) (NatMap.get_or 0x8109 0 mem * 256)

-- `min(a, b)`
abbrev pub least : ℕ → ℕ → ℕ
least a b = if leb a b then a else b

-- REPLAY_LEN and REPLAY_TBL.
unfoldable pub replay : Mem → ℕ × List Row
unfolding rows_from
replay mem = (least (recorded_ticks mem) rec_cap, rows_from mem rec_cap 0)

length-rows_from : (mem : Mem) (n t : ℕ) → length (rows_from mem n t) ≡ n
unfolding rows_from
length-rows_from mem zero t = refl
length-rows_from mem (suc n) t = ap suc (length-rows_from mem n (suc t))

get_elem?-rows_from :
    (mem : Mem) (n start i : ℕ)
    → i < n
    → get_elem? (rows_from mem n start) i ≡ some (row_at mem (start + i))
unfolding rows_from
get_elem?-rows_from mem zero start i h = absurd (omega arith)
get_elem?-rows_from mem (suc n) start zero h = ap (λ t. some (row_at mem t)) (omega arith)
get_elem?-rows_from mem (suc n) start (suc i) h =
    get_elem?-rows_from mem n (suc start) i (omega arith)
    ∙ ap (λ t. some (row_at mem t)) (omega arith)

get_elem?-replay : (mem : Mem) (t : ℕ) → t < 768 → get_elem? (replay mem).1 t ≡ some (row_at mem t)
unfolding replay
get_elem?-replay mem t h =
    get_elem?-rows_from mem 768 0 t h ∙ ap (λ i. some (row_at mem i)) (omega arith)

byte_of-lt : (o : Option ℕ) (default : ℕ) → byte_of o default < 256
unfolding byte_of
byte_of-lt none default = omega (arith, bit_and_low 8 default)
byte_of-lt (some v) default = omega (arith, bit_and_low 8 v)

recorded_byte-lt : (mem : Mem) (addr default : ℕ) → recorded_byte mem addr default < 256
unfolding recorded_byte
recorded_byte-lt mem addr default = byte_of-lt (NatMap.lookup addr mem) default

byte_at_recorded :
    (mem : Mem) (addr default v : ℕ)
    → NatMap.lookup addr mem ≡ some v
    → v < 256
    → recorded_byte mem addr default ≡ v
unfolding recorded_byte byte_of
byte_at_recorded mem addr default v e h =
    ap (λ o. byte_of o default) e ∙ (bit_and_low 8 v ∙ omega (arith, h))

-- The table has a row for each of the 768 ticks that a recording can have, the length that is stated
-- is at most that, and each value of each row fits in a byte.
pub replay_bounds :
    (mem : Mem) (t : ℕ)
    → t < 768
    → (row : Row) × (length (replay mem).1 ≡ 768)
      × ((replay mem).0 ≤ 768)
      × (get_elem? (replay mem).1 t ≡ some row)
      × (row.l_dec < 256)
      × (row.r_dec < 256)
      × (row.l_kp < 256)
      × (row.r_kp < 256)
unfolding replay row_at
replay_bounds mem t h = (
  row_at mem t,
  length-rows_from mem 768 0,
  ground arith,
  get_elem?-replay mem t h,
  recorded_byte-lt mem (0x9000 + t * 4) 0x40,
  recorded_byte-lt mem (0x9000 + t * 4 + 1) 0x40,
  recorded_byte-lt mem (0x9000 + t * 4 + 2) 0,
  recorded_byte-lt mem (0x9000 + t * 4 + 3) 0,
)

-- A tick whose four words the session logged, each below 256, is replayed as it was recorded.
pub replay_recorded :
    (mem : Mem) (t l r kl kr : ℕ)
    → t < 768
    → NatMap.lookup (0x9000 + t * 4) mem ≡ some l
    → NatMap.lookup (0x9000 + t * 4 + 1) mem ≡ some r
    → NatMap.lookup (0x9000 + t * 4 + 2) mem ≡ some kl
    → NatMap.lookup (0x9000 + t * 4 + 3) mem ≡ some kr
    → l < 256
    → r < 256
    → kl < 256
    → kr < 256
    → get_elem? (replay mem).1 t ≡ some (record { l_dec = l; r_dec = r; l_kp = kl; r_kp = kr })
unfolding replay row_at
replay_recorded mem t l r kl kr h el er ekl ekr bl br bkl bkr =
    let p = byte_at_recorded mem (0x9000 + t * 4) 0x40 l el bl in
    let q = byte_at_recorded mem (0x9000 + t * 4 + 1) 0x40 r er br in
    let u = byte_at_recorded mem (0x9000 + t * 4 + 2) 0 kl ekl bkl in
    let w = byte_at_recorded mem (0x9000 + t * 4 + 3) 0 kr ekr bkr in
    get_elem?-replay mem t h ∙ (rw (p, q, u, w) refl)
