-- ===== src/Tools/Dump.antt =====
-- `parse` of tools/crc_trace_diff.py, and the same loop in `check` of tools/check_dest_phase.py: the
-- memory that a debugger's log shows. What `DUMP_RE.finditer` finds in the log is an argument: the
-- regular expressions are Python's.
pub mod Lines
use fujinet_intv_golf.Base.{
  ℕ, zero, suc, ◌+◌, ◌-◌, ◌*◌, ◌≤◌, ◌<◌, ◌≡◌, refl, ap, Bool, true, false, ◌&&◌, ◌||◌, List, [],
  ◌∷◌, ◌++◌, Option, none, some, arith, ltb, leb, ◌==◌, ==-eq, ==-self, if◌then◌else◌, length,
  get_elem?, is_empty, Bool-cases, inl, inr,
}
use fujinet_intv_golf.Base.NatMap
use fujinet_intv_golf.Base.NatMap.{lookup-insert}
use fujinet_intv_golf.Wire.{Text}

-- `m.group(1)` and `m.group(2)`
pub record Match : Type 0 where
  pub group1 : Text
  pub group2 : Text

-- A dict from addresses to words.
abbrev pub Mem : Type 0
Mem = List (ℕ × ℕ)

abbrev pub is_space : ℕ → Bool
is_space c = c == 32 || (leb 9 c && leb c 13) || (leb 28 c && leb c 31)

-- `.split()`: the words between white space, with the letters of the word so far.
unfoldable pub split_from : Text → Text → List Text
split_from word [] = if is_empty word then [] else word ∷ []
split_from word (c ∷ cs) =
    let ended = split_from [] cs in
    let longer = split_from (word ++ c ∷ []) cs in
    if is_space c then (if is_empty word then ended else word ∷ ended) else longer

unfoldable pub split : Text → List Text
unfolding split_from
split text = split_from [] text

-- `.rstrip("*")`
unfoldable pub strip_stars : Text → Text
strip_stars [] = []
strip_stars (c ∷ cs) =
    let rest = strip_stars cs in if is_empty rest && c == b'*' then [] else c ∷ rest

unfoldable pub hex_digit : ℕ → Option ℕ
hex_digit c =
    if leb b'0' c && leb c b'9'
    then some (c - b'0')
    else if leb b'A' c && leb c b'F'
    then some (c - b'A' + 10)
    else if leb b'a' c && leb c b'f'
    then some (c - b'a' + 10)
    else none

-- `int(text, 16)` for a text of digits; ValueError on any other, and on the empty text.
unfoldable pub hex_from : ℕ → Text → Option ℕ
unfolding hex_digit
hex_from n [] = some n
hex_from n (c ∷ cs) = elim (hex_digit c) [ none ↦ none | some d ↦ hex_from (n * 16 + d) cs ]

unfoldable pub hex : Text → Option ℕ
unfolding hex_from
hex text = if is_empty text then none else hex_from 0 text

-- `for i, w in enumerate(m.group(2).split()): mem[addr + i] = int(w.rstrip("*"), 16)`
unfoldable pub store : ℕ → List Text → Mem → Option Mem
unfolding hex strip_stars
store addr [] mem = some mem
store addr (w ∷ ws) mem = elim (hex (strip_stars w)) [
  | none ↦ none
  | some n ↦ store (suc addr) ws (NatMap.insert addr n mem)
]

unfoldable pub parse_from : Mem → List Match → Option Mem
unfolding store split
parse_from mem [] = some mem
parse_from mem (m ∷ ms) = elim (hex m.group1) [
  | none ↦ none
  | some addr ↦ elim (store addr (split m.group2) mem) [
    | none ↦ none
    | some mem' ↦ parse_from mem' ms
  ]
]

unfoldable pub parse : List Match → Option Mem
unfolding parse_from
parse ms = parse_from [] ms
