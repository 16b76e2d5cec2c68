-- ===== src/Tools/Dump/Lines.antt =====
-- About `parse`, on lines as the debugger prints them: an address, and words of four hexadecimal
-- digits, those marked with a star that have changed.
use mathlib.Core.List.{append_assoc, append-nil}
use fujinet_intv_golf.Base.{
  ℕ, suc, ◌+◌, ◌-◌, ◌*◌, ◌/◌, ◌%◌, ◌<◌, ◌≡◌, refl, sym, ap, ◌∙◌, Bool, true, false, List, [], ◌∷◌,
  ◌++◌, map, Option, none, some, arith, ltb, leb, ◌==◌, if◌then◌else◌, get_elem?, is_empty, All,
  Bool-cases, inl, inr,
}
use fujinet_intv_golf.Base.NatMap
use fujinet_intv_golf.Base.NatMap.{lookup-insert}
use fujinet_intv_golf.Wire.{Text}
use fujinet_intv_golf.Tools.Dump.{
  Match, Mem, is_space, split, split_from, strip_stars, hex_digit, hex_from, hex, store, parse,
  parse_from,
}

unfoldable pub hex_char : ℕ → ℕ
hex_char d = if ltb d 10 then b'0' + d else b'A' + (d - 10)

abbrev pub hex4 : ℕ → Text
hex4 n =
    hex_char (n / 4096) ∷ hex_char (n / 256 % 16) ∷ hex_char (n / 16 % 16) ∷ hex_char (n % 16) ∷ []

-- A word, and whether it is marked.
abbrev pub print_word : ℕ × Bool → Text
print_word (n, marked) = hex4 n ++ (if marked then b'*' ∷ [] else [])

unfoldable pub print_words : List (ℕ × Bool) → Text
print_words [] = []
print_words (w ∷ ws) = b' ' ∷ (print_word w ++ print_words ws)

abbrev pub print_line : ℕ → List (ℕ × Bool) → Match
print_line addr ws = record { group1 = hex4 addr; group2 = print_words ws }

abbrev pub Fits : ℕ × Bool → Type 0
Fits w = w.0 < 65536

hex_digit-hex_char : (d : ℕ) → d < 16 → hex_digit (hex_char d) ≡ some d
unfolding hex_digit hex_char
hex_digit-hex_char d h = ground arith

hex_char_no_star : (d : ℕ) → d < 16 → (hex_char d == b'*') ≡ false
unfolding hex_char
hex_char_no_star d h = ground arith

hex_char_no_space : (d : ℕ) → d < 16 → is_space (hex_char d) ≡ false
unfolding hex_char
hex_char_no_space d h = ground arith

hex_from-hex_char :
    (n d : ℕ) (cs : Text) → d < 16 → hex_from n (hex_char d ∷ cs) ≡ hex_from (n * 16 + d) cs
unfolding hex_from
hex_from-hex_char n d cs h = rw (hex_digit-hex_char d h, hex_from)

hex-hex4 : (n : ℕ) → n < 65536 → hex (hex4 n) ≡ some n
unfolding hex hex_from
hex-hex4 n h =
    let three = hex_char (n / 256 % 16) ∷ hex_char (n / 16 % 16) ∷ hex_char (n % 16) ∷ [] in
    let two = hex_char (n / 16 % 16) ∷ hex_char (n % 16) ∷ [] in
    hex_from-hex_char 0 (n / 4096) three (omega arith)
    ∙ hex_from-hex_char (0 * 16 + n / 4096) (n / 256 % 16) two (omega arith)
    ∙ hex_from-hex_char ((0 * 16 + n / 4096) * 16 + n / 256 % 16) (n / 16 % 16)
        (hex_char (n % 16) ∷ []) (omega arith)
    ∙ hex_from-hex_char (((0 * 16 + n / 4096) * 16 + n / 256 % 16) * 16 + n / 16 % 16) (n % 16) []
        (omega arith)
    ∙ whole
  where
    whole :
        hex_from ((((0 * 16 + n / 4096) * 16 + n / 256 % 16) * 16 + n / 16 % 16) * 16 + n % 16) []
        ≡ some n
    whole = ap some (omega arith)

-- The stars come off, and nothing else.
strip_stars-append :
    (cs stars : Text)
    → All (λ c. (c == b'*') ≡ false) cs
    → strip_stars stars ≡ []
    → strip_stars (cs ++ stars) ≡ cs
unfolding strip_stars
strip_stars-append [] stars h e = e
strip_stars-append (c ∷ cs) stars h e = rw (strip_stars-append cs stars h.1 e) (ground (arith, h.0))

strip_stars-print_word : (w : ℕ × Bool) → Fits w → strip_stars (print_word w) ≡ hex4 w.0
unfolding strip_stars
strip_stars-print_word (n, marked) h =
    strip_stars-append (hex4 n) (if marked then b'*' ∷ [] else [])
      (
        hex_char_no_star (n / 4096) (omega arith),
        (
          hex_char_no_star (n / 256 % 16) (omega arith),
          (
            hex_char_no_star (n / 16 % 16) (omega arith),
            (hex_char_no_star (n % 16) (omega arith), tt),
          ),
        ),
      )
      (star marked)
  where
    star : (b : Bool) → strip_stars (if b then b'*' ∷ [] else []) ≡ []
    star true = refl
    star false = refl

-- Letters that are no white space go to the word.
split_from-append :
    (word cs rest : Text)
    → All (λ c. is_space c ≡ false) cs
    → split_from word (cs ++ rest) ≡ split_from (word ++ cs) rest
unfolding split_from
split_from-append word [] rest h = ap (λ w. split_from w rest) (sym (append-nil word))
split_from-append word (c ∷ cs) rest h = rw (h.0) (
    split_from-append (word ++ c ∷ []) cs rest h.1
    ∙ ap (λ w. split_from w rest) (append_assoc word (c ∷ []) cs))

print_word_no_space : (w : ℕ × Bool) → Fits w → All (λ c. is_space c ≡ false) (print_word w)
print_word_no_space (n, true) h = (
  hex_char_no_space (n / 4096) (omega arith),
  (
    hex_char_no_space (n / 256 % 16) (omega arith),
    (
      hex_char_no_space (n / 16 % 16) (omega arith),
      (hex_char_no_space (n % 16) (omega arith), (refl, tt)),
    ),
  ),
)
print_word_no_space (n, false) h = (
  hex_char_no_space (n / 4096) (omega arith),
  (
    hex_char_no_space (n / 256 % 16) (omega arith),
    (hex_char_no_space (n / 16 % 16) (omega arith), (hex_char_no_space (n % 16) (omega arith), tt)),
  ),
)

-- The words of a line, after a word that is not over yet.
split_from-print_words :
    (word : Text) (ws : List (ℕ × Bool))
    → is_empty word ≡ false
    → All Fits ws
    → split_from word (print_words ws) ≡ word ∷ map print_word ws
unfolding split_from print_words
split_from-print_words word [] e h = rw e
split_from-print_words word (w ∷ ws) e h = rw e (
    ap (◌∷◌ word) (
      split_from-append [] (print_word w) (print_words ws) (print_word_no_space w h.0)
      ∙ split_from-print_words (print_word w) ws refl h.1))

split-print_words :
    (ws : List (ℕ × Bool)) → All Fits ws → split (print_words ws) ≡ map print_word ws
unfolding split split_from print_words
split-print_words [] h = refl
split-print_words (w ∷ ws) h =
    split_from-append [] (print_word w) (print_words ws) (print_word_no_space w h.0)
    ∙ split_from-print_words (print_word w) ws refl h.1

-- The word of a line, where it has one.
unfoldable pub shown : Option (ℕ × Bool) → Option ℕ → Option ℕ
shown none other = other
shown (some w) other = some w.0

-- The word that is stored first, and those after it.
shown_at :
    (addr a : ℕ) (w : ℕ × Bool) (ws : List (ℕ × Bool)) (mem : Mem)
    → (if leb (suc addr) a
        then shown (get_elem? ws (a - suc addr)) (NatMap.lookup a (NatMap.insert addr w.0 mem))
        else NatMap.lookup a (NatMap.insert addr w.0 mem))
      ≡ (if leb addr a
          then shown (get_elem? (w ∷ ws) (a - addr)) (NatMap.lookup a mem)
          else NatMap.lookup a mem)
unfolding shown
shown_at addr a w ws mem = elim (Bool-cases (leb (suc addr) a)) [
  | inl e ↦
      let next : a - addr ≡ suc (a - suc addr) = ground arith in
      let differ : (addr == a) ≡ false = ground arith in
      let below : leb addr a ≡ true = ground arith in
      let old : NatMap.lookup a (NatMap.insert addr w.0 mem) ≡ NatMap.lookup a mem =
        lookup-insert addr a w.0 mem ∙ (rw differ) in
      rw (e, next, below, old) refl
  | inr e ↦
      rw (e, lookup-insert addr a w.0 mem)
        (elim (Bool-cases (addr == a)) [
          | inl f ↦ let first : a - addr ≡ 0 = ground arith in rw (f, first) (ground arith)
          | inr f ↦ rw f (ground arith)
        ])
]

-- What is stored, word by word.
store-print_words :
    (addr a : ℕ) (ws : List (ℕ × Bool)) (mem : Mem)
    → All Fits ws
    → (mem' : Mem) × (store addr (map print_word ws) mem ≡ some mem')
      × (NatMap.lookup a mem' ≡ (
          if leb addr a
          then shown (get_elem? ws (a - addr)) (NatMap.lookup a mem)
          else NatMap.lookup a mem))
unfolding store shown
store-print_words addr a [] mem h = (mem, refl, ground arith)
store-print_words addr a (w ∷ ws) mem h =
    let (mem', e, found) = store-print_words (suc addr) a ws (NatMap.insert addr w.0 mem) h.1 in
    (
      mem',
      rw (strip_stars-print_word w h.0, store) (rw (hex-hex4 w.0 h.0, store) e),
      found ∙ shown_at addr a w ws mem,
    )

-- A dump of one line, as the debugger prints it, is read back: at each address, the word that the
-- line shows there, with or without its star, and none elsewhere.
pub parse-print_line :
    (addr a : ℕ) (ws : List (ℕ × Bool))
    → addr < 65536
    → All Fits ws
    → (mem : Mem) × (parse (print_line addr ws ∷ []) ≡ some mem)
      × (NatMap.lookup a mem ≡ (if leb addr a then shown (get_elem? ws (a - addr)) none else none))
unfolding parse parse_from NatMap.lookup
parse-print_line addr a ws ha h =
    let (mem, e, found) = store-print_words addr a ws [] h in
    (
      mem,
      rw (hex-hex4 addr ha, parse_from)
          (rw (split-print_words ws h, parse_from) (rw (e, parse_from))),
      found,
    )
