-- ===== src/Tools/DumpRom.antt =====
-- tools/dump_rom.py: a ROM as lines of assembly, with symbols at the patched addresses. A line is
-- modelled by what it says: its words, or the symbol and the original word, and its address.
use mathlib.Core.List.{append_assoc, append-nil}
use fujinet_intv_golf.Base.{
  ℕ, suc, ◌+◌, ◌-◌, ◌%◌, ◌≤◌, ◌≡◌, refl, sym, ap, ap₂, ==-eq, ◌∙◌, Bool, true, ◌&&◌, List, [], ◌∷◌,
  ◌++◌, Option, none, some, arith, ltb, leb, ◌==◌, if◌then◌else◌, length, length-append, is_empty,
  Bool-cases, Option-cases, inl, inr,
}
use fujinet_intv_golf.Base.NatMap
use fujinet_intv_golf.Wire.{Bytes, Text}
use fujinet_intv_golf.Tools.Words.{words}

-- PATCHES.py: a symbol for each patched address.
abbrev pub Patches : Type 0
Patches = List (ℕ × Text)

-- `DECLE $w, $w, ... ; address` and `DECLE symbol ; address PATCH (orig $w)`
pub data Line : Type 0 where
  row_line : List ℕ → ℕ → Line
  patch_line : Text → ℕ → ℕ → Line

-- `if row: out.write(...)`, at the address after the row.
unfoldable pub end_row : List ℕ → ℕ → List Line
end_row row addr = if is_empty row then [] else row_line row (addr - length row) ∷ []

-- The loop over the words, from an address, with the row that is not written yet.
unfoldable pub dump_from : Patches → ℕ → List ℕ → List ℕ → List Line
unfolding end_row
dump_from patches addr row [] = end_row row addr
dump_from patches addr row (w ∷ ws) =
    let patched = dump_from patches (suc addr) [] ws in
    let more = dump_from patches (suc addr) (row ++ w ∷ []) ws in
    elim (NatMap.lookup addr patches) [
      | some symbol ↦ end_row row addr ++ (patch_line symbol addr w ∷ patched)
      | none ↦
          if length (row ++ w ∷ []) == 8
          then row_line (row ++ w ∷ []) (addr - 7) ∷ patched
          else more
    ]

-- `not unused`: every patched address lies in the ROM.
unfoldable pub all_used : ℕ → ℕ → Patches → Bool
all_used base n [] = true
all_used base n ((addr, _) ∷ patches) =
    (leb base addr && ltb addr (base + n)) && all_used base n patches

-- `main`: the lines, unless an assertion fails.
unfoldable pub dump_rom : Patches → ℕ → Bytes → Option (List Line)
unfolding dump_from all_used
dump_rom patches base image = elim (if length image % 2 == 0 then words image else none) [
  | none ↦ none
  | some ws ↦
      if all_used base (length ws) patches then some (dump_from patches base [] ws) else none
]

-- What an assembler finds at an address: a word, or a symbol in place of one.
pub data Cell : Type 0 where
  plain : ℕ → Cell
  patched : Text → ℕ → Cell

unfoldable pub row_cells : ℕ → List ℕ → List (ℕ × Cell)
row_cells addr [] = []
row_cells addr (w ∷ ws) = (addr, plain w) ∷ row_cells (suc addr) ws

unfoldable pub line_cells : List Line → List (ℕ × Cell)
unfolding row_cells
line_cells [] = []
line_cells (row_line ws addr ∷ lines) = row_cells addr ws ++ line_cells lines
line_cells (patch_line symbol addr w ∷ lines) = (addr, patched symbol w) ∷ line_cells lines

-- The ROM with its patches, address by address.
unfoldable pub rom_cells : Patches → ℕ → List ℕ → List (ℕ × Cell)
rom_cells patches addr [] = []
rom_cells patches addr (w ∷ ws) =
    (addr, elim (NatMap.lookup addr patches) [ some symbol ↦ patched symbol w | none ↦ plain w ])
    ∷ rom_cells patches (suc addr) ws

row_cells-append :
    (addr w : ℕ) (row : List ℕ)
    → row_cells addr (row ++ w ∷ []) ≡ row_cells addr row ++ (addr + length row, plain w) ∷ []
unfolding row_cells
row_cells-append addr w [] = ap (λ a. (a, plain w) ∷ []) (omega arith)
row_cells-append addr w (x ∷ row) = ap (◌∷◌ (addr, plain x)) (
    row_cells-append (suc addr) w row
    ∙ ap (λ a. row_cells (suc addr) row ++ (a, plain w) ∷ []) (omega arith))

line_cells-end_row :
    (row : List ℕ) (addr : ℕ) (lines : List Line)
    → line_cells (end_row row addr ++ lines) ≡ row_cells (addr - length row) row ++ line_cells lines
unfolding line_cells end_row row_cells
line_cells-end_row [] addr lines = refl
line_cells-end_row (x ∷ row) addr lines = refl

-- A row that has grown by a word.
row_cells-grown :
    (a addr w : ℕ) (row : List ℕ) (rest : List (ℕ × Cell))
    → a + length row ≡ addr
    → row_cells a (row ++ w ∷ []) ++ rest
      ≡ row_cells (addr - length row) row ++ (addr, plain w) ∷ rest
row_cells-grown a addr w row rest e =
    ap (λ l. l ++ rest) (row_cells-append a w row)
    ∙ append_assoc (row_cells a row) ((a + length row, plain w) ∷ []) rest
    ∙ ap₂ (λ b c. row_cells b row ++ (c, plain w) ∷ rest) (omega (arith, e)) e

line_cells-dump_from :
    (patches : Patches) (addr : ℕ) (row ws : List ℕ)
    → length row ≤ addr
    → line_cells (dump_from patches addr row ws)
      ≡ row_cells (addr - length row) row ++ rom_cells patches addr ws
unfolding dump_from rom_cells line_cells row_cells
line_cells-dump_from patches addr row [] h =
    ap line_cells (sym (append-nil (end_row row addr))) ∙ line_cells-end_row row addr []
line_cells-dump_from patches addr row (w ∷ ws) h =
    let next = line_cells-dump_from patches (suc addr) [] ws (omega arith) in
    elim (Option-cases (NatMap.lookup addr patches)) [
      | inr (symbol, e) ↦
          rw (e, dump_from)
            (line_cells-end_row row addr _
              ∙ ap (λ l. row_cells (addr - length row) row ++ (addr, patched symbol w) ∷ l) next)
      | inl e ↦
          rw (e, dump_from)
            (elim (Bool-cases (length (row ++ w ∷ []) == 8)) [
              | inl f ↦
                  rw (f, dump_from)
                    (ap (λ l. row_cells (addr - 7) (row ++ w ∷ []) ++ l) next
                      ∙ row_cells-grown (addr - 7) addr w row (rom_cells patches (suc addr) ws)
                          (omega (arith, h, ==-eq _ _ f, length-append row (w ∷ []))))
              | inr f ↦
                  rw (f, dump_from)
                    (line_cells-dump_from patches (suc addr) (row ++ w ∷ []) ws
                        (omega (arith, length-append row (w ∷ [])))
                      ∙ row_cells-grown (suc addr - length (row ++ w ∷ [])) addr w row
                          (rom_cells patches (suc addr) ws)
                          (omega (arith, h, length-append row (w ∷ []))))
            ])
    ]

-- For any patches, base and words, the lines say of each address of the ROM, in order and once,
-- what belongs there: the symbol with the original word where there is a patch, and elsewhere the
-- word.
pub dump_from-line_cells :
    (patches : Patches) (base : ℕ) (ws : List ℕ)
    → line_cells (dump_from patches base [] ws) ≡ rom_cells patches base ws
unfolding row_cells
dump_from-line_cells patches base ws = line_cells-dump_from patches base [] ws (omega arith)
