-- ===== src/Tools/Words.antt =====
-- ROM images: 16-bit big-endian words (`words` of tools/check_patch.py, and tools/dump_rom.py).
use mathlib.Core.Option
use fujinet_intv_golf.Base.{
  ℕ, zero, suc, ◌*◌, ◌/◌, bit_or, List, [], ◌∷◌, Option, none, some, length,
}
use fujinet_intv_golf.Wire.{Bytes}

-- `(hi << 8) | lo`
abbrev pub word : ℕ → ℕ → ℕ
word hi lo = bit_or (hi * 256) lo

-- The first so many words of a file, if it has them; indexing past its end raises IndexError.
unfoldable pub first_words : ℕ → Bytes → Option (List ℕ)
first_words zero image = some []
first_words (suc n) [] = none
first_words (suc n) (hi ∷ []) = none
first_words (suc n) (hi ∷ lo ∷ image) = Option.map (λ ws. word hi lo ∷ ws) (first_words n image)

-- All its words; a byte left over is ignored.
unfoldable pub words : Bytes → Option (List ℕ)
unfolding first_words
words image = first_words (length image / 2) image
