-- ===== src/Tools/Recon.antt =====
-- tools/recon.py: what a cartridge's ROM calls and refers to.
pub mod Names
pub mod Report
pub mod Calls
pub mod Refs
mod Tests
use fujinet_intv_golf.Base.{
  ℕ, zero, suc, ◌+◌, ◌*◌, ◌-◌, ◌/◌, ◌≤◌, ◌<◌, ◌≡◌, refl, bit_or, bit_and, Bool, true, false, not,
  ◌&&◌, ◌||◌, List, [], ◌∷◌, ◌++◌, Option, none, some, leb, ltb, ◌==◌, if◌then◌else◌, length,
  get_elem?,
}
use fujinet_intv_golf.Base.NatMap
use fujinet_intv_golf.Base.Texts.{codes}
use fujinet_intv_golf.Wire.{Bytes}
use fujinet_intv_golf.Tools.Words.{word}

-- `words`: a byte left over is ignored.
unfoldable pub words : Bytes → List ℕ
words [] = []
words (hi ∷ []) = []
words (hi ∷ lo ∷ image) = word hi lo ∷ words image

pub record Rom : Type 0 where
  pub base : ℕ
  pub w : List ℕ
  pub end_addr : ℕ

abbrev pub load : Bytes → ℕ → Rom
load image base = record { base = base; w = words image; end_addr = base + length (words image) }

abbrev pub has : Rom → ℕ → Bool
has rom addr = leb rom.base addr && ltb addr rom.end_addr

-- `w[addr - base]`: a negative index counts from the end, and none is an IndexError.
unfoldable pub word_at : Rom → ℕ → Option ℕ
word_at rom addr =
    if leb rom.base addr
    then get_elem? rom.w (addr - rom.base)
    else if leb (rom.base - addr) (length rom.w)
    then get_elem? rom.w (length rom.w - (rom.base - addr))
    else none

unfoldable pub pair : Option ℕ → Option ℕ → Option ℕ
pair none hi = none
pair (some lo) none = none
pair (some lo) (some hi) = some (bit_or lo (hi * 256))

unfoldable pub ptr : Rom → ℕ → Option ℕ
unfolding word_at pair
ptr rom addr = pair (word_at rom addr) (word_at rom (addr + 1))

-- `(site, reg, tgt)`
pub record Call : Type 0 where
  pub site : ℕ
  pub reg : ℕ
  pub tgt : ℕ

-- One round of the loop of `jsrs`: the call that three words at a site make.
unfoldable pub jsr_at : ℕ → ℕ → ℕ → ℕ → List Call
jsr_at site w0 w1 w2 =
    if not (w0 == 0x0004)
    then []
    else if not (bit_and w1 0xFC00 == 0) || not (bit_and w2 0xFC00 == 0)
    then []
    else record {
      site = site;
      reg = 4 + bit_and (w1 / 256) 3;
      tgt = bit_or (bit_and w1 0xFF / 4 * 1024) (bit_and w2 0x3FF);
    }
      ∷ []

unfoldable pub jsrs_from : ℕ → List ℕ → List Call
unfolding jsr_at
jsrs_from site [] = []
jsrs_from site (w0 ∷ []) = []
jsrs_from site (w0 ∷ w1 ∷ []) = []
jsrs_from site (w0 ∷ w1 ∷ w2 ∷ ws) = jsr_at site w0 w1 w2 ++ jsrs_from (suc site) (w1 ∷ w2 ∷ ws)

unfoldable pub jsrs : Rom → List Call
unfolding jsrs_from
jsrs rom = jsrs_from rom.base rom.w

abbrev pub ops : List (ℕ × List ℕ)
ops =
    (1, codes "MVO")
    ∷ (2, codes "MVI")
    ∷ (3, codes "ADD")
    ∷ (4, codes "SUB")
    ∷ (5, codes "CMP")
    ∷ (6, codes "AND")
    ∷ (7, codes "XOR")
    ∷ []

-- `(site, op, reg, operand)`
pub record Ref : Type 0 where
  pub site : ℕ
  pub op : List ℕ
  pub reg : ℕ
  pub operand : ℕ

-- What the mode says of the operand: direct, immediate or neither.
unfoldable pub ref_mode : ℕ → ℕ → List ℕ → ℕ → ℕ → List Ref
ref_mode mode site op reg operand =
    if mode == 0
    then record { site = site; op = op; reg = reg; operand = operand } ∷ []
    else if mode == 7
    then record { site = site; op = op ++ codes "I"; reg = reg; operand = operand } ∷ []
    else []

unfoldable pub ref_op : Option (List ℕ) → ℕ → ℕ → ℕ → Option (List Ref)
unfolding ref_mode
ref_op none site v operand = none
ref_op (some op) site v operand =
    some (ref_mode (bit_and (v / 8) 7) (site + 1) op (bit_and v 7) operand)

-- One round of the loop of `refs`; none is a KeyError of `OPS`.
unfoldable pub ref_at : ℕ → ℕ → ℕ → Option (List Ref)
unfolding ref_op
ref_at site v operand =
    if not (leb 0x0240 v && leb v 0x03FF)
    then some []
    else ref_op (NatMap.lookup (bit_and (v / 64) 7) ops) site v operand

unfoldable pub join : Option (List Ref) → Option (List Ref) → Option (List Ref)
join none rest = none
join (some found) none = none
join (some found) (some rest) = some (found ++ rest)

unfoldable pub refs_from : ℕ → List ℕ → Option (List Ref)
unfolding ref_at join
refs_from site [] = some []
refs_from site (v ∷ []) = some []
refs_from site (v ∷ operand ∷ ws) =
    join (ref_at site v operand) (refs_from (suc site) (operand ∷ ws))

unfoldable pub refs : Rom → Option (List Ref)
unfolding refs_from
refs rom = refs_from rom.base rom.w
