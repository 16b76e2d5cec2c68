-- ===== src/Tools/Tests.antt =====
-- The tools on a ROM of three words with one patch.
use fujinet_intv_golf.Base.{◌↔◌, ℕ, ◌≡◌, refl, true, [], ◌∷◌, some}
use fujinet_intv_golf.Wire.{Bytes}
use fujinet_intv_golf.Tools.Words.{first_words, words}
use fujinet_intv_golf.Tools.DumpRom.{
  Patches, dump_from, line_cells, rom_cells, dump_from-line_cells,
}
use fujinet_intv_golf.Tools.CheckPatch.{base_addr, check_patch, AgreesOutside, check_patch_iff}

abbrev patches : Patches
patches = (0x5001, 88 ∷ []) ∷ []

abbrev old : ℕ
old = 0x304

abbrev new : ℕ
new = 0x707

abbrev original : Bytes
original = 1 ∷ 2 ∷ 3 ∷ 4 ∷ 5 ∷ 6 ∷ []

abbrev hooked : Bytes
hooked = 1 ∷ 2 ∷ 7 ∷ 7 ∷ 5 ∷ 6 ∷ 9 ∷ 9 ∷ []

dump_from-line_cells_example :
    line_cells (dump_from patches base_addr [] (0x102 ∷ 0x304 ∷ 0x506 ∷ []))
    ≡ rom_cells patches base_addr (0x102 ∷ 0x304 ∷ 0x506 ∷ [])
dump_from-line_cells_example = dump_from-line_cells patches base_addr (0x102 ∷ 0x304 ∷ 0x506 ∷ [])

check_patch_iff_example :
    (check_patch patches original hooked ≡ some true)
    ↔ AgreesOutside patches base_addr (0x102 ∷ 0x304 ∷ 0x506 ∷ []) (0x102 ∷ 0x707 ∷ 0x506 ∷ [])
unfolding words first_words
check_patch_iff_example =
    check_patch_iff patches original hooked (0x102 ∷ 0x304 ∷ 0x506 ∷ [])
      (0x102 ∷ 0x707 ∷ 0x506 ∷ []) refl refl
