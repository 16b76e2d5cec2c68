-- ===== src/Tools/RunTests.antt =====
-- The tools that read the dumps of runs, on small dumps, and the port's own patches.
use fujinet_intv_golf.Base.{
  contains, ℕ, ◌-◌, ◌/◌, ◌%◌, ◌≤◌, ◌<◌, ◌≡◌, ◌≢◌, ◌⊎◌, refl, Bool, true, false, ◌&&◌, List, [], ◌∷◌,
  none, some, arith, leb, ◌==◌, if◌then◌else◌, length, replicate, get_elem?,
}
use fujinet_intv_golf.Base.NatMap
use fujinet_intv_golf.Wire.{Bytes}
use fujinet_intv_golf.Tools.DumpRom.{dump_rom}
use fujinet_intv_golf.Tools.CheckPatch.{base_addr}
use fujinet_intv_golf.Tools.Patches.{patch_map, is_some-dump_rom}
use fujinet_intv_golf.Relay.Handlers.{is_some}
use fujinet_intv_golf.Tools.Dump.{Mem, parse}
use fujinet_intv_golf.Tools.Dump.Lines.{print_line, shown, parse-print_line}
use fujinet_intv_golf.Tools.CellDiff.{insert_sorted, sorted, common, unequal, differs, cell_diff}
use fujinet_intv_golf.Tools.TraceDiff.{
  pair_at, compare_sums, scan_slot, add_round, scan_slots, settled, determinism_pass, conclude,
  compare_rings, compare_parks, trace_diff,
}
use fujinet_intv_golf.Tools.TraceDiff.Ring.{SlotAgrees}
use fujinet_intv_golf.Tools.TraceDiff.Cells.{settled-cell_diff}
use fujinet_intv_golf.Tools.TraceDiff.Passes.{trace_diff_pass}
use fujinet_intv_golf.Tools.DestPhase.{
  gf_htbl_prompt, gf_htbl_live, table_of, is_table, check_player_count, check_table, check_hole,
  is_set, any_cell, unless_set, check_objects, check_cells, check, check_pass,
}

abbrev image : Bytes
image = replicate 0x17E2 7

is_some-dump_rom_example :
    is_some (dump_rom patch_map base_addr image)
    ≡ (length image % 2 == 0 && leb 0xBF1 (length image / 2))
is_some-dump_rom_example = is_some-dump_rom image

abbrev shown_words : List (ℕ × Bool)
shown_words = (0x12AB, true) ∷ (0x40, false) ∷ []

parse-print_line_example :
    (mem : Mem) × (parse (print_line 0x9000 shown_words ∷ []) ≡ some mem)
    × (NatMap.lookup 0x9001 mem ≡ (
        if leb 0x9000 0x9001 then shown (get_elem? shown_words (0x9001 - 0x9000)) none else none))
parse-print_line_example =
    parse-print_line 0x9000 0x9001 shown_words (omega arith) (omega arith, (omega arith, tt))

-- Two runs parked at tick 2; one has a ring with a slot more.
abbrev run_a : Mem
run_a =
    (0x8108, 2)
    ∷ (0x8109, 0)
    ∷ (0x9000, 7)
    ∷ (0x9001, 1)
    ∷ (0x9002, 8)
    ∷ (0x9003, 1)
    ∷ (0x160, 5)
    ∷ []

abbrev run_b : Mem
run_b = (0x8108, 2) ∷ (0x8109, 0) ∷ (0x9000, 7) ∷ (0x9001, 1) ∷ (0x160, 5) ∷ []

runs_pass : trace_diff run_a run_b ≡ determinism_pass 255
unfolding trace_diff compare_parks compare_rings conclude scan_slots scan_slot add_round
    compare_sums pair_at settled common sorted insert_sorted differs unequal NatMap.lookup
runs_pass = refl

trace_diff_pass_example :
    (tick : ℕ) × (pair_at 0x8108 run_a ≡ some tick)
    × (pair_at 0x8108 run_b ≡ some tick)
    × SlotAgrees run_a run_b 0 255
    × (settled run_a run_b ≡ [])
trace_diff_pass_example = trace_diff_pass run_a run_b 0 255 runs_pass (omega arith)

-- A run on the second hole, with two players.
abbrev played : Mem
played = (0x161, 2) ∷ (0x16C, 2) ∷ (0x80C0, 0xD3) ∷ (0x80C1, 0x51) ∷ (0x320, 9) ∷ []

check-played : check played ≡ []
unfolding check check_cells table_of check_player_count check_table check_hole check_objects
    is_table any_cell is_set unless_set NatMap.lookup
check-played = refl

check_pass_example :
    ((n : ℕ) × (NatMap.lookup 0x161 played ≡ some n) × (1 ≤ n) × (n ≤ 4))
    × (table_of (NatMap.lookup 0x80C0 played) (NatMap.lookup 0x80C1 played) ≢ some gf_htbl_prompt)
    × ((hole : ℕ) × (NatMap.lookup 0x16C played ≡ some hole)
        × ((0 < hole)
            ⊎ (table_of (NatMap.lookup 0x80C0 played) (NatMap.lookup 0x80C1 played)
                ≡ some gf_htbl_live)))
    × ((a v : ℕ) × (0x31D ≤ a) × (a < 0x35D) × (NatMap.lookup a played ≡ some v) × (0 < v))
check_pass_example = check_pass played check-played

-- A session of one tick.
abbrev session : Mem
session = (0x8108, 1) ∷ (0x9000, 0x42) ∷ (0x9001, 0x40) ∷ (0x9002, 3) ∷ (0x9003, 0) ∷ []

-- Two runs that differ in a cell of the scratch memory.
abbrev cell_a : Mem
cell_a = (0x160, 5) ∷ (0x161, 1) ∷ []

abbrev cell_b : Mem
cell_b = (0x160, 5) ∷ (0x161, 2) ∷ []

reported : contains (settled cell_a cell_b) 0x161 ≡ true
unfolding settled common sorted insert_sorted differs unequal NatMap.lookup
reported = refl

settled-cell_diff_example : contains (cell_diff cell_a cell_b) 0x161 ≡ true
settled-cell_diff_example = settled-cell_diff cell_a cell_b 0x161 reported
