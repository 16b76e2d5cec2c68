-- ===== src/Tools/Recon/Tests.antt =====
-- The reconnaissance of a ROM of 24 words: a timer table with one entry, and a call to X_RAND1.
use fujinet_intv_golf.Base.{
  ℕ, ◌+◌, ◌*◌, ◌/◌, ◌%◌, ◌≤◌, ◌<◌, ◌≡◌, ◌≢◌, ◌↔◌, refl, false, List, [], ◌∷◌, some, arith, ◌==◌,
  length, get_elem?, drop,
}
use fujinet_intv_golf.Base.NatMap
use fujinet_intv_golf.Wire.{Bytes}
use fujinet_intv_golf.Tools.Recon.{
  Rom, words, load, word_at, pair, ptr, Call, jsr_at, jsrs_from, jsrs, Ref, ref_mode, ref_op,
  ref_at, join, refs_from, refs,
}
use fujinet_intv_golf.Tools.Recon.Calls.{second_word, jsrs-encoded, encoded-jsrs}
use fujinet_intv_golf.Tools.Recon.Names.{name_of}
use fujinet_intv_golf.Tools.Recon.Report.{
  cons_ok, entry_or_stop, walk, TimerEntry, timer_table, Report, report,
}
use fujinet_intv_golf.Tools.Recon.Report.Walk.{timer_table_entries}
use fujinet_intv_golf.Tools.Recon.Report.Total.{report_total}
use fujinet_intv_golf.Tools.Recon.Report.Sites.{report_rng}

-- The table is at 0x5014; the call, `JSR R5, $167D`, is at 0x500A, and after it an `MVI $0120, R1`.
abbrev image : Bytes
image =
    0 ∷ 1 ∷ 0 ∷ 2 ∷ 0 ∷ 0x14 ∷ 0 ∷ 0x50 ∷ 0 ∷ 9 ∷ 0 ∷ 0x50 ∷ 0 ∷ 7 ∷ 0 ∷ 8 ∷ 0 ∷ 9 ∷ 0 ∷ 0x50 ∷ 0
    ∷ 4 ∷ 1 ∷ 0x14 ∷ 2 ∷ 0x7D ∷ 2 ∷ 0x81 ∷ 1 ∷ 0x20 ∷ 0 ∷ 0 ∷ 0 ∷ 1 ∷ 0 ∷ 2 ∷ 0 ∷ 3 ∷ 0 ∷ 4 ∷ 0
    ∷ 0x10 ∷ 0 ∷ 0x60 ∷ 0 ∷ 4 ∷ 0 ∷ 0 ∷ []

abbrev rom : Rom
rom = load image 0x5000

abbrev call : Call
call = record { site = 0x500A; reg = 5; tgt = 0x167D }

-- The scan is linear: it takes the call's last word for an opcode.
abbrev found_refs : List Ref
found_refs =
    record { site = 0x500D; op = 77 ∷ 86 ∷ 79 ∷ 73 ∷ []; reg = 5; operand = 0x281 }
    ∷ record { site = 0x500E; op = 77 ∷ 86 ∷ 73 ∷ []; reg = 1; operand = 0x120 }
    ∷ []

abbrev after_call : List ℕ
after_call = 0x281 ∷ 0x120 ∷ 0 ∷ 1 ∷ 2 ∷ 3 ∷ 4 ∷ 0x10 ∷ 0x60 ∷ 4 ∷ 0 ∷ []

call_encoded : drop 10 rom.w ≡ 4 ∷ second_word 1 0x167D 0 ∷ 0x167D % 1024 ∷ after_call
unfolding words
call_encoded = refl

jsrs-encoded_example : (k : ℕ) × (get_elem? (jsrs rom) k ≡ some call)
jsrs-encoded_example =
    jsrs-encoded rom 10 1 0x167D 0 after_call call_encoded (omega arith) (omega arith) (omega arith)

-- A ROM with nothing but the call.
abbrev call_only : Rom
call_only = record { base = 0x5000; w = 4 ∷ 0x114 ∷ 0x27D ∷ []; end_addr = 0x5003 }

abbrev first_call : Call
first_call = record { site = 0x5000; reg = 5; tgt = 0x167D }

first_listed : get_elem? (jsrs call_only) 0 ≡ some first_call
unfolding jsrs jsrs_from jsr_at
first_listed = refl

encoded-jsrs_example :
    (i r ff : ℕ) × (rest : List ℕ) × (drop i call_only.w
      ≡ 4 ∷ second_word r 0x167D ff ∷ 0x167D % 1024 ∷ rest)
    × (0x5000 ≡ 0x5000 + i)
    × (5 ≡ 4 + r)
    × (r < 4)
    × (0x167D < 65536)
    × (ff < 4)
encoded-jsrs_example =
    encoded-jsrs call_only 0 first_call (omega arith, (omega arith, (omega arith, tt))) first_listed

refs_found : refs rom ≡ some found_refs
unfolding refs refs_from ref_at ref_op ref_mode join words NatMap.lookup
refs_found = refl

abbrev entry : TimerEntry
entry = record { number = 0; addr = 0x6010; interval = 4; stopped = false; iv = 4 }

table_read : timer_table rom 0x5014 ≡ some (some (entry ∷ []))
unfolding timer_table walk entry_or_stop cons_ok ptr pair word_at words
table_read = refl

timer_table_entries_example :
    (entry.number ≡ 0)
    × (entry.addr ≢ 0)
    × (ptr rom (0x5014 + 0 * 4) ≡ some 0x6010)
    × (ptr rom (0x5014 + 0 * 4 + 2) ≡ some 4)
    × (0x5014 + 0 * 4 + 3 < rom.end_addr)
    × (entry.iv ≡ 4 % 32768)
    × (entry.stopped ≡ (4 / 32768 % 2 == 1))
timer_table_entries_example = timer_table_entries rom 0x5014 (entry ∷ []) 0 entry table_read refl

report_total_example :
    ((out : Report) × (report image 0x5000 ≡ some out)) ↔ (20 ≤ length (words image))
report_total_example = report_total image 0x5000

long_enough : 20 ≤ length (words image)
unfolding words
long_enough = omega arith

made : (out : Report) × (report image 0x5000 ≡ some out)
made = (report_total image 0x5000).1 long_enough

report_rng_example : (k : ℕ) × (get_elem? made.0.rng k ≡ some (0x5000 + 10, 0x167D, name_of 0x167D))
report_rng_example =
    report_rng image 0x5000 made.0 10 1 0x167D 0 after_call made.1 call_encoded (omega arith)
      (omega arith) refl (omega arith)
