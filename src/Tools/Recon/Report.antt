-- ===== src/Tools/Recon/Report.antt =====
-- `report` of tools/recon.py, as the data of the lines that it prints.
pub mod Walk
pub mod Total
pub mod Sites
use mathlib.Core.Option
use fujinet_intv_golf.Base.{
  ℕ, zero, suc, ◌+◌, ◌*◌, ◌-◌, ◌/◌, ◌≤◌, ◌<◌, ◌≡◌, refl, bit_or, bit_and, Bool, true, false, not,
  ◌&&◌, ◌||◌, List, [], ◌∷◌, ◌++◌, map, Option, none, some, leb, ltb, ◌==◌, if◌then◌else◌, length,
  get_elem?, keep_if, is_empty, contains, same, take,
}
use fujinet_intv_golf.Base.NatMap
use fujinet_intv_golf.Base.Texts.{codes}
use fujinet_intv_golf.Tools.Recon.Names.{rng_calls, timer_calls, cells, name_of, disp}
use fujinet_intv_golf.Wire.{Bytes}
use fujinet_intv_golf.Tools.Recon.{Rom, load, has, word_at, ptr, Call, jsrs, Ref, refs}

pub record Header : Type 0 where
  pub tbl : ℕ
  pub start : ℕ
  pub gram : ℕ

unfoldable pub header_of : Option ℕ → Option ℕ → Option ℕ → Option Header
header_of none start gram = none
header_of (some tbl) none gram = none
header_of (some tbl) (some start) none = none
header_of (some tbl) (some start) (some gram) =
    some (record { tbl = tbl; start = start; gram = gram })

unfoldable pub header : Rom → Option Header
unfolding header_of
header rom = header_of (ptr rom (rom.base + 2)) (ptr rom (rom.base + 4)) (ptr rom (rom.base + 8))

-- A line and the lines after it, if there is no IndexError in either.
unfoldable pub cons_ok : {A : Type 0} → Option A → Option (List A) → Option (List A)
cons_ok none rest = none
cons_ok (some x) none = none
cons_ok (some x) (some rest) = some (x ∷ rest)

unfoldable pub display_line : ℕ → List ℕ → Option ℕ → Option (ℕ × ℕ × List ℕ)
display_line addr what none = none
display_line addr what (some v) = some (addr, v, what)

-- The words at the offsets.
unfoldable pub display_state : Rom → List (ℕ × List ℕ) → Option (List (ℕ × ℕ × List ℕ))
unfolding cons_ok display_line
display_state rom [] = some []
display_state rom ((off, what) ∷ offs) =
    cons_ok (display_line (rom.base + off) what (word_at rom (rom.base + off)))
      (display_state rom offs)

-- A line of the timer table; the rate and the period that are printed too are quotients of `iv`.
pub record TimerEntry : Type 0 where
  pub number : ℕ
  pub addr : ℕ
  pub interval : ℕ
  pub stopped : Bool
  pub iv : ℕ

abbrev pub entry_of : ℕ → ℕ → ℕ → TimerEntry
entry_of n addr interval = record {
  number = n;
  addr = addr;
  interval = interval;
  stopped = not (bit_and interval 0x8000 == 0);
  iv = bit_and interval 0x7FFF;
}

-- One round of the loop over the table, with the rounds after it.
unfoldable pub entry_or_stop :
    ℕ → Option ℕ → Option ℕ → Option (List TimerEntry) → Option (List TimerEntry)
unfolding cons_ok
entry_or_stop n none interval rest = none
entry_or_stop n (some addr) none rest = none
entry_or_stop n (some addr) (some interval) rest =
    if addr == 0 then some [] else cons_ok (some (entry_of n addr interval)) rest

-- The loop, on fuel: none is an IndexError, or too little fuel.
unfoldable pub walk : Rom → ℕ → ℕ → ℕ → Option (List TimerEntry)
unfolding entry_or_stop
walk rom zero a n = none
walk rom (suc fuel) a n =
    if has rom (a + 3)
    then entry_or_stop n (ptr rom a) (ptr rom (a + 2)) (walk rom fuel (a + 4) (suc n))
    else some []

-- `none` in the result says that the table is outside of the image.
unfoldable pub timer_table : Rom → ℕ → Option (Option (List TimerEntry))
unfolding walk
timer_table rom tbl =
    if not (has rom tbl)
    then some none
    else Option.map (λ es. some es) (walk rom (suc (length rom.w)) tbl 0)

-- `exec_calls.get(tgt, [])`, and what `exec_calls.setdefault(tgt, [])` returns.
unfoldable pub sites_or_empty : Option (List ℕ) → List ℕ
sites_or_empty none = []
sites_or_empty (some sites) = sites

-- `exec_calls`: the sites of each target that is below the cartridge.
unfoldable pub add_call : ℕ → Call → List (ℕ × List ℕ) → List (ℕ × List ℕ)
unfolding sites_or_empty
add_call base c d =
    if ltb c.tgt base
    then NatMap.insert c.tgt (sites_or_empty (NatMap.lookup c.tgt d) ++ c.site ∷ []) d
    else d

unfoldable pub exec_calls_from : ℕ → List Call → List (ℕ × List ℕ) → List (ℕ × List ℕ)
unfolding add_call
exec_calls_from base [] d = d
exec_calls_from base (c ∷ cs) d = exec_calls_from base cs (add_call base c d)

unfoldable pub exec_calls : Rom → List (ℕ × List ℕ)
unfolding exec_calls_from
exec_calls rom = exec_calls_from rom.base (jsrs rom) []

-- A stable sort, by a test of what may stand before what.
unfoldable pub insert_by : {A : Type 0} → (A → A → Bool) → A → List A → List A
insert_by before x [] = x ∷ []
insert_by before x (y ∷ ys) = if before x y then x ∷ y ∷ ys else y ∷ insert_by before x ys

unfoldable pub sort_by : {A : Type 0} → (A → A → Bool) → List A → List A
unfolding insert_by
sort_by before [] = []
sort_by before (x ∷ xs) = insert_by before x (sort_by before xs)

-- A line per site: the site, the target and its name.
abbrev pub lines_of : ℕ → List ℕ → List (ℕ × ℕ × List ℕ)
lines_of tgt sites = map (λ s. (s, tgt, name_of tgt)) sites

unfoldable pub call_lines : List (ℕ × List ℕ) → List (ℕ × ℕ × List ℕ)
call_lines [] = []
call_lines ((tgt, sites) ∷ d) = lines_of tgt sites ++ call_lines d

-- The keys are distinct, so that their order is that of the pairs.
unfoldable pub rng_lines : List (ℕ × List ℕ) → List (ℕ × ℕ × List ℕ)
unfolding call_lines sort_by
rng_lines calls =
    call_lines (sort_by (λ x y. leb x.0 y.0) (keep_if (λ e. contains rng_calls e.0) calls))

unfoldable pub timer_lines : List ℕ → List (ℕ × List ℕ) → List (ℕ × ℕ × List ℕ)
unfolding sites_or_empty
timer_lines [] calls = []
timer_lines (tgt ∷ tgts) calls =
    lines_of tgt (sites_or_empty (NatMap.lookup tgt calls)) ++ timer_lines tgts calls

-- The cells that the ROM refers to, each with what it is and the references.
unfoldable pub cell_lines : List (ℕ × List ℕ) → List Ref → List (ℕ × List ℕ × List Ref)
cell_lines [] found = []
cell_lines ((cell, what) ∷ others) found =
    let hits = keep_if (λ r. r.operand == cell) found in
    let rest = cell_lines others found in if is_empty hits then rest else (cell, what, hits) ∷ rest

abbrev pub is_store : Ref → Bool
is_store r = same r.op (codes "MVO")

pub record Report : Type 0 where
  pub word_count : ℕ
  pub header : Header
  pub display : List (ℕ × ℕ × List ℕ)
  pub timers : Option (List TimerEntry)
  pub rng : List (ℕ × ℕ × List ℕ)
  pub timer_sites : List (ℕ × ℕ × List ℕ)
  pub cell_refs : List (ℕ × List ℕ × List Ref)
  pub stic : List Ref
  pub gram_writes : ℕ
  pub top : List (ℕ × List ℕ)

-- All that is printed, once nothing has failed.
unfoldable pub build :
    Rom → Header → List (ℕ × ℕ × List ℕ) → Option (List TimerEntry) → List Ref → Report
unfolding exec_calls rng_lines timer_lines cell_lines
build rom h display timers found =
    let calls = exec_calls rom in
    record {
      word_count = length rom.w;
      header = h;
      display = display;
      timers = timers;
      rng = rng_lines calls;
      timer_sites = timer_lines timer_calls calls;
      cell_refs = cell_lines cells found;
      stic = keep_if (λ r. is_store r && leb r.operand 0x003F) found;
      gram_writes =
          length
            (keep_if (λ r. is_store r && (leb 0x3800 r.operand && leb r.operand 0x39FF)) found);
      top = take 8 (sort_by (λ x y. leb (length y.1) (length x.1)) calls);
    }

unfoldable pub report_of :
    Rom
    → Option Header
    → Option (List (ℕ × ℕ × List ℕ))
    → Option (Option (List TimerEntry))
    → Option (List Ref)
    → Option Report
unfolding build
report_of rom none display timers found = none
report_of rom (some h) none timers found = none
report_of rom (some h) (some display) none found = none
report_of rom (some h) (some display) (some timers) none = none
report_of rom (some h) (some display) (some timers) (some found) =
    some (build rom h display timers found)

-- The timer table is looked for where the header says.
unfoldable pub timers_at : Rom → Option Header → Option (Option (List TimerEntry))
unfolding timer_table
timers_at rom none = none
timers_at rom (some h) = timer_table rom h.tbl

-- `report`: none is an exception.
unfoldable pub report : Bytes → ℕ → Option Report
unfolding report_of header display_state timers_at
report image base =
    let rom = load image base in
    report_of rom (header rom) (display_state rom disp) (timers_at rom (header rom)) (refs rom)
