-- ===== src/Tools/Recon/Names.antt =====
-- The tables of tools/recon.py: addresses in the EXEC that matter to a port, and their names.
use fujinet_intv_golf.Base.{ℕ, List, [], ◌∷◌}
use fujinet_intv_golf.Base.NatMap
use fujinet_intv_golf.Base.Texts.{codes}

abbrev pub exec_names : List (ℕ × List ℕ)
exec_names =
    (0x1082, codes "post-title mainline")
    ∷ (0x108F, codes "MAIN LOOP")
    ∷ (0x1126, codes "X_DEF_ISR")
    ∷ (0x11FA, codes "boot/title hand-off")
    ∷ (0x14F1, codes "controller scan entry")
    ∷ (0x1523, codes "controller scan")
    ∷ (0x15F8, codes "handler-table dispatch (jumps into game code)")
    ∷ (0x167D, codes "X_RAND1  ** RNG **")
    ∷ (0x169E, codes "X_RAND2  ** RNG **")
    ∷ (0x17D5, codes "timer-table dispatch pass")
    ∷ (0x1838, codes "X_TIMER_STOP")
    ∷ (0x1844, codes "X_TIMER_START")
    ∷ (0x181E, codes "set timer countdown := interval  ** relocation hazard **")
    ∷ (0x1831, codes "set timer countdown := R0 (music)")
    ∷ (0x1A71, codes "music note timer")
    ∷ (0x1AAD, codes "sound update")
    ∷ (0x1CCE, codes "sound engine RNG caller (churns $035E mid-tick)")
    ∷ (0x1F2F, codes "X_DO_GRAM_INIT")
    ∷ []

abbrev pub rng_calls : List ℕ
rng_calls = 0x167D ∷ 0x169E ∷ []

abbrev pub timer_calls : List ℕ
timer_calls = 0x181E ∷ 0x1831 ∷ 0x1838 ∷ 0x1844 ∷ []

abbrev pub cells : List (ℕ × List ℕ)
cells =
    (0x011F, codes "decoded input, LEFT controller   ** shadow-patch site **")
    ∷ (0x0120, codes "decoded input, RIGHT controller  ** shadow-patch site **")
    ∷ (0x0121, codes "keypad/action state, left")
    ∷ (0x0122, codes "keypad/action state, right")
    ∷ (0x0123, codes "raw port, left")
    ∷ (0x0124, codes "raw port, right")
    ∷ (0x035D, codes "input handler-table pointer      ** phase machine **")
    ∷ (0x035E, codes "EXEC LFSR state  ** must never be sim state **")
    ∷ (0x035F, codes "sound frame counter")
    ∷ []

-- `EXEC_NAMES.get(tgt, '')`
abbrev pub name_of : ℕ → List ℕ
name_of tgt = NatMap.get_or tgt [] exec_names

abbrev pub disp : List (ℕ × List ℕ)
disp =
    (0x0D, codes "border extension")
    ∷ (0x0E, codes "display mode (0=colour stack)")
    ∷ (0x0F, codes "colour stack 0")
    ∷ (0x10, codes "colour stack 1")
    ∷ (0x11, codes "colour stack 2")
    ∷ (0x12, codes "colour stack 3")
    ∷ (0x13, codes "border colour")
    ∷ []
