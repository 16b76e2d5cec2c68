-- ===== src/Clients/IdlersTests.antt =====
-- test/lobby_idlers.py on short runs.
use fujinet_intv_golf.Base.{
  ℕ, ◌≡◌, refl, true, false, List, [], ◌∷◌, ◌++◌, Option, none, some, same,
}
use fujinet_intv_golf.Base.Texts.{codes}
use fujinet_intv_golf.Base.Assoc.{insert, lookup}
use fujinet_intv_golf.Wire.{Bytes, Text, ljust8}
use fujinet_intv_golf.Clients.Sim.{client_frame, strip_zeros}
use fujinet_intv_golf.Clients.Idlers.{
  IdlerOptions, Idlers, ask_list, find_goer, fire_go, hunt, hunter, idle_round, idler_frames,
  idler_sends, is_named, last_name, on_idler_frame, on_lobby_frame, on_room, pair_up, read_all,
  say_hello, start_idlers, starts_with,
}

abbrev as_written : Bytes → Text
as_written bytes = bytes

abbrev alpha_and_bravo : IdlerOptions
alpha_and_bravo = record {
  names = codes "ALPHA" ∷ codes "BRAVO" ∷ [];
  is_pair = false;
  go_name = some (codes "ALPHA");
  go_delay = 5;
  join_guest = some (codes "CON");
}

-- A LOBBY frame with a player who cannot be joined and one who can.
abbrev lobby_of_two : Bytes
lobby_of_two =
    20 ∷ 3 ∷ 2 ∷ (codes "CONA" ++ 0 ∷ 0 ∷ 0 ∷ 0 ∷ 0x82 ∷ [])
    ++ (codes "CONB" ++ 0 ∷ 0 ∷ 0 ∷ 0 ∷ 1 ∷ [])

-- What is sent in a round, at a time, after what was sent before.
abbrev sent_in : ℕ → List (Text × Option Bytes) → Idlers → Option (List (Text × Bytes))
sent_in now reads s =
    elim (idle_round alpha_and_bravo as_written now reads (record s { sent = [] })) [
      | none ↦ none
      | some more ↦ some more.sent
    ]

-- The last client passes over who cannot be joined; the goer starts its room after the delay.
idle_round_lem :
    (elim (start_idlers alpha_and_bravo) [
      | none ↦ none
      | some s ↦ sent_in 0 ((codes "BRAVO", some lobby_of_two) ∷ []) s
    ]
      ≡ some ((codes "BRAVO", 9 ∷ 4 ∷ (codes "CONB" ++ 0 ∷ 0 ∷ 0 ∷ 0 ∷ [])) ∷ []))
    × (elim (start_idlers alpha_and_bravo) [
      | none ↦ none
      | some s ↦ sent_in 6 [] (record s { go_at = some 6; is_joined = true })
    ]
        ≡ some ((codes "ALPHA", 1 ∷ 15 ∷ []) ∷ []))
unfolding start_idlers say_hello pair_up find_goer idler_sends client_frame insert lookup same
    last_name hunter is_named starts_with strip_zeros hunt on_lobby_frame on_room on_idler_frame
    idler_frames read_all fire_go ask_list idle_round ljust8
idle_round_lem = (refl, refl)
