-- ===== src/Clients/ScriptTests.antt =====
-- A scenario of tools/server_diff.py at the server.
use fujinet_intv_golf.Base.{
  Bool, ℕ, ◌≡◌, refl, ◌==◌, false, true, ◌&&◌, List, [], ◌∷◌, none, some, same, if◌then◌else◌,
}
use fujinet_intv_golf.Base.Texts.{codes}
use fujinet_intv_golf.Base.Assoc.{insert, lookup}
use fujinet_intv_golf.Wire.{
  Text, all_name_chars, decode_ascii, is_ascii, is_name_char, is_valid_name, ljust8, rstrip,
}
use fujinet_intv_golf.Relay.Outcome.{Outcome, returned, raised, out_of_fuel}
use fujinet_intv_golf.Relay.World.{World}
use fujinet_intv_golf.Relay.Service.{
  accept, count_ip, on_ready, read_if, serve, serve_frame, serve_from, service, step,
}
use fujinet_intv_golf.Relay.Handlers.{
  admit, go_seat, handle, is_closed, is_unjoinable, join_room, listed, lobby_entries, on_go,
  on_hello, on_join, on_list, on_relay, relay, replace_old, room_of, send_start, start_room,
  status_in,
}
use fujinet_intv_golf.Relay.Output.{
  all_bytes, each_member, flush, flush_from, frame, on_sent, pad_name, pads, room_broadcast, roster,
  to_bytes,
}
use fujinet_intv_golf.Relay.Output
use fujinet_intv_golf.Relay.Worlds.{os_up, start}
use fujinet_intv_golf.Clients.Diff.{
  diff_frame, frames_from, frames_of, render, render_all, line_and, record_client,
}
use fujinet_intv_golf.Clients.Script.{
  hello_as, Recorded, deliver, send_as, close_as, arrived, at_end, drain_peer, sync_entry, play,
}
use fujinet_intv_golf.Clients.Script.Scenarios.{
  agreed_rounds, connect_each, dribble, half_reports, join_nobody, range, s1_roster_order, s2_rooms,
  s2_third, s3_go_start, s4_relay_crc, s5_drop_matrix, s6_framing, s7_limits, three_lists,
}
use fujinet_intv_golf.Clients.Script.VersionOne.{
  agreed_pairs, scenarios, unanswered, v1_drops, v1_pairing, v1_relay_crc, v1_roster_order,
}
use fujinet_intv_golf.Clients.Script.Choice.{
  chosen, unknown_scenario, choose, default_order, first_unknown, script_of,
}
use fujinet_intv_golf.Clients.Script.Served.{all_sendable}

-- The labels of those that get something in a step.
abbrev heard_by : ℕ → List Recorded → List Text
heard_by n [] = []
heard_by n (e ∷ es) =
    let rest = heard_by n es in
    if n == e.step_number
    then (elim e.lines [ none ↦ rest | some [] ↦ rest | some (l ∷ ls) ↦ e.who ∷ rest ])
    else rest

abbrev entries_after : Outcome World (List Recorded) → List Recorded
entries_after (returned es w) = es
entries_after (raised e w) = []
entries_after out_of_fuel = []

abbrev transcript : List Recorded
transcript = entries_after (play os_up 2 (s3_go_start 2) [] 0 start)

-- As the scenario says: a GO is ignored without a room, from a guest, and in a started room, and
-- both players get START.
transcript_lem :
    (heard_by 3 transcript ≡ [])
    × (heard_by 4 transcript ≡ codes "ALICE" ∷ codes "BOB" ∷ [])
    × (heard_by 5 transcript ≡ [])
    × (heard_by 6 transcript ≡ codes "ALICE" ∷ codes "BOB" ∷ [])
    × (heard_by 7 transcript ≡ [])
    × (heard_by 9 transcript ≡ codes "CAROL" ∷ [])
    × (heard_by 10 transcript ≡ codes "ALICE" ∷ [])
unfolding s3_go_start hello_as diff_frame ljust8 play deliver send_as close_as arrived at_end
    drain_peer sync_entry record_client frames_of frames_from render render_all line_and insert
    lookup same admit go_seat handle is_closed is_unjoinable join_room listed lobby_entries on_go
    on_hello on_join on_list on_relay relay replace_old room_of send_start start_room status_in
    all_bytes each_member flush flush_from frame on_sent pad_name pads room_broadcast roster
    Output.send to_bytes accept count_ip on_ready read_if serve serve_frame serve_from service step
    all_name_chars decode_ascii is_ascii is_name_char is_valid_name rstrip
transcript_lem = (refl, refl, refl, refl, refl, refl, refl)

-- Each name of the order has a script, whose frames can be built.
abbrev are_playable : ℕ → ℕ → List Text → Bool
are_playable proto seats [] = true
are_playable proto seats (n ∷ names) =
    let rest = are_playable proto seats names in
    elim (script_of proto seats n) [ none ↦ false | some acts ↦ all_sendable acts && rest ]

-- Without `--scenario` all names are known and all scripts can be played, for both protocols.
default_order_lem :
    (choose 2 4 [] ≡ chosen (default_order 2))
    × (choose 1 4 [] ≡ chosen (default_order 1))
    × (choose 2 4 (codes "tempo" ∷ []) ≡ unknown_scenario (codes "tempo"))
    × (are_playable 2 4 (default_order 2) ≡ true)
    × (are_playable 1 4 (default_order 1) ≡ true)
unfolding choose default_order first_unknown script_of scenarios lookup same hello_as diff_frame
    ljust8 range agreed_rounds half_reports dribble three_lists join_nobody s1_roster_order s2_third
    s2_rooms s3_go_start s4_relay_crc s5_drop_matrix s6_framing connect_each s7_limits agreed_pairs
    unanswered v1_roster_order v1_pairing v1_relay_crc v1_drops
default_order_lem = (refl, refl, refl, refl, refl)
