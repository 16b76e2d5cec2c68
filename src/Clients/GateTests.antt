-- ===== src/Clients/GateTests.antt =====
-- The scenarios of tools/bbnet_client_sim.py at this repository's server.
use fujinet_intv_golf.Base.{◌≡◌, refl, Bool, false, true, [], Option, none, some, same}
use fujinet_intv_golf.Base.Texts.{codes}
use fujinet_intv_golf.Base.Assoc.{insert, lookup}
use fujinet_intv_golf.Wire.{
  Bytes, Text, all_name_chars, decode_ascii, is_ascii, is_name_char, is_valid_name, ljust8, rstrip,
}
use fujinet_intv_golf.Relay.Service.{
  accept, count_ip, on_ready, read_if, serve, serve_frame, serve_from, service, step,
}
use fujinet_intv_golf.Relay.Handlers.{
  admit, go_seat, handle, is_closed, is_unjoinable, join_room, listed, lobby_entries, on_go,
  on_hello, on_join, on_list, on_relay, relay, replace_old, room_of, send_start, start_room,
  status_in,
}
use fujinet_intv_golf.Relay.Output.{
  all_bytes, each_member, flush, flush_from, frame, on_sent, pad_name, pads, room_broadcast, roster,
  to_bytes,
}
use fujinet_intv_golf.Relay.Output
use fujinet_intv_golf.Relay.Worlds.{os_up, start}
use fujinet_intv_golf.Clients.Sim
use fujinet_intv_golf.Clients.Gate
use fujinet_intv_golf.Clients.Sim.{
  and_names, client_frame, expect_type, names_from, recv_frame, roster_names, split_body,
  strip_zeros, take_frame, total,
}
use fujinet_intv_golf.Clients.Gate.{
  Stage, G, chunks_for, cli, expect_silence, expects, give_bytes, hang_up, receive, replace, settle,
  start_server, tell, wire_length,
}
use fujinet_intv_golf.Clients.Gate.Main.{
  arrivals, counting, crc_frame, is_refusal, is_status, joins, one_more, one_seed, room_shown,
  sees_crcs, starts_shown, status_shown,
}
use fujinet_intv_golf.Clients.Gate.Match.{
  crc_round, gate, guest_leaves, joins_alice, plays, scenario_main, match_starts, walks_out,
}
use fujinet_intv_golf.Relay.Crc
use fujinet_intv_golf.Base.NatMap
use fujinet_intv_golf.Clients.Gate.Scenarios.{
  all_clis, equal_names, input_to_others, join_frame, enumerated, roster_starts, scenario_autogo,
  scenario_full, player_names, start_or, starts_all, until_start,
}

-- `decode` of names that are ASCII.
abbrev as_text : Bytes → Option Text
as_text bytes = some bytes

abbrev passes : G (Unit {0}) → Bool
passes scenario = elim (scenario (record { server = start; consoles = [] })) [
  | none ↦ false
  | some _ ↦ true
]

-- The scenario of a match that starts by itself passes.
scenario_autogo_lem : passes (scenario_autogo os_up) ≡ true
unfolding scenario_autogo start_server cli expects tell hang_up join_frame client_frame ljust8
    receive expect_type give_bytes chunks_for settle replace recv_frame wire_length total split_body
    take_frame Sim.ready insert lookup same admit go_seat handle is_closed is_unjoinable join_room
    listed lobby_entries on_go on_hello on_join on_list on_relay relay replace_old room_of
    send_start start_room status_in all_bytes each_member flush flush_from frame on_sent pad_name
    pads room_broadcast roster Output.send Output.drop_client Output.drop_body Output.leave_if
    Output.leave_room Output.close_seat Output.end_match Output.dissolve Output.for_each to_bytes
    accept count_ip on_ready read_if serve serve_frame serve_from service step all_name_chars
    decode_ascii is_ascii is_name_char is_valid_name rstrip
scenario_autogo_lem = refl

-- The scenario of a full match passes with two seats and with four.
scenario_full_lem :
    (passes (scenario_full os_up as_text 2) ≡ true)
    × (passes (scenario_full os_up as_text 4) ≡ true)
unfolding scenario_full start_server cli expects tell hang_up join_frame client_frame ljust8 receive
    expect_type give_bytes chunks_for settle replace recv_frame wire_length total split_body
    take_frame Sim.ready insert all_clis equal_names input_to_others enumerated roster_starts
    player_names start_or starts_all until_start expect_silence and_names names_from roster_names
    strip_zeros lookup same admit go_seat handle is_closed is_unjoinable join_room listed
    lobby_entries on_go on_hello on_join on_list on_relay relay replace_old room_of send_start
    start_room status_in all_bytes each_member flush flush_from frame on_sent pad_name pads
    room_broadcast roster Output.send Output.drop_client Output.drop_body Output.leave_if
    Output.leave_room Output.close_seat Output.end_match Output.dissolve Output.for_each to_bytes
    accept count_ip on_ready read_if serve serve_frame serve_from service step all_name_chars
    decode_ascii is_ascii is_name_char is_valid_name rstrip
scenario_full_lem = (refl, refl)

-- The main scenario passes with four seats, which is what the server has, and not with two.
scenario_main_lem :
    (passes (scenario_main os_up as_text 4) ≡ true)
    × (passes (scenario_main os_up as_text 2) ≡ false)
unfolding scenario_main arrivals counting crc_frame is_refusal is_status joins one_more one_seed
    room_shown sees_crcs starts_shown status_shown crc_round guest_leaves joins_alice plays
    match_starts walks_out Gate.ask_lobby Sim.st Sim.lobby_status Sim.status_from Sim.names_match
    Sim.status_or_next start_server cli expects tell hang_up join_frame client_frame ljust8 receive
    expect_type give_bytes chunks_for settle replace recv_frame wire_length total split_body
    take_frame Sim.ready insert all_clis equal_names enumerated roster_starts expect_silence
    and_names names_from roster_names strip_zeros lookup same admit go_seat handle is_closed
    is_unjoinable join_room listed lobby_entries on_go on_hello on_join on_list on_relay relay
    replace_old room_of send_start start_room status_in all_bytes each_member flush flush_from frame
    on_sent pad_name pads room_broadcast roster Output.send Output.drop_client Output.drop_body
    Output.leave_if Output.leave_room Output.close_seat Output.end_match Output.dissolve
    Output.for_each to_bytes accept count_ip on_ready read_if serve serve_frame serve_from service
    step all_name_chars decode_ascii is_ascii is_name_char is_valid_name rstrip Crc.log_crc
    NatMap.insert NatMap.lookup NatMap.pop
scenario_main_lem = (refl, refl)

-- So the whole program fails with the server in Python: it wants two seats then, and stops at four.
gate_lem :
    (elim (gate os_up as_text 2 (codes "py")) [ none ↦ true | some run ↦ passes run ] ≡ false)
    × (elim (gate os_up as_text 4 (codes "py")) [ none ↦ true | some run ↦ passes run ] ≡ true)
unfolding gate scenario_main arrivals counting crc_frame is_refusal is_status joins one_more
    one_seed room_shown sees_crcs starts_shown status_shown crc_round guest_leaves joins_alice plays
    match_starts walks_out Gate.ask_lobby Sim.st Sim.lobby_status Sim.status_from Sim.names_match
    Sim.status_or_next start_server cli expects tell hang_up join_frame client_frame ljust8 receive
    expect_type give_bytes chunks_for settle replace recv_frame wire_length total split_body
    take_frame Sim.ready insert all_clis equal_names enumerated roster_starts expect_silence
    and_names names_from roster_names strip_zeros lookup same admit go_seat handle is_closed
    is_unjoinable join_room listed lobby_entries on_go on_hello on_join on_list on_relay relay
    replace_old room_of send_start start_room status_in all_bytes each_member flush flush_from frame
    on_sent pad_name pads room_broadcast roster Output.send Output.drop_client Output.drop_body
    Output.leave_if Output.leave_room Output.close_seat Output.end_match Output.dissolve
    Output.for_each to_bytes accept count_ip on_ready read_if serve serve_frame serve_from service
    step all_name_chars decode_ascii is_ascii is_name_char is_valid_name rstrip Crc.log_crc
    NatMap.insert NatMap.lookup NatMap.pop
gate_lem = (refl, refl)
