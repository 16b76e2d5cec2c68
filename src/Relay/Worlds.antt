-- ===== src/Relay/Worlds.antt =====
-- Runs of a server with two clients: they say HELLO, one joins the other, and the match starts.
use fujinet_intv_golf.Base.{
  map, ◌≡◌, refl, false, true, List, [], ◌∷◌, ◌++◌, some, none, arith, length, same,
}
use fujinet_intv_golf.Base.Assoc.{insert, lookup}
use fujinet_intv_golf.Wire.{
  all_name_chars, decode_ascii, is_ascii, is_name_char, is_valid_name, ljust8, rstrip,
}
use fujinet_intv_golf.Relay.Outcome.{Outcome, returned, raised, out_of_fuel}
use fujinet_intv_golf.Relay.World.{World, Os, sent}
use fujinet_intv_golf.Relay.Service.{
  Event, connection, ready, received, new_server, run, accept, count_ip, on_ready, read_if, serve,
  serve_frame, serve_from, service, step,
}
use fujinet_intv_golf.Relay.Handlers.{
  admit, go_seat, handle, is_closed, is_some, is_unjoinable, join_room, listed, lobby_entries,
  on_go, on_hello, on_join, on_list, replace_old, room_of, send_start, start_room, status_in,
  wire_name,
}
use fujinet_intv_golf.Relay.Output.{
  all_bytes, each_member, flush, flush_from, frame, on_sent, pad_name, pads, room_broadcast, roster,
  send, to_bytes,
}
use fujinet_intv_golf.Relay.Invariant.{Inv}
use fujinet_intv_golf.Relay.Loop.{Runs}
use fujinet_intv_golf.Relay.Loop.Run.{new_server-Inv, run-Runs}

-- A system that takes all that it is given, with 0x1234 for every seed.
abbrev pub os_up : Os
os_up = record { send_result = λ _ _ bytes. sent (length bytes); randrange = λ _. 0x1234 }

abbrev pub start : World
start = new_server 3 0 none

-- AA and BB say HELLO.
abbrev pub two_clients : List Event
two_clients =
    connection 1 0
    ∷ connection 1 0
    ∷ ready 0 false (some (received (4 ∷ 1 ∷ 2 ∷ 65 ∷ 65 ∷ [])))
    ∷ ready 1 false (some (received (4 ∷ 1 ∷ 2 ∷ 66 ∷ 66 ∷ [])))
    ∷ []

-- BB joins AA.
abbrev pub one_room : List Event
one_room = two_clients ++ ready 1 false (some (received (3 ∷ 4 ∷ 65 ∷ 65 ∷ []))) ∷ []

abbrev pub world_after : Outcome World (Unit {0}) → World
world_after (returned _ w) = w
world_after (raised e w) = w
world_after out_of_fuel = start

-- AA starts the match.
abbrev pub two_players : List Event
two_players = one_room ++ ready 0 false (some (received (1 ∷ 15 ∷ []))) ∷ []

unfoldable pub lobby : World
lobby = world_after (run os_up two_clients start)

unfoldable pub forming : World
forming = world_after (run os_up one_room start)

unfoldable pub playing : World
playing = world_after (run os_up two_players start)

pub Runs-Inv : (w : World) (o : Outcome World (Unit {0})) → Runs w o → Inv (world_after o)
Runs-Inv w (returned _ u) h = h.0
Runs-Inv w (raised e u) h = absurd h
Runs-Inv w out_of_fuel h = absurd h

pub lobby-Inv : Inv lobby
unfolding lobby
lobby-Inv = Runs-Inv start (run os_up two_clients start) (
    run-Runs os_up (λ _. omega arith) two_clients start (tt, (tt, (tt, (tt, tt)))) (omega arith)
      (new_server-Inv 3 0 none tt))

pub forming-Inv : Inv forming
unfolding forming
forming-Inv = Runs-Inv start (run os_up one_room start) (
    run-Runs os_up (λ _. omega arith) one_room start (tt, (tt, (tt, (tt, (tt, tt))))) (omega arith)
      (new_server-Inv 3 0 none tt))

pub playing-Inv : Inv playing
unfolding playing
playing-Inv = Runs-Inv start (run os_up two_players start) (
    run-Runs os_up (λ _. omega arith) two_players start (tt, (tt, (tt, (tt, (tt, (tt, tt))))))
      (omega arith) (new_server-Inv 3 0 none tt))

-- Two clients without a room.
pub record Met (w : World) : Type 0 where
  pub known : w.next_client ≡ 2
  pub slow : w.delay ≡ 3
  pub alive_a : w.dead 0 ≡ false
  pub alive_b : w.dead 1 ≡ false
  pub idle_a : w.tx 0 ≡ []
  pub idle_b : w.tx 1 ≡ []
  pub alone_a : w.room 0 ≡ none
  pub alone_b : w.room 1 ≡ none
  pub named_b : is_some (w.name 1) ≡ true
  pub finds_a : lookup (wire_name (65 ∷ 65 ∷ [])) w.by_name ≡ some 0
  pub finds_none : lookup (wire_name (67 ∷ 67 ∷ [])) w.by_name ≡ none

-- A room of two.
pub record Together (w : World) : Type 0 where
  pub seated : w.members 0 ≡ 0 ∷ 1 ∷ []
  pub room_a : w.room 0 ≡ some 0
  pub slow : w.delay ≡ 3
  pub alive_a : w.dead 0 ≡ false
  pub alive_b : w.dead 1 ≡ false
  pub idle_a : w.tx 0 ≡ []
  pub idle_b : w.tx 1 ≡ []

pub lobby-Met : Met lobby
unfolding lobby run insert lookup same admit go_seat handle is_closed is_unjoinable join_room listed
    lobby_entries on_go on_hello on_join on_list replace_old room_of send_start start_room status_in
    all_bytes each_member flush flush_from frame on_sent pad_name pads room_broadcast roster send
    to_bytes accept count_ip on_ready read_if serve serve_frame serve_from service step
    all_name_chars decode_ascii is_ascii is_name_char is_valid_name ljust8 rstrip
lobby-Met = record {
  known = refl;
  slow = refl;
  alive_a = refl;
  alive_b = refl;
  idle_a = refl;
  idle_b = refl;
  alone_a = refl;
  alone_b = refl;
  named_b = refl;
  finds_a = refl;
  finds_none = refl;
}

pub forming-Together : Together forming
unfolding forming run insert lookup same admit go_seat handle is_closed is_unjoinable join_room
    listed lobby_entries on_go on_hello on_join on_list replace_old room_of send_start start_room
    status_in all_bytes each_member flush flush_from frame on_sent pad_name pads room_broadcast
    roster send to_bytes accept count_ip on_ready read_if serve serve_frame serve_from service step
    all_name_chars decode_ascii is_ascii is_name_char is_valid_name ljust8 rstrip
forming-Together = record {
  seated = refl;
  room_a = refl;
  slow = refl;
  alive_a = refl;
  alive_b = refl;
  idle_a = refl;
  idle_b = refl;
}

-- The match has begun.
pub record Begun (w : World) : Type 0 where
  pub both : w.clients ≡ 0 ∷ 1 ∷ []
  pub seated : w.members 0 ≡ 0 ∷ 1 ∷ []
  pub started : w.started 0 ≡ true
  pub host : w.room 0 ≡ some 0
  pub guest : w.room 1 ≡ some 0
  pub numbered : w.next_client ≡ 2
  pub slow : w.delay ≡ 3
  pub alive_a : w.dead 0 ≡ false
  pub alive_b : w.dead 1 ≡ false
  pub idle_a : w.tx 0 ≡ []
  pub idle_b : w.tx 1 ≡ []
  pub unread : w.rx 0 ≡ []
  pub quiet : w.crc 0 ≡ []
  pub seat_names : map w.name (w.members 0) ≡ map some ((65 ∷ 65 ∷ []) ∷ (66 ∷ 66 ∷ []) ∷ [])
  pub lobby_names : map w.name (listed 0 w) ≡ map some ((66 ∷ 66 ∷ []) ∷ [])

pub playing-Begun : Begun playing
unfolding playing run insert lookup same admit go_seat handle is_closed is_unjoinable join_room
    listed lobby_entries on_go on_hello on_join on_list replace_old room_of send_start start_room
    status_in all_bytes each_member flush flush_from frame on_sent pad_name pads room_broadcast
    roster send to_bytes accept count_ip on_ready read_if serve serve_frame serve_from service step
    all_name_chars decode_ascii is_ascii is_name_char is_valid_name ljust8 rstrip
playing-Begun = record {
  both = refl;
  seated = refl;
  started = refl;
  host = refl;
  guest = refl;
  numbered = refl;
  slow = refl;
  alive_a = refl;
  alive_b = refl;
  idle_a = refl;
  idle_b = refl;
  unread = refl;
  quiet = refl;
  seat_names = refl;
  lobby_names = refl;
}
