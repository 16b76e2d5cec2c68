-- ===== src/Relay/Handlers.antt =====
-- The protocol: `Server.handle` and the handler of each frame type.
use fujinet_intv_golf.Base.{
  ℕ, suc, ◌/◌, ◌%◌, bit_or, Bool, true, false, not, ◌&&◌, ◌||◌, List, [], ◌∷◌, ◌++◌, map, Option,
  none, some, leb, ◌==◌, if◌then◌else◌, same, update, length, take, drop, keep_if, is_empty,
}
use fujinet_intv_golf.Base.Assoc.{lookup, insert, erase_key}
use fujinet_intv_golf.Wire.{
  Bytes, Text, t_hello, t_list, t_lobby, t_join, t_start, t_crc, t_bye, t_ping, t_pong, t_go,
  is_relay_type, proto_ver, max_seats, is_valid_name, decode_ascii, rstrip,
}
use fujinet_intv_golf.Relay.Outcome.{
  protocol_error, attribute_error, short_hello, bad_name, join_before_hello, wrong_version,
  unknown_type,
}
use fujinet_intv_golf.Relay.World.{
  World, Os, M, pure, raise, gets, modify, skip, guard, or_raise, ◌>>=◌, ◌>>◌,
}
use fujinet_intv_golf.Relay.Output.{
  to_bytes, frame, pad_name, roster, lobby_update, for_members, send, room_broadcast, seat_in,
  drop_client,
}
use fujinet_intv_golf.Relay.Crc.{byte_at, log_crc}

-- `_status`, with the client's room at hand.
unfoldable pub status_in : Option ℕ → World → ℕ
status_in none w = 1
status_in (some r) w =
    let n = length (w.members r) in bit_or (if w.started r || leb max_seats n then 0x80 else 0) n

abbrev pub status : ℕ → World → ℕ
status c w = status_in (w.room c) w

-- `c.name` as a condition: None and the empty text are false.
abbrev pub has_name : Option Text → Bool
has_name none = false
has_name (some n) = not (is_empty n)

abbrev pub is_some {ℓ} : {A : Type ℓ} → Option A → Bool
is_some none = false
is_some (some _) = true

-- `[c for c in self.by_name.values() if c is not client and c.name][:8]`
unfoldable pub listed : ℕ → World → List ℕ
listed c w = take 8 (keep_if (λ o. not (o == c) && has_name (w.name o)) (map (λ e. e.1) w.by_name))

unfoldable pub lobby_entries : List ℕ → M Bytes
lobby_entries [] = pure []
lobby_entries (c ∷ cs) = do
  pad ← pad_name (← gets (λ w. w.name c))
  mark ← to_bytes (← gets (λ w. status c w ∷ []))
  rest ← lobby_entries cs
  pure ((pad ++ mark) ++ rest)

-- `is client`, for what `by_name.get` finds
abbrev pub is_client : Option ℕ → ℕ → Bool
is_client none c = false
is_client (some d) c = d == c

-- The name that a frame carries.
abbrev pub wire_name : Bytes → Text
wire_name bytes = rstrip (decode_ascii bytes)

-- The alias that a HELLO with a new name leaves behind.
abbrev pub stale_alias : ℕ → Text → World → List (Text × ℕ)
stale_alias c name w = elim (w.name c) [
  | none ↦ w.by_name
  | some old ↦
      if not (same old name) && is_client (lookup old w.by_name) c
      then erase_key old w.by_name
      else w.by_name
]

abbrev pub rename : ℕ → Text → World → World
rename c name w = record w {
  name = update w.name c (some name);
  by_name = insert name c (stale_alias c name w);
}

-- `target.room is not None and (target.room.started or len(target.room.members) >= MAX_SEATS)`
unfoldable pub is_closed : Option ℕ → World → Bool
is_closed none w = false
is_closed (some r) w = w.started r || leb max_seats (length (w.members r))

unfoldable pub is_unjoinable : Option ℕ → ℕ → World → Bool
unfolding is_closed
is_unjoinable none c w = true
is_unjoinable (some t) c w = elim (w.name t) [
  | none ↦ true
  | some _ ↦ t == c || is_closed (w.room t) w
]

-- `Room(target)`, for a target that has none.
abbrev pub open_room : ℕ → World → World
open_room t w = record w {
  members = update w.members w.next_room (t ∷ []);
  started = update w.started w.next_room false;
  seed = update w.seed w.next_room 0;
  crc = update w.crc w.next_room [];
  crc_ok = update w.crc_ok w.next_room 0;
  room = update w.room t (some w.next_room);
  next_room = suc w.next_room;
}

unfoldable pub room_of : ℕ → M ℕ
room_of t = do
  found ← gets (λ w. w.room t)
  elim found [
    | some r ↦ pure r
    | none ↦ do r ← gets (λ w. w.next_room); modify (open_room t); pure r
  ]

abbrev pub enter : ℕ → ℕ → World → World
enter c r w = record w {
  members = update w.members r (w.members r ++ c ∷ []);
  room = update w.room c (some r);
}

abbrev pub mark_started : ℕ → ℕ → World → World
mark_started r seed w = record w {
  started = update w.started r true;
  seed = update w.seed r seed;
  rolls = suc w.rolls;
  crc = update w.crc r [];
  crc_ok = update w.crc_ok r 0;
}

module _ (os : Os) where
  abbrev pub send_to : ℕ → Bytes → M (Unit {0})
  send_to = send os (drop_client os)

  unfoldable pub on_list : ℕ → M (Unit {0})
  on_list c = do
    others ← gets (listed c)
    count ← to_bytes (length others ∷ [])
    entries ← lobby_entries others
    bytes ← frame t_lobby (count ++ entries)
    send_to c bytes

  unfoldable pub replace_old : ℕ → Option ℕ → M (Unit {0})
  replace_old c none = skip
  replace_old c (some old) = if old == c then skip else drop_client os old

  unfoldable pub on_hello : ℕ → Bytes → M (Unit {0})
  unfolding replace_old
  on_hello c payload = do
    guard (leb 3 (length payload)) (protocol_error short_hello)
    guard (byte_at 0 payload == proto_ver) (protocol_error (wrong_version (byte_at 0 payload)))
    let name = wire_name (drop 1 payload)
    guard (is_valid_name name) (protocol_error bad_name)
    replace_old c (← gets (λ w. lookup name w.by_name))
    modify (rename c name)
    lobby_update
    on_list c

  -- START tells each member its seat, and all of them the same rest.
  unfoldable pub send_start : Bytes → ℕ → ℕ → M (Unit {0})
  send_start common seat m = do
    number ← to_bytes (seat ∷ [])
    start ← frame t_start (number ++ common)
    send_to m start

  unfoldable pub start_room : ℕ → M (Unit {0})
  start_room r = do
    seed ← gets (λ w. os.randrange w.rolls)
    modify (mark_started r seed)
    head ← to_bytes (← gets (λ w. length (w.members r) ∷ seed % 256 ∷ seed / 256 ∷ w.delay ∷ []))
    names ← roster r
    for_members r (send_start (head ++ names))
    lobby_update

  -- `on_join`, from `room.members.append(client)` on.
  unfoldable pub admit : ℕ → ℕ → M (Unit {0})
  admit c r = do
    modify (enter c r)
    room_broadcast os (drop_client os) r
    lobby_update
    ready ← gets (λ w. not (w.auto_go == 0) && leb w.auto_go (length (w.members r)))
    if ready then start_room r else skip

  unfoldable pub join_room : ℕ → ℕ → M (Unit {0})
  unfolding room_of admit
  join_room c t = room_of t >>= admit c

  unfoldable pub on_join : ℕ → Bytes → M (Unit {0})
  unfolding join_room is_unjoinable
  on_join c payload = do
    guard (← gets (λ w. is_some (w.name c))) (protocol_error join_before_hello)
    in_room ← gets (λ w. w.room c)
    target ← gets (λ w. lookup (wire_name payload) w.by_name)
    refused ← gets (is_unjoinable target c)
    elim in_room [
      | some _ ↦ skip
      | none ↦ if refused then on_list c else or_raise target attribute_error >>= join_room c
    ]

  -- `on_go` for a client in a room that has not started.
  unfoldable pub go_seat : ℕ → ℕ → M (Unit {0})
  go_seat c r = do
    seat ← seat_in r c
    count ← gets (λ w. length (w.members r))
    if not (seat == 0)
        then skip
        else if not (leb 2 count && leb count max_seats)
        then skip
        else start_room r

  unfoldable pub on_go : ℕ → M (Unit {0})
  unfolding go_seat
  on_go c = do
    in_room ← gets (λ w. w.room c)
    elim in_room [
      | none ↦ skip
      | some r ↦ do started ← gets (λ w. w.started r); if started then skip else go_seat c r
    ]

  -- `if m is not client: self.send(m, data)`
  abbrev pub send_other : ℕ → Bytes → ℕ → ℕ → M (Unit {0})
  send_other c bytes i m = if m == c then skip else send_to m bytes

  -- A game frame goes verbatim to every other member of a started room.
  unfoldable pub relay : ℕ → ℕ → Bytes → ℕ → M (Unit {0})
  relay c ftype payload r = do
    if ftype == t_crc && length payload == 5 then log_crc c payload else skip
    bytes ← frame ftype payload
    for_members r (send_other c bytes)

  unfoldable pub on_relay : ℕ → ℕ → Bytes → M (Unit {0})
  unfolding relay
  on_relay c ftype payload = do
    in_room ← gets (λ w. w.room c)
    elim in_room [
      | none ↦ skip
      | some r ↦ do
        started ← gets (λ w. w.started r)
        if started then relay c ftype payload r else skip
    ]

  unfoldable pub handle : ℕ → ℕ → Bytes → M (Unit {0})
  handle c ftype payload =
      if is_relay_type ftype
      then on_relay c ftype payload
      else if ftype == t_hello
      then on_hello c payload
      else if ftype == t_list
      then on_list c
      else if ftype == t_join
      then on_join c payload
      else if ftype == t_go
      then on_go c
      else if ftype == t_bye
      then drop_client os c
      else if ftype == t_ping
      then frame t_pong [] >>= send_to c
      else raise (protocol_error (unknown_type ftype))
