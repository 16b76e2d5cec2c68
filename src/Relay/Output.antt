-- ===== src/Relay/Output.antt =====
-- Frames and output: `frame`, `pad_name`, `Room.roster`, `Server.send`, `flush`, `_update_events`,
-- `room_broadcast`, `dissolve` and `drop`. Sending can drop a client, and dropping one sends, so
-- these are mutually recursive; each takes the `drop` that it calls, and `drop` itself recurs on
-- the nesting depth that is left.
use mathlib.Core.Option
use fujinet_intv_golf.Base.{
  ℕ, zero, suc, ◌+◌, ◌-◌, ◌*◌, Bool, true, false, not, ◌&&◌, List, [], ◌∷◌, ◌++◌, Option, none,
  some, ltb, leb, ◌==◌, if◌then◌else◌, update, length, get_elem?, take, drop, replicate, keep_if,
  is_empty, contains, erase, index_of?,
}
use fujinet_intv_golf.Wire.{
  Bytes, Text, t_room, t_peer_left, max_tx_backlog, roster_slots, is_ascii, ljust8,
}
use fujinet_intv_golf.Relay.Outcome.{attribute_error, unicode_error, value_error, assertion_error}
use fujinet_intv_golf.Relay.World.{
  World, Os, Publisher, SendResult, sent, would_block, send_error, M, pure, gets, modify, no_fuel,
  skip, guard, or_raise, ◌>>=◌, ◌>>◌,
}

-- `bytes([...])` raises ValueError on a number that is no byte.
unfoldable pub all_bytes : List ℕ → Bool
all_bytes [] = true
all_bytes (b ∷ bs) = ltb b 256 && all_bytes bs

unfoldable pub to_bytes : List ℕ → M Bytes
unfolding all_bytes
to_bytes l = do guard (all_bytes l) value_error; pure l

unfoldable pub frame : ℕ → Bytes → M Bytes
unfolding to_bytes
frame ftype payload = do
  head ← to_bytes (ftype ∷ [])
  let body = head ++ payload
  guard (leb (length body) 255) assertion_error
  len ← to_bytes (length body ∷ [])
  pure (len ++ body)

-- `name.encode("ascii")[:8].ljust(8, b"\0")`
unfoldable pub pad_name : Option Text → M Bytes
unfolding ljust8
pad_name name = do
  text ← or_raise name attribute_error
  guard (is_ascii text) unicode_error
  pure (ljust8 text)

unfoldable pub pads : List ℕ → M Bytes
pads [] = pure []
pads (m ∷ ms) = do pad ← pad_name (← gets (λ w. w.name m)); rest ← pads ms; pure (pad ++ rest)

unfoldable pub roster : ℕ → M Bytes
roster r = do
  ms ← gets (λ w. w.members r)
  ps ← pads ms
  pure (ps ++ replicate (8 * (roster_slots - length ms)) 0)

-- `LobbyPublisher.update`
abbrev pub publish : ℕ → Publisher → Publisher
publish curplayers p = if p.stopping then p else record p { curplayers = curplayers; dirty = true }

abbrev pub lobby_update : M (Unit {0})
lobby_update = modify (λ w. record w { lobby = Option.map (publish (length w.by_name)) w.lobby })

-- `sel.modify` raises KeyError on a socket that is not registered, which is ignored.
abbrev pub update_events : ℕ → M (Unit {0})
update_events c = modify λ w. record w {
  want_write =
      update w.want_write c (if w.registered c then not (is_empty (w.tx c)) else w.want_write c);
}

-- `for i, m in enumerate(room.members)`: Python reads the list anew at each index, so members
-- that leave during the loop shift the rest. The first argument bounds the rounds.
unfoldable pub each_member : ℕ → ℕ → ℕ → (ℕ → ℕ → M (Unit {0})) → M (Unit {0})
each_member zero r i body = no_fuel
each_member (suc k) r i body = do
  next ← gets (λ w. get_elem? (w.members r) i)
  elim next [ none ↦ skip | some m ↦ body i m >> each_member k r (suc i) body ]

abbrev pub for_members : ℕ → (ℕ → ℕ → M (Unit {0})) → M (Unit {0})
for_members r body = do n ← gets (λ w. length (w.members r)); each_member (suc n) r 0 body

-- A loop over a list that nothing else holds.
unfoldable pub for_each : List ℕ → (ℕ → M (Unit {0})) → M (Unit {0})
for_each [] body = skip
for_each (m ∷ ms) body = body m >> for_each ms body

-- `m.room = None` for every member.
abbrev pub leave_all : List ℕ → (ℕ → Option ℕ) → ℕ → Option ℕ
leave_all ms room c = if contains ms c then none else room c

abbrev pub taken : SendResult → Bytes → Bytes
taken (sent n) tx = take n tx
taken would_block tx = []
taken send_error tx = []

-- `client.seat` for a client in room `r`
abbrev pub seat_in : ℕ → ℕ → M ℕ
seat_in r c = do or_raise (← gets (λ w. index_of? c (w.members r))) value_error

-- The client leaves the books: the selector, the set of clients and its names.
abbrev pub forget : ℕ → World → World
forget c w = record w {
  dead = update w.dead c true;
  registered = update w.registered c false;
  clients = erase c w.clients;
  by_name = keep_if (λ e. not (e.1 == c)) w.by_name;
}

abbrev pub leave : ℕ → ℕ → M (Unit {0})
leave c r = do
  modify (λ w. record w { room = update w.room c none })
  guard (← gets (λ w. contains (w.members r) c)) value_error
  modify (λ w. record w { members = update w.members r (erase c (w.members r)) })

module _ (os : Os) where
  -- `client.sock.send(client.tx)`
  abbrev pub sock_send : ℕ → M SendResult
  sock_send c = do
    r ← gets (λ w. os.send_result w.sends c (w.tx c))
    modify
        λ w. record w { sends = suc w.sends; wire = update w.wire c (w.wire c ++ taken r (w.tx c)) }
    pure r

  module _ (drop_client : ℕ → M (Unit {0})) where
    -- what follows `sock.send`: its exceptions, a count of 0, and `del client.tx[:n]`
    unfoldable pub on_sent : ℕ → M (Unit {0}) → SendResult → M (Unit {0})
    on_sent c again would_block = update_events c
    on_sent c again send_error = drop_client c
    on_sent c again (sent n) =
        if n == 0
        then drop_client c
        else modify (λ w. record w { tx = update w.tx c (drop n (w.tx c)) }) >> again

    -- the `while client.tx` loop; the first argument bounds the rounds
    unfoldable pub flush_from : ℕ → ℕ → M (Unit {0})
    unfolding on_sent
    flush_from zero c = no_fuel
    flush_from (suc k) c = do
      done ← gets (λ w. is_empty (w.tx c))
      let again = flush_from k c
      if done then update_events c else (sock_send c >>= on_sent c again)

    unfoldable pub flush : ℕ → M (Unit {0})
    flush c = do n ← gets (λ w. length (w.tx c)); flush_from (suc n) c

    unfoldable pub send : ℕ → Bytes → M (Unit {0})
    unfolding flush
    send c bytes = do
      is_dead ← gets (λ w. w.dead c)
      full ← gets (λ w. ltb max_tx_backlog (length (w.tx c) + length bytes))
      if is_dead
          then skip
          else if full
          then modify (λ w. record w { tx_backlog_drops = suc w.tx_backlog_drops }) >> drop_client c
          else modify (λ w. record w { tx = update w.tx c (w.tx c ++ bytes) }) >> flush c

    unfoldable pub room_broadcast : ℕ → M (Unit {0})
    room_broadcast r = do
      count ← to_bytes (← gets (λ w. length (w.members r) ∷ []))
      names ← roster r
      for_members r (λ i m. frame t_room (count ++ names) >>= send m)

    unfoldable pub dissolve : ℕ → List ℕ → M (Unit {0})
    dissolve r notify = do
      modify (λ w. record w { room = leave_all (w.members r) w.room })
      for_each notify (λ m. frame t_room (0 ∷ replicate 32 0) >>= send m)
      modify (λ w. record w { members = update w.members r [] })

    -- Any drop ends a started match for everyone.
    unfoldable pub end_match : ℕ → ℕ → ℕ → List ℕ → M (Unit {0})
    end_match c r seat survivors = do
      number ← to_bytes (seat ∷ [])
      pad ← pad_name (← gets (λ w. w.name c))
      pl ← frame t_peer_left (number ++ pad)
      dissolve r []
      for_each survivors (λ m. send m pl)

    -- The room's side of a drop, once the client is out of it.
    unfoldable pub close_seat : ℕ → ℕ → ℕ → M (Unit {0})
    close_seat c r seat = do
      started ← gets (λ w. w.started r)
      survivors ← gets (λ w. w.members r)
      if started
          then end_match c r seat survivors
          else if seat == 0
          then dissolve r survivors
          else if ltb (length survivors) 2
          then dissolve r survivors
          else room_broadcast r

    -- `drop`, from `seat = client.seat` on, for a client in room `r`.
    unfoldable pub leave_room : ℕ → ℕ → M (Unit {0})
    leave_room c r = do seat ← seat_in r c; leave c r; close_seat c r seat; lobby_update

    unfoldable pub leave_if : ℕ → Option ℕ → M (Unit {0})
    leave_if c none = skip
    leave_if c (some r) = leave_room c r

    unfoldable pub drop_body : ℕ → M (Unit {0})
    drop_body c = do
      is_dead ← gets (λ w. w.dead c)
      stale ← gets (λ w. not (is_empty (keep_if (λ e. e.1 == c) w.by_name)))
      if is_dead then skip else do
        modify (forget c)
        if stale then lobby_update else skip
        in_room ← gets (λ w. w.room c)
        leave_if c in_room

  -- `drop` with at most so many drops inside one another.
  unfoldable pub drop_within : ℕ → ℕ → M (Unit {0})
  drop_within zero c = no_fuel
  drop_within (suc depth) c = drop_body (drop_within depth) c

  -- Every nested drop takes a client off the set, so its size bounds the depth.
  unfoldable pub drop_client : ℕ → M (Unit {0})
  unfolding drop_within
  drop_client c = do n ← gets (λ w. length w.clients); drop_within (suc n) c
