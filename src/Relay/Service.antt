-- ===== src/Relay/Service.antt =====
-- The event loop: `accept`, `service`, `sweep` and one pass of `run`.
use fujinet_intv_golf.Base.{
  ℕ, zero, suc, ◌+◌, ◌*◌, Bool, true, false, not, ◌&&◌, ◌||◌, List, [], ◌∷◌, ◌++◌, Option, none,
  some, ltb, leb, ◌==◌, if◌then◌else◌, update, length, take, drop,
}
use fujinet_intv_golf.Wire.{Bytes, max_clients, max_connections_per_ip, hello_timeout}
use fujinet_intv_golf.Relay.Outcome.{
  Reason, protocol_error, os_error, returned, raised, out_of_fuel,
}
use fujinet_intv_golf.Relay.World.{
  World, Os, Publisher, M, pure, raise, gets, modify, no_fuel, skip, ◌>>=◌, ◌>>◌,
}
use fujinet_intv_golf.Relay.Output.{for_each, flush, drop_client}
use fujinet_intv_golf.Relay.Crc.{byte_at}
use fujinet_intv_golf.Relay.Handlers.{handle}

-- `try: m; except ProtocolError as e`: the reason, if it was raised.
abbrev pub attempt : M (Unit {0}) → M (Option Reason)
attempt m w = elim (m w) [
  | returned _ w' ↦ returned none w'
  | raised e w' ↦ elim e [ protocol_error r ↦ returned (some r) w' | other ↦ raised other w' ]
  | out_of_fuel ↦ out_of_fuel
]

-- `try: m; except Exception: handler`
abbrev pub rescue : M (Unit {0}) → M (Unit {0}) → M (Unit {0})
rescue m handler w = elim (m w) [
  | returned _ w' ↦ returned tt w'
  | raised _ w' ↦ handler w'
  | out_of_fuel ↦ out_of_fuel
]

-- What `client.sock.recv(4096)` does: some bytes (none at the end of the stream), BlockingIOError,
-- or OSError.
pub data RecvResult : Type 0 where
  received : Bytes → RecvResult
  recv_would_block recv_error : RecvResult

-- Times are counted in microseconds.
abbrev pub second : ℕ
second = 1000000

-- `sum(1 for c in self.clients if c.addr[0] == addr[0])`
unfoldable pub count_ip : ℕ → (ℕ → ℕ) → List ℕ → ℕ
count_ip a ip [] = 0
count_ip a ip (c ∷ cs) = if ip c == a then suc (count_ip a ip cs) else count_ip a ip cs

-- `Client(sock, addr)`, added to the set and registered.
abbrev pub new_client : ℕ → ℕ → World → World
new_client addr now w = record w {
  ip = update w.ip w.next_client addr;
  rx = update w.rx w.next_client [];
  tx = update w.tx w.next_client [];
  name = update w.name w.next_client none;
  room = update w.room w.next_client none;
  connected_at = update w.connected_at w.next_client now;
  dead = update w.dead w.next_client false;
  registered = update w.registered w.next_client true;
  want_write = update w.want_write w.next_client false;
  wire = update w.wire w.next_client [];
  clients = w.clients ++ w.next_client ∷ [];
  next_client = suc w.next_client;
}

abbrev pub reject : World → World
reject w = record w { connection_limit_rejections = suc w.connection_limit_rejections }

-- `accept`, for a connection from an address at a time.
unfoldable pub accept : ℕ → ℕ → M (Unit {0})
unfolding count_ip
accept addr now = modify λ w.
    if leb max_clients (length w.clients)
    then reject w
    else if leb max_connections_per_ip (count_ip addr w.ip w.clients)
    then reject w
    else new_client addr now w

-- A client that has not said HELLO in time is dropped.
abbrev pub is_late : ℕ → ℕ → World → Bool
is_late now c w = elim (w.name c) [
  | none ↦ ltb (w.connected_at c + hello_timeout * second) now
  | some _ ↦ false
]

-- What one round of the loop in `run` meets: a connection, an `accept` that fails, a socket
-- that is writable, readable or both, and the sweep once a second.
pub data Event : Type 0 where
  connection : ℕ → ℕ → Event
  accept_failed : Event
  ready : ℕ → Bool → Option RecvResult → Event
  second_passed : ℕ → Event

-- `Server.__init__`: no client, no name. Tables over objects that do not exist yet are blank.
abbrev pub new_server : ℕ → ℕ → Option Publisher → World
new_server delay auto_go lobby = record {
  delay = delay;
  auto_go = auto_go;
  by_name = [];
  lobby = lobby;
  clients = [];
  tx_backlog_drops = 0;
  hello_timeouts = 0;
  connection_limit_rejections = 0;
  ip = λ _. 0;
  rx = λ _. [];
  tx = λ _. [];
  name = λ _. none;
  room = λ _. none;
  connected_at = λ _. 0;
  dead = λ _. true;
  members = λ _. [];
  started = λ _. false;
  seed = λ _. 0;
  crc = λ _. [];
  crc_ok = λ _. 0;
  next_client = 0;
  next_room = 0;
  registered = λ _. false;
  want_write = λ _. false;
  wire = λ _. [];
  sends = 0;
  rolls = 0;
  journal = [];
}

module _ (os : Os) where
  -- After `handle`: a ProtocolError drops the client. Says whether the loop goes on.
  abbrev pub verdict : ℕ → Option Reason → M Bool
  verdict c (some _) = drop_client os c >> pure false
  verdict c none = gets (λ w. not (w.dead c))

  -- One frame is off the buffer: handle it.
  unfoldable pub serve_frame : ℕ → Bytes → M Bool
  serve_frame c body = attempt (handle os c (byte_at 0 body) (drop 1 body)) >>= verdict c

  -- The `while True` loop over complete frames; the first argument bounds the rounds.
  unfoldable pub serve_from : ℕ → ℕ → M (Unit {0})
  serve_from zero c = no_fuel
  serve_from (suc k) c = do
    rx ← gets (λ w. w.rx c)
    let again = serve_from k c
    elim rx [
      | [] ↦ skip
      | len ∷ rest ↦
          if ltb (len + 1) 2 || ltb 200 len
          then drop_client os c
          else if ltb (length rest) len
          then skip
          else do
            modify (λ w. record w { rx = update w.rx c (drop len rest) })
            more ← serve_frame c (take len rest)
            if more then again else skip
    ]

  unfoldable pub serve : ℕ → M (Unit {0})
  unfolding serve_from
  serve c = do n ← gets (λ w. length (w.rx c)); serve_from (suc n) c

  unfoldable pub service : ℕ → RecvResult → M (Unit {0})
  service c recv_would_block = skip
  service c recv_error = drop_client os c
  service c (received []) = drop_client os c
  service c (received (b ∷ bs)) =
      modify (λ w. record w { rx = update w.rx c (w.rx c ++ (b ∷ bs)) }) >> serve c

  unfoldable pub sweep_client : ℕ → ℕ → M (Unit {0})
  sweep_client now c = do
    late ← gets (is_late now c)
    if late
        then modify (λ w. record w { hello_timeouts = suc w.hello_timeouts }) >> drop_client os c
        else skip

  unfoldable pub sweep : ℕ → M (Unit {0})
  unfolding sweep_client
  sweep now = do cs ← gets (λ w. w.clients); for_each cs (sweep_client now)

  -- `if mask & EVENT_READ and not client.dead: self.service(client)`
  unfoldable pub read_if : ℕ → Option RecvResult → M (Unit {0})
  read_if c none = skip
  read_if c (some result) = do
    is_dead ← gets (λ w. w.dead c)
    if is_dead then skip else service c result

  unfoldable pub on_ready : ℕ → Bool → Option RecvResult → M (Unit {0})
  unfolding read_if
  on_ready c writable readable = do
    flushing ← gets (λ w. writable && not (w.dead c))
    if flushing then flush os (drop_client os) c else skip
    read_if c readable

  unfoldable pub step : Event → M (Unit {0})
  step (connection addr now) = accept addr now
  step accept_failed = raise os_error
  step (ready c writable readable) = rescue (on_ready c writable readable) (drop_client os c)
  step (second_passed now) = sweep now

  -- `run`, over the events that it meets.
  unfoldable pub run : List Event → M (Unit {0})
  unfolding step
  run [] = skip
  run (e ∷ es) = step e >> run es
