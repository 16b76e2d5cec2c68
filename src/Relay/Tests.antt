-- ===== src/Relay/Tests.antt =====
-- The theorems at work on a match of two players, and on the first rounds of a server.
use fujinet_intv_golf.Base.{
  ℕ, ◌<◌, ◌≡◌, refl, sym, ap, subst, false, true, if◌then◌else◌, ◌==◌, List, [], ◌∷◌, ◌++◌, Option,
  some, none, arith, length, ==-eq, contains, Bool-cases, inl, inr,
}
use fujinet_intv_golf.Wire.{Bytes, Text, t_crc}
use fujinet_intv_golf.Clients.Sim.{roster_names, lobby_status}
use fujinet_intv_golf.Clients.Sim.Names.{roster_names-roster}
use fujinet_intv_golf.Clients.Sim.Statuses.{first_status, lobby_status-lobby_entries}
use fujinet_intv_golf.Relay.World.{World, Os, sent, would_block, ◌>>◌}
use fujinet_intv_golf.Relay.Frames.{framed}
use fujinet_intv_golf.Relay.Settles.Drop.{Drops, drop_within-Drops}
use fujinet_intv_golf.Relay.Handles.{Handles, SeedsOk}
use fujinet_intv_golf.Relay.Handles.Dispatch.{handle-Handles}
use fujinet_intv_golf.Relay.Loop.Accept.{accept-Runs}
use fujinet_intv_golf.Relay.Loop.Serve.{service-Runs}
use fujinet_intv_golf.Relay.Effects.{written, Wrote, send-Wrote}
use fujinet_intv_golf.Relay.Framing.{service-split}
use fujinet_intv_golf.Relay.Fanout.{Delivered, all_others, on_relay-Delivered}
use fujinet_intv_golf.Relay.Outcome.{returned, Ends}
use fujinet_intv_golf.Relay.Service.{received, run, accept, service}
use fujinet_intv_golf.Relay.Handlers.{on_relay, handle, listed, lobby_entries}
use fujinet_intv_golf.Relay.Output.{drop_client, drop_within, roster, send}
use fujinet_intv_golf.Wire.{all_name_chars, is_ascii, is_name_char, is_valid_name}
use fujinet_intv_golf.Relay.Loop.{Runs}
use fujinet_intv_golf.Relay.Loop.Run.{new_server-Inv, run-Runs}
use fujinet_intv_golf.Relay.Worlds.{os_up, start, two_players, playing, playing-Inv, playing-Begun}

-- A system that takes one byte, and then no more.
abbrev os_slow : Os
os_slow = record {
  send_result = λ n _ _. if n == 0 then sent 1 else would_block;
  randrange = λ _. 0x1234;
}

run-Runs_example : Runs start (run os_up two_players start)
run-Runs_example =
    run-Runs os_up (λ _. omega arith) two_players start (tt, (tt, (tt, (tt, (tt, (tt, tt))))))
      (omega arith) (new_server-Inv 3 0 none tt)

-- Whatever is asked of the members of the match, the two players answer.
each_player : (P : ℕ → Type 0) → P 0 → P 1 → (m : ℕ) → contains (playing.members 0) m ≡ true → P m
each_player P p q m h = elim (Bool-cases (m == 0)) [
  | inl e ↦ subst P (sym (==-eq m 0 e)) p
  | inr e ↦
      subst P
        (ground (arith, ap (λ (ms : List ℕ). contains ms m) playing-Begun.seated, h, e, ==-eq m 1))
        q
]

abbrev report_a : Bytes
report_a = 0 ∷ 1 ∷ 0 ∷ 5 ∷ 0 ∷ []

-- AA has reported 9 for tick 5.
abbrev reported : World
reported = record playing { crc = λ _. (5, (0, 9) ∷ []) ∷ [] }

seeds : SeedsOk os_up
seeds n = omega arith

prompt : playing.delay < 256
prompt = omega (arith, playing-Begun.slow)

known : 0 < playing.next_client
known = omega (arith, playing-Begun.numbered)

on_relay-Delivered_example :
    Ends
      (on_relay os_up 0 t_crc report_a playing)
      (λ _ w. Delivered playing w (all_others 0 0 playing) (framed t_crc report_a))
      (λ _ _. ⊥)
on_relay-Delivered_example =
    on_relay-Delivered os_up (λ n c bytes. refl) 0 0 t_crc report_a playing playing-Inv
      playing-Begun.host playing-Begun.started
      (each_player (λ m. (playing.dead m ≡ false) × (playing.tx m ≡ []))
        (playing-Begun.alive_a, playing-Begun.idle_a) (playing-Begun.alive_b, playing-Begun.idle_b))
      (omega arith) (omega arith)

send-Wrote_example :
    Wrote 0
      (written 0 playing ++ 1 ∷ 2 ∷ 3 ∷ [])
      (send os_slow (drop_client os_slow) 0 (1 ∷ 2 ∷ 3 ∷ []) playing)
send-Wrote_example = send-Wrote os_slow 0 (1 ∷ 2 ∷ 3 ∷ []) playing playing-Inv

handle-Handles_example : Handles playing (handle os_up 0 t_crc report_a playing)
handle-Handles_example =
    handle-Handles os_up 0 t_crc report_a playing seeds prompt playing-Inv known (omega arith)

drop_within-Drops_example : Drops playing 0 (drop_within os_up 3 0 playing)
drop_within-Drops_example =
    drop_within-Drops os_up 3 0 playing playing-Inv
      (ground (arith, ap (length {A = ℕ}) playing-Begun.both))

service-Runs_example : Runs playing (service os_up 0 (received (1 ∷ 99 ∷ 0 ∷ [])) playing)
service-Runs_example =
    service-Runs os_up seeds 0 (received (1 ∷ 99 ∷ 0 ∷ [])) playing prompt playing-Inv known

accept-Runs_example : Runs playing (accept 1 7 playing)
accept-Runs_example = accept-Runs 1 7 playing playing-Inv

service-split_example :
    (service os_up 0 (received (6 ∷ 7 ∷ 0 ∷ [])) >> service os_up 0 (received (1 ∷ 0 ∷ 5 ∷ 0 ∷ [])))
      playing
    ≡ service os_up 0 (received (6 ∷ 7 ∷ report_a)) playing
service-split_example =
    service-split os_up 0 6 1 (7 ∷ 0 ∷ []) (0 ∷ 5 ∷ 0 ∷ []) playing
      (rw playing-Begun.unread (refl, omega arith))

valid_aa : is_valid_name (65 ∷ 65 ∷ []) ≡ true
unfolding is_valid_name all_name_chars is_name_char
valid_aa = refl

valid_bb : is_valid_name (66 ∷ 66 ∷ []) ≡ true
unfolding is_valid_name all_name_chars is_name_char
valid_bb = refl

-- A decoder that knows ASCII only.
decode_only_ascii : Bytes → Option Text
decode_only_ascii s = if is_ascii s then some s else none

only_ascii : (s : Bytes) → is_ascii s ≡ true → decode_only_ascii s ≡ some s
unfolding decode_only_ascii
only_ascii s h = rw h refl

roster_names-roster_example :
    (raw : Bytes) × (roster 0 playing ≡ returned raw playing)
    × (roster_names decode_only_ascii raw ≡ some ((65 ∷ 65 ∷ []) ∷ (66 ∷ 66 ∷ []) ∷ [] ∷ [] ∷ []))
roster_names-roster_example =
    roster_names-roster decode_only_ascii 0 playing ((65 ∷ 65 ∷ []) ∷ (66 ∷ 66 ∷ []) ∷ [])
      only_ascii playing-Inv playing-Begun.seat_names (valid_aa, (valid_bb, tt))

lobby_status-lobby_entries_example :
    (entries : Bytes) × (lobby_entries (listed 0 playing) playing ≡ returned entries playing)
    × (lobby_status decode_only_ascii (length (listed 0 playing) ∷ entries) (66 ∷ 66 ∷ [])
        ≡ some (first_status playing (66 ∷ 66 ∷ []) (listed 0 playing) ((66 ∷ 66 ∷ []) ∷ [])))
lobby_status-lobby_entries_example =
    lobby_status-lobby_entries decode_only_ascii 0 playing (66 ∷ 66 ∷ []) ((66 ∷ 66 ∷ []) ∷ [])
      only_ascii playing-Inv playing-Begun.lobby_names (valid_bb, tt)
