-- ===== src/Clients/Tests.antt =====
-- The test clients: a simulated console that gets two LOBBY frames and a ROOM frame, in three chunks,
-- and the records of two servers.
use fujinet_intv_golf.Base.{
  ℕ, ◌≡◌, refl, false, same, get_elem?, some, none, List, [], ◌∷◌, ◌++◌, arith, All,
}
use fujinet_intv_golf.Base.Texts.{codes}
use fujinet_intv_golf.Wire.{Bytes, Text}
use fujinet_intv_golf.Relay.Frames.{framed}
use fujinet_intv_golf.Clients.Sim.{got, recv_frame, drained, drain_lobby}
use fujinet_intv_golf.Clients.Sim.Stream.{bytes_of, HasBytes, recv_frame-framed}
use fujinet_intv_golf.Clients.Sim.Drain.{lobby_frames, last_of, drain_lobby-pushed}
use fujinet_intv_golf.Clients.Diff.{
  render, Rendered, start_masked, before, insert_text, sorted_texts, same_texts, compare, all_pass,
  exit_status,
}
use fujinet_intv_golf.Clients.Diff.Records.{render_hides_seed}
use fujinet_intv_golf.Clients.Diff.Verdicts.{Passed, exit_status-Passed}
use fujinet_intv_golf.Base.{length, Option}
use fujinet_intv_golf.Wire.{t_hello, t_lobby}
use fujinet_intv_golf.Relay.Outcome.{returned, raised, protocol_error, wrong_version}
use fujinet_intv_golf.Relay.Handlers.{handle, listed, lobby_entries}
use fujinet_intv_golf.Relay.Worlds.{os_up, start, lobby, lobby-Inv}
use fujinet_intv_golf.Clients.Ghost.{Options, silent, start_ghost, on_ghost_frame, on_chunk}
use fujinet_intv_golf.Clients.Ghost.Answers.{Input, input_stream, answered, on_chunk-answered}
use fujinet_intv_golf.Clients.Ghost.Server.{start_ghost-refused, on_lobby-silent}

abbrev buffer : Bytes
buffer = 3 ∷ []

abbrev chunks : List Bytes
chunks = (3 ∷ 0 ∷ 7 ∷ 2 ∷ []) ∷ (3 ∷ 0 ∷ 4 ∷ []) ∷ (14 ∷ 5 ∷ 6 ∷ 7 ∷ 1 ∷ []) ∷ []

abbrev payloads : List Bytes
payloads = (0 ∷ 7 ∷ []) ∷ (0 ∷ []) ∷ []

stream :
    buffer ++ bytes_of chunks ≡ lobby_frames payloads ++ (framed 14 (5 ∷ 6 ∷ 7 ∷ []) ++ (1 ∷ []))
unfolding bytes_of lobby_frames
stream = refl

first_frame :
    buffer ++ bytes_of chunks ≡ framed 3 (0 ∷ 7 ∷ []) ++ (2 ∷ 3 ∷ 0 ∷ 4 ∷ 14 ∷ 5 ∷ 6 ∷ 7 ∷ 1 ∷ [])
unfolding bytes_of
first_frame = refl

recv_frame-framed_example :
    (buf' : Bytes) × (chunks' : List Bytes) × (recv_frame buffer chunks
      ≡ got 3 (0 ∷ 7 ∷ []) buf' chunks')
    × (buf' ++ bytes_of chunks' ≡ 2 ∷ 3 ∷ 0 ∷ 4 ∷ 14 ∷ 5 ∷ 6 ∷ 7 ∷ 1 ∷ [])
    × All HasBytes chunks'
recv_frame-framed_example =
    recv_frame-framed 3 (0 ∷ 7 ∷ []) (2 ∷ 3 ∷ 0 ∷ 4 ∷ 14 ∷ 5 ∷ 6 ∷ 7 ∷ 1 ∷ []) buffer chunks
      (refl, (refl, (refl, tt))) first_frame

drain_lobby-pushed_example :
    (buf' : Bytes) × (chunks' : List Bytes) × (drain_lobby buffer chunks
      ≡ drained (last_of none payloads) buf' chunks')
    × (buf' ++ bytes_of chunks' ≡ 4 ∷ 14 ∷ 5 ∷ 6 ∷ 7 ∷ 1 ∷ [])
drain_lobby-pushed_example =
    drain_lobby-pushed 14 (5 ∷ 6 ∷ 7 ∷ []) (1 ∷ []) buffer payloads chunks
      (refl, (refl, (refl, tt))) stream (λ e. absurd (omega (arith, e))) (omega arith) (omega arith)

abbrev two_frames : List (ℕ × Bytes)
two_frames = (14, 5 ∷ 6 ∷ []) ∷ (13, []) ∷ []

-- Two START frames that differ in their seeds.
abbrev payload_a : Bytes
payload_a = 1 ∷ 2 ∷ 7 ∷ 8 ∷ 3 ∷ []

abbrev payload_b : Bytes
payload_b = 1 ∷ 2 ∷ 9 ∷ 4 ∷ 3 ∷ []

abbrev masked : Rendered
masked = start_masked (1 ∷ 2 ∷ 0xAA ∷ 0xAA ∷ 3 ∷ [])

masked_a : render 2 (5 ∷ payload_a) ≡ some masked
unfolding render
masked_a = refl

masked_b : render 2 (5 ∷ payload_b) ≡ some masked
unfolding render
masked_b = refl

abbrev start_type : ℕ
start_type = 5

render_hides_seed_example :
    (start_type ≡ start_type) × (get_elem? payload_a 4 ≡ get_elem? payload_b 4)
render_hides_seed_example =
    render_hides_seed 5 5 payload_a payload_b masked 4 masked_a masked_b refl refl

abbrev framing : Text
framing = codes "framing"

abbrev with_pong : List Text
with_pong = codes "PONG" ∷ []

abbrev two_runs : List (Text × List Text × List Text)
two_runs =
    (codes "limits", codes "A" ∷ codes "B" ∷ [], codes "B" ∷ codes "A" ∷ [])
    ∷ (framing, with_pong, [])
    ∷ []

two_runs-pass : exit_status 2 false two_runs ≡ 0
unfolding all_pass compare same_texts sorted_texts insert_text before same
two_runs-pass = refl

exit_status-Passed_example : All (Passed 2 false) two_runs
exit_status-Passed_example = exit_status-Passed 2 false two_runs two_runs-pass

abbrev ghost_options : Options
ghost_options = record { own_name = codes "GHOST1"; mirror = false; pitch_at = 5; want_ticks = 100 }

abbrev two_inputs : List Input
two_inputs =
    record { lo = 5; hi = 0; cells = 0x40 ∷ 0 ∷ [] }
    ∷ record { lo = 6; hi = 0; cells = 0x40 ∷ 0 ∷ [] }
    ∷ []

decode_all : Bytes → Option Text
decode_all s = some s

on_chunk-answered_example :
    on_chunk decode_all ghost_options [] (input_stream two_inputs) silent
    ≡ some (answered ghost_options two_inputs silent, [])
on_chunk-answered_example =
    on_chunk-answered decode_all ghost_options two_inputs silent (omega arith, (omega arith, tt))

start_ghost-refused_example :
    (start_ghost ghost_options
      ≡ some (record silent { said = framed t_hello (1 ∷ codes "GHOST1") ∷ [] }))
    × (handle os_up 0 t_hello (1 ∷ codes "GHOST1") start
        ≡ raised (protocol_error (wrong_version 1)) start)
start_ghost-refused_example = start_ghost-refused os_up ghost_options 0 start (omega arith)

on_lobby-silent_example :
    (entries : Bytes) × (lobby_entries (listed 0 lobby) lobby ≡ returned entries lobby)
    × (on_ghost_frame decode_all ghost_options t_lobby (length (listed 0 lobby) ∷ entries) silent
        ≡ some silent)
on_lobby-silent_example = on_lobby-silent decode_all ghost_options lobby lobby-Inv 0 silent refl
