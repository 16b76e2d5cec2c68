-- ===== src/Clients/Script/VersionOne.antt =====
-- The scenarios of tools/server_diff.py for protocol 1, whose server is not in this repository, and
-- the tables of scenarios.
use fujinet_intv_golf.Base.{ℕ, zero, suc, ◌/◌, ◌%◌, ◌==◌, List, [], ◌∷◌, ◌++◌, if◌then◌else◌}
use fujinet_intv_golf.Base.Texts.{codes}
use fujinet_intv_golf.Wire.{
  Text, ljust8, t_hello, t_list, t_join, t_input, t_crc, t_state, t_resync, t_bye, t_ping, t_go,
}
use fujinet_intv_golf.Clients.Diff.{diff_frame}
use fujinet_intv_golf.Clients.Script.{Command, connects, sends, closes, syncs, hello_as}
use fujinet_intv_golf.Clients.Script.Scenarios.{
  range, s1_roster_order, s2_rooms, s3_go_start, s4_relay_crc, s5_drop_matrix, s6_framing,
  s7_limits,
}

-- Both report the same for so many ticks.
unfoldable pub agreed_pairs : ℕ → ℕ → List Command
unfolding diff_frame
agreed_pairs t zero = []
agreed_pairs t (suc n) =
    sends (codes "ALICE") (diff_frame t_crc (t ∷ 0 ∷ 0x11 ∷ 0x22 ∷ []))
    ∷ sends (codes "BOB") (diff_frame t_crc (t ∷ 0 ∷ 0x11 ∷ 0x22 ∷ []))
    ∷ agreed_pairs (suc t) n

-- One of the two reports for so many ticks.
unfoldable pub unanswered : ℕ → ℕ → List Command
unfolding diff_frame
unanswered t zero = []
unanswered t (suc n) =
    sends (codes "ALICE") (diff_frame t_crc (t % 256 ∷ t / 256 ∷ 0x33 ∷ 0x44 ∷ []))
    ∷ unanswered (suc t) n

unfoldable pub v1_roster_order : ℕ → List Command
unfolding hello_as diff_frame ljust8
v1_roster_order proto =
    hello_as (codes "ALICE") proto
    ++ hello_as (codes "BOB") proto
    ++ hello_as (codes "CAROL") proto
    ++ (sends (codes "ALICE") (diff_frame t_list [])
        ∷ sends (codes "BOB") (diff_frame t_list [])
        ∷ sends (codes "CAROL") (diff_frame t_list [])
        ∷ syncs (codes "LIST from each")
        ∷ sends (codes "CAROL") (diff_frame t_hello (1 ∷ codes "CAROL2"))
        ∷ syncs (codes "CAROL renames to CAROL2")
        ∷ [])
    ++ hello_as (codes "DAVE") proto
    ++ (sends (codes "DAVE") (diff_frame t_hello (1 ∷ codes "BOB"))
        ∷ syncs (codes "DAVE steals the name BOB")
        ∷ sends (codes "ALICE") (diff_frame t_list [])
        ∷ sends (codes "DAVE") (diff_frame t_list [])
        ∷ syncs (codes "LIST after the churn")
        ∷ closes (codes "ALICE")
        ∷ syncs (codes "ALICE disconnects")
        ∷ sends (codes "DAVE") (diff_frame t_list [])
        ∷ syncs (codes "LIST after a drop")
        ∷ [])
    ++ hello_as (codes "EVE") 7
    ++ (sends (codes "EVE") (diff_frame t_list [])
        ∷ syncs (codes "HELLO with an absurd version byte is accepted")
        ∷ [])

unfoldable pub v1_pairing : ℕ → List Command
unfolding hello_as diff_frame ljust8
v1_pairing proto =
    hello_as (codes "ALICE") proto
    ++ hello_as (codes "BOB") proto
    ++ hello_as (codes "CAROL") proto
    ++ (sends (codes "CAROL") (diff_frame t_list [])
        ∷ syncs (codes "status: everyone idle (0)")
        ∷ sends (codes "BOB") (diff_frame t_join (ljust8 (codes "ALICE")))
        ∷ syncs (codes "BOB joins ALICE -> both START")
        ∷ sends (codes "CAROL") (diff_frame t_list [])
        ∷ syncs (codes "status: both busy (1)")
        ∷ sends (codes "CAROL") (diff_frame t_join (ljust8 (codes "ALICE")))
        ∷ syncs (codes "JOIN a busy player -> LOBBY")
        ∷ sends (codes "CAROL") (diff_frame t_join (ljust8 (codes "NOBODY")))
        ∷ syncs (codes "JOIN an unknown name -> LOBBY")
        ∷ sends (codes "CAROL") (diff_frame t_join (ljust8 (codes "CAROL")))
        ∷ syncs (codes "self-join -> LOBBY")
        ∷ sends (codes "CAROL") (diff_frame t_join (codes "THISNAMEISWAYTOOLONG"))
        ∷ syncs (codes "JOIN an over-long name -> LOBBY")
        ∷ sends (codes "BOB") (diff_frame t_join (ljust8 (codes "CAROL")))
        ∷ syncs (codes "JOIN while matched is silent")
        ∷ sends (codes "ALICE") (diff_frame t_ping [])
        ∷ syncs (codes "PING -> PONG")
        ∷ sends (codes "CAROL") (diff_frame t_go [])
        ∷ syncs (codes "GO is an unknown type in v1")
        ∷ [])

unfoldable pub v1_relay_crc : ℕ → List Command
unfolding hello_as diff_frame ljust8 range agreed_pairs unanswered
v1_relay_crc proto =
    hello_as (codes "ALICE") proto
    ++ hello_as (codes "BOB") proto
    ++ (sends (codes "ALICE") (diff_frame t_input (1 ∷ 0 ∷ 0x40 ∷ 0 ∷ []))
        ∷ syncs (codes "relay before a match (dropped)")
        ∷ sends (codes "BOB") (diff_frame t_join (ljust8 (codes "ALICE")))
        ∷ syncs (codes "BOB joins ALICE")
        ∷ sends (codes "ALICE") (diff_frame t_input (7 ∷ 0 ∷ 0x40 ∷ 0 ∷ []))
        ∷ syncs (codes "INPUT fanout (untagged, 4 bytes)")
        ∷ sends (codes "BOB") (diff_frame t_state (0 ∷ 0 ∷ range 0 96))
        ∷ syncs (codes "96-byte STATE fanout")
        ∷ sends (codes "ALICE") (diff_frame t_resync (5 ∷ 0 ∷ []))
        ∷ syncs (codes "RESYNC fanout")
        ∷ [])
    ++ agreed_pairs 0 4
    ++ (syncs (codes "four agreed CRC pairs")
        ∷ sends (codes "ALICE") (diff_frame t_crc (9 ∷ 0 ∷ 0xAA ∷ 0 ∷ []))
        ∷ sends (codes "BOB") (diff_frame t_crc (9 ∷ 0 ∷ 0xBB ∷ 0 ∷ []))
        ∷ syncs (codes "a CRC mismatch")
        ∷ [])
    ++ unanswered 100 70
    ++ (syncs (codes "70 unanswered ticks (eviction)")
        ∷ sends (codes "BOB") (diff_frame t_crc (100 ∷ 0 ∷ 0x33 ∷ 0x44 ∷ []))
        ∷ syncs (codes "answer an evicted tick")
        ∷ sends (codes "BOB") (diff_frame t_crc (169 ∷ 0 ∷ 0x33 ∷ 0x44 ∷ []))
        ∷ syncs (codes "answer a surviving tick")
        ∷ [])

unfoldable pub v1_drops : ℕ → List Command
unfolding hello_as diff_frame ljust8
v1_drops proto =
    hello_as (codes "ALICE") proto
    ++ hello_as (codes "BOB") proto
    ++ (sends (codes "BOB") (diff_frame t_join (ljust8 (codes "ALICE")))
        ∷ syncs (codes "BOB joins ALICE")
        ∷ closes (codes "BOB")
        ∷ syncs (codes "partner leaves -> PEER_LEFT")
        ∷ sends (codes "ALICE") (diff_frame t_list [])
        ∷ syncs (codes "ALICE is idle again")
        ∷ [])
    ++ hello_as (codes "CAROL") proto
    ++ (sends (codes "CAROL") (diff_frame t_bye []) ∷ syncs (codes "BYE") ∷ [])
    ++ hello_as (codes "DAVE") proto
    ++ (sends (codes "DAVE") (diff_frame t_hello (1 ∷ codes "!!"))
        ∷ syncs (codes "a bad name drops the connection")
        ∷ connects (codes "NOHELLO")
        ∷ sends (codes "NOHELLO") (diff_frame t_join (ljust8 (codes "ALICE")))
        ∷ syncs (codes "JOIN before HELLO drops")
        ∷ [])

-- SCENARIOS_V2, for a number of seats, and SCENARIOS_V1
unfoldable pub scenarios : ℕ → ℕ → List (Text × List Command)
scenarios proto seats =
    if proto == 1
    then (codes "roster", v1_roster_order proto)
      ∷ (codes "pairing", v1_pairing proto)
      ∷ (codes "relay", v1_relay_crc proto)
      ∷ (codes "drops", v1_drops proto)
      ∷ (codes "framing", s6_framing proto)
      ∷ (codes "limits", s7_limits)
      ∷ []
    else (codes "roster", s1_roster_order proto)
      ∷ (codes "rooms", s2_rooms proto seats)
      ∷ (codes "start", s3_go_start proto)
      ∷ (codes "relay", s4_relay_crc proto)
      ∷ (codes "drops", s5_drop_matrix proto)
      ∷ (codes "framing", s6_framing proto)
      ∷ (codes "limits", s7_limits)
      ∷ []
