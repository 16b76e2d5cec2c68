-- ===== src/Clients/Script/Scenarios.antt =====
-- The scenarios of tools/server_diff.py for protocol 2. Pauses between sends are left out.
use mathlib.Core.Option
use fujinet_intv_golf.Base.{
  ℕ, zero, suc, ◌+◌, ◌/◌, ◌%◌, List, [], ◌∷◌, ◌++◌, Option, none, some, leb, if◌then◌else◌, take,
  drop,
}
use fujinet_intv_golf.Base.Texts.{codes}
use fujinet_intv_golf.Wire.{
  Bytes, Text, ljust8, t_hello, t_list, t_join, t_input, t_crc, t_state, t_resync, t_bye, t_ping,
  t_go,
}
use fujinet_intv_golf.Clients.Diff.{diff_frame}
use fujinet_intv_golf.Clients.Script.{Command, connects, sends, closes, syncs, hello_as}

-- `range(from, from + count)`
unfoldable pub range : ℕ → ℕ → List ℕ
range from zero = []
range from (suc n) = from ∷ range (suc from) n

-- Both report the same for so many ticks.
unfoldable pub agreed_rounds : ℕ → ℕ → List Command
unfolding diff_frame
agreed_rounds t zero = []
agreed_rounds t (suc n) =
    sends (codes "ALICE") (diff_frame t_crc (0 ∷ t ∷ 0 ∷ 0x11 ∷ 0x22 ∷ []))
    ∷ sends (codes "BOB") (diff_frame t_crc (1 ∷ t ∷ 0 ∷ 0x11 ∷ 0x22 ∷ []))
    ∷ agreed_rounds (suc t) n

-- One of the two reports for so many ticks.
unfoldable pub half_reports : ℕ → ℕ → List Command
unfolding diff_frame
half_reports t zero = []
half_reports t (suc n) =
    sends (codes "ALICE") (diff_frame t_crc (0 ∷ t % 256 ∷ t / 256 ∷ 0x33 ∷ 0x44 ∷ []))
    ∷ half_reports (suc t) n

-- `a.send(bytes([byte]))` for each byte of a frame.
unfoldable pub dribble : Text → Option Bytes → List Command
dribble label none = sends label none ∷ []
dribble label (some []) = []
dribble label (some (b ∷ bs)) = sends label (some (b ∷ [])) ∷ dribble label (some bs)

abbrev pub both_frames : Option Bytes → Option Bytes → Option Bytes
both_frames none b = none
both_frames (some a) b = Option.map (λ more. a ++ more) b

-- `frame(T["LIST"]) * 3`
unfoldable pub three_lists : Option Bytes
unfolding diff_frame
three_lists =
    both_frames (diff_frame t_list []) (both_frames (diff_frame t_list []) (diff_frame t_list []))

-- `frame(T["JOIN"], pad("NOBODY"))`
unfoldable pub join_nobody : Option Bytes
unfolding diff_frame ljust8
join_nobody = diff_frame t_join (ljust8 (codes "NOBODY"))

-- The third client joins by way of the guest, or finds the room full.
unfoldable pub s2_third : ℕ → List Command
unfolding diff_frame ljust8
s2_third seats =
    if leb 3 seats
    then sends (codes "CAROL") (diff_frame t_join (ljust8 (codes "BOB")))
      ∷ syncs (codes "CAROL joins the guest BOB (redirect)")
      ∷ []
    else sends (codes "CAROL") (diff_frame t_join (ljust8 (codes "ALICE")))
      ∷ syncs (codes "CAROL joins a full room (refused -> LOBBY)")
      ∷ []

unfoldable pub s1_roster_order : ℕ → List Command
unfolding hello_as diff_frame ljust8
s1_roster_order proto =
    hello_as (codes "ALICE") proto
    ++ hello_as (codes "BOB") proto
    ++ hello_as (codes "CAROL") proto
    ++ hello_as (codes "DAVE") proto
    ++ (connects (codes "OLDGUY")
        ∷ sends (codes "OLDGUY") (diff_frame t_hello (1 ∷ codes "OLDGUY"))
        ∷ syncs (codes "v1 hello refused")
        ∷ sends (codes "ALICE") (diff_frame t_list [])
        ∷ sends (codes "BOB") (diff_frame t_list [])
        ∷ sends (codes "CAROL") (diff_frame t_list [])
        ∷ sends (codes "DAVE") (diff_frame t_list [])
        ∷ syncs (codes "LIST from each")
        ∷ sends (codes "CAROL") (diff_frame t_hello (2 ∷ codes "CAROL2"))
        ∷ syncs (codes "CAROL renames to CAROL2")
        ∷ [])
    ++ hello_as (codes "EVE") proto
    ++ (sends (codes "EVE") (diff_frame t_hello (2 ∷ codes "BOB"))
        ∷ syncs (codes "EVE steals the name BOB")
        ∷ sends (codes "ALICE") (diff_frame t_list [])
        ∷ sends (codes "DAVE") (diff_frame t_list [])
        ∷ sends (codes "EVE") (diff_frame t_list [])
        ∷ syncs (codes "LIST after the churn")
        ∷ closes (codes "ALICE")
        ∷ syncs (codes "ALICE disconnects")
        ∷ sends (codes "DAVE") (diff_frame t_list [])
        ∷ sends (codes "EVE") (diff_frame t_list [])
        ∷ syncs (codes "LIST after a drop")
        ∷ [])

unfoldable pub s2_rooms : ℕ → ℕ → List Command
unfolding hello_as diff_frame ljust8 s2_third
s2_rooms proto seats =
    hello_as (codes "ALICE") proto
    ++ hello_as (codes "BOB") proto
    ++ hello_as (codes "CAROL") proto
    ++ (sends (codes "BOB") (diff_frame t_join (ljust8 (codes "ALICE")))
        ∷ syncs (codes "BOB joins ALICE")
        ∷ sends (codes "CAROL") (diff_frame t_list [])
        ∷ syncs (codes "status: forming room")
        ∷ [])
    ++ s2_third seats
    ++ (sends (codes "BOB") (diff_frame t_join (ljust8 (codes "ALICE")))
        ∷ syncs (codes "in-room JOIN is silent")
        ∷ sends (codes "CAROL") (diff_frame t_join (ljust8 (codes "NOBODY")))
        ∷ syncs (codes "JOIN unknown name -> LOBBY")
        ∷ sends (codes "ALICE") (diff_frame t_join (ljust8 (codes "ALICE")))
        ∷ syncs (codes "self-join from an in-room client")
        ∷ [])
    ++ hello_as (codes "DAVE") proto
    ++ (sends (codes "DAVE") (diff_frame t_join (ljust8 (codes "DAVE")))
        ∷ syncs (codes "DAVE self-join -> LOBBY")
        ∷ sends (codes "DAVE") (diff_frame t_join (codes "THISNAMEISWAYTOOLONG"))
        ∷ syncs (codes "JOIN an over-long name -> LOBBY")
        ∷ [])

unfoldable pub s3_go_start : ℕ → List Command
unfolding hello_as diff_frame ljust8
s3_go_start proto =
    hello_as (codes "ALICE") proto
    ++ hello_as (codes "BOB") proto
    ++ (sends (codes "ALICE") (diff_frame t_go [])
        ∷ syncs (codes "GO with no room (ignored)")
        ∷ sends (codes "BOB") (diff_frame t_join (ljust8 (codes "ALICE")))
        ∷ syncs (codes "BOB joins ALICE")
        ∷ sends (codes "BOB") (diff_frame t_go [])
        ∷ syncs (codes "guest GO (ignored)")
        ∷ sends (codes "ALICE") (diff_frame t_go [])
        ∷ syncs (codes "host GO -> START")
        ∷ sends (codes "ALICE") (diff_frame t_go [])
        ∷ syncs (codes "second GO on a started room (ignored)")
        ∷ [])
    ++ hello_as (codes "CAROL") proto
    ++ (sends (codes "CAROL") (diff_frame t_join (ljust8 (codes "ALICE")))
        ∷ syncs (codes "join a started room -> LOBBY")
        ∷ sends (codes "ALICE") (diff_frame t_ping [])
        ∷ syncs (codes "PING -> PONG")
        ∷ [])

unfoldable pub s4_relay_crc : ℕ → List Command
unfolding hello_as diff_frame ljust8 range agreed_rounds half_reports
s4_relay_crc proto =
    hello_as (codes "ALICE") proto
    ++ hello_as (codes "BOB") proto
    ++ (sends (codes "ALICE") (diff_frame t_input (0 ∷ 1 ∷ 0 ∷ 0x40 ∷ 0 ∷ []))
        ∷ syncs (codes "relay before a room exists (dropped)")
        ∷ sends (codes "BOB") (diff_frame t_join (ljust8 (codes "ALICE")))
        ∷ syncs (codes "BOB joins ALICE")
        ∷ sends (codes "ALICE") (diff_frame t_input (0 ∷ 1 ∷ 0 ∷ 0x40 ∷ 0 ∷ []))
        ∷ syncs (codes "relay before start (dropped)")
        ∷ sends (codes "ALICE") (diff_frame t_go [])
        ∷ syncs (codes "host GO -> START")
        ∷ sends (codes "ALICE") (diff_frame t_input (0 ∷ 7 ∷ 0 ∷ 0x40 ∷ 0 ∷ []))
        ∷ syncs (codes "INPUT fanout")
        ∷ sends (codes "BOB") (diff_frame t_state (0 ∷ 0 ∷ range 0 96))
        ∷ syncs (codes "96-byte STATE fanout")
        ∷ sends (codes "ALICE") (diff_frame t_resync (5 ∷ 0 ∷ []))
        ∷ syncs (codes "RESYNC fanout")
        ∷ [])
    ++ agreed_rounds 0 4
    ++ (syncs (codes "four agreed CRC rounds")
        ∷ sends (codes "ALICE") (diff_frame t_crc (0 ∷ 9 ∷ 0 ∷ 0xAA ∷ 0 ∷ []))
        ∷ sends (codes "BOB") (diff_frame t_crc (1 ∷ 9 ∷ 0 ∷ 0xBB ∷ 0 ∷ []))
        ∷ syncs (codes "a CRC mismatch")
        ∷ [])
    ++ half_reports 100 70
    ++ (syncs (codes "70 half-reported ticks (eviction)")
        ∷ sends (codes "BOB") (diff_frame t_crc (1 ∷ 100 ∷ 0 ∷ 0x33 ∷ 0x44 ∷ []))
        ∷ syncs (codes "complete an evicted tick (no line)")
        ∷ sends (codes "BOB") (diff_frame t_crc (1 ∷ 169 ∷ 0 ∷ 0x33 ∷ 0x44 ∷ []))
        ∷ syncs (codes "complete a surviving tick")
        ∷ sends (codes "ALICE") (diff_frame t_crc (3 ∷ 200 ∷ 0 ∷ 1 ∷ 0 ∷ []))
        ∷ sends (codes "BOB") (diff_frame t_crc (1 ∷ 200 ∷ 0 ∷ 2 ∷ 0 ∷ []))
        ∷ syncs (codes "a lying seat index")
        ∷ [])

unfoldable pub s5_drop_matrix : ℕ → List Command
unfolding hello_as diff_frame ljust8
s5_drop_matrix proto =
    hello_as (codes "ALICE") proto
    ++ hello_as (codes "BOB") proto
    ++ (sends (codes "BOB") (diff_frame t_join (ljust8 (codes "ALICE")))
        ∷ syncs (codes "BOB joins ALICE")
        ∷ sends (codes "ALICE") (diff_frame t_go [])
        ∷ syncs (codes "host GO -> START")
        ∷ closes (codes "BOB")
        ∷ syncs (codes "guest leaves a STARTED room -> PEER_LEFT")
        ∷ [])
    ++ hello_as (codes "CAROL") proto
    ++ hello_as (codes "DAVE") proto
    ++ (sends (codes "DAVE") (diff_frame t_join (ljust8 (codes "CAROL")))
        ∷ syncs (codes "DAVE joins CAROL")
        ∷ closes (codes "CAROL")
        ∷ syncs (codes "host leaves a FORMING room -> ROOM 0")
        ∷ [])
    ++ hello_as (codes "EVE") proto
    ++ hello_as (codes "FRANK") proto
    ++ (sends (codes "FRANK") (diff_frame t_join (ljust8 (codes "EVE")))
        ∷ syncs (codes "FRANK joins EVE")
        ∷ closes (codes "FRANK")
        ∷ syncs (codes "guest leaves a FORMING room of 2 -> dissolve")
        ∷ [])
    ++ hello_as (codes "GRACE") proto
    ++ (sends (codes "GRACE") (diff_frame t_bye []) ∷ syncs (codes "BYE") ∷ [])
    ++ hello_as (codes "HEIDI") proto
    ++ (sends (codes "HEIDI") (diff_frame t_hello (2 ∷ codes "!!"))
        ∷ syncs (codes "a bad name drops the connection")
        ∷ [])

unfoldable pub s6_framing : ℕ → List Command
unfolding hello_as diff_frame ljust8 dribble three_lists join_nobody
s6_framing proto =
    hello_as (codes "ALICE") proto
    ++ dribble (codes "ALICE") (diff_frame t_ping [])
    ++ (syncs (codes "PING dribbled one byte at a time")
        ∷ sends (codes "ALICE") (both_frames (diff_frame t_ping []) (diff_frame t_ping []))
        ∷ syncs (codes "two frames in one write")
        ∷ sends (codes "ALICE") (Option.map (take 2) three_lists)
        ∷ sends (codes "ALICE") (Option.map (drop 2) three_lists)
        ∷ syncs (codes "three LISTs split mid-frame")
        ∷ sends (codes "ALICE") (Option.map (take 1) join_nobody)
        ∷ sends (codes "ALICE") (Option.map (λ j. drop 1 (take 4 j)) join_nobody)
        ∷ sends (codes "ALICE") (Option.map (drop 4) join_nobody)
        ∷ syncs (codes "JOIN in three fragments")
        ∷ connects (codes "BADLEN")
        ∷ sends (codes "BADLEN") (some (0 ∷ []))
        ∷ syncs (codes "length byte 0 -> bad frame length")
        ∷ connects (codes "BADLEN2")
        ∷ sends (codes "BADLEN2") (some (0xC9 ∷ []))
        ∷ syncs (codes "length byte 201 -> bad frame length")
        ∷ [])
    ++ hello_as (codes "DAVE") proto
    ++ (sends (codes "DAVE") (diff_frame 0x7F []) ∷ syncs (codes "unknown type $7F") ∷ [])

-- Nine clients, one after the other.
unfoldable pub connect_each : ℕ → ℕ → List Command
connect_each i zero = []
connect_each i (suc n) = connects (codes "IP" ++ (48 + i) ∷ []) ∷ connect_each (suc i) n

unfoldable pub s7_limits : List Command
unfolding connect_each
s7_limits = connect_each 0 9 ++ syncs (codes "9 connections from one IP") ∷ []
