-- ===== src/Clients/Gate/Main.antt =====
-- tools/bbnet_client_sim.py: `scenario_main`, but for the words that it looks for in the server's log.
use fujinet_intv_golf.Base.{
  ℕ, zero, suc, ◌-◌, ◌/◌, ◌%◌, Bool, true, false, ◌&&◌, List, [], ◌∷◌, Option, none, some, ◌==◌,
  leb, bit_or, if◌then◌else◌, length, take, drop, get_elem?,
}
use fujinet_intv_golf.Base.Texts.{codes}
use fujinet_intv_golf.Wire.{Bytes, Text, t_crc, t_lobby, t_room, t_start}
use fujinet_intv_golf.Relay.World.{Os}
use fujinet_intv_golf.Clients.Sim.{
  Received, got, timed_out, eof_error, index_error, client_frame, lobby_status, st,
}
use fujinet_intv_golf.Clients.Gate.{
  G, give, ◌>>=◌, ◌>>◌, or_fail, assert_that, each, receive, expects, sees, tell, hang_up, cli,
  ask_lobby, start_server,
}
use fujinet_intv_golf.Clients.Gate.Scenarios.{
  payload_at, all_clis, lobby_each, join_frame, roster_starts,
}

-- ROOM_NAMES
abbrev pub room_names : List Text
room_names = codes "ALICE" ∷ codes "BOB" ∷ codes "CAROL" ∷ codes "DAVE" ∷ []

-- EOFError or a time-out: a hello of version 1 is refused.
unfoldable pub is_refusal : Received → Bool
is_refusal (got t p buf chunks) = false
is_refusal (timed_out buf) = true
is_refusal eof_error = true
is_refusal index_error = false

-- `range(1, n)` and the like.
unfoldable pub counting : ℕ → ℕ → List ℕ
counting i zero = []
counting i (suc n) = i ∷ counting (suc i) n

-- `lobby_status(payload, name) == status`
unfoldable pub is_status : ℕ → Option ℕ → Bool
is_status status none = false
is_status status (some found) = found == status

-- `bytes([seat, tick & 0xFF, tick >> 8, val & 0xFF, val >> 8])`
unfoldable pub crc_frame : ℕ → ℕ → ℕ → Option Bytes
unfolding client_frame
crc_frame seat tick val =
    client_frame t_crc (seat ∷ tick % 256 ∷ tick / 256 ∷ val % 256 ∷ val / 256 ∷ [])

-- The others' frames with the checksums.
unfoldable pub sees_crcs : ℕ → ℕ → G (Unit {0})
unfolding expects
sees_crcs zero i = give tt
sees_crcs (suc n) i = sees i t_crc >> sees_crcs n i

-- All seeds are the same: `len(seeds) == 1`.
unfoldable pub one_seed : List (ℕ × ℕ) → Bool
one_seed [] = false
one_seed ((a, b) ∷ []) = true
one_seed ((a, b) ∷ (c, d) ∷ rest) = let more = one_seed ((c, d) ∷ rest) in a == c && b == d && more

module _ (os : Os) (decode : Bytes → Option Text) (seats : ℕ) where
  -- `assert lobby_status(e.lobby(), name) == status`
  unfoldable pub status_shown : ℕ → Text → ℕ → G (Unit {0})
  unfolding ask_lobby lobby_status is_status
  status_shown e name status = do
    p ← ask_lobby os e
    found ← or_fail (lobby_status decode p name)
    assert_that (is_status status found)

  -- A ROOM frame with a number of members, and the first names of the roster.
  unfoldable pub room_shown : ℕ → ℕ → List Text → G (Unit {0})
  unfolding expects roster_starts
  room_shown i n names = do
    p ← expects i t_room
    p0 ← payload_at p 0
    assert_that (p0 == n)
    roster_starts decode (take 32 (drop 1 p)) (length names) names

  -- The START of each seat, and the seeds.
  unfoldable pub starts_shown : List (ℕ × ℕ) → List Text → G (List (ℕ × ℕ))
  unfolding expects roster_starts
  starts_shown [] names = give []
  starts_shown ((seat, i) ∷ clis) names = do
    p ← expects i t_start
    assert_that (length p == 37)
    p0 ← payload_at p 0
    p1 ← payload_at p 1
    lo ← payload_at p 2
    hi ← payload_at p 3
    p4 ← payload_at p 4
    assert_that (p0 == seat && p1 == seats && leb 1 p4)
    roster_starts decode (take 32 (drop 5 p)) seats names
    rest ← starts_shown clis names
    give ((lo, hi) ∷ rest)

  -- 1: the consoles of the room, and the observer.
  unfoldable pub arrivals : G (List ℕ × ℕ)
  unfolding start_server cli receive is_refusal hang_up expects all_clis
  arrivals = do
    start_server os 0
    a ← cli os (codes "ALICE") 2
    p ← expects a t_lobby
    p0 ← payload_at p 0
    assert_that (p0 == 0)
    v1 ← cli os (codes "OLDGUY") 1
    r ← receive v1
    assert_that (is_refusal r)
    hang_up os v1
    others ← all_clis os (drop 1 (take seats room_names))
    lobby_each others
    e ← cli os (codes "EVE") 2
    sees e t_lobby
    give (a ∷ others, e)

  -- The ROOM frames of one more join to the host.
  unfoldable pub one_more : List ℕ → ℕ → G (Unit {0})
  unfolding tell join_frame expects
  one_more clis i = do
    c ← or_fail (get_elem? clis i)
    tell os c (join_frame (codes "ALICE"))
    each (λ k. expects k t_room >>= λ p. payload_at p 0 >>= λ n. assert_that (n == suc i))
        (take (suc i) clis)

  -- 2, 3 and 7a: joins build a room, until it is full.
  unfoldable pub joins : List ℕ → ℕ → G (Unit {0})
  unfolding tell join_frame room_shown status_shown st one_more counting expects
  joins clis e = do
    let names = take seats room_names
    status_shown e (codes "ALICE") (st seats 1)
    c1 ← or_fail (get_elem? clis 1)
    tell os c1 (join_frame (codes "ALICE"))
    each (λ i. room_shown i 2 (take 2 names)) (take 2 clis)
    status_shown e (codes "ALICE") (st seats 2)
    status_shown e (codes "BOB") (st seats 2)
    if leb 3 seats
        then (or_fail (get_elem? clis 2) >>= λ c2.
            tell os c2 (join_frame (codes "BOB"))
            >> each (λ i. room_shown i 3 (take 3 names)) (take 3 clis))
        else give tt
    each (one_more clis) (counting 3 (seats - 3))
    status_shown e (codes "ALICE") (bit_or 0x80 seats)
    tell os e (join_frame (codes "ALICE"))
    sees e t_lobby
