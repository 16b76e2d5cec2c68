-- ===== src/Clients/Gate/Scenarios.antt =====
-- tools/bbnet_client_sim.py: `scenario_autogo` and `scenario_full`, and what the scenarios share.
use fujinet_intv_golf.Base.{
  ℕ, zero, suc, ◌+◌, ◌-◌, Bool, true, false, ◌&&◌, List, [], ◌∷◌, ◌++◌, Option, none, ◌==◌, same,
  if◌then◌else◌, take, drop, get_elem?,
}
use fujinet_intv_golf.Base.Texts.{codes}
use fujinet_intv_golf.Wire.{Bytes, Text, ljust8, t_input, t_join, t_lobby, t_room, t_start}
use fujinet_intv_golf.Relay.World.{Os}
use fujinet_intv_golf.Clients.Sim.{
  Received, got, timed_out, eof_error, index_error, client_frame, roster_names, pad,
}
use fujinet_intv_golf.Clients.Gate.{
  G, give, ◌>>=◌, ◌>>◌, or_fail, assert_that, each, receive, expects, sees, expect_silence, tell,
  hang_up, cli, start_server,
}

-- `p[i]`
abbrev pub payload_at : Bytes → ℕ → G ℕ
payload_at p i = or_fail (get_elem? p i)

-- `enumerate`, from a number.
unfoldable pub enumerated : {A : Type 0} → ℕ → List A → List (ℕ × A)
enumerated i [] = []
enumerated i (a ∷ rest) = (i, a) ∷ enumerated (suc i) rest

unfoldable pub equal_names : List Text → List Text → Bool
equal_names [] [] = true
equal_names (a ∷ xs) (b ∷ ys) = same a b && equal_names xs ys
equal_names _ _ = false

-- `Cli` for each name, and its LOBBY frame.
module _ (os : Os) where
  unfoldable pub all_clis : List Text → G (List ℕ)
  unfolding cli
  all_clis [] = give []
  all_clis (n ∷ names) = do i ← cli os n 2; rest ← all_clis names; give (i ∷ rest)

abbrev pub lobby_each : List ℕ → G (Unit {0})
lobby_each clis = each (λ i. sees i t_lobby) clis

unfoldable pub join_frame : Text → Option Bytes
unfolding client_frame ljust8
join_frame name = client_frame t_join (pad name)

-- `roster_names(raw)[:n] == names`
module _ (decode : Bytes → Option Text) where
  unfoldable pub roster_starts : Bytes → ℕ → List Text → G (Unit {0})
  unfolding roster_names equal_names
  roster_starts raw n names = do
    found ← or_fail (roster_names decode raw)
    assert_that (equal_names (take n found) names)

module _ (os : Os) where
  unfoldable pub scenario_autogo : G (Unit {0})
  unfolding start_server cli expects tell hang_up join_frame
  scenario_autogo = do
    start_server os 2
    a ← cli os (codes "EVE") 2
    sees a t_lobby
    b ← cli os (codes "FRANK") 2
    sees b t_lobby
    tell os b (join_frame (codes "EVE"))
    sees a t_room
    sees b t_room
    pa ← expects a t_start
    pb ← expects b t_start
    a0 ← payload_at pa 0
    b0 ← payload_at pb 0
    a1 ← payload_at pa 1
    b1 ← payload_at pb 1
    assert_that (a0 == 0 && b0 == 1 && a1 == b1 && b1 == 2)
    hang_up os a
    hang_up os b

-- `P{i + 1}{chr(ord('A') + i) * 2}` for each seat.
unfoldable pub player_names : ℕ → ℕ → List Text
player_names i zero = []
player_names i (suc n) = (b'P' ∷ (b'1' + i) ∷ (b'A' + i) ∷ (b'A' + i) ∷ []) ∷ player_names (suc i) n

-- A round of the loop that waits for START; its first argument is the loop.
unfoldable pub start_or : G Bytes → Received → G Bytes
start_or again (got t p buf chunks) = if t == t_start then give p else again
start_or again (timed_out buf) = λ s. none
start_or again eof_error = λ s. none
start_or again index_error = λ s. none

-- The loop; its first argument bounds its rounds.
unfoldable pub until_start : ℕ → ℕ → G Bytes
unfolding receive start_or
until_start zero i = λ s. none
until_start (suc k) i = let again = until_start k i in receive i >>= λ r. start_or again r

-- Each gets at most a ROOM for each member before its START.
module _ (decode : Bytes → Option Text) (seats : ℕ) (names : List Text) where
  unfoldable pub starts_all : ℕ → List ℕ → G (Unit {0})
  unfolding until_start roster_starts
  starts_all seat [] = give tt
  starts_all seat (i ∷ clis) = do
    p ← until_start (suc seats) i
    p0 ← payload_at p 0
    p1 ← payload_at p 1
    assert_that (p0 == seat && p1 == seats)
    roster_starts decode (take 32 (drop 5 p)) seats names
    starts_all (suc seat) clis

-- Each but the sender gets the message.
unfoldable pub input_to_others : ℕ → Bytes → List (ℕ × ℕ) → G (Unit {0})
unfolding expects same
input_to_others sender msg [] = give tt
input_to_others sender msg ((seat, i) ∷ clis) =
    let rest = input_to_others sender msg clis in
    if seat == sender then rest else (expects i t_input >>= λ p. assert_that (same p msg) >> rest)

module _ (os : Os) (decode : Bytes → Option Text) (seats : ℕ) where
  unfoldable pub scenario_full : G (Unit {0})
  unfolding start_server all_clis enumerated player_names expects tell hang_up cli join_frame
      starts_all input_to_others expect_silence client_frame
  scenario_full = do
    start_server os seats
    let pnames = player_names 0 seats
    clis ← all_clis os pnames
    lobby_each clis
    first ← or_fail (get_elem? pnames 0)
    each (λ c. tell os c (join_frame first)) (drop 1 clis)
    starts_all decode seats pnames 0 clis
    e ← cli os (codes "PZZZ") 2
    sees e t_lobby
    tell os e (join_frame first)
    sees e t_lobby
    let msg = (seats - 1) ∷ 7 ∷ 0 ∷ 0x40 ∷ 0 ∷ []
    sender ← or_fail (get_elem? clis (seats - 1))
    tell os sender (client_frame t_input msg)
    input_to_others (seats - 1) msg (enumerated 0 clis)
    expect_silence sender
    each (hang_up os) (clis ++ e ∷ [])
