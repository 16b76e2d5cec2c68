-- ===== src/Clients/Gate/Match.antt =====
-- tools/bbnet_client_sim.py: `scenario_main` from the start of the match on.
use fujinet_intv_golf.Base.{
  ℕ, ◌+◌, ◌-◌, ◌*◌, ◌&&◌, ◌||◌, not, List, [], ◌∷◌, Option, none, some, ◌==◌, leb, same, bit_or,
  if◌then◌else◌, length, take, drop, get_elem?,
}
use fujinet_intv_golf.Base.Texts.{codes}
use fujinet_intv_golf.Wire.{Bytes, Text, t_go, t_input, t_lobby, t_peer_left, t_room, t_state}
use fujinet_intv_golf.Relay.World.{Os}
use fujinet_intv_golf.Clients.Sim.{client_frame, strip_zeros}
use fujinet_intv_golf.Clients.Gate.{
  G, give, ◌>>=◌, ◌>>◌, or_fail, assert_that, each, expects, sees, expect_silence, tell, hang_up,
  cli,
}
use fujinet_intv_golf.Clients.Gate.Scenarios.{
  payload_at, enumerated, join_frame, scenario_autogo, scenario_full,
}
use fujinet_intv_golf.Clients.Gate.Main.{
  room_names, counting, crc_frame, sees_crcs, one_seed, status_shown, room_shown, starts_shown,
  arrivals, joins,
}

-- A console says HELLO, gets LOBBY and asks ALICE to join.
module _ (os : Os) where
  unfoldable pub joins_alice : Text → G ℕ
  unfolding tell join_frame expects cli
  joins_alice name = do
    g ← cli os name 2
    sees g t_lobby
    tell os g (join_frame (codes "ALICE"))
    give g

  -- A round of checksums, and each sees the others'.
  unfoldable pub crc_round : List ℕ → ℕ → (ℕ → ℕ) → G (Unit {0})
  unfolding tell crc_frame enumerated sees_crcs
  crc_round clis tick value = do
    each (λ e. tell os e.1 (crc_frame e.0 tick (value e.0))) (enumerated 0 clis)
    each (sees_crcs (length clis - 1)) clis

module _ (os : Os) (decode : Bytes → Option Text) (seats : ℕ) where
  -- 4, 2b and 7b: GO, from a guest first, and the started room.
  unfoldable pub match_starts : List ℕ → ℕ → G (Unit {0})
  unfolding tell client_frame starts_shown enumerated one_seed status_shown join_frame expects
  match_starts clis e = do
    c0 ← or_fail (get_elem? clis 0)
    c1 ← or_fail (get_elem? clis 1)
    tell os c1 (client_frame t_go [])
    tell os c0 (client_frame t_go [])
    seeds ← starts_shown os decode seats (enumerated 0 clis) (take seats room_names)
    assert_that (one_seed seeds)
    status_shown os decode seats e (codes "ALICE") (bit_or 0x80 seats)
    tell os e (join_frame (codes "ALICE"))
    sees e t_lobby

  -- 5 and 6: INPUT and STATE to the others, and rounds of checksums.
  unfoldable pub plays : List ℕ → G (Unit {0})
  unfolding tell client_frame expects same expect_silence crc_round counting
  plays clis = do
    c0 ← or_fail (get_elem? clis 0)
    let inp = 0 ∷ 5 ∷ 0 ∷ 0x44 ∷ 0 ∷ []
    tell os c0 (client_frame t_input inp)
    each (λ i. expects i t_input >>= λ p. assert_that (same p inp)) (drop 1 clis)
    expect_silence c0
    let stt = 0 ∷ 0xFF ∷ 9 ∷ 0 ∷ []
    tell os c0 (client_frame t_state stt)
    each (λ i. expects i t_state >>= λ p. assert_that (same p stt)) (drop 1 clis)
    each (λ rnd. crc_round os clis (64 * (rnd + 1)) (λ _. 0xBEEF)) (counting 0 4)
    crc_round os clis 320 (λ seat. if seat == 1 then 0x2222 else 0x1111)

  -- 10: a player walks out of a match.
  unfoldable pub walks_out : List ℕ → ℕ → G (Unit {0})
  unfolding hang_up expects same strip_zeros status_shown enumerated
  walks_out clis e = do
    c0 ← or_fail (get_elem? clis 0)
    c1 ← or_fail (get_elem? clis 1)
    hang_up os c1
    each
        (λ i. expects i t_peer_left >>= λ p. payload_at p 0 >>= λ p0.
          assert_that (p0 == 1 && same (strip_zeros (take 8 (drop 1 p))) (codes "BOB")))
        (c0 ∷ drop 2 clis)
    status_shown os decode seats e (codes "ALICE") 1
    each (λ name. status_shown os decode seats e name 1) (drop 2 (take seats room_names))
    hang_up os e
    each (hang_up os) (drop 2 clis)

  -- 8: a guest leaves a forming room; the guest who is there in the end.
  unfoldable pub guest_leaves : ℕ → G ℕ
  unfolding joins_alice expects hang_up room_shown
  guest_leaves host = do
    g1 ← joins_alice os (codes "GUESTA")
    sees host t_room
    sees g1 t_room
    if leb 3 seats
        then (joins_alice os (codes "GUESTB") >>= λ g2.
            each (λ i. sees i t_room) (host ∷ g1 ∷ g2 ∷ [])
            >> hang_up os g1
            >> room_shown os decode seats host 2 (codes "ALICE" ∷ codes "GUESTB" ∷ [])
            >> sees g2 t_room
            >> give g2)
        else (hang_up os g1
            >> (expects host t_room >>= λ p. payload_at p 0 >>= λ p0. assert_that (p0 == 0))
            >> (joins_alice os (codes "GUESTC") >>= λ tail.
                each (λ i. sees i t_room) (host ∷ tail ∷ []) >> give tail))

  -- 8 and 9: the host leaves too.
  unfoldable pub scenario_main : G (Unit {0})
  unfolding arrivals joins match_starts plays walks_out guest_leaves hang_up expects
  scenario_main = do
    who ← arrivals os decode seats
    joins os decode seats who.0 who.1
    match_starts who.0 who.1
    plays who.0
    walks_out who.0 who.1
    host ← or_fail (get_elem? who.0 0)
    tail ← guest_leaves host
    hang_up os host
    p ← expects tail t_room
    p0 ← payload_at p 0
    assert_that (p0 == 0)
    hang_up os tail

  -- What the program runs, for SEATS and SERVER; none is an exit with a message. SERVER=c is the
  -- server in C, in place of this one.
  unfoldable pub gate : Text → Option (G (Unit {0}))
  unfolding scenario_main scenario_autogo scenario_full same
  gate server =
      if leb 2 seats && leb seats 4
      then (if not (seats == 2) && not (same server (codes "c"))
          then none
          else if same server (codes "py") || same server (codes "c")
          then some (scenario_main >> scenario_autogo os >> scenario_full os decode seats)
          else none)
      else none
