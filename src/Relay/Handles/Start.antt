-- ===== src/Relay/Handles/Start.antt =====
-- `start_room` and `on_go`.

use fujinet_intv_golf.Base.{
  ℕ, zero, suc, ◌/◌, ◌%◌, ◌<◌, ◌≡◌, refl, ◌&&◌, List, [], ◌∷◌, ◌++◌, some, arith, leb, ◌==◌, length,
  get_elem?, Bool-cases, Option-cases, inl, inr, index_of?_lem,
}
use fujinet_intv_golf.Wire.{Bytes, t_start, max_seats}
use fujinet_intv_golf.Relay.World.{World, Os}
use fujinet_intv_golf.Relay.Output.{all_bytes, drop_client, for_members, lobby_update}
use fujinet_intv_golf.Relay.Frames.{
  frame_lem, to_bytes_lem, roster_lem, roster_of, length-roster_of,
}
use fujinet_intv_golf.Relay.Handlers.{mark_started, send_start, start_room, go_seat, on_go}
use fujinet_intv_golf.Relay.Invariant.{Inv, Evolves}
use fujinet_intv_golf.Relay.Settles.{
  Settles, Settles-returned, Settles-from, Settles-and_then, each_member-Settles,
}
use fujinet_intv_golf.Relay.Settles.Send.{send-Settles}
use fujinet_intv_golf.Relay.Settles.Drop.{drop_client-Calm}
use fujinet_intv_golf.Relay.Settles.Leaving.{lobby_update-Settles}
use fujinet_intv_golf.Relay.Handles.{SeedsOk}

pub mark_started-Inv : (r seed : ℕ) (w : World) → Inv w → Inv (mark_started r seed w)
mark_started-Inv r seed w v = record {
  rooms = v.rooms;
  names = v.names;
  clients = v.clients;
  unused = v.unused;
  backlog = v.backlog;
  crc = λ s. ground (arith, v.crc s);
  lobby = v.lobby;
}

mark_started-Evolves : (r seed : ℕ) (w : World) → Evolves w (mark_started r seed w)
mark_started-Evolves r seed w = record {
  fewer = omega arith;
  left = λ c s e. e;
  shrunk = λ s. omega arith;
  stayed = λ c s e. e;
  died = λ c e. e;
  same_names = refl;
  same_rx = refl;
  same_delay = refl;
  same_next = refl;
}

pub get_elem?-lt : (l : List ℕ) (i m : ℕ) → get_elem? l i ≡ some m → i < length l
get_elem?-lt [] i m e = cc
get_elem?-lt (x ∷ l) zero m e = omega arith
get_elem?-lt (x ∷ l) (suc i) m e = omega (arith, get_elem?-lt l i m e)

-- What START tells every seat of a room.
abbrev pub common_of : ℕ → ℕ → World → Bytes
common_of r seed w =
    (length (w.members r) ∷ seed % 256 ∷ seed / 256 ∷ w.delay ∷ [])
    ++ roster_of w.name (w.members r)

module _ (os : Os) where
  send_start-Settles :
      (common : Bytes) (seat m : ℕ) (w : World)
      → length common ≡ 36
      → seat < 256
      → Inv w
      → Settles w (send_start os common seat m w)
  unfolding send_start all_bytes
  send_start-Settles common seat m w l small v = rw (to_bytes_lem (seat ∷ []) w (ground arith)) (
      rw (frame_lem t_start (seat ∷ common) w (omega arith) (omega arith)) (
        send-Settles os (suc (length w.clients)) (drop_client os)
          (drop_client-Calm os (suc (length w.clients))) _ m w v (omega arith)))

  pub start_room-Settles :
      (r : ℕ) (w : World) → SeedsOk os → w.delay < 256 → Inv w → Settles w (start_room os r w)
  unfolding start_room all_bytes
  start_room-Settles r w seeds d v = Settles-from w _ _ (mark_started-Evolves r seed w) (
      rw
        (to_bytes_lem (length (w.members r) ∷ seed % 256 ∷ seed / 256 ∷ w.delay ∷ [])
          (mark_started r seed w) (ground (arith, v.rooms.seats r, seeds w.rolls)))
        (rw (roster_lem r (mark_started r seed w) v') (
          Settles-and_then (mark_started r seed w)
            (for_members r (send_start os (common_of r seed w)) (mark_started r seed w))
            (λ _. lobby_update)
            (each_member-Settles (suc (length w.clients)) _ (length (w.members r)) r 0 _
              (λ j m u e vu lt.
                send_start-Settles (common_of r seed w) j m u
                  (omega (arith, length-roster_of r w v))
                  (omega (arith, get_elem?-lt (u.members r) j m e, vu.rooms.seats r)) vu)
              v' (omega arith) (omega arith))
            λ _ u vu _. lobby_update-Settles u vu)))
    where
      seed : ℕ
      seed = os.randrange w.rolls

      v' : Inv (mark_started r seed w)
      v' = mark_started-Inv r seed w v

  pub on_go-Settles :
      (c : ℕ) (w : World) → SeedsOk os → w.delay < 256 → Inv w → Settles w (on_go os c w)
  unfolding on_go go_seat
  on_go-Settles c w seeds d v = elim (Option-cases (w.room c)) [
    | inl e ↦ rw e (Settles-returned tt w v)
    | inr (r, e) ↦ rw e (elim (Bool-cases (w.started r)) [
      | inl f ↦ rw f (Settles-returned tt w v)
      | inr f ↦
          let (i, at, _, _) = index_of?_lem c (w.members r) (v.rooms.joined c r e) in
          rw (f, at)
            (elim (Bool-cases (i == 0)) [
              | inr g ↦ rw g (Settles-returned tt w v)
              | inl g ↦
                  rw g
                    (elim (Bool-cases
                      (leb 2 (length (w.members r)) && leb (length (w.members r)) max_seats)) [
                        | inr h ↦ rw h (Settles-returned tt w v)
                        | inl h ↦ rw h (start_room-Settles r w seeds d v)
                      ])
            ])
    ])
  ]
