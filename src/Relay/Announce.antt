-- ===== src/Relay/Announce.antt =====
-- `room_broadcast` while the network keeps up.
use fujinet_intv_golf.Base.{
  ℕ, ◌≡◌, refl, sym, ap, subst, Bool, true, ◌&&◌, List, [], ◌∷◌, Option, arith, length, contains,
}
use fujinet_intv_golf.Wire.{Bytes, Text, t_room}
use fujinet_intv_golf.Relay.Outcome.{Ends, Ends-weaken}
use fujinet_intv_golf.Relay.World.{World, Os, M, ◌>>=◌}
use fujinet_intv_golf.Relay.Output.{all_bytes, frame, send, room_broadcast}
use fujinet_intv_golf.Relay.Frames.{
  framed, frame_lem, to_bytes_lem, roster_lem, roster_of, length-roster_of,
}
use fujinet_intv_golf.Relay.Invariant.{Inv}
use fujinet_intv_golf.Relay.Delivery.{KeepsUp, Told, Told-who, apart}
use fujinet_intv_golf.Relay.Telling.{AllReady, send-so_far, Tells, for_members-Told}

-- The ROOM frame of a room with these members.
abbrev pub room_frame : (ℕ → Option Text) → List ℕ → Bytes
room_frame name ms = framed t_room (length ms ∷ roster_of name ms)

apart-Inv : (w : World) → Inv w → Inv (apart w)
apart-Inv w v = record {
  rooms = v.rooms;
  names = v.names;
  clients = v.clients;
  unused = v.unused;
  backlog = λ c. omega arith;
  crc = v.crc;
  lobby = v.lobby;
}

-- Telling does not disturb the invariant.
pub Told-Inv : (w u : World) (who : ℕ → Bool) (said : ℕ → Bytes) → Told w u who said → Inv w → Inv u
Told-Inv w u who said h v =
    let k = subst Inv (sym h.same) (apart-Inv w v) in
    record {
      rooms = k.rooms;
      names = k.names;
      clients = k.clients;
      unused = k.unused;
      backlog = λ c. omega (arith, ap (length {A = ℕ}) (h.queues c), v.backlog c);
      crc = k.crc;
      lobby = k.lobby;
    }

module _ (os : Os) (up : KeepsUp os) (r : ℕ) (w : World) (v : Inv w) where
  small : length (roster_of w.name (w.members r)) ≡ 32
  small = length-roster_of r w v

  broadcast-Tells :
      (d : ℕ → M (Unit {0}))
      → AllReady w (w.members r)
      → Tells os up r w
          (λ _. true)
          (λ _. room_frame w.name (w.members r))
          (λ i m.
            frame t_room (length (w.members r) ∷ roster_of w.name (w.members r)) >>= send os d m)
  broadcast-Tells d ready i m u e h =
      rw
        (frame_lem t_room (length (w.members r) ∷ roster_of w.name (w.members r)) u (omega arith)
          (omega (arith, small)))
        (send-so_far os up r w (λ _. true) (λ _. room_frame w.name (w.members r)) d i m _ _ u e
          (v.rooms.distinct r) ready refl refl (omega (arith, small)) h)

  pub room_broadcast-Told :
      (d : ℕ → M (Unit {0}))
      → AllReady w (w.members r)
      → Ends
          (room_broadcast os d r w)
          (λ _ u. Told w u (contains (w.members r)) (λ _. room_frame w.name (w.members r)))
          (λ _ _. ⊥)
  unfolding room_broadcast all_bytes
  room_broadcast-Told d ready =
      rw (to_bytes_lem (length (w.members r) ∷ []) w (ground (arith, v.rooms.seats r))) (
        rw (roster_lem r w v) (
          Ends-weaken _ (λ _ u. Told w u (λ x. contains (w.members r) x && true) _) _ (λ _ _. ⊥) _
            (for_members-Told os up r w (λ _. true) (λ _. room_frame w.name (w.members r)) _
              (broadcast-Tells d ready))
            (λ _ u q. Told-who w u _ _ _ (λ x. ground arith) q) (λ _ _ q. q)))

  -- The same, for a room whose members are known.
  pub room_broadcast-seated :
      (d : ℕ → M (Unit {0})) (ms : List ℕ)
      → w.members r ≡ ms
      → AllReady w ms
      → Ends
          (room_broadcast os d r w)
          (λ _ u. Told w u (contains ms) (λ _. room_frame w.name ms))
          (λ _ _. ⊥)
  room_broadcast-seated d ms e =
      subst
        (λ l.
          AllReady w l
          → Ends (room_broadcast os d r w) (λ _ u. Told w u (contains l) (λ _. room_frame w.name l))
              (λ _ _. ⊥))
        e (room_broadcast-Told d)
