-- ===== src/Relay/Leaves.antt =====
-- A room that a member has left, while the network keeps up: `dissolve` and the rest of `drop` from
-- there on.
pub mod Drops
use fujinet_intv_golf.Base.{
  ℕ, zero, suc, ◌≤◌, ◌<◌, ◌≡◌, refl, sym, ap, ◌∙◌, subst, fun_ext, Bool, true, false, ◌||◌, List,
  [], ◌∷◌, ◌++◌, arith, ltb, ◌==◌, if◌then◌else◌, update, length, replicate, contains, Bool-cases,
  inl, inr,
}
use fujinet_intv_golf.Wire.{Bytes, t_room, t_peer_left}
use fujinet_intv_golf.Relay.Outcome.{returned, Ends, Ends-and_then, Ends-weaken}
use fujinet_intv_golf.Relay.World.{World, Os, M, ◌>>=◌}
use fujinet_intv_golf.Relay.Output.{
  all_bytes, frame, send, for_each, leave_all, dissolve, end_match, close_seat,
}
use fujinet_intv_golf.Relay.Frames.{
  framed, frame_lem, to_bytes_lem, pad_name_lem, pad_of, length-pad_of,
}
use fujinet_intv_golf.Relay.Handlers.{is_some}
use fujinet_intv_golf.Relay.Invariant.{Inv}
use fujinet_intv_golf.Relay.Delivery.{KeepsUp, Told, Told-none, Told-who, apart}
use fujinet_intv_golf.Relay.Telling.{AllReady, for_each-Told}
use fujinet_intv_golf.Relay.Announce.{room_frame, room_broadcast-Told}

-- Everybody is out of the room.
abbrev pub emptied : ℕ → World → World
emptied r w = record w { room = leave_all (w.members r) w.room; members = update w.members r [] }

-- The frame that says that a room is no more.
abbrev pub no_room : Bytes
no_room = framed t_room (0 ∷ replicate 32 0)

-- Does the room end when the member of a seat has left it, and these stay?
abbrev pub ends : Bool → ℕ → List ℕ → Bool
ends started seat stay = started || (seat == 0 || ltb (length stay) 2)

-- What those who stay are told when a member has left: in a match, who it was; else that the room
-- is no more, or who is left in it.
abbrev pub farewell : ℕ → ℕ → Bool → List ℕ → World → Bytes
farewell c seat started stay w =
    if started
    then framed t_peer_left (seat ∷ pad_of (w.name c))
    else if seat == 0 || ltb (length stay) 2
    then no_room
    else room_frame w.name stay

module _ (os : Os) (up : KeepsUp os) (d : ℕ → M (Unit {0})) (r : ℕ) (w : World) (v : Inv w)
    (ready : AllReady w (w.members r)) where
  -- All the members at once.
  each-Told :
      (b : ℕ) (bs : Bytes) (u : World)
      → length bs ≤ 255
      → u.tx ≡ w.tx
      → u.dead ≡ w.dead
      → Ends
          (for_each (w.members r) (λ m. send os d m (b ∷ bs)) u)
          (λ _ x. Told u x (contains (w.members r)) (λ _. b ∷ bs))
          (λ _ _. ⊥)
  each-Told b bs u l idle alive =
      for_each-Told os up d b bs (w.members r) u u (λ _. false) (omega arith)
        (λ m e. (
          ap (λ (f : ℕ → Bool). f m) alive ∙ (ready m e).0,
          ap (λ (f : ℕ → Bytes). f m) idle ∙ (ready m e).1,
        ))
        (v.rooms.distinct r) (λ m e. refl) (Told-none u (λ _. b ∷ bs))

  dissolve-Told :
      Ends
        (dissolve os d r (w.members r) w)
        (λ _ x. Told (emptied r w) x (contains (w.members r)) (λ _. no_room))
        (λ _ _. ⊥)
  unfolding dissolve
  dissolve-Told = rw plain (
      Ends-and_then (for_each (w.members r) (λ m. send os d m no_room) left)
        (λ _ u. returned tt (record u { members = update u.members r [] }))
        (λ _ u. Told left u (contains (w.members r)) (λ _. no_room))
        (λ _ x. Told (emptied r w) x (contains (w.members r)) (λ _. no_room)) (λ _ _. ⊥)
        (each-Told 34 (t_room ∷ 0 ∷ replicate 32 0) left (omega arith) refl refl)
        (λ _ u h. cleared u h))
    where
      left : World
      left = record w { room = leave_all (w.members r) w.room }

      cleared :
          (u : World)
          → Told left u (contains (w.members r)) (λ _. no_room)
          → Told
              (emptied r w)
              (record u { members = update u.members r [] })
              (contains (w.members r))
              (λ _. no_room)
      cleared u h = record {
        wires = h.wires;
        queues = h.queues;
        same = ap (λ (k : World). record k { members = update k.members r [] }) h.same;
      }

      plain :
          ◌≡◌ {A = ℕ → M (Unit {0})}
            (λ m. frame t_room (0 ∷ replicate 32 0) >>= send os d m)
            (λ m. send os d m no_room)
      plain = fun_ext (λ m.
          fun_ext
            (λ u. rw (frame_lem t_room (0 ∷ replicate 32 0) u (omega arith) (omega arith)) refl))

  end_match-Told :
      (c seat : ℕ)
      → is_some (w.name c) ≡ true
      → seat < 256
      → Ends
          (end_match os d c r seat (w.members r) w)
          (λ _ x.
            Told
              (emptied r w)
              x
              (contains (w.members r))
              (λ _. framed t_peer_left (seat ∷ pad_of (w.name c))))
          (λ _ _. ⊥)
  unfolding end_match all_bytes dissolve for_each
  end_match-Told c seat has small =
      let l : length (pad_of (w.name c)) ≡ 8 = length-pad_of c w v.names.ascii has in
      rw (to_bytes_lem (seat ∷ []) w (ground arith)) (
        rw (pad_name_lem c w v.names.ascii has) (
          rw (frame_lem t_peer_left (seat ∷ pad_of (w.name c)) w (omega arith) (omega arith))
            (each-Told _ _ (emptied r w) (omega arith) refl refl)))

  pub close_seat-Told :
      (c seat : ℕ)
      → is_some (w.name c) ≡ true
      → seat < 256
      → Ends
          (close_seat os d c r seat w)
          (λ _ x.
            Told
              (if ends (w.started r) seat (w.members r) then emptied r w else w)
              x
              (contains (w.members r))
              (λ _. farewell c seat (w.started r) (w.members r) w))
          (λ _ _. ⊥)
  unfolding close_seat
  close_seat-Told c seat has small = elim (Bool-cases (w.started r)) [
    | inl e ↦ rw e (end_match-Told c seat has small)
    | inr e ↦ rw e (elim (Bool-cases (seat == 0)) [
      | inl f ↦ rw f dissolve-Told
      | inr f ↦ rw f (elim (Bool-cases (ltb (length (w.members r)) 2)) [
        | inl g ↦ rw g dissolve-Told
        | inr g ↦ rw g (room_broadcast-Told os up r w v d ready)
      ])
    ])
  ]

  -- The same, for a room whose members are known.
  pub close_seat-stay :
      (c seat : ℕ) (stay : List ℕ)
      → w.members r ≡ stay
      → is_some (w.name c) ≡ true
      → seat < 256
      → Ends
          (close_seat os d c r seat w)
          (λ _ x.
            Told
              (if ends (w.started r) seat stay then emptied r w else w)
              x
              (contains stay)
              (λ _. farewell c seat (w.started r) stay w))
          (λ _ _. ⊥)
  close_seat-stay c seat stay e has small =
      subst
        (λ ms.
          Ends (close_seat os d c r seat w)
            (λ _ x.
              Told (if ends (w.started r) seat ms then emptied r w else w) x (contains ms)
                (λ _. farewell c seat (w.started r) ms w))
            (λ _ _. ⊥))
        e (close_seat-Told c seat has small)
