-- ===== src/Relay/Leaves/Drops.antt =====
-- What a drop does to a room, while the network keeps up: `drop` on every branch.

use fujinet_intv_golf.Base.{
  ℕ, ◌≡◌, refl, sym, ap, ◌∙◌, subst, Bool, true, false, not, ◌&&◌, ◌||◌, List, [], ◌++◌, Option,
  none, some, arith, ◌==◌, ==-eq, ==-self, if◌then◌else◌, length, keep_if, is_empty, get_elem?,
  contains, contains-erase_self, erase, index_of?-get_elem?, Bool-cases, inl, inr,
}
use fujinet_intv_golf.Base.Assoc.{keep_if-eq_self}
use fujinet_intv_golf.Wire.{Bytes, Text}
use fujinet_intv_golf.Relay.Outcome.{Ends, Ends-and_then, Ends-weaken}
use fujinet_intv_golf.Relay.World.{World, Os, Publisher, M}
use fujinet_intv_golf.Relay.Output.{
  close_seat, forget, leave_room, leave_if, drop_body, drop_within, drop_client,
}
use fujinet_intv_golf.Relay.Handles.Start.{get_elem?-lt}
use fujinet_intv_golf.Relay.Invariant.{LobbyOk, Inv}
use fujinet_intv_golf.Relay.Settles.Steps.{publish-LobbyOk}
use fujinet_intv_golf.Relay.Settles.Leaving.{forget-Inv, gone, leave-Inv}
use fujinet_intv_golf.Relay.Delivery.{KeepsUp, Told}
use fujinet_intv_golf.Relay.Telling.{AllReady, published}
use fujinet_intv_golf.Relay.Leaves.{emptied, ends, farewell, close_seat-stay}

-- Client `c` has left its seat of room `r`, where the others are `stay`, and are told the bytes; the
-- room is over, or goes on without it.
pub record Left (w v : World) (c r : ℕ) (stay : List ℕ) (over : Bool) (bytes : Bytes) : Type 0 where
  pub frames : (m : ℕ) → v.wire m ≡ (if contains stay m then w.wire m ++ bytes else w.wire m)
  pub queues : (m : ℕ) → v.tx m ≡ w.tx m
  pub deaths : (m : ℕ) → v.dead m ≡ (if m == c then true else w.dead m)
  pub off : v.clients ≡ erase c w.clients
  pub unlisted : v.by_name ≡ keep_if (λ e. not (e.1 == c)) w.by_name
  pub rooms : (m : ℕ) → v.room m ≡ (if m == c || over && contains stay m then none else w.room m)
  pub seats : v.members r ≡ (if over then [] else stay)
  pub other_rooms :
      (s : ℕ) → (s == r) ≡ false → (v.members s ≡ w.members s) × (v.started s ≡ w.started s)
  pub same_name : v.name ≡ w.name

module _ (os : Os) (up : KeepsUp os) (d : ℕ → M (Unit {0})) (c r seat : ℕ) (w : World) (v : Inv w)
    (here : w.room c ≡ some r) (sits : get_elem? (w.members r) seat ≡ some c)
    (ready : AllReady w (erase c (w.members r))) where
  -- The books without the client.
  abbrev without : Option Publisher → World
  without lobby = record (forget c w) { lobby = lobby }

  abbrev stay : List ℕ
  stay = erase c (w.members r)

  leave_room-Told :
      (lobby : Option Publisher)
      → LobbyOk lobby (forget c w).by_name
      → Ends
          (leave_room os d c r (without lobby))
          (λ _ x.
            (u : World) × Told
              (if ends (w.started r) seat stay
                then emptied r (gone (without lobby) c r)
                else gone (without lobby) c r)
              u
              (contains stay)
              (λ _. farewell c seat (w.started r) stay w)
            × (x ≡ published u))
          (λ _ _. ⊥)
  unfolding leave_room
  leave_room-Told lobby h =
      let v' = forget-Inv w c lobby v h in
      rw (index_of?-get_elem? (w.members r) seat c (v.rooms.distinct r) sits) (
        rw (v.rooms.joined c r here) (
          Ends-and_then (close_seat os d c r seat (gone (without lobby) c r)) _
            (λ _ u.
              Told
                (if ends (w.started r) seat stay
                  then emptied r (gone (without lobby) c r)
                  else gone (without lobby) c r)
                u (contains stay) (λ _. farewell c seat (w.started r) stay w))
            _ _
            (close_seat-stay os up d r (gone (without lobby) c r)
              (leave-Inv (without lobby) c r v' here) still_ready c seat stay (rw (==-self r) refl)
              (v.rooms.named c r (v.rooms.joined c r here))
              (omega (arith, get_elem?-lt (w.members r) seat c sits, v.rooms.seats r)))
            (λ _ u q. (u, q, refl))))
    where
      still_ready : AllReady (gone (without lobby) c r) ((gone (without lobby) c r).members r)
      still_ready m e =
          let mine : contains stay m ≡ true =
            subst (λ (l : List ℕ). contains l m ≡ true) (rw (==-self r) refl) e in
          let other : (m == c) ≡ false =
            ground
              (arith, mine, contains-erase_self c (w.members r) (v.rooms.distinct r), ==-eq m c) in
          (rw other (ready m mine).0, (ready m mine).1)

  Told-Left :
      (over : Bool) (bytes : Bytes) (lobby : Option Publisher) (u : World)
      → Told
          (if over then emptied r (gone (without lobby) c r) else gone (without lobby) c r)
          u
          (contains stay)
          (λ _. bytes)
      → Left w (published u) c r stay over bytes
  Told-Left true bytes lobby u h = record {
    frames = h.wires;
    queues = h.queues;
    deaths = λ m. ap (λ (x : World). x.dead m) h.same;
    off = ap (λ (x : World). x.clients) h.same;
    unlisted = ap (λ (x : World). x.by_name) h.same;
    rooms = λ m. ap (λ (x : World). x.room m) h.same ∙ ground (arith, ==-self r);
    seats = ap (λ (x : World). x.members r) h.same ∙ rw (==-self r) refl;
    other_rooms = λ s n. (
      ap (λ (x : World). x.members s) h.same ∙ rw n refl,
      ap (λ (x : World). x.started s) h.same,
    );
    same_name = ap (λ (x : World). x.name) h.same;
  }
  Told-Left false bytes lobby u h = record {
    frames = h.wires;
    queues = h.queues;
    deaths = λ m. ap (λ (x : World). x.dead m) h.same;
    off = ap (λ (x : World). x.clients) h.same;
    unlisted = ap (λ (x : World). x.by_name) h.same;
    rooms = λ m. ap (λ (x : World). x.room m) h.same ∙ ground arith;
    seats = ap (λ (x : World). x.members r) h.same ∙ rw (==-self r) refl;
    other_rooms = λ s n. (
      ap (λ (x : World). x.members s) h.same ∙ rw n refl,
      ap (λ (x : World). x.started s) h.same,
    );
    same_name = ap (λ (x : World). x.name) h.same;
  }

  -- `drop` from the forgetting on.
  after-Left :
      (lobby : Option Publisher)
      → LobbyOk lobby (forget c w).by_name
      → Ends
          (leave_if os d c (w.room c) (without lobby))
          (λ _ x.
            Left w x c r stay (ends (w.started r) seat stay) (farewell c seat (w.started r) stay w))
          (λ _ _. ⊥)
  unfolding leave_if
  after-Left lobby h = rw here (
      Ends-weaken (leave_room os d c r (without lobby)) _ _ (λ _ _. ⊥) _ (leave_room-Told lobby h)
        (λ _ x q. rw (q.2) (Told-Left _ _ lobby q.0 q.1)) (λ _ _ q. q))

  pub drop_body-Left :
      w.dead c ≡ false
      → Ends
          (drop_body os d c w)
          (λ _ x.
            Left w x c r stay (ends (w.started r) seat stay) (farewell c seat (w.started r) stay w))
          (λ _ _. ⊥)
  unfolding drop_body
  drop_body-Left alive =
      rw alive (elim (Bool-cases (is_empty (keep_if (λ (e : Text × ℕ). e.1 == c) w.by_name))) [
        | inl f ↦ rw f (
            after-Left w.lobby
              (subst (LobbyOk w.lobby) (sym (keep_if-eq_self (λ e. e.1 == c) w.by_name f)) v.lobby))
        | inr f ↦ rw f (after-Left _ (publish-LobbyOk w.lobby (forget c w).by_name))
      ])

-- A client in a room is dropped, while the system takes what it is given, in a state that satisfies
-- `Inv`, and none of the others in its room is dead or has output waiting. If the match has started,
-- every other member, and nobody else, gets PEER_LEFT with the seat and the name of the client, the
-- room is emptied, and its members are in no room. If it has not, and the client was the first
-- member or at most one other is left, every other member gets ROOM with the count 0, and the room
-- is emptied in the same way. Else they get ROOM with the number and the names of those who are
-- left, in their order, and stay. The client is dead, off the set of clients and out of the room,
-- and no name leads to it; other rooms are as before.
pub drop_client-Left :
    (os : Os) (up : KeepsUp os) (c r seat : ℕ) (w : World)
    → Inv w
    → w.dead c ≡ false
    → w.room c ≡ some r
    → get_elem? (w.members r) seat ≡ some c
    → AllReady w (erase c (w.members r))
    → Ends
        (drop_client os c w)
        (λ _ x.
          Left w x c r
            (erase c (w.members r))
            (ends (w.started r) seat (erase c (w.members r)))
            (farewell c seat (w.started r) (erase c (w.members r)) w))
        (λ _ _. ⊥)
unfolding drop_client drop_within
drop_client-Left os up c r seat w v alive here sits ready =
    drop_body-Left os up (drop_within os (length w.clients)) c r seat w v here sits ready alive
