-- ===== src/Relay/Joins/Branches.antt =====
-- What a JOIN does, while the network keeps up: `on_join` on every branch past its first two
-- guards.
use fujinet_intv_golf.Base.{
  ℕ, ◌<◌, ◌≡◌, refl, subst, ◌⊎◌, inl, inr, true, false, List, [], ◌∷◌, ◌++◌, Option, none, some,
  arith, ◌==◌, ==-eq, ==-self, length, contains, contains-concat, ◌≢◌, Bool-cases, Option-cases,
}
use fujinet_intv_golf.Base.Assoc.{lookup}
use fujinet_intv_golf.Wire.{Bytes, max_seats}
use fujinet_intv_golf.Relay.Outcome.{Ends, Ends-weaken}
use fujinet_intv_golf.Relay.World.{World, Os}
use fujinet_intv_golf.Relay.Handlers.{
  is_some, is_closed, is_unjoinable, open_room, room_of, admit, join_room, on_join, wire_name,
}
use fujinet_intv_golf.Relay.Handles.{SeedsOk}
use fujinet_intv_golf.Relay.Handles.Enter.{MayEnter, open_room-Inv, room-lt-next}
use fujinet_intv_golf.Relay.Invariant.{Inv}
use fujinet_intv_golf.Relay.Delivery.{KeepsUp, Told}
use fujinet_intv_golf.Relay.Telling.{AllReady}
use fujinet_intv_golf.Relay.Listing.{lobby_frame, on_list-Told}
use fujinet_intv_golf.Relay.Joins.{
  Entered, Entered-Joined-room, Entered-Joined-none, MayGo, admit-Entered, room_for, sitting,
  Joined, MayJoin,
}

-- Those whom a JOIN concerns: who sits in the room, and the client itself.
abbrev pub party : Option ℕ → ℕ → World → List ℕ
party none c w = c ∷ []
party (some t) c w = sitting (w.room t) t w ++ c ∷ []

-- The client has joined, and perhaps the match has started at once.
abbrev pub JoinedThen : Os → World → World → ℕ → ℕ → Type 0
JoinedThen os w v c t =
    (u : World) × Joined w u c t (room_for (w.room t) w) (sitting (w.room t) t w)
    × MayGo u v (room_for (w.room t) w) (os.randrange w.rolls)

module _ (os : Os) (up : KeepsUp os) (seeds : SeedsOk os) where
  module _ (c t : ℕ) (payload : Bytes) (w : World) where
    join_room-Joined :
        Inv w
        → w.delay < 256
        → c < w.next_client
        → w.room c ≡ none
        → is_some (w.name c) ≡ true
        → MayJoin c t payload w
        → AllReady w (party (some t) c w)
        → Ends (join_room os c t w) (λ _ v. JoinedThen os w v c t) (λ _ _. ⊥)
    unfolding join_room room_of
    join_room-Joined v d known alone has may ready = elim (Option-cases (w.room t)) [
      | inr (r, e) ↦ rw e (
          Ends-weaken (admit os c r w)
            (λ _ x. (u : World) × Entered w u c r × MayGo u x r (os.randrange w.rolls)) _ (λ _ _. ⊥)
            _ (admit-Entered os up seeds c r w v d (may_enter r e) (ready_in r e))
            (λ _ x q. (q.0, Entered-Joined-room w q.0 c t r may.other e (may.free r e).0 q.1, q.2))
            (λ _ _ q. q))
      | inl e ↦ rw e (
          Ends-weaken (admit os c w.next_room (open_room t w))
            (λ _ x.
              (u : World) × Entered (open_room t w) u c w.next_room
              × MayGo u x w.next_room (os.randrange w.rolls))
            _ (λ _ _. ⊥) _
            (admit-Entered os up seeds c w.next_room (open_room t w) (opened e) d (may_found e)
              (ready_new e))
            (λ _ x q. (q.0, Entered-Joined-none w q.0 c t may.other q.1, q.2)) (λ _ _ q. q))
    ]
      where
        has_target : is_some (w.name t) ≡ true
        has_target = rw (v.names.owner (wire_name payload) t may.found) refl

        may_enter : (r : ℕ) → w.room t ≡ some r → MayEnter w c r
        may_enter r e = record {
          alone = alone;
          has = has;
          known = known;
          all_in = λ g. v.rooms.loyal t g r e;
          free_seat = (may.free r e).1;
          old_room = room-lt-next w t v t r e;
        }

        ready_in : (r : ℕ) → w.room t ≡ some r → AllReady w (w.members r ++ c ∷ [])
        ready_in r e = subst (λ o. AllReady w (sitting o t w ++ c ∷ [])) e ready

        opened : w.room t ≡ none → Inv (open_room t w)
        opened e = open_room-Inv w t v e has_target (ground (arith, v.unused.no_name t, has_target))

        may_found : w.room t ≡ none → MayEnter (open_room t w) c w.next_room
        may_found e = record {
          alone = ground (arith, may.other, ==-eq c t);
          has = has;
          known = known;
          all_in = λ g h. ground (arith, ==-eq g t);
          free_seat = ground arith;
          old_room = omega arith;
        }

        only_member : (open_room t w).members w.next_room ≡ t ∷ []
        only_member = rw (==-self w.next_room) refl

        ready_new :
            w.room t ≡ none
            → AllReady (open_room t w) ((open_room t w).members w.next_room ++ c ∷ [])
        ready_new e m h =
            subst (λ o. AllReady w (sitting o t w ++ c ∷ [])) e ready m
              (subst (λ l. contains (l ++ c ∷ []) m ≡ true) only_member h)

    may-join :
        is_unjoinable (some t) c w ≡ false
        → lookup (wire_name payload) w.by_name ≡ some t
        → MayJoin c t payload w
    unfolding is_unjoinable is_closed
    may-join h e = record { found = e; other = ground arith; free = λ r f. ground (arith, f) }

    not_closed :
        (o : Option ℕ)
        → ((r : ℕ) → o ≡ some r → (w.started r ≡ false) × (length (w.members r) < max_seats))
        → is_closed o w ≡ false
    unfolding is_closed
    not_closed none free = refl
    not_closed (some r) free = ground (arith, (free r refl).0, (free r refl).1)

    may_not :
        Inv w
        → is_unjoinable (lookup (wire_name payload) w.by_name) c w ≡ true
        → ¬ MayJoin c t payload w
    unfolding is_unjoinable
    may_not v h may =
        let mine : is_unjoinable (some t) c w ≡ true =
          subst (λ o. is_unjoinable o c w ≡ true) may.found h in
        ground (
          arith,
          mine,
          may.other,
          v.names.owner (wire_name payload) t may.found,
          not_closed (w.room t) may.free,
        )

  -- JOIN, while the system takes what it is given, in a state that satisfies `Inv`, with 16-bit
  -- seeds and a delay below 256, from a known client that has said HELLO and is in no room; neither
  -- it nor any member of the room in question is dead or has output waiting. Either the name leads
  -- to another client, whose room, if it has one, has not started and has a free seat: then the
  -- client sits in that room, or in a new one with the other, after all who sat there; each of them,
  -- and nobody else, gets the ROOM frame with the new number and the names by seat; other rooms and
  -- clients are as before; and if the server is set to start rooms of that size by itself, the match
  -- starts, which sends START to all of them. Or there is no such client: then the client gets the
  -- LOBBY frame, and nothing else changes.
  pub on_join-Joined :
      (c : ℕ) (payload : Bytes) (w : World)
      → Inv w
      → w.delay < 256
      → c < w.next_client
      → w.room c ≡ none
      → is_some (w.name c) ≡ true
      → AllReady w (party (lookup (wire_name payload) w.by_name) c w)
      → ((t : ℕ) × MayJoin c t payload w
          × Ends (on_join os c payload w) (λ _ v. JoinedThen os w v c t) (λ _ _. ⊥))
        ⊎ (((t : ℕ) → ¬ MayJoin c t payload w)
            × Ends
                (on_join os c payload w)
                (λ _ v. Told w v (λ m. m == c) (λ _. lobby_frame c w))
                (λ _ _. ⊥))
  unfolding on_join is_unjoinable
  on_join-Joined c payload w v d known alone has ready =
      elim (Bool-cases (is_unjoinable (lookup (wire_name payload) w.by_name) c w)) [
        | inl f ↦ inr (
          (λ t. may_not c t payload w v f),
          rw (has, alone, f)
              (on_list-Told os up c w v
                (ready c (in_party (lookup (wire_name payload) w.by_name)))),
        )
        | inr f ↦ elim (Option-cases (lookup (wire_name payload) w.by_name)) [
          | inl e ↦ absurd (nobody (subst (λ o. is_unjoinable o c w ≡ false) e f))
          | inr (t, e) ↦ inl (
            t,
            may t e f,
            rw (has, alone, f)
                (rw e (
                  join_room-Joined c t payload w v d known alone has (may t e f)
                    (subst (λ o. AllReady w (party o c w)) e ready))),
          )
        ]
      ]
    where
      in_party : (o : Option ℕ) → contains (party o c w) c ≡ true
      in_party none = ground (arith, ==-self c)
      in_party (some t) = ground (arith, contains-concat c c (sitting (w.room t) t w), ==-self c)

      nobody : is_unjoinable none c w ≢ false
      nobody h = cc

      may :
          (t : ℕ)
          → lookup (wire_name payload) w.by_name ≡ some t
          → is_unjoinable (lookup (wire_name payload) w.by_name) c w ≡ false
          → MayJoin c t payload w
      may t e f = may-join c t payload w (subst (λ o. is_unjoinable o c w ≡ false) e f) e
