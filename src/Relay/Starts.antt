-- ===== src/Relay/Starts.antt =====
-- The start of a match, while the network keeps up: `on_go` and `start_room`.

use fujinet_intv_golf.Base.{
  ℕ, ◌/◌, ◌%◌, ◌≤◌, ◌<◌, ◌≡◌, refl, sym, ap, ◌∙◌, subst, some_inj, ◌⊎◌, inl, inr, true, false, ◌&&◌,
  [], ◌∷◌, ◌++◌, Option, none, some, arith, leb, ◌==◌, ==-eq, ==-self, if◌then◌else◌, length,
  get_elem?, contains, index_of?, index_of?_lem, index_of?-get_elem?, Bool-cases, Option-cases,
}
use fujinet_intv_golf.Wire.{Bytes, t_start, max_seats}
use fujinet_intv_golf.Relay.Outcome.{returned, Ends, Ends-and_then}
use fujinet_intv_golf.Relay.World.{World, Os}
use fujinet_intv_golf.Relay.Output.{all_bytes, drop_client, for_members, lobby_update}
use fujinet_intv_golf.Relay.Frames.{framed, frame_lem, to_bytes_lem, roster_lem, length-roster_of}
use fujinet_intv_golf.Relay.Handlers.{mark_started, send_start, start_room, go_seat, on_go}
use fujinet_intv_golf.Relay.Handles.{SeedsOk}
use fujinet_intv_golf.Relay.Handles.Start.{common_of, mark_started-Inv, get_elem?-lt}
use fujinet_intv_golf.Relay.Invariant.{Inv}
use fujinet_intv_golf.Relay.Delivery.{KeepsUp, Told, apart}
use fujinet_intv_golf.Relay.Telling.{published, AllReady, send-so_far, Tells, for_members-Told}

-- The seat of a member.
abbrev pub place : Option ℕ → ℕ
place none = 0
place (some i) = i

-- The START frame of one member of room `r`: its own seat, then what all are told.
abbrev pub start_frame : ℕ → ℕ → World → ℕ → Bytes
start_frame r seed w m = framed t_start (place (index_of? m (w.members r)) ∷ common_of r seed w)

-- Every member of the room, and nobody else, has its START frame; the room is marked as started
-- with this seed and no checksums, the publisher is up to date, and nothing else has changed.
pub record MatchStarted (w v : World) (r seed : ℕ) : Type 0 where
  pub frames :
      (m : ℕ)
      → v.wire m
        ≡ (if contains (w.members r) m then w.wire m ++ start_frame r seed w m else w.wire m)
  pub queues : (m : ℕ) → v.tx m ≡ w.tx m
  pub marked : v.started r ≡ true
  pub seeded : v.seed r ≡ seed
  pub fresh : v.crc r ≡ []
  pub unverified : v.crc_ok r ≡ 0
  pub rest : apart v ≡ apart (published (mark_started r seed w))

-- When a client may start the match of a room.
pub record HostMayStart (c r : ℕ) (w : World) : Type 0 where
  pub here : w.room c ≡ some r
  pub forming : w.started r ≡ false
  pub host : get_elem? (w.members r) 0 ≡ some c
  pub enough : 2 ≤ length (w.members r)

module _ (os : Os) (up : KeepsUp os) where
  module _ (r : ℕ) (w : World) (v : Inv w) (ready : AllReady w (w.members r)) where
    send_start-Tells :
        (seed : ℕ)
        → Tells os up r w (λ _. true) (start_frame r seed w) (send_start os (common_of r seed w))
    unfolding send_start all_bytes
    send_start-Tells seed i m u e h =
        let l : length (common_of r seed w) ≡ 36 = omega (arith, length-roster_of r w v) in
        let small : i < 256 = omega (arith, get_elem?-lt (w.members r) i m e, v.rooms.seats r) in
        rw (to_bytes_lem (i ∷ []) u (ground arith)) (
          rw (frame_lem t_start (i ∷ common_of r seed w) u (omega arith) (omega arith)) (
            send-so_far os up r w (λ _. true) (start_frame r seed w) (drop_client os) i m _ _ u e
              (v.rooms.distinct r) ready refl
              (rw (index_of?-get_elem? (w.members r) i m (v.rooms.distinct r) e) refl) (omega arith)
              h))

  -- The end of `start_room`.
  announced :
      (r seed : ℕ) (w u : World)
      → Told
          (mark_started r seed w)
          u
          (λ x. contains (w.members r) x && true)
          (start_frame r seed w)
      → Ends (lobby_update u) (λ _ x. MatchStarted w x r seed) (λ _ _. ⊥)
  announced r seed w u h = record {
    frames = λ m. ground (arith, h.wires m);
    queues = h.queues;
    marked = ap (λ (k : World). k.started r) h.same ∙ rw (==-self r) refl;
    seeded = ap (λ (k : World). k.seed r) h.same ∙ rw (==-self r) refl;
    fresh = ap (λ (k : World). k.crc r) h.same ∙ rw (==-self r) refl;
    unverified = ap (λ (k : World). k.crc_ok r) h.same ∙ rw (==-self r) refl;
    rest = ap published h.same;
  }

  pub start_room-MatchStarted :
      (r : ℕ) (w : World)
      → Inv w
      → AllReady w (w.members r)
      → SeedsOk os
      → w.delay < 256
      → Ends (start_room os r w) (λ _ x. MatchStarted w x r (os.randrange w.rolls)) (λ _ _. ⊥)
  unfolding start_room all_bytes
  start_room-MatchStarted r w v ready seeds d =
      rw
        (to_bytes_lem (length (w.members r) ∷ seed % 256 ∷ seed / 256 ∷ w.delay ∷ []) started
          (ground (arith, v.rooms.seats r, seeds w.rolls)))
        (rw (roster_lem r started v') (
          Ends-and_then (for_members r (send_start os (common_of r seed w)) started) _
            (λ _ u. Told started u (λ x. contains (w.members r) x && true) (start_frame r seed w)) _
            _
            (for_members-Told os up r started (λ _. true) (start_frame r seed w)
              (send_start os (common_of r seed w)) (send_start-Tells r started v' ready seed))
            (λ _ u h. announced r seed w u h)))
    where
      seed : ℕ
      seed = os.randrange w.rolls

      started : World
      started = mark_started r seed w

      v' : Inv started
      v' = mark_started-Inv r seed w v

  -- `on_go` for a client in a room that has not started.
  go_seat-MatchStarted :
      (c r : ℕ) (w : World)
      → Inv w
      → SeedsOk os
      → w.delay < 256
      → AllReady w (w.members r)
      → w.room c ≡ some r
      → w.started r ≡ false
      → (HostMayStart c r w
          × Ends (go_seat os c r w) (λ _ x. MatchStarted w x r (os.randrange w.rolls)) (λ _ _. ⊥))
        ⊎ (¬ HostMayStart c r w × (go_seat os c r w ≡ returned tt w))
  unfolding go_seat
  go_seat-MatchStarted c r w v seeds d ready e f =
      let (i, seat, below, found) = index_of?_lem c (w.members r) (v.rooms.joined c r e) in
      elim (Bool-cases (i == 0)) [
        | inr g ↦ inr (λ h. absurd (guest i seat g h), rw (seat, g) refl)
        | inl g ↦
            elim (Bool-cases
              (leb 2 (length (w.members r)) && leb (length (w.members r)) max_seats)) [
                | inr k ↦ inr (λ h. absurd (few k h), rw (seat, g, k) refl)
                | inl k ↦ inl (
                  record {
                    here = e;
                    forming = f;
                    host = first i found g;
                    enough = ground (arith, k);
                  },
                  rw (seat, g, k) (start_room-MatchStarted r w v ready seeds d),
                )
              ]
      ]
    where
      guest : (i : ℕ) → index_of? c (w.members r) ≡ some i → (i == 0) ≡ false → ¬ HostMayStart c r w
      guest i seat g h =
          ground (arith, seat, g, index_of?-get_elem? (w.members r) 0 c (v.rooms.distinct r) h.host)

      few :
          (leb 2 (length (w.members r)) && leb (length (w.members r)) max_seats) ≡ false
          → ¬ HostMayStart c r w
      few k h = ground (arith, k, h.enough, v.rooms.seats r)

      first :
          (i : ℕ)
          → get_elem? (w.members r) i ≡ some c
          → (i == 0) ≡ true
          → get_elem? (w.members r) 0 ≡ some c
      first i found g = subst (λ j. get_elem? (w.members r) j ≡ some c) (==-eq i 0 g) found

  -- GO, while the system takes what it is given, in a state that satisfies `Inv`, with 16-bit seeds
  -- and a delay below 256, from a client in a room of which no member is dead or has output waiting.
  -- Either the client is the first member of a room that has not started and has two members or
  -- more: then every member, and nobody else, gets the START frame with its own seat, and with the
  -- number of members, the seed, the delay and the names by seat, the same for all of them; the room
  -- is marked as started with that seed, and beyond that and what the lobby publishes, nothing
  -- changes. Or the client has no such room, and nothing happens.
  pub on_go-MatchStarted :
      (c : ℕ) (w : World)
      → Inv w
      → SeedsOk os
      → w.delay < 256
      → ((r : ℕ) → w.room c ≡ some r → AllReady w (w.members r))
      → ((r : ℕ) × HostMayStart c r w
          × Ends (on_go os c w) (λ _ x. MatchStarted w x r (os.randrange w.rolls)) (λ _ _. ⊥))
        ⊎ (((r : ℕ) → ¬ HostMayStart c r w) × (on_go os c w ≡ returned tt w))
  unfolding on_go
  on_go-MatchStarted c w v seeds d ready = elim (Option-cases (w.room c)) [
    | inl e ↦ inr (λ r h. absurd (no_room r e h), rw e refl)
    | inr (r, e) ↦ elim (Bool-cases (w.started r)) [
      | inl f ↦ inr (λ s h. absurd (busy r s e f h), rw (e, f) refl)
      | inr f ↦ elim (go_seat-MatchStarted c r w v seeds d (ready r e) e f) [
        | inl h ↦ inl (r, h.0, rw (e, f) h.1)
        | inr h ↦ inr (λ s k. absurd (only r s e h.0 k), rw (e, f) h.1)
      ]
    ]
  ]
    where
      no_room : (r : ℕ) → w.room c ≡ none → ¬ HostMayStart c r w
      no_room r e h = ground (arith, h.here)

      busy : (r s : ℕ) → w.room c ≡ some r → w.started r ≡ true → ¬ HostMayStart c s w
      busy r s e f h = ground (arith, h.here, h.forming)

      only : (r s : ℕ) → w.room c ≡ some r → ¬ HostMayStart c r w → ¬ HostMayStart c s w
      only r s e not_here h =
          not_here (subst (λ q. HostMayStart c q w) (some_inj (sym h.here ∙ e)) h)
