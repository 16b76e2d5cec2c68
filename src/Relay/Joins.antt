-- ===== src/Relay/Joins.antt =====
-- A client joins a room, while the network keeps up: `admit`.
pub mod Branches
use fujinet_intv_golf.Base.{
  ℕ, suc, ◌≤◌, ◌<◌, ◌≡◌, refl, sym, ap, ◌∙◌, subst, ◌⊎◌, inl, inr, Bool, true, false, not, ◌&&◌,
  List, [], ◌∷◌, ◌++◌, Option, none, some, arith, leb, ◌==◌, ==-eq, ==-self, if◌then◌else◌, length,
  length-append, contains, Bool-cases, Option-cases,
}
use fujinet_intv_golf.Base.Assoc.{lookup}
use fujinet_intv_golf.Wire.{Bytes, max_seats}
use fujinet_intv_golf.Relay.Outcome.{Ends, Ends-and_then, Ends-weaken}
use fujinet_intv_golf.Relay.World.{World, Os, skip}
use fujinet_intv_golf.Relay.Output.{drop_client, room_broadcast, lobby_update}
use fujinet_intv_golf.Relay.Handlers.{
  is_some, is_closed, is_unjoinable, open_room, room_of, enter, admit, join_room, on_join,
  start_room, wire_name,
}
use fujinet_intv_golf.Relay.Handles.{SeedsOk}
use fujinet_intv_golf.Relay.Handles.Enter.{MayEnter, enter-Inv, open_room-Inv, room-lt-next}
use fujinet_intv_golf.Relay.Invariant.{Inv}
use fujinet_intv_golf.Relay.Settles.Leaving.{lobby_update-Settles}
use fujinet_intv_golf.Relay.Delivery.{KeepsUp, Told, apart}
use fujinet_intv_golf.Relay.Telling.{AllReady, published}
use fujinet_intv_golf.Relay.Announce.{room_frame, Told-Inv, room_broadcast-seated}
use fujinet_intv_golf.Relay.Starts.{MatchStarted, start_room-MatchStarted}

-- The state once `c` sits in room `r` and all have been told.
pub record Entered (w u : World) (c r : ℕ) : Type 0 where
  pub wires :
      (m : ℕ)
      → u.wire m ≡ (
          if contains (w.members r ++ c ∷ []) m
          then w.wire m ++ room_frame w.name (w.members r ++ c ∷ [])
          else w.wire m)
  pub queues : (m : ℕ) → u.tx m ≡ w.tx m
  pub rest : apart u ≡ apart (published (enter c r w))

-- Does a room of so many players start by itself?
abbrev pub goes : ℕ → ℕ → Bool
goes auto_go n = not (auto_go == 0) && leb auto_go n

-- What follows: nothing, or the match starts.
abbrev pub MayGo : (u v : World) → ℕ → ℕ → Type 0
MayGo u v r seed =
    ((goes u.auto_go (length (u.members r)) ≡ false) × (v ≡ u))
    ⊎ ((goes u.auto_go (length (u.members r)) ≡ true) × MatchStarted u v r seed)

module _ (os : Os) (up : KeepsUp os) (seeds : SeedsOk os) where
  start_if-MayGo :
      (r : ℕ) (u : World)
      → Inv u
      → AllReady u (u.members r)
      → u.delay < 256
      → Ends
          ((if goes u.auto_go (length (u.members r)) then start_room os r else skip) u)
          (λ _ v. MayGo u v r (os.randrange u.rolls))
          (λ _ _. ⊥)
  start_if-MayGo r u v ready d = elim (Bool-cases (goes u.auto_go (length (u.members r)))) [
    | inr e ↦ rw e (inl (refl, refl))
    | inl e ↦ rw e (
        Ends-weaken (start_room os r u) (λ _ x. MatchStarted u x r (os.randrange u.rolls)) _
          (λ _ _. ⊥) _ (start_room-MatchStarted os up r u v ready seeds d) (λ _ x q. inr (refl, q))
          (λ _ _ q. q))
  ]

  pub admit-Entered :
      (c r : ℕ) (w : World)
      → Inv w
      → w.delay < 256
      → MayEnter w c r
      → AllReady w (w.members r ++ c ∷ [])
      → Ends
          (admit os c r w)
          (λ _ v. (u : World) × Entered w u c r × MayGo u v r (os.randrange w.rolls))
          (λ _ _. ⊥)
  unfolding admit
  admit-Entered c r w v d m ready =
      Ends-and_then (room_broadcast os (drop_client os) r (enter c r w)) _
        (λ _ u. Told (enter c r w) u (contains seated) (λ _. room_frame w.name seated)) _ _
        (room_broadcast-seated os up r (enter c r w) (enter-Inv w c r v m) (drop_client os) seated
          entered ready)
        (λ _ u h.
          Ends-weaken
            ((if goes (published u).auto_go (length ((published u).members r))
                then start_room os r
                else skip)
              (published u))
            (λ _ x. MayGo (published u) x r (os.randrange u.rolls)) _ (λ _ _. ⊥) _
            (start_if-MayGo r (published u) (kept u h) (still_ready u h)
              (omega (arith, ap (λ (k : World). k.delay) h.same)))
            (λ _ x q. (
              published u,
              record { wires = h.wires; queues = h.queues; rest = ap published h.same },
              subst (λ n. MayGo (published u) x r (os.randrange n))
                  (ap (λ (k : World). k.rolls) h.same) q,
            ))
            (λ _ _ q. q))
    where
      seated : List ℕ
      seated = w.members r ++ c ∷ []

      entered : (enter c r w).members r ≡ seated
      entered = rw (==-self r) refl

      kept :
          (u : World)
          → Told (enter c r w) u (contains seated) (λ _. room_frame w.name seated)
          → Inv (published u)
      kept u h =
          (lobby_update-Settles u
            (Told-Inv (enter c r w) u (contains seated) _ h (enter-Inv w c r v m))).0

      still_ready :
          (u : World)
          → Told (enter c r w) u (contains seated) (λ _. room_frame w.name seated)
          → AllReady u (u.members r)
      still_ready u h x e =
          let here = ready x (
            subst (λ (l : List ℕ). contains l x ≡ true)
              (ap (λ (k : World). k.members r) h.same ∙ entered) e) in
          (ap (λ (k : World). k.dead x) h.same ∙ here.0, h.queues x ∙ here.1)

-- The room of a client without one is the next that is made.
abbrev pub room_for : Option ℕ → World → ℕ
room_for none w = w.next_room
room_for (some r) w = r

-- Who sits there already: a client without a room is the only member of its new one.
abbrev pub sitting : Option ℕ → ℕ → World → List ℕ
sitting none t w = t ∷ []
sitting (some r) t w = w.members r

-- Client `c` has joined client `t` in room `r` with the members `old`: it sits after all of them,
-- every member has the ROOM frame with the new number and names, and nobody else is concerned.
pub record Joined (w u : World) (c t r : ℕ) (old : List ℕ) : Type 0 where
  pub frames :
      (m : ℕ)
      → u.wire m ≡ (
          if contains (old ++ c ∷ []) m
          then w.wire m ++ room_frame w.name (old ++ c ∷ [])
          else w.wire m)
  pub queues : (m : ℕ) → u.tx m ≡ w.tx m
  pub seats : u.members r ≡ old ++ c ∷ []
  pub mine : u.room c ≡ some r
  pub theirs : u.room t ≡ some r
  pub forming : u.started r ≡ false
  pub other_rooms :
      (s : ℕ) → (s == r) ≡ false → (u.members s ≡ w.members s) × (u.started s ≡ w.started s)
  pub bystanders : (x : ℕ) → (x == c) ≡ false → (x == t) ≡ false → u.room x ≡ w.room x
  pub same_dead : u.dead ≡ w.dead
  pub same_name : u.name ≡ w.name
  pub same_by_name : u.by_name ≡ w.by_name
  pub same_auto_go : u.auto_go ≡ w.auto_go

-- When a client in no room may join the client of a name.
pub record MayJoin (c t : ℕ) (payload : Bytes) (w : World) : Type 0 where
  pub found : lookup (wire_name payload) w.by_name ≡ some t
  pub other : (t == c) ≡ false
  pub free :
      (r : ℕ) → w.room t ≡ some r → (w.started r ≡ false) × (length (w.members r) < max_seats)

pub Entered-Joined-room :
    (w u : World) (c t r : ℕ)
    → (t == c) ≡ false
    → w.room t ≡ some r
    → w.started r ≡ false
    → Entered w u c r
    → Joined w u c t r (w.members r)
Entered-Joined-room w u c t r other e f h = record {
  frames = h.wires;
  queues = h.queues;
  seats = ap (λ (k : World). k.members r) h.rest ∙ rw (==-self r) refl;
  mine = ap (λ (k : World). k.room c) h.rest ∙ rw (==-self c) refl;
  theirs = ap (λ (k : World). k.room t) h.rest ∙ rw other e;
  forming = ap (λ (k : World). k.started r) h.rest ∙ f;
  other_rooms = λ s n.
      (ap (λ (k : World). k.members s) h.rest ∙ rw n refl, ap (λ (k : World). k.started s) h.rest);
  bystanders = λ x n p. ap (λ (k : World). k.room x) h.rest ∙ rw n refl;
  same_dead = ap (λ (k : World). k.dead) h.rest;
  same_name = ap (λ (k : World). k.name) h.rest;
  same_by_name = ap (λ (k : World). k.by_name) h.rest;
  same_auto_go = ap (λ (k : World). k.auto_go) h.rest;
}

pub Entered-Joined-none :
    (w u : World) (c t : ℕ)
    → (t == c) ≡ false
    → Entered (open_room t w) u c w.next_room
    → Joined w u c t w.next_room (t ∷ [])
Entered-Joined-none w u c t other h = record {
  frames = λ m. h.wires m ∙ rw (==-self w.next_room) refl;
  queues = h.queues;
  seats = ap (λ (k : World). k.members w.next_room) h.rest ∙ rw (==-self w.next_room) refl;
  mine = ap (λ (k : World). k.room c) h.rest ∙ rw (==-self c) refl;
  theirs = ap (λ (k : World). k.room t) h.rest ∙ rw (other, ==-self t) refl;
  forming = ap (λ (k : World). k.started w.next_room) h.rest ∙ rw (==-self w.next_room) refl;
  other_rooms = λ s n. (
    ap (λ (k : World). k.members s) h.rest ∙ rw n refl,
    ap (λ (k : World). k.started s) h.rest ∙ rw n refl,
  );
  bystanders = λ x n p. ap (λ (k : World). k.room x) h.rest ∙ rw (n, p) refl;
  same_dead = ap (λ (k : World). k.dead) h.rest;
  same_name = ap (λ (k : World). k.name) h.rest;
  same_by_name = ap (λ (k : World). k.by_name) h.rest;
  same_auto_go = ap (λ (k : World). k.auto_go) h.rest;
}
