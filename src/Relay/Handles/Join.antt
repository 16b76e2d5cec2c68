-- ===== src/Relay/Handles/Join.antt =====
-- `on_join`.
use fujinet_intv_golf.Base.{
  ℕ, suc, ◌<◌, ◌≡◌, refl, true, false, not, ◌&&◌, Option, none, some, arith, leb, ◌==◌, ==-eq,
  if◌then◌else◌, length, Bool-cases, Option-cases, inl, inr,
}
use fujinet_intv_golf.Base.Assoc.{lookup}
use fujinet_intv_golf.Wire.{Bytes}
use fujinet_intv_golf.Relay.Outcome.{Outcome, attribute_error}
use fujinet_intv_golf.Relay.World.{World, Os, skip, or_raise, ◌>>=◌}
use fujinet_intv_golf.Relay.Output.{drop_client, room_broadcast, lobby_update}
use fujinet_intv_golf.Relay.Handlers.{
  is_some, is_closed, is_unjoinable, open_room, room_of, enter, admit, join_room, on_join,
  start_room, wire_name,
}
use fujinet_intv_golf.Relay.Invariant.{Inv}
use fujinet_intv_golf.Relay.Settles.{Settles, Settles-returned, Settles-and_then, if-Settles}
use fujinet_intv_golf.Relay.Settles.Send.{room_broadcast-Settles}
use fujinet_intv_golf.Relay.Settles.Drop.{drop_client-Calm}
use fujinet_intv_golf.Relay.Settles.Leaving.{lobby_update-Settles}
use fujinet_intv_golf.Relay.Handles.{Kept-refl, Handles, Handles-from, Handles-of-Settles, SeedsOk}
use fujinet_intv_golf.Relay.Handles.Lobby.{on_list-Settles}
use fujinet_intv_golf.Relay.Handles.Start.{start_room-Settles}
use fujinet_intv_golf.Relay.Handles.Enter.{
  MayEnter, enter-Inv, enter-Kept, open_room-Inv, room-lt-next,
}

module _ (os : Os) (seeds : SeedsOk os) where
  admit-Handles :
      (c r : ℕ) (w : World) → w.delay < 256 → Inv w → MayEnter w c r → Handles w (admit os c r w)
  unfolding admit
  admit-Handles c r w d v m = Handles-from w (enter c r w) _ (enter-Kept w c r v m) (
      Handles-of-Settles (enter c r w) _ (
        Settles-and_then (enter c r w) (room_broadcast os (drop_client os) r (enter c r w)) _
          (room_broadcast-Settles os (suc (length w.clients)) (drop_client os)
            (drop_client-Calm os (suc (length w.clients))) r (enter c r w) (enter-Inv w c r v m)
            (omega arith))
          λ _ u vu e.
            Settles-and_then u (lobby_update u) (λ _ u'. start_if u') (lobby_update-Settles u vu)
              λ _ u' vu' e'. start_if-Settles u' vu' (omega (arith, e.same_delay, e'.same_delay))))
    where
      start_if : World → Outcome World (Unit {0})
      start_if u =
          (if not (u.auto_go == 0) && leb u.auto_go (length (u.members r))
              then start_room os r
              else skip)
            u

      start_if-Settles : (u : World) → Inv u → u.delay < 256 → Settles u (start_if u)
      start_if-Settles u vu du =
          if-Settles (not (u.auto_go == 0) && leb u.auto_go (length (u.members r))) u
            (start_room os r) skip (λ _. start_room-Settles os r u seeds du vu)
            (λ _. Settles-returned tt u vu)

  -- What the refusals of `on_join` leave.
  record Joinable (w : World) (c t : ℕ) : Type 0 where
    has : is_some (w.name t) ≡ true
    other : (t == c) ≡ false
    is_open : is_closed (w.room t) w ≡ false

  is_unjoinable-Joinable :
      (w : World) (c t : ℕ) → is_unjoinable (some t) c w ≡ false → Joinable w c t
  unfolding is_unjoinable
  is_unjoinable-Joinable w c t h = record {
    has = ground arith;
    other = ground arith;
    is_open = ground arith;
  }

  join_room-Handles :
      (c t : ℕ) (w : World)
      → w.delay < 256
      → Inv w
      → w.room c ≡ none
      → is_some (w.name c) ≡ true
      → c < w.next_client
      → Joinable w c t
      → Handles w (join_room os c t w)
  unfolding join_room room_of is_closed
  join_room-Handles c t w d v alone has known j = elim (Option-cases (w.room t)) [
    | inr (r, e) ↦ rw e (
        admit-Handles c r w d v (record {
          alone = alone;
          has = has;
          known = known;
          all_in = λ g. v.rooms.loyal t g r e;
          free_seat = ground (arith, j.is_open);
          old_room = room-lt-next w t v t r e;
        }))
    | inl e ↦ rw e (
        Handles-from w (open_room t w) _
          (record { same_rx = refl; same_next = refl; same_delay = refl })
          (admit-Handles c w.next_room (open_room t w) d
            (open_room-Inv w t v e j.has (known_target e))
            (record {
              alone = ground (arith, j.other, ==-eq c t);
              has = has;
              known = known;
              all_in = λ g h. ground (arith, ==-eq g t);
              free_seat = ground arith;
              old_room = omega arith;
            })))
  ]
    where
      known_target : w.room t ≡ none → t < w.next_client
      known_target e = ground (arith, v.unused.no_name t, j.has)

  target-Handles :
      (c : ℕ) (o : Option ℕ) (w : World)
      → w.delay < 256
      → Inv w
      → w.room c ≡ none
      → is_some (w.name c) ≡ true
      → c < w.next_client
      → is_unjoinable o c w ≡ false
      → Handles w ((or_raise o attribute_error >>= join_room os c) w)
  unfolding is_unjoinable
  target-Handles c none w d v alone has known h = absurd (cc)
  target-Handles c (some t) w d v alone has known h =
      join_room-Handles c t w d v alone has known (is_unjoinable-Joinable w c t h)

  pub on_join-Handles :
      (c : ℕ) (payload : Bytes) (w : World)
      → w.delay < 256
      → Inv w
      → c < w.next_client
      → Handles w (on_join os c payload w)
  unfolding on_join
  on_join-Handles c payload w d v known = elim (Bool-cases (is_some (w.name c))) [
    | inr e ↦ rw e (tt, v, Kept-refl w)
    | inl e ↦ rw e (elim (Option-cases (w.room c)) [
      | inr (r, f) ↦ rw f (v, Kept-refl w)
      | inl f ↦ rw f (elim (Bool-cases (is_unjoinable (lookup (wire_name payload) w.by_name) c w)) [
        | inl g ↦ rw g (Handles-of-Settles w _ (on_list-Settles os c w v))
        | inr g ↦ rw g (target-Handles c (lookup (wire_name payload) w.by_name) w d v f e known g)
      ])
    ])
  ]
