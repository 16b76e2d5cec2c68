-- ===== src/Relay/Settles/Drop.antt =====
-- About `drop`: nested drops each take a client off the set.
use fujinet_intv_golf.Base.{
  ℕ, zero, suc, ◌<◌, ◌≡◌, refl, sym, subst, true, false, List, [], ◌∷◌, Option, none, some, arith,
  inl, inr, Bool-cases, ◌==◌, ltb, ==-self, length, keep_if, is_empty, erase, length-erase,
  index_of?_lem,
}
use fujinet_intv_golf.Base.Assoc.{keep_if-eq_self}
use fujinet_intv_golf.Wire.{Text, t_peer_left}
use fujinet_intv_golf.Relay.Outcome.{Outcome, returned, raised, out_of_fuel, Ends}
use fujinet_intv_golf.Relay.World.{World, Os, Publisher, M}
use fujinet_intv_golf.Relay.Output.{
  all_bytes, end_match, close_seat, dissolve, forget, leave_room, leave_if, drop_body, drop_within,
  drop_client,
}
use fujinet_intv_golf.Relay.Frames.{frame_lem, to_bytes_lem, pad_name_lem, pad_of, length-pad_of}
use fujinet_intv_golf.Relay.Handlers.{is_some}
use fujinet_intv_golf.Relay.Invariant.{LobbyOk, Inv, Evolves, Evolves-refl, Evolves-trans}
use fujinet_intv_golf.Relay.Settles.{
  Settles, Settles-returned, Settles-from, Settles-and_then, Calm, for_each-Settles,
}
use fujinet_intv_golf.Relay.Settles.Steps.{publish-LobbyOk}
use fujinet_intv_golf.Relay.Settles.Rooms.{AllIn}
use fujinet_intv_golf.Relay.Settles.Send.{send-Settles, dissolve-Settles, room_broadcast-Settles}
use fujinet_intv_golf.Relay.Settles.Leaving.{
  forget-Evolves, forget-Inv, gone, leave-AllIn, leave-Evolves, leave-Inv, lobby_update-Settles,
}

-- The call settles, and the client is dead afterwards.
abbrev pub Drops : World → ℕ → Outcome World (Unit {0}) → Type 0
Drops w c o = Ends o (λ _ w'. Inv w' × Evolves w w' × (w'.dead c ≡ true)) (λ _ _. ⊥)

Settles-Drops :
    (c : ℕ) (w u : World) (o : Outcome World (Unit {0}))
    → u.dead c ≡ true
    → Evolves w u
    → Settles u o
    → Drops w c o
Settles-Drops c w u (returned _ x) dead e h = (h.0, Evolves-trans w u x e h.1, h.1.died c dead)
Settles-Drops c w u (raised y x) dead e h = h
Settles-Drops c w u out_of_fuel dead e h = h

Drops-Settles : (c : ℕ) (w : World) (o : Outcome World (Unit {0})) → Drops w c o → Settles w o
Drops-Settles c w (returned _ x) h = (h.0, h.1)
Drops-Settles c w (raised y x) h = h
Drops-Settles c w out_of_fuel h = h

module _ (os : Os) (k : ℕ) (d : ℕ → M (Unit {0})) (calm : Calm k d) where
  end_match-Settles :
      (c r seat : ℕ) (survivors : List ℕ) (w : World)
      → Inv w
      → length w.clients < k
      → AllIn w.room w.members r
      → is_some (w.name c) ≡ true
      → seat < 256
      → Settles w (end_match os d c r seat survivors w)
  unfolding end_match all_bytes
  end_match-Settles c r seat survivors w v lt all_in has small =
      rw (to_bytes_lem (seat ∷ []) w (ground arith)) (
        rw (pad_name_lem c w v.names.ascii has) (
          rw
            (frame_lem t_peer_left (seat ∷ pad_of (w.name c)) w (omega arith)
              (omega (arith, length-pad_of c w v.names.ascii has)))
            (Settles-and_then w (dissolve os d r [] w) _
              (dissolve-Settles os k d calm r [] w v lt all_in)
              λ _ u vu e.
                for_each-Settles k _ survivors u (λ m. send-Settles os k d calm _ m) vu
                  (omega (arith, e.fewer)))))

  close_seat-Settles :
      (c r seat : ℕ) (w : World)
      → Inv w
      → length w.clients < k
      → AllIn w.room w.members r
      → is_some (w.name c) ≡ true
      → seat < 256
      → Settles w (close_seat os d c r seat w)
  unfolding close_seat
  close_seat-Settles c r seat w v lt all_in has small = elim (Bool-cases (w.started r)) [
    | inl e ↦ rw e (end_match-Settles c r seat (w.members r) w v lt all_in has small)
    | inr e ↦ rw e (elim (Bool-cases (seat == 0)) [
      | inl f ↦ rw f (dissolve-Settles os k d calm r (w.members r) w v lt all_in)
      | inr f ↦ rw f (elim (Bool-cases (ltb (length (w.members r)) 2)) [
        | inl g ↦ rw g (dissolve-Settles os k d calm r (w.members r) w v lt all_in)
        | inr g ↦ rw g (room_broadcast-Settles os k d calm r w v lt)
      ])
    ])
  ]

  -- The rest of `drop`, once the client is off the books.
  leave_room-Settles :
      (c r : ℕ) (w : World)
      → Inv w
      → length w.clients < k
      → w.room c ≡ some r
      → Settles w (leave_room os d c r w)
  unfolding leave_room
  leave_room-Settles c r w v lt e =
      let (i, at, below, _) = index_of?_lem c (w.members r) (v.rooms.joined c r e) in
      rw at (
        rw (v.rooms.joined c r e) (
          Settles-from w _ _ (leave-Evolves w c r) (
            Settles-and_then _ (close_seat os d c r i (gone w c r)) _
              (close_seat-Settles c r i (gone w c r) (leave-Inv w c r v e) lt
                (leave-AllIn w c r v e) (v.rooms.named c r (v.rooms.joined c r e))
                (omega (arith, v.rooms.seats r)))
              λ _ u vu _. lobby_update-Settles u vu)))

  leave_if-Settles :
      (c : ℕ) (o : Option ℕ) (w : World)
      → Inv w
      → length w.clients < k
      → w.room c ≡ o
      → Settles w (leave_if os d c o w)
  unfolding leave_if
  leave_if-Settles c none w v lt e = Settles-returned tt w v
  leave_if-Settles c (some r) w v lt e = leave_room-Settles c r w v lt e

  drop_body-Drops :
      (c : ℕ) (w : World) → Inv w → length w.clients < suc k → Drops w c (drop_body os d c w)
  unfolding drop_body
  drop_body-Drops c w v lt = elim (Bool-cases (w.dead c)) [
    | inl e ↦ rw e (v, Evolves-refl w, e)
    | inr e ↦ rw e (elim (Bool-cases (is_empty (keep_if (λ (e : Text × ℕ). e.1 == c) w.by_name))) [
      | inl f ↦ rw f (
          after w.lobby
            (subst (LobbyOk w.lobby) (sym (keep_if-eq_self (λ e. e.1 == c) w.by_name f)) v.lobby)
            (below e))
      | inr f ↦ rw f (after _ (publish-LobbyOk w.lobby (forget c w).by_name) (below e))
    ])
  ]
    where
      below : w.dead c ≡ false → length (erase c w.clients) < k
      below e = omega (arith, length-erase c w.clients (ground (arith, v.clients.active c)))

      after :
          (lobby : Option Publisher)
          → LobbyOk lobby (forget c w).by_name
          → length (erase c w.clients) < k
          → Drops w c (leave_if os d c (w.room c) (record (forget c w) { lobby = lobby }))
      after lobby h small =
          Settles-Drops c w _ _ (ground (arith, ==-self c)) (forget-Evolves w c lobby)
            (leave_if-Settles c (w.room c) _ (forget-Inv w c lobby v h) small refl)

-- `drop` in a state that satisfies `Inv`: sends that fail inside it drop further clients, but a
-- nesting deeper than the number of clients never occurs; it returns, raises nothing, keeps `Inv`,
-- and the client is dead.
pub drop_within-Drops :
    (os : Os) (depth c : ℕ) (w : World)
    → Inv w
    → length w.clients < depth
    → Drops w c (drop_within os depth c w)
unfolding drop_within
drop_within-Drops os zero c w v lt = absurd (omega arith)
drop_within-Drops os (suc depth) c w v lt =
    drop_body-Drops os depth (drop_within os depth)
      (λ c' w' v' lt'. Drops-Settles c' w' _ (drop_within-Drops os depth c' w' v' lt')) c w v lt

pub drop_client-Drops : (os : Os) (c : ℕ) (w : World) → Inv w → Drops w c (drop_client os c w)
unfolding drop_client
drop_client-Drops os c w v = drop_within-Drops os (suc (length w.clients)) c w v (omega arith)

pub drop_client-Settles : (os : Os) (c : ℕ) (w : World) → Inv w → Settles w (drop_client os c w)
drop_client-Settles os c w v = Drops-Settles c w _ (drop_client-Drops os c w v)

-- So it may be called at any time.
pub drop_client-Calm : (os : Os) (k : ℕ) → Calm k (drop_client os)
drop_client-Calm os k c w v lt = drop_client-Settles os c w v
