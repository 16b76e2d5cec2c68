-- ===== src/Relay/Handles/Dispatch.antt =====
-- `handle`: relayed game frames, and the choice of a handler by frame type.
use fujinet_intv_golf.Base.{
  ℕ, suc, ◌≤◌, ◌<◌, ◌≡◌, refl, subst, sym, false, ◌&&◌, [], some, arith, ◌==◌, if◌then◌else◌,
  length, Bool-cases, Option-cases, inl, inr,
}
use fujinet_intv_golf.Wire.{
  Bytes, t_hello, t_list, t_join, t_crc, t_bye, t_ping, t_pong, t_go, is_relay_type,
}
use fujinet_intv_golf.Relay.Outcome.{protocol_error, unknown_type, returned, and_then}
use fujinet_intv_golf.Relay.World.{World, Os, M, skip, raise, ◌>>=◌}
use fujinet_intv_golf.Relay.Output.{frame, drop_client}
use fujinet_intv_golf.Relay.Crc.{log_crc, crc_seat, crc_tick, crc_value}
use fujinet_intv_golf.Relay.Frames.{framed, frame_lem}
use fujinet_intv_golf.Relay.Handlers.{send_to, on_go, relay, on_relay, send_other, handle}
use fujinet_intv_golf.Relay.Invariant.{Inv}
use fujinet_intv_golf.Relay.Settles.{
  Settles, Settles-returned, Settles-and_then, each_member-Settles, if-Settles,
}
use fujinet_intv_golf.Relay.Settles.Send.{send-Settles}
use fujinet_intv_golf.Relay.Settles.Drop.{drop_client-Calm, drop_client-Settles}
use fujinet_intv_golf.Relay.Handles.{Kept-refl, Handles, Handles-of-Settles, SeedsOk}
use fujinet_intv_golf.Relay.Handles.Notes.{Notes, log_round-Notes}
use fujinet_intv_golf.Relay.Handles.Lobby.{on_list-Settles}
use fujinet_intv_golf.Relay.Handles.Hello.{on_hello-Handles}
use fujinet_intv_golf.Relay.Handles.Join.{on_join-Handles}
use fujinet_intv_golf.Relay.Handles.Start.{on_go-Settles}

noted-Settles : (w w' : World) → Notes w w' → Inv w → Settles w (returned tt w')
noted-Settles w w' n v =
    subst (λ u. Settles w (returned tt u)) (sym n.only)
      (
        record {
          rooms = v.rooms;
          names = v.names;
          clients = v.clients;
          unused = v.unused;
          backlog = v.backlog;
          crc = n.bounded;
          lobby = v.lobby;
        },
        record {
          fewer = omega arith;
          left = λ c s e. e;
          shrunk = λ s. omega arith;
          stayed = λ c s e. e;
          died = λ c e. e;
          same_names = refl;
          same_rx = refl;
          same_delay = refl;
          same_next = refl;
        },
      )

log_crc-Settles :
    (c r : ℕ) (payload : Bytes) (w : World)
    → Inv w
    → w.room c ≡ some r
    → Settles w (log_crc c payload w)
unfolding log_crc
log_crc-Settles c r payload w v e = rw e (
    noted-Settles w _
      (log_round-Notes r (crc_seat payload) (crc_tick payload) (crc_value payload) w v.crc) v)

module _ (os : Os) where
  send_other-Settles :
      (c : ℕ) (bytes : Bytes) (i m : ℕ) (w : World)
      → Inv w
      → Settles w (send_other os c bytes i m w)
  send_other-Settles c bytes i m w v = elim (Bool-cases (m == c)) [
    | inl e ↦ rw e (Settles-returned tt w v)
    | inr e ↦ rw e (
        send-Settles os (suc (length w.clients)) (drop_client os)
          (drop_client-Calm os (suc (length w.clients))) bytes m w v (omega arith))
  ]

  relay-Settles :
      (c ftype : ℕ) (payload : Bytes) (r : ℕ) (w : World)
      → ftype < 256
      → length payload ≤ 254
      → Inv w
      → w.room c ≡ some r
      → Settles w (relay os c ftype payload r w)
  unfolding relay
  relay-Settles c ftype payload r w t l v e =
      Settles-and_then w (compared w) _
        (if-Settles (ftype == t_crc && length payload == 5) w (log_crc c payload) skip
          (λ _. log_crc-Settles c r payload w v e) (λ _. Settles-returned tt w v))
        λ _ u vu _. rw (frame_lem ftype payload u t l) (
          each_member-Settles (suc (length u.clients)) _ (length (u.members r)) r 0 u
            (λ j m u' _ vu' _. send_other-Settles c (framed ftype payload) j m u' vu') vu
            (omega arith) (omega arith))
    where
      compared : M (Unit {0})
      compared = if ftype == t_crc && length payload == 5 then log_crc c payload else skip

  on_relay-Settles :
      (c ftype : ℕ) (payload : Bytes) (w : World)
      → ftype < 256
      → length payload ≤ 254
      → Inv w
      → Settles w (on_relay os c ftype payload w)
  unfolding on_relay
  on_relay-Settles c ftype payload w t l v = elim (Option-cases (w.room c)) [
    | inl e ↦ rw e (Settles-returned tt w v)
    | inr (r, e) ↦ rw e (elim (Bool-cases (w.started r)) [
      | inr f ↦ rw f (Settles-returned tt w v)
      | inl f ↦ rw f (relay-Settles c ftype payload r w t l v e)
    ])
  ]

  -- `handle`, for any frame type, a payload of at most 254 bytes and a client that has connected,
  -- in a state that satisfies `Inv`, with a start delay below 256 and 16-bit seeds: it ends,
  -- raises nothing but `ProtocolError`, and either way `Inv` holds afterwards and the receive
  -- buffers, the delay and the number of clients ever connected are as before.
  pub handle-Handles :
      (c ftype : ℕ) (payload : Bytes) (w : World)
      → SeedsOk os
      → w.delay < 256
      → Inv w
      → c < w.next_client
      → length payload ≤ 254
      → Handles w (handle os c ftype payload w)
  unfolding handle
  handle-Handles c ftype payload w seeds d v known l = elim (Bool-cases (is_relay_type ftype)) [
    | inl e ↦ rw e (Handles-of-Settles w _ (on_relay-Settles c ftype payload w (ground arith) l v))
    | inr e ↦ rw e (elim (Bool-cases (ftype == t_hello)) [
      | inl f ↦ rw f (on_hello-Handles os c payload w v known)
      | inr f ↦ rw f (elim (Bool-cases (ftype == t_list)) [
        | inl g ↦ rw g (Handles-of-Settles w _ (on_list-Settles os c w v))
        | inr g ↦ rw g (elim (Bool-cases (ftype == t_join)) [
          | inl h ↦ rw h (on_join-Handles os seeds c payload w d v known)
          | inr h ↦ rw h (rest h)
        ])
      ])
    ])
  ]
    where
      pong : Handles w (and_then (frame t_pong [] w) (send_to os c))
      pong = rw (frame_lem t_pong [] w (omega arith) (omega arith)) (
          Handles-of-Settles w _ (
            send-Settles os (suc (length w.clients)) (drop_client os)
              (drop_client-Calm os (suc (length w.clients))) (framed t_pong []) c w v
              (omega arith)))

      rest :
          (ftype == t_join) ≡ false
          → Handles w (
              (if ftype == t_go
                  then on_go os c
                  else if ftype == t_bye
                  then drop_client os c
                  else if ftype == t_ping
                  then frame t_pong [] >>= send_to os c
                  else raise (protocol_error (unknown_type ftype)))
                w)
      rest _ = elim (Bool-cases (ftype == t_go)) [
        | inl e ↦ rw e (Handles-of-Settles w _ (on_go-Settles os c w seeds d v))
        | inr e ↦ rw e (elim (Bool-cases (ftype == t_bye)) [
          | inl f ↦ rw f (Handles-of-Settles w _ (drop_client-Settles os c w v))
          | inr f ↦ rw f (elim (Bool-cases (ftype == t_ping)) [
            | inl g ↦ rw g pong
            | inr g ↦ rw g (tt, v, Kept-refl w)
          ])
        ])
      ]
