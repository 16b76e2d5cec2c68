-- ===== src/Relay/Settles/Send.antt =====
-- About `flush`, `send`, `room_broadcast` and `dissolve`, for any `drop` that settles.
use fujinet_intv_golf.Base.{
  ℕ, zero, suc, ◌+◌, ◌≤◌, ◌<◌, ◌≡◌, false, List, [], ◌∷◌, ◌++◌, arith, inl, inr, Bool-cases, ◌==◌,
  ==-self, ltb, update, length, length-append, length-drop, drop, replicate, is_empty,
}
use fujinet_intv_golf.Wire.{Bytes, t_room, max_tx_backlog}
use fujinet_intv_golf.Relay.Outcome.{Outcome}
use fujinet_intv_golf.Relay.World.{World, Os, SendResult, sent, would_block, send_error, M}
use fujinet_intv_golf.Relay.Output.{
  for_each, on_sent, flush_from, flush, send, room_broadcast, dissolve, update_events, all_bytes,
}
use fujinet_intv_golf.Relay.Frames.{
  frame_lem, to_bytes_lem, roster_lem, roster_of, length-roster_of,
}
use fujinet_intv_golf.Relay.Invariant.{Inv}
use fujinet_intv_golf.Relay.Settles.{
  Settles, Settles-returned, Settles-from, Settles-and_then, Calm, for_each-Settles,
  each_member-Settles,
}
use fujinet_intv_golf.Relay.Settles.Steps.{output, output-Inv, output-Evolves, update-BacklogOk}
use fujinet_intv_golf.Relay.Settles.Rooms.{
  AllIn, leave_all-free, leave_all-Inv, leave_all-Evolves, clear-Inv, clear-Evolves,
}

pub is_empty_pos : (l : Bytes) → is_empty l ≡ false → 0 < length l
is_empty_pos [] h = cc
is_empty_pos (b ∷ bs) h = omega arith

module _ (os : Os) (k : ℕ) (d : ℕ → M (Unit {0})) (calm : Calm k d) where
  update_events-Settles : (c : ℕ) (w : World) → Inv w → Settles w (update_events c w)
  update_events-Settles c w v = (
    output-Inv w w.tx _ w.wire w.sends w.tx_backlog_drops w.hello_timeouts v v.backlog,
    output-Evolves w w.tx _ w.wire w.sends w.tx_backlog_drops w.hello_timeouts,
  )

  -- A change to one queue and to the books, then the rest.
  output-from :
      (c : ℕ) (w : World) (bytes : Bytes) (wire : ℕ → Bytes) (sends drops : ℕ)
      (o : Outcome World (Unit {0}))
      → Inv w
      → length bytes ≤ max_tx_backlog
      → (Inv (output w (update w.tx c bytes) w.want_write wire sends drops w.hello_timeouts)
          → Settles
              (output w (update w.tx c bytes) w.want_write wire sends drops w.hello_timeouts)
              o)
      → Settles w o
  output-from c w bytes wire sends drops o v fits h =
      Settles-from w _ o (output-Evolves w _ _ wire sends drops w.hello_timeouts) (
        h (
          output-Inv w _ _ wire sends drops w.hello_timeouts v
            (update-BacklogOk w.tx c bytes v.backlog fits)))

  on_sent-Settles :
      (again : M (Unit {0})) (n c : ℕ) (w : World) (r : SendResult)
      → ((u : World) → Inv u → length u.clients < k → length (u.tx c) < n → Settles u (again u))
      → Inv w
      → length w.clients < k
      → length (w.tx c) ≤ n
      → is_empty (w.tx c) ≡ false
      → Settles w (on_sent os d c again r w)
  unfolding on_sent
  on_sent-Settles again n c w would_block h v lt fits some_left = update_events-Settles c w v
  on_sent-Settles again n c w send_error h v lt fits some_left = calm c w v lt
  on_sent-Settles again n c w (sent m) h v lt fits some_left = elim (Bool-cases (m == 0)) [
    | inl e ↦ rw e (calm c w v lt)
    | inr e ↦ rw e (
        output-from c w (drop m (w.tx c)) w.wire w.sends w.tx_backlog_drops _ v
          (omega (arith, length-drop m (w.tx c), v.backlog c))
          λ v'.
            h _ v' lt
              (ground (arith, length-drop m (w.tx c), is_empty_pos (w.tx c) some_left, ==-self c)))
  ]

  flush_from-Settles :
      (n c : ℕ) (w : World)
      → Inv w
      → length w.clients < k
      → length (w.tx c) < n
      → Settles w (flush_from os d n c w)
  unfolding flush_from
  flush_from-Settles zero c w v lt fits = absurd (omega arith)
  flush_from-Settles (suc n) c w v lt fits = elim (Bool-cases (is_empty (w.tx c))) [
    | inl e ↦ rw e (update_events-Settles c w v)
    | inr e ↦ rw e (
        Settles-from w _ _ (output-Evolves w w.tx _ _ _ w.tx_backlog_drops w.hello_timeouts) (
          on_sent-Settles (flush_from os d n c) n c _ (os.send_result w.sends c (w.tx c))
            (λ u. flush_from-Settles n c u)
            (output-Inv w w.tx _ _ _ w.tx_backlog_drops w.hello_timeouts v v.backlog) lt
            (omega arith) e))
  ]

  pub flush-Settles :
      (c : ℕ) (w : World) → Inv w → length w.clients < k → Settles w (flush os d c w)
  unfolding flush
  flush-Settles c w v lt = flush_from-Settles (suc (length (w.tx c))) c w v lt (omega arith)

  pub send-Settles :
      (bytes : Bytes) (c : ℕ) (w : World)
      → Inv w
      → length w.clients < k
      → Settles w (send os d c bytes w)
  unfolding send
  send-Settles bytes c w v lt = elim (Bool-cases (w.dead c)) [
    | inl e ↦ rw e (Settles-returned tt w v)
    | inr e ↦ rw e (elim (Bool-cases (ltb max_tx_backlog (length (w.tx c) + length bytes))) [
      | inl f ↦ rw f (
          Settles-from w _ _ (output-Evolves w w.tx w.want_write w.wire w.sends _ w.hello_timeouts)
            (calm c _ (output-Inv w w.tx w.want_write w.wire w.sends _ w.hello_timeouts v v.backlog)
              lt))
      | inr f ↦ rw f (
          output-from c w (w.tx c ++ bytes) w.wire w.sends w.tx_backlog_drops _ v
            (ground (arith, length-append (w.tx c) bytes)) (λ v'. flush-Settles c _ v' lt))
    ])
  ]

  pub room_broadcast-Settles :
      (r : ℕ) (w : World) → Inv w → length w.clients < k → Settles w (room_broadcast os d r w)
  unfolding room_broadcast all_bytes
  room_broadcast-Settles r w v lt =
      rw (to_bytes_lem (length (w.members r) ∷ []) w (ground (arith, v.rooms.seats r))) (
        rw (roster_lem r w v) (
          each_member-Settles k _ (length (w.members r)) r 0 w
            (λ j m u e vu ltu.
              rw
                (frame_lem t_room (length (w.members r) ∷ roster_of w.name (w.members r)) u
                  (omega arith) (omega (arith, length-roster_of r w v)))
                (send-Settles _ m u vu ltu))
            v lt (omega arith)))

  pub dissolve-Settles :
      (r : ℕ) (notify : List ℕ) (w : World)
      → Inv w
      → length w.clients < k
      → AllIn w.room w.members r
      → Settles w (dissolve os d r notify w)
  unfolding dissolve
  dissolve-Settles r notify w v lt all_in = Settles-from w _ _ (leave_all-Evolves w r) (
      Settles-and_then _ (for_each notify _ _) _
        (for_each-Settles k _ notify _
          (λ m u vu ltu.
            rw (frame_lem t_room (0 ∷ replicate 32 0) u (omega arith) (omega arith))
              (send-Settles _ m u vu ltu))
          (leave_all-Inv w r v all_in) lt)
        λ _ u vu e. (
          clear-Inv u r vu (λ c f.
              leave_all-free r c w.room w.members w.name w.next_room v.rooms (e.left c r f)),
          clear-Evolves u r,
        ))
