-- ===== src/Relay/Effects.antt =====
-- What `drop` and `send` do to the client that they are called for.
use fujinet_intv_golf.Base.{
  ℕ, zero, suc, ◌+◌, ◌≤◌, ◌<◌, ◌≡◌, ◌⊎◌, sym, ap, ap₂, ◌∙◌, true, false, ◌++◌, arith, ltb, ◌==◌,
  ==-self, update, length, length-append, length-drop, take, drop, take-append-drop, is_empty,
  Bool-cases, inl, inr,
}
use mathlib.Core.List.{append_assoc, append-nil}
use fujinet_intv_golf.Wire.{Bytes, max_tx_backlog}
use fujinet_intv_golf.Relay.Outcome.{Outcome, returned, raised, out_of_fuel, Ends}
use fujinet_intv_golf.Relay.World.{World, Os, SendResult, sent, would_block, send_error, M}
use fujinet_intv_golf.Relay.Output.{taken, on_sent, flush_from, flush, send, drop_client}
use fujinet_intv_golf.Relay.Invariant.{Inv}
use fujinet_intv_golf.Relay.Settles.Steps.{output-Inv, update-BacklogOk}
use fujinet_intv_golf.Relay.Settles.Send.{is_empty_pos}
use fujinet_intv_golf.Relay.Settles.Drop.{Drops, drop_client-Drops}

-- All that the server has written for a client: what the system took, and what waits.
abbrev pub written : ℕ → World → Bytes
written c w = w.wire c ++ w.tx c

-- Afterwards the client is dead, or what was written has grown by the bytes.
abbrev pub Wrote : ℕ → Bytes → Outcome World (Unit {0}) → Type 0
Wrote c stream o = Ends o (λ _ w'. (w'.dead c ≡ true) ⊎ (written c w' ≡ stream)) (λ _ _. ⊥)

rest-Inv :
    (c : ℕ) (w : World) (m : ℕ) → Inv w → Inv (record w { tx = update w.tx c (drop m (w.tx c)) })
rest-Inv c w m v =
    output-Inv w _ w.want_write w.wire w.sends w.tx_backlog_drops w.hello_timeouts v (
      update-BacklogOk w.tx c (drop m (w.tx c)) v.backlog
        (omega (arith, length-drop m (w.tx c), v.backlog c)))

-- What the system took and what is left of the queue are the queue.
regroup : (before tx : Bytes) (m : ℕ) → (before ++ take m tx) ++ drop m tx ≡ before ++ tx
regroup before tx m =
    append_assoc before (take m tx) (drop m tx) ∙ ap (◌++◌ before) (take-append-drop m tx)

module _ (os : Os) where
  Drops-Wrote :
      (c : ℕ) (w : World) (stream : Bytes) (o : Outcome World (Unit {0}))
      → Drops w c o
      → Wrote c stream o
  Drops-Wrote c w stream (returned _ u) h = inl h.2
  Drops-Wrote c w stream (raised e u) h = h
  Drops-Wrote c w stream out_of_fuel h = h

  on_sent-Wrote :
      (again : M (Unit {0})) (n c : ℕ) (w : World) (r : SendResult) (before stream : Bytes)
      → ((u : World)
          → Inv u
          → length (u.tx c) < n
          → written c u ≡ stream
          → Wrote c stream (again u))
      → Inv w
      → length (w.tx c) ≤ n
      → is_empty (w.tx c) ≡ false
      → w.wire c ≡ before ++ taken r (w.tx c)
      → before ++ w.tx c ≡ stream
      → Wrote c stream (on_sent os (drop_client os) c again r w)
  unfolding on_sent
  on_sent-Wrote again n c w would_block before stream h v fits some_left e s =
      inr (rw e (rw append-nil s))
  on_sent-Wrote again n c w send_error before stream h v fits some_left e s =
      Drops-Wrote c w stream _ (drop_client-Drops os c w v)
  on_sent-Wrote again n c w (sent m) before stream h v fits some_left e s =
      elim (Bool-cases (m == 0)) [
        | inl f ↦ rw f (Drops-Wrote c w stream _ (drop_client-Drops os c w v))
        | inr f ↦ rw f (
            h _ (rest-Inv c w m v)
              (ground (arith, length-drop m (w.tx c), is_empty_pos (w.tx c) some_left, ==-self c))
              (ap₂ ◌++◌ e (ground (arith, ==-self c)) ∙ regroup before (w.tx c) m ∙ s))
      ]

  flush_from-Wrote :
      (n c : ℕ) (w : World) (stream : Bytes)
      → Inv w
      → length (w.tx c) < n
      → written c w ≡ stream
      → Wrote c stream (flush_from os (drop_client os) n c w)
  unfolding flush_from
  flush_from-Wrote zero c w stream v fits s = absurd (omega arith)
  flush_from-Wrote (suc n) c w stream v fits s = elim (Bool-cases (is_empty (w.tx c))) [
    | inl e ↦ rw e (inr s)
    | inr e ↦ rw e (
        on_sent-Wrote (flush_from os (drop_client os) n c) n c _ (os.send_result w.sends c (w.tx c))
          (w.wire c) stream (λ u vu fu su. flush_from-Wrote n c u stream vu fu su)
          (output-Inv w w.tx w.want_write _ _ w.tx_backlog_drops w.hello_timeouts v v.backlog)
          (omega arith) e (ground (arith, ==-self c)) s)
  ]

  -- `send` in a state that satisfies `Inv`, whatever the system takes of the output and when: it
  -- returns, and either the client is dead, or what the system took followed by what is queued is
  -- exactly what it was before the call, followed by the bytes sent.
  pub send-Wrote :
      (c : ℕ) (bytes : Bytes) (w : World)
      → Inv w
      → Wrote c (written c w ++ bytes) (send os (drop_client os) c bytes w)
  unfolding send flush
  send-Wrote c bytes w v = elim (Bool-cases (w.dead c)) [
    | inl e ↦ rw e (inl e)
    | inr e ↦ rw e (elim (Bool-cases (ltb max_tx_backlog (length (w.tx c) + length bytes))) [
      | inl f ↦ rw f (
          Drops-Wrote c _ _ _ (
            drop_client-Drops os c _
              (output-Inv w w.tx w.want_write w.wire w.sends _ w.hello_timeouts v v.backlog)))
      | inr f ↦ rw f (
          flush_from-Wrote _ c _ (written c w ++ bytes)
            (output-Inv w _ w.want_write w.wire w.sends w.tx_backlog_drops w.hello_timeouts v (
              update-BacklogOk w.tx c (w.tx c ++ bytes) v.backlog
                (ground (arith, length-append (w.tx c) bytes))))
            (omega arith)
            (ap (◌++◌ (w.wire c)) (ground (arith, ==-self c))
              ∙ sym (append_assoc (w.wire c) (w.tx c) bytes)))
    ])
  ]
