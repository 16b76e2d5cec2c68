-- ===== src/Relay/Delivery.antt =====
-- `Server.send` while the network keeps up: one call of `sock.send` empties the queue.
use fujinet_intv_golf.Base.{
  ℕ, zero, suc, ◌+◌, ◌≤◌, ◌≡◌, refl, ap, ◌∙◌, Bool, false, ◌||◌, [], ◌∷◌, ◌++◌, arith, ltb, ◌==◌,
  ==-eq, ==-self, if◌then◌else◌, update, length, take, drop, is_empty,
}
use fujinet_intv_golf.Wire.{Bytes, max_tx_backlog}
use fujinet_intv_golf.Relay.Outcome.{Ends}
use fujinet_intv_golf.Relay.World.{World, Os, sent, M}
use fujinet_intv_golf.Relay.Output.{flush_from, flush, on_sent, send}

-- The system takes whatever it is given.
abbrev pub KeepsUp : Os → Type 0
KeepsUp os = (n c : ℕ) (bytes : Bytes) → os.send_result n c bytes ≡ sent (length bytes)

-- The server's own state: all but the sockets' buffers and what the system has taken from them.
abbrev pub apart : World → World
apart w = record w { tx = λ _. []; want_write = λ _. false; wire = λ _. []; sends = 0 }

-- Each of `who` has been sent what is said to it, in full, and nothing else has changed.
pub record Told (w w' : World) (who : ℕ → Bool) (said : ℕ → Bytes) : Type 0 where
  pub wires : (m : ℕ) → w'.wire m ≡ (if who m then w.wire m ++ said m else w.wire m)
  pub queues : (m : ℕ) → w'.tx m ≡ w.tx m
  pub same : apart w' ≡ apart w

pub Told-none : (w : World) (said : ℕ → Bytes) → Told w w (λ _. false) said
Told-none w said = record { wires = λ m. refl; queues = λ m. refl; same = refl }

-- It does not matter how those who are told are described.
pub Told-who :
    (w u : World) (who next : ℕ → Bool) (said : ℕ → Bytes)
    → ((x : ℕ) → next x ≡ who x)
    → Told w u who said
    → Told w u next said
Told-who w u who next said e h = record {
  wires = λ m. rw (e m) (h.wires m);
  queues = h.queues;
  same = h.same;
}

-- Everyone of `who` is told, then one more.
pub Told-more :
    (w u v : World) (who : ℕ → Bool) (m : ℕ) (said : ℕ → Bytes) (next : ℕ → Bool)
    → who m ≡ false
    → ((x : ℕ) → next x ≡ (who x || x == m))
    → Told w u who said
    → Told u v (λ x. x == m) (λ _. said m)
    → Told w v next said
Told-more w u v who m said next fresh more p q = record {
  wires = λ x. ground (arith, p.wires x, q.wires x, more x, ==-eq x m, fresh, ap who, ap said);
  queues = λ x. q.queues x ∙ p.queues x;
  same = q.same ∙ p.same;
}

take-length : (l : Bytes) → take (length l) l ≡ l
take-length [] = refl
take-length (b ∷ bs) = ap (◌∷◌ b) (take-length bs)

drop-length : (l : Bytes) → drop (length l) l ≡ []
drop-length [] = refl
drop-length (b ∷ bs) = drop-length bs

module _ (os : Os) (up : KeepsUp os) where
  flush_empty :
      (d : ℕ → M (Unit {0})) (n c : ℕ) (u w : World) (bytes : Bytes)
      → u.tx c ≡ []
      → Told w u (λ m. m == c) (λ _. bytes)
      → Ends (flush_from os d (suc n) c u) (λ _ w'. Told w w' (λ m. m == c) (λ _. bytes)) (λ _ _. ⊥)
  unfolding flush_from
  flush_empty d n c u w bytes e h =
      rw e (record { wires = h.wires; queues = h.queues; same = h.same })

  -- One `sock.send` empties the queue.
  flush_full :
      (d : ℕ → M (Unit {0})) (k c b : ℕ) (bs : Bytes) (u w : World)
      → 2 ≤ k
      → u.tx c ≡ b ∷ bs
      → w.tx c ≡ []
      → ((m : ℕ) → (m == c) ≡ false → u.tx m ≡ w.tx m)
      → u.wire ≡ w.wire
      → apart u ≡ apart w
      → Ends (flush_from os d k c u) (λ _ w'. Told w w' (λ m. m == c) (λ _. b ∷ bs)) (λ _ _. ⊥)
  unfolding flush_from on_sent
  flush_full d zero c b bs u w enough e idle others wire same = absurd (omega arith)
  flush_full d (suc zero) c b bs u w enough e idle others wire same = absurd (omega arith)
  flush_full d (suc (suc n)) c b bs u w enough e idle others wire same =
      let waiting : is_empty (u.tx c) ≡ false = rw e in
      let counted : (length (u.tx c) == 0) ≡ false = ground (arith, ap length e) in
      rw waiting (
        rw (up u.sends c (u.tx c)) (
          rw counted (
            flush_empty d n c
              (record u {
                wire = update u.wire c (u.wire c ++ take (length (u.tx c)) (u.tx c));
                sends = suc u.sends;
                tx = update u.tx c (drop (length (u.tx c)) (u.tx c));
              })
              w (b ∷ bs) (rw (==-self c) (drop-length (u.tx c)))
              (record {
                wires = λ m.
                    ground
                      (arith, e, ap (λ (f : ℕ → Bytes). f m) wire, take-length (u.tx c), ==-eq m c);
                queues = λ m. ground (arith, others m, idle, drop-length (u.tx c), ==-eq m c);
                same = same;
              }))))

  pub send-Told :
      (d : ℕ → M (Unit {0})) (c b : ℕ) (bs : Bytes) (w : World)
      → w.dead c ≡ false
      → w.tx c ≡ []
      → suc (length bs) ≤ max_tx_backlog
      → Ends (send os d c (b ∷ bs) w) (λ _ w'. Told w w' (λ m. m == c) (λ _. b ∷ bs)) (λ _ _. ⊥)
  unfolding send flush flush_from on_sent
  send-Told d c b bs w alive idle l = rw alive (
      rw (fits (ap length idle)) (
        flush_full d (suc (length (update w.tx c (w.tx c ++ b ∷ bs) c))) c b bs
          (record w { tx = update w.tx c (w.tx c ++ b ∷ bs) }) w
          (ground (arith, ==-self c, ap length idle)) (rw (==-self c) (rw idle)) idle (λ m h. rw h)
          refl refl))
    where
      fits : length (w.tx c) ≡ 0 → ltb max_tx_backlog (length (w.tx c) + suc (length bs)) ≡ false
      fits z = ground arith
