-- ===== src/Relay/Telling.antt =====
-- Loops that send to the members of a room, while the network keeps up.
use mathlib.Core.Option
use fujinet_intv_golf.Base.{
  ℕ, zero, suc, ◌+◌, ◌≤◌, ◌<◌, ◌≡◌, refl, sym, ap, ◌∙◌, subst, Bool, true, false, ◌&&◌, ◌||◌, List,
  [], ◌∷◌, some, arith, ◌==◌, ==-eq, ==-self, length, take, get_elem?, get_elem?-ge, contains,
  AllDistinct, contains-take-suc, contains-take_fresh, contains_of-get_elem?, take_all,
  Option-cases, inl, inr,
}
use fujinet_intv_golf.Wire.{Bytes, max_tx_backlog}
use fujinet_intv_golf.Relay.Outcome.{Ends, Ends-and_then, Ends-weaken}
use fujinet_intv_golf.Relay.World.{World, Os, M}
use fujinet_intv_golf.Relay.Output.{send, publish, each_member, for_members, for_each}
use fujinet_intv_golf.Relay.Delivery.{KeepsUp, Told, Told-none, Told-who, Told-more, send-Told}

-- What `LobbyPublisher.update` makes of the number of names.
abbrev pub published : World → World
published w = record w { lobby = Option.map (publish (length w.by_name)) w.lobby }

-- No member of the list is dead or has output waiting.
abbrev pub AllReady : World → List ℕ → Type 0
AllReady w ms = (m : ℕ) → contains ms m ≡ true → (w.dead m ≡ false) × (w.tx m ≡ [])

module _ (os : Os) (up : KeepsUp os) where
  -- One more is told.
  pub send-more :
      (d : ℕ → M (Unit {0})) (m b : ℕ) (bs : Bytes) (w u : World) (who next : ℕ → Bool)
      (said : ℕ → Bytes)
      → said m ≡ b ∷ bs
      → suc (length bs) ≤ max_tx_backlog
      → (w.dead m ≡ false) × (w.tx m ≡ [])
      → who m ≡ false
      → ((x : ℕ) → next x ≡ (who x || x == m))
      → Told w u who said
      → Ends (send os d m (b ∷ bs) u) (λ _ v. Told w v next said) (λ _ _. ⊥)
  send-more d m b bs w u who next said e l ready fresh more h =
      Ends-weaken (send os d m (b ∷ bs) u) (λ _ v. Told u v (λ x. x == m) (λ _. b ∷ bs)) _
        (λ _ _. ⊥) _
        (send-Told os up d m b bs u (ap (λ (k : World). k.dead m) h.same ∙ ready.0)
          (h.queues m ∙ ready.1) l)
        (λ _ v q.
          Told-more w u v who m said next fresh more h
            (subst (λ bytes. Told u v (λ x. x == m) (λ _. bytes)) (sym e) q))
        (λ _ _ q. q)

  -- A loop over members that nothing else holds.
  pub for_each-Told :
      (d : ℕ → M (Unit {0})) (b : ℕ) (bs : Bytes) (ms : List ℕ) (w u : World) (who : ℕ → Bool)
      → suc (length bs) ≤ max_tx_backlog
      → AllReady w ms
      → AllDistinct ms
      → ((m : ℕ) → contains ms m ≡ true → who m ≡ false)
      → Told w u who (λ _. b ∷ bs)
      → Ends
          (for_each ms (λ m. send os d m (b ∷ bs)) u)
          (λ _ v. Told w v (λ x. who x || contains ms x) (λ _. b ∷ bs))
          (λ _ _. ⊥)
  unfolding for_each
  for_each-Told d b bs [] w u who l ready distinct fresh h =
      Told-who w u who _ (λ _. b ∷ bs) (λ x. ground arith) h
  for_each-Told d b bs (m ∷ ms) w u who l ready distinct fresh h =
      Ends-and_then (send os d m (b ∷ bs) u) _
        (λ _ v. Told w v (λ x. who x || x == m) (λ _. b ∷ bs)) _ _
        (send-more d m b bs w u who _ (λ _. b ∷ bs) refl l (ready m (ground (arith, ==-self m)))
          (fresh m (ground (arith, ==-self m))) (λ x. refl) h)
        (λ _ v q.
          Ends-weaken (for_each ms (λ m. send os d m (b ∷ bs)) v)
            (λ _ v'. Told w v' (λ x. (who x || x == m) || contains ms x) (λ _. b ∷ bs)) _ (λ _ _. ⊥)
            _
            (for_each-Told d b bs ms w v _ l (λ x e. ready x (ground arith)) distinct.1
              (λ x e. ground (arith, fresh x, ==-eq x m, distinct.0)) q)
            (λ _ v' q'. Told-who w v' _ _ (λ _. b ∷ bs) (λ x. ground arith) q') (λ _ _ q'. q'))

  -- A loop over room `r` as it is in `w`, whose body sends `said m` to each member `m` that `keep`
  -- admits.
  module _ (r : ℕ) (w : World) (keep : ℕ → Bool) (said : ℕ → Bytes) where
    -- Those who have been told before the loop comes to a position.
    abbrev pub so_far : ℕ → ℕ → Bool
    so_far i x = contains (take i (w.members r)) x && keep x

    pub send-so_far :
        (d : ℕ → M (Unit {0})) (i m b : ℕ) (bs : Bytes) (u : World)
        → get_elem? (w.members r) i ≡ some m
        → AllDistinct (w.members r)
        → AllReady w (w.members r)
        → keep m ≡ true
        → said m ≡ b ∷ bs
        → suc (length bs) ≤ max_tx_backlog
        → Told w u (so_far i) said
        → Ends (send os d m (b ∷ bs) u) (λ _ v. Told w v (so_far (suc i)) said) (λ _ _. ⊥)
    send-so_far d i m b bs u e distinct ready k s l h =
        send-more d m b bs w u (so_far i) (so_far (suc i)) said s l
          (ready m (contains_of-get_elem? (w.members r) i m e))
          (rw (contains-take_fresh (w.members r) i m distinct e))
          (λ x. ground (arith, contains-take-suc (w.members r) i m x e, ==-eq x m, k)) h

    pub skip-so_far :
        (i m : ℕ) (u : World)
        → get_elem? (w.members r) i ≡ some m
        → keep m ≡ false
        → Told w u (so_far i) said
        → Told w u (so_far (suc i)) said
    skip-so_far i m u e k h =
        Told-who w u (so_far i) (so_far (suc i)) said
          (λ x. ground (arith, contains-take-suc (w.members r) i m x e, ==-eq x m, k)) h

    -- What is asked of the loop's body.
    abbrev pub Tells : (ℕ → ℕ → M (Unit {0})) → Type 0
    Tells body =
        (i m : ℕ) (u : World)
        → get_elem? (w.members r) i ≡ some m
        → Told w u (so_far i) said
        → Ends (body i m u) (λ _ v. Told w v (so_far (suc i)) said) (λ _ _. ⊥)

    each_member-Told :
        (body : ℕ → ℕ → M (Unit {0})) (k i : ℕ) (u : World)
        → Tells body
        → i ≤ length (w.members r)
        → length (w.members r) < i + k
        → Told w u (so_far i) said
        → Ends
            (each_member k r i body u)
            (λ _ v. Told w v (λ x. contains (w.members r) x && keep x) said)
            (λ _ _. ⊥)
    unfolding each_member
    each_member-Told body zero i u tells bound fuel h = absurd (omega arith)
    each_member-Told body (suc k) i u tells bound fuel h =
        let now : get_elem? (u.members r) i ≡ get_elem? (w.members r) i =
          ap (λ (x : World). get_elem? (x.members r) i) h.same in
        elim (Option-cases (get_elem? (w.members r) i)) [
          | inl e ↦ rw (now ∙ e) (
              subst (λ (l : List ℕ). Told w u (λ x. contains l x && keep x) said)
                (take_all (w.members r) i e) h)
          | inr (m, e) ↦ rw (now ∙ e) (
              Ends-and_then (body i m u) _ (λ _ v. Told w v (so_far (suc i)) said) _ _
                (tells i m u e h)
                (λ _ v q.
                  each_member-Told body k (suc i) v tells
                    (ground (arith, get_elem?-ge (w.members r) i, e)) (omega arith) q))
        ]

    pub for_members-Told :
        (body : ℕ → ℕ → M (Unit {0}))
        → Tells body
        → Ends
            (for_members r body w)
            (λ _ v. Told w v (λ x. contains (w.members r) x && keep x) said)
            (λ _ _. ⊥)
    for_members-Told body tells =
        each_member-Told body (suc (length (w.members r))) 0 w tells (omega arith) (omega arith)
          (Told-none w said)
