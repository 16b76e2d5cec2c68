-- ===== src/Relay/RoomTests.antt =====
-- The theorems about rooms at work: two players meet, and one starts the match or leaves it.
use fujinet_intv_golf.Base.{
  ℕ, ◌≡◌, refl, sym, ap, ◌∙◌, subst, some_inj, ==-eq, contains_of-erase, ◌⊎◌, false, true, ◌==◌,
  List, [], ◌∷◌, ◌++◌, arith, get_elem?, erase, Bool-cases, inl, inr,
}
use fujinet_intv_golf.Wire.{all_name_chars, decode_ascii, is_name_char, is_valid_name, rstrip}
use fujinet_intv_golf.Relay.Outcome.{returned, Ends}
use fujinet_intv_golf.Relay.World.{World}
use fujinet_intv_golf.Relay.Handlers.{on_go, on_hello, on_join, wire_name}
use fujinet_intv_golf.Relay.Output.{drop_client}
use fujinet_intv_golf.Relay.Delivery.{Told}
use fujinet_intv_golf.Relay.Telling.{AllReady}
use fujinet_intv_golf.Relay.Listing.{lobby_frame}
use fujinet_intv_golf.Relay.Starts.{HostMayStart, MatchStarted, on_go-MatchStarted}
use fujinet_intv_golf.Relay.Joins.{sitting, MayJoin}
use fujinet_intv_golf.Relay.Joins.Branches.{party, JoinedThen, on_join-Joined}
use fujinet_intv_golf.Relay.Leaves.{ends, farewell}
use fujinet_intv_golf.Relay.Leaves.Drops.{Left, drop_client-Left}
use fujinet_intv_golf.Relay.Greets.{Named, on_hello-Named}
use fujinet_intv_golf.Relay.Worlds.{
  os_up, lobby, forming, lobby-Inv, forming-Inv, lobby-Met, forming-Together,
}

two_AllReady :
    (w : World)
    → (w.dead 0 ≡ false) × (w.tx 0 ≡ [])
    → (w.dead 1 ≡ false) × (w.tx 1 ≡ [])
    → AllReady w (0 ∷ 1 ∷ [])
two_AllReady w p q m h = elim (Bool-cases (m == 0)) [
  | inl e ↦ subst (λ x. (w.dead x ≡ false) × (w.tx x ≡ [])) (sym (==-eq m 0 e)) p
  | inr e ↦ subst (λ x. (w.dead x ≡ false) × (w.tx x ≡ [])) (ground (arith, h, e, ==-eq m 1)) q
]

together_ready : AllReady forming (forming.members 0)
together_ready = subst (AllReady forming) (sym forming-Together.seated) (
    two_AllReady forming (forming-Together.alive_a, forming-Together.idle_a)
      (forming-Together.alive_b, forming-Together.idle_b))

on_go-MatchStarted_example :
    ((r : ℕ) × HostMayStart 0 r forming
      × Ends (on_go os_up 0 forming) (λ _ x. MatchStarted forming x r 0x1234) (λ _ _. ⊥))
    ⊎ (((r : ℕ) → ¬ HostMayStart 0 r forming) × (on_go os_up 0 forming ≡ returned tt forming))
on_go-MatchStarted_example =
    on_go-MatchStarted os_up (λ n c bytes. refl) 0 forming forming-Inv (λ n. omega arith)
      (omega (arith, forming-Together.slow))
      (λ r e.
        subst (λ s. AllReady forming (forming.members s))
          (some_inj (sym forming-Together.room_a ∙ e)) together_ready)

on_join-Joined_example :
    ((t : ℕ) × MayJoin 1 t (65 ∷ 65 ∷ []) lobby
      × Ends
          (on_join os_up 1 (65 ∷ 65 ∷ []) lobby)
          (λ _ v. JoinedThen os_up lobby v 1 t)
          (λ _ _. ⊥))
    ⊎ (((t : ℕ) → ¬ MayJoin 1 t (65 ∷ 65 ∷ []) lobby)
        × Ends
            (on_join os_up 1 (65 ∷ 65 ∷ []) lobby)
            (λ _ v. Told lobby v (λ m. m == 1) (λ _. lobby_frame 1 lobby))
            (λ _ _. ⊥))
on_join-Joined_example =
    on_join-Joined os_up (λ n c bytes. refl) (λ n. omega arith) 1 (65 ∷ 65 ∷ []) lobby lobby-Inv
      (omega (arith, lobby-Met.slow)) (omega (arith, lobby-Met.known)) lobby-Met.alone_b
      lobby-Met.named_b
      (subst (λ o. AllReady lobby (party o 1 lobby)) (sym lobby-Met.finds_a)
        (subst (λ o. AllReady lobby (sitting o 0 lobby ++ 1 ∷ [])) (sym lobby-Met.alone_a)
          (two_AllReady lobby (lobby-Met.alive_a, lobby-Met.idle_a)
            (lobby-Met.alive_b, lobby-Met.idle_b))))

drop_client-Left_example :
    Ends
      (drop_client os_up 0 forming)
      (λ _ x.
        Left forming x 0 0
          (erase 0 (forming.members 0))
          (ends (forming.started 0) 0 (erase 0 (forming.members 0)))
          (farewell 0 0 (forming.started 0) (erase 0 (forming.members 0)) forming))
      (λ _ _. ⊥)
drop_client-Left_example =
    drop_client-Left os_up (λ n c bytes. refl) 0 0 0 forming forming-Inv forming-Together.alive_a
      forming-Together.room_a (ap (λ (l : List ℕ). get_elem? l 0) forming-Together.seated)
      (λ m h. together_ready m (contains_of-erase m 0 (forming.members 0) h))

valid_cc : is_valid_name (wire_name (67 ∷ 67 ∷ [])) ≡ true
unfolding is_valid_name all_name_chars is_name_char decode_ascii rstrip
valid_cc = refl

on_hello-Named_example :
    Ends
      (on_hello os_up 0 (2 ∷ 67 ∷ 67 ∷ []) lobby)
      (λ _ x. Named lobby x 0 (wire_name (67 ∷ 67 ∷ [])))
      (λ _ _. ⊥)
on_hello-Named_example =
    on_hello-Named os_up (λ n c bytes. refl) 0 (2 ∷ 67 ∷ 67 ∷ []) lobby lobby-Inv
      (omega (arith, lobby-Met.known)) lobby-Met.alive_a lobby-Met.idle_a (omega arith) refl
      valid_cc (λ old r e. absurd (ground (arith, e, lobby-Met.finds_none)))
