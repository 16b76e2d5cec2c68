-- ===== src/Lobby/Progress.antt =====
-- About the progress of `LobbyPublisher`: what waits to be published gets out.
use fujinet_intv_golf.Base.{
  ℕ, ◌≡◌, ◌≢◌, refl, sym, ap₂, subst, Bool, true, false, ◌||◌, List, [], ◌∷◌, ◌++◌, some,
  Bool-cases, inl, inr,
}
use fujinet_intv_golf.Lobby.{
  Payload, Ending, answered, os_failed, escaped, after_post, Worker, waiting, debouncing, finished,
  died, posting, Main, Lobby, Action, update, wait_expired, wake, debounce_over, shut_down, posted,
  join_over, new_lobby, act, act_all, last_post,
}
use fujinet_intv_golf.Lobby.Newest.{last_post-append, Holds, Holds-rest, Worker-cases, Main-cases}

-- The worker returns only when the publisher is stopping.
abbrev IsLive : Lobby → Type 0
IsLive s = s.worker ≡ finished → s.stopping ≡ true

not_finished : (ending : Ending) → after_post ending ≢ finished
not_finished answered e = cc
not_finished os_failed e = cc
not_finished escaped e = cc

act-IsLive : (a : Action) (s : Lobby) → IsLive s → Holds (act a s) IsLive
unfolding act
act-IsLive (update n) s h = elim (Bool-cases s.stopping) [
  | inl e ↦ rw e (λ _. refl)
  | inr e ↦ rw e (λ w. rw e at (h w))
]
act-IsLive wait_expired s h = elim (Worker-cases s.worker) [
  | inl e ↦ rw e (elim (Bool-cases (s.dirty || s.stopping)) [
    | inl f ↦ rw f tt
    | inr f ↦ rw f (λ w. absurd (cc))
  ])
  | inr (inl e) ↦ rw e tt
  | inr (inr (inl e)) ↦ rw e tt
  | inr (inr (inr (inl e))) ↦ rw e tt
  | inr (inr (inr (inr (p, e)))) ↦ rw e tt
]
act-IsLive wake s h = elim (Worker-cases s.worker) [
  | inl e ↦ rw e (elim (Bool-cases s.stopping) [
    | inl f ↦ rw f (λ _. refl)
    | inr f ↦ rw f (elim (Bool-cases s.dirty) [ inl g ↦ rw g (λ d. absurd (cc)) | inr g ↦ rw g tt ])
  ])
  | inr (inl e) ↦ rw e tt
  | inr (inr (inl e)) ↦ rw e tt
  | inr (inr (inr (inl e))) ↦ rw e tt
  | inr (inr (inr (inr (p, e)))) ↦ rw e tt
]
act-IsLive (posted ending) s h = elim (Worker-cases s.worker) [
  | inl e ↦ rw e tt
  | inr (inl e) ↦ rw e tt
  | inr (inr (inl e)) ↦ rw e tt
  | inr (inr (inr (inl e))) ↦ rw e tt
  | inr (inr (inr (inr (p, e)))) ↦ rw e (λ d. absurd (not_finished ending d))
]
act-IsLive debounce_over s h = elim (Worker-cases s.worker) [
  | inl e ↦ rw e tt
  | inr (inl e) ↦ rw e (λ d. absurd (cc))
  | inr (inr (inl e)) ↦ rw e tt
  | inr (inr (inr (inl e))) ↦ rw e tt
  | inr (inr (inr (inr (p, e)))) ↦ rw e tt
]
act-IsLive shut_down s h = elim (Main-cases s.main) [
  | inl e ↦ rw e (λ _. refl)
  | inr (inl e) ↦ rw e tt
  | inr (inr (p, e)) ↦ rw e tt
]
act-IsLive (join_over ending) s h = elim (Main-cases s.main) [
  | inl e ↦ rw e tt
  | inr (inl e) ↦ rw e tt
  | inr (inr (p, e)) ↦ rw e h
]

act_all-IsLive : (acts : List Action) (s : Lobby) → IsLive s → Holds (act_all acts s) IsLive
unfolding act_all
act_all-IsLive [] s h = h
act_all-IsLive (a ∷ acts) s h =
    Holds-rest (act a s) (act_all acts) IsLive IsLive IsLive (act-IsLive a s h) (act-IsLive a s h)
      (λ u _ v. act_all-IsLive acts u v)

-- A request that ends with an answer, or with an OSError.
abbrev pub caught : Bool → Ending
caught true = os_failed
caught false = answered

-- What the worker does by itself from where it is, up to the end of the next request that it starts;
-- a request that was under way and that one may fail with an OSError.
abbrev pub drive : Bool → Bool → Worker → List Action
drive f g waiting = wake ∷ posted (caught g) ∷ []
drive f g debouncing = debounce_over ∷ wake ∷ posted (caught g) ∷ []
drive f g (posting p) = posted (caught f) ∷ debounce_over ∷ wake ∷ posted (caught g) ∷ []
drive f g finished = []
drive f g died = []

-- A publisher with something to publish.
abbrev pending : Payload → ℕ → Worker → Main → List Payload → Lobby
pending payload failures worker main posts = record {
  payload = payload;
  failures = failures;
  dirty = true;
  stopping = false;
  worker = worker;
  main = main;
  posts = posts;
}

abbrev GetsOut : Bool → Bool → Lobby → Type 0
GetsOut f g s =
    (u : Lobby) × (act_all (drive f g s.worker) s ≡ some u)
    × (last_post u.posts ≡ some s.payload)
    × (u.payload ≡ s.payload)
    × (u.dirty ≡ false)

pending-GetsOut :
    (payload : Payload) (failures : ℕ) (worker : Worker) (main : Main) (posts : List Payload)
    (f g : Bool)
    → worker ≢ finished
    → worker ≢ died
    → GetsOut f g (pending payload failures worker main posts)
unfolding act act_all
pending-GetsOut payload failures waiting main posts f g h k =
    (_, refl, last_post-append posts payload, refl, refl)
pending-GetsOut payload failures debouncing main posts f g h k =
    (_, refl, last_post-append posts payload, refl, refl)
pending-GetsOut payload failures (posting p) main posts true g h k =
    (_, refl, last_post-append (posts ++ p ∷ []) payload, refl, refl)
pending-GetsOut payload failures (posting p) main posts false g h k =
    (_, refl, last_post-append (posts ++ p ∷ []) payload, refl, refl)
pending-GetsOut payload failures finished main posts f g h k = absurd (h refl)
pending-GetsOut payload failures died main posts f g h k = absurd (k refl)

-- Whatever the two threads have done since `__init__`, if something waits to be published, the
-- publisher is not stopping, and no exception has ended the worker, then the worker's own next steps,
-- if the server's thread does nothing, bring it out, whether the requests are answered or fail with
-- an OSError: they end with a request whose payload is the one of now, and nothing waits any more.
pub act_all-drive :
    (acts : List Action) (s : Lobby) (f g : Bool)
    → act_all acts new_lobby ≡ some s
    → s.dirty ≡ true
    → s.stopping ≡ false
    → s.worker ≢ died
    → (u : Lobby) × (act_all (drive f g s.worker) s ≡ some u)
      × (last_post u.posts ≡ some s.payload)
      × (u.payload ≡ s.payload)
      × (u.dirty ≡ false)
act_all-drive acts s f g e d r alive =
    let live : IsLive s = rw e at (act_all-IsLive acts new_lobby (λ x. absurd (cc))) in
    let is_pending : s ≡ pending s.payload s.failures s.worker s.main s.posts =
      ap₂ (λ x y. record s { dirty = x; stopping = y }) d r in
    subst (GetsOut f g) (sym is_pending) (
      pending-GetsOut s.payload s.failures s.worker s.main s.posts f g
        (λ w. absurd (cc (live w, r))) alive)
