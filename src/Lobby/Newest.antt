-- ===== src/Lobby/Newest.antt =====
-- About the newest request of `LobbyPublisher`.
use fujinet_intv_golf.Base.{
  ◌≡◌, ◌⊎◌, refl, ◌∙◌, true, false, ◌||◌, List, [], ◌∷◌, ◌++◌, Option, none, some, arith,
  Bool-cases, inl, inr,
}
use fujinet_intv_golf.Lobby.{
  Payload, Ending, answered, os_failed, escaped, post, after_post, Worker, waiting, debouncing,
  finished, died, posting, Main, serving, ended, joining, Lobby, Action, update, wait_expired, wake,
  debounce_over, shut_down, posted, join_over, no_players, new_lobby, act, act_all, last_post,
  newest, IsPublished,
}

pub last_post-append : (ps : List Payload) (p : Payload) → last_post (ps ++ p ∷ []) ≡ some p
unfolding last_post
last_post-append [] p = refl
last_post-append (q ∷ ps) p = rw (last_post-append ps p)

newest-post :
    (ending : Ending) (p : Payload) (s : Lobby)
    → newest (record (post p ending s) { worker = after_post ending }) ≡ some p
newest-post answered p s = last_post-append s.posts p
newest-post os_failed p s = last_post-append s.posts p
newest-post escaped p s = last_post-append s.posts p

abbrev pub Holds : Option Lobby → (Lobby → Type 0) → Type 0
Holds none P = Unit
Holds (some u) P = P u

pub Worker-cases :
    (k : Worker)
    → (k ≡ waiting)
      ⊎ ((k ≡ debouncing) ⊎ ((k ≡ finished) ⊎ ((k ≡ died) ⊎ ((p : Payload) × (k ≡ posting p)))))
Worker-cases waiting = inl refl
Worker-cases debouncing = inr (inl refl)
Worker-cases finished = inr (inr (inl refl))
Worker-cases died = inr (inr (inr (inl refl)))
Worker-cases (posting p) = inr (inr (inr (inr (p, refl))))

pub Main-cases : (k : Main) → (k ≡ serving) ⊎ ((k ≡ ended) ⊎ ((p : Payload) × (k ≡ joining p)))
Main-cases serving = inl refl
Main-cases ended = inr (inl refl)
Main-cases (joining p) = inr (inr (p, refl))

-- Once `shutdown` has begun, the publisher is stopping.
abbrev IsStopped : Lobby → Type 0
IsStopped s = (s.main ≡ serving) ⊎ (s.stopping ≡ true)

act-IsStopped : (a : Action) (s : Lobby) → IsStopped s → Holds (act a s) IsStopped
unfolding act
act-IsStopped (update n) s t = elim (Bool-cases s.stopping) [
  | inl e ↦ rw e (inr refl)
  | inr e ↦ rw e (ground (arith, t, e))
]
act-IsStopped wait_expired s t = elim (Worker-cases s.worker) [
  | inl e ↦ rw e (elim (Bool-cases (s.dirty || s.stopping)) [ inl f ↦ rw f tt | inr f ↦ rw f t ])
  | inr (inl e) ↦ rw e tt
  | inr (inr (inl e)) ↦ rw e tt
  | inr (inr (inr (inl e))) ↦ rw e tt
  | inr (inr (inr (inr (p, e)))) ↦ rw e tt
]
act-IsStopped wake s t = elim (Worker-cases s.worker) [
  | inl e ↦ rw e (elim (Bool-cases s.stopping) [
    | inl f ↦ rw f (inr refl)
    | inr f ↦
        rw f (elim (Bool-cases s.dirty) [ inl g ↦ rw g (ground (arith, t, f)) | inr g ↦ rw g tt ])
  ])
  | inr (inl e) ↦ rw e tt
  | inr (inr (inl e)) ↦ rw e tt
  | inr (inr (inr (inl e))) ↦ rw e tt
  | inr (inr (inr (inr (p, e)))) ↦ rw e tt
]
act-IsStopped (posted ending) s t = elim (Worker-cases s.worker) [
  | inl e ↦ rw e tt
  | inr (inl e) ↦ rw e tt
  | inr (inr (inl e)) ↦ rw e tt
  | inr (inr (inr (inl e))) ↦ rw e tt
  | inr (inr (inr (inr (p, e)))) ↦ rw e t
]
act-IsStopped debounce_over s t = elim (Worker-cases s.worker) [
  | inl e ↦ rw e tt
  | inr (inl e) ↦ rw e t
  | inr (inr (inl e)) ↦ rw e tt
  | inr (inr (inr (inl e))) ↦ rw e tt
  | inr (inr (inr (inr (p, e)))) ↦ rw e tt
]
act-IsStopped shut_down s t = elim (Main-cases s.main) [
  | inl e ↦ rw e (inr refl)
  | inr (inl e) ↦ rw e tt
  | inr (inr (p, e)) ↦ rw e tt
]
act-IsStopped (join_over ending) s t = elim (Main-cases s.main) [
  | inl e ↦ rw e tt
  | inr (inl e) ↦ rw e tt
  | inr (inr (p, e)) ↦ rw e (inr (ground (arith, t, e)))
]

act-IsPublished :
    (a : Action) (s : Lobby) → IsStopped s → IsPublished s → Holds (act a s) IsPublished
unfolding act
act-IsPublished (update n) s t h = elim (Bool-cases s.stopping) [
  | inl e ↦ rw e (λ d g. absurd (cc))
  | inr e ↦ rw e (λ d _. absurd (cc))
]
act-IsPublished wait_expired s t h = elim (Worker-cases s.worker) [
  | inl e ↦ rw e (elim (Bool-cases (s.dirty || s.stopping)) [
    | inl f ↦ rw f tt
    | inr f ↦ rw f (λ d _. absurd (cc))
  ])
  | inr (inl e) ↦ rw e tt
  | inr (inr (inl e)) ↦ rw e tt
  | inr (inr (inr (inl e))) ↦ rw e tt
  | inr (inr (inr (inr (p, e)))) ↦ rw e tt
]
act-IsPublished wake s t h = elim (Worker-cases s.worker) [
  | inl e ↦ rw e (elim (Bool-cases s.stopping) [
    | inl f ↦ rw f (λ _ g. absurd (ground (arith, g, f)))
    | inr f ↦ rw f (elim (Bool-cases s.dirty) [ inl g ↦ rw g (λ _ _. inl refl) | inr g ↦ rw g tt ])
  ])
  | inr (inl e) ↦ rw e tt
  | inr (inr (inl e)) ↦ rw e tt
  | inr (inr (inr (inl e))) ↦ rw e tt
  | inr (inr (inr (inr (p, e)))) ↦ rw e tt
]
act-IsPublished (posted ending) s t h = elim (Worker-cases s.worker) [
  | inl e ↦ rw e tt
  | inr (inl e) ↦ rw e tt
  | inr (inr (inl e)) ↦ rw e tt
  | inr (inr (inr (inl e))) ↦ rw e tt
  | inr (inr (inr (inr (p, e)))) ↦ rw e (λ d g. elim (rw e at (h d g)) [
    | inl q ↦ inl (newest-post ending p s ∙ q)
    | inr q ↦ absurd (cc q.0)
  ])
]
act-IsPublished debounce_over s t h = elim (Worker-cases s.worker) [
  | inl e ↦ rw e tt
  | inr (inl e) ↦ rw e (λ d g. rw e at (h d g))
  | inr (inr (inl e)) ↦ rw e tt
  | inr (inr (inr (inl e))) ↦ rw e tt
  | inr (inr (inr (inr (p, e)))) ↦ rw e tt
]
act-IsPublished shut_down s t h = elim (Main-cases s.main) [
  | inl e ↦ rw e (λ d g. absurd (cc))
  | inr (inl e) ↦ rw e tt
  | inr (inr (p, e)) ↦ rw e tt
]
act-IsPublished (join_over ending) s t h = elim (Main-cases s.main) [
  | inl e ↦ rw e tt
  | inr (inl e) ↦ rw e tt
  | inr (inr (p, e)) ↦ rw e (λ d g. absurd (ground (arith, t, e, g)))
]

-- What follows an action that happened.
pub Holds-rest :
    (o : Option Lobby) (f : Lobby → Option Lobby) (P Q R : Lobby → Type 0)
    → Holds o P
    → Holds o Q
    → ((u : Lobby) → P u → Q u → Holds (f u) R)
    → Holds (elim o [ none ↦ none | some u ↦ f u ]) R
Holds-rest none f P Q R p q h = tt
Holds-rest (some u) f P Q R p q h = h u p q

act_all-IsPublished :
    (acts : List Action) (s : Lobby)
    → IsStopped s
    → IsPublished s
    → Holds (act_all acts s) IsPublished
unfolding act_all
act_all-IsPublished [] s t h = h
act_all-IsPublished (a ∷ acts) s t h =
    Holds-rest (act a s) (act_all acts) IsStopped IsPublished IsPublished (act-IsStopped a s t)
      (act-IsPublished a s t h) (act_all-IsPublished acts)

-- Whatever the two threads do after `__init__`, in any order: when nothing waits to be published
-- and the publisher is not stopping, then the request that is under way, or else the last one made,
-- has the payload of now, or no request was made and the payload is still the first one.
pub act_all-newest :
    (acts : List Action) (s : Lobby)
    → act_all acts new_lobby ≡ some s
    → s.dirty ≡ false
    → s.stopping ≡ false
    → (newest s ≡ some s.payload) ⊎ ((newest s ≡ none) × (s.payload ≡ no_players))
unfolding last_post
act_all-newest acts s e =
    rw e at (act_all-IsPublished acts new_lobby (inl refl) (λ _ _. inr (refl, refl)))
