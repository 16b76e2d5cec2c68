-- ===== src/Lobby/Escapes.antt =====
-- About `LobbyPublisher` once an exception that `_post` does not catch has ended the worker.
use fujinet_intv_golf.Base.{
  ◌≡◌, ◌⊎◌, refl, ◌∙◌, true, List, [], ◌∷◌, ◌++◌, subst, Option, none, some, Bool-cases, inl, inr,
}
use fujinet_intv_golf.Lobby.{
  Payload, died, posting, ended, Lobby, Action, update, wait_expired, wake, debounce_over,
  shut_down, posted, escaped, join_over, act, act_all,
}
use fujinet_intv_golf.Lobby.Newest.{Holds, Main-cases}

-- From `s` to `u` the worker is gone, no request has been made unless `shutdown` is over, and what
-- waits to be published still waits.
pub record Silent (s u : Lobby) : Type 0 where
  pub gone : u.worker ≡ died
  pub no_post : (u.main ≡ ended) ⊎ (u.posts ≡ s.posts)
  pub over : s.main ≡ ended → u.main ≡ ended
  pub waits : s.dirty ≡ true → u.dirty ≡ true

Silent-refl : (s : Lobby) → s.worker ≡ died → Silent s s
Silent-refl s e = record { gone = e; no_post = inr refl; over = λ h. h; waits = λ h. h }

Silent-trans : (s t u : Lobby) → Silent s t → Silent t u → Silent s u
Silent-trans s t u p q = record {
  gone = q.gone;
  no_post = elim q.no_post [
    | inl e ↦ inl e
    | inr e ↦ elim p.no_post [ inl f ↦ inl (q.over f) | inr f ↦ inr (e ∙ f) ]
  ];
  over = λ h. q.over (p.over h);
  waits = λ h. q.waits (p.waits h);
}

act-Silent : (a : Action) (s : Lobby) → s.worker ≡ died → Holds (act a s) (Silent s)
unfolding act
act-Silent (update n) s e = elim (Bool-cases s.stopping) [
  | inl h ↦ simp h (Silent-refl s e)
  | inr h ↦ rw h (record { gone = e; no_post = inr refl; over = λ k. k; waits = λ k. refl })
]
act-Silent wait_expired s e = rw e tt
act-Silent wake s e = rw e tt
act-Silent (posted ending) s e = rw e tt
act-Silent debounce_over s e = rw e tt
act-Silent shut_down s e = elim (Main-cases s.main) [
  | inl h ↦ rw h (record { gone = e; no_post = inr refl; over = λ k. absurd (cc); waits = λ k. k })
  | inr (inl h) ↦ rw h tt
  | inr (inr (p, h)) ↦ rw h tt
]
act-Silent (join_over ending) s e = elim (Main-cases s.main) [
  | inl h ↦ rw h tt
  | inr (inl h) ↦ rw h tt
  | inr (inr (p, h)) ↦
      rw h (record { gone = e; no_post = inl refl; over = λ k. refl; waits = λ k. k })
]

Silent-rest :
    (o : Option Lobby) (f : Lobby → Option Lobby) (s u : Lobby)
    → Holds o (Silent s)
    → elim o [ none ↦ none | some t ↦ f t ] ≡ some u
    → ((t : Lobby) → t.worker ≡ died → f t ≡ some u → Silent t u)
    → Silent s u
Silent-rest none f s u h e k = cc
Silent-rest (some t) f s u h e k = Silent-trans s t u h (k t h.gone e)

stays-Silent :
    (acts : List Action) (s u : Lobby) → s.worker ≡ died → act_all acts s ≡ some u → Silent s u
unfolding act_all
stays-Silent [] s u d e = let same : s ≡ u = cc in subst (Silent s) same (Silent-refl s d)
stays-Silent (a ∷ acts) s u d e =
    Silent-rest (act a s) (act_all acts) s u (act-Silent a s d) e (λ t. stays-Silent acts t u)

-- When a request of the worker ends with an exception other than an OSError, then whatever the two
-- threads do afterwards, in any order: the worker is ended for good, no request follows that one
-- until `shutdown` is over, and what waits to be published when the request ends still waits.
pub escaped-Silent :
    (p : Payload) (acts : List Action) (s u : Lobby)
    → s.worker ≡ posting p
    → act_all (posted escaped ∷ acts) s ≡ some u
    → (u.worker ≡ died)
      × ((u.main ≡ ended) ⊎ (u.posts ≡ s.posts ++ p ∷ []))
      × (s.dirty ≡ true → u.dirty ≡ true)
unfolding act_all act
escaped-Silent p acts s u e h =
    let k =
      stays-Silent acts (record s { posts = s.posts ++ p ∷ []; worker = died }) u refl
        (rw e at h) in
    (k.gone, k.no_post, k.waits)
