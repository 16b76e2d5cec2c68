-- ===== src/Lobby/Tests.antt =====
-- The publisher on two updates, the second while the first is posted.
use fujinet_intv_golf.Base.{◌≡◌, ◌⊎◌, refl, true, false, List, [], ◌∷◌, some, none}
use fujinet_intv_golf.Lobby.{
  debouncing, serving, Lobby, Action, update, wake, posted, debounce_over, no_players, new_lobby,
  posting, last_post, act, act_all, newest, answered, os_failed, died, ended,
}
use fujinet_intv_golf.Lobby.Progress.{act_all-drive}
use fujinet_intv_golf.Lobby.Newest.{act_all-newest}
use fujinet_intv_golf.Lobby.Escapes.{escaped-Silent}

abbrev busy : List Action
busy = update 1 ∷ wake ∷ update 2 ∷ posted os_failed ∷ debounce_over ∷ wake ∷ posted answered ∷ []

abbrev two_posted : Lobby
two_posted = record {
  payload = record { curplayers = 2; online = true };
  failures = 1;
  dirty = false;
  stopping = false;
  worker = debouncing;
  main = serving;
  posts = record { curplayers = 1; online = true } ∷ record { curplayers = 2; online = true } ∷ [];
}

act_all-newest_example :
    (newest two_posted ≡ some two_posted.payload)
    ⊎ ((newest two_posted ≡ none) × (two_posted.payload ≡ no_players))
unfolding act_all act
act_all-newest_example = act_all-newest busy two_posted refl refl refl

-- The second update comes while the first is posted.
abbrev one_posting : Lobby
one_posting = record {
  payload = record { curplayers = 2; online = true };
  failures = 0;
  dirty = true;
  stopping = false;
  worker = posting (record { curplayers = 1; online = true });
  main = serving;
  posts = [];
}

one_posting-reached : act_all (update 1 ∷ wake ∷ update 2 ∷ []) new_lobby ≡ some one_posting
unfolding act_all act
one_posting-reached = refl

act_all-drive_example :
    (u : Lobby) × (act_all
        (posted os_failed ∷ debounce_over ∷ wake ∷ posted answered ∷ [])
        one_posting
      ≡ some u)
    × (last_post u.posts ≡ some (record { curplayers = 2; online = true }))
    × (u.payload ≡ record { curplayers = 2; online = true })
    × (u.dirty ≡ false)
act_all-drive_example =
    act_all-drive (update 1 ∷ wake ∷ update 2 ∷ []) one_posting true false one_posting-reached refl
      refl (λ e. cc)

-- The answer to the first request is not HTTP; then there is another update.
abbrev stuck : Lobby
stuck = record {
  payload = record { curplayers = 3; online = true };
  failures = 0;
  dirty = true;
  stopping = false;
  worker = died;
  main = serving;
  posts = record { curplayers = 1; online = true } ∷ [];
}

escaped-Silent_example :
    (stuck.worker ≡ died)
    × ((stuck.main ≡ ended) ⊎ (stuck.posts ≡ record { curplayers = 1; online = true } ∷ []))
    × (one_posting.dirty ≡ true → stuck.dirty ≡ true)
unfolding act_all act
escaped-Silent_example =
    escaped-Silent (record { curplayers = 1; online = true }) (update 3 ∷ []) one_posting stuck refl
      refl
