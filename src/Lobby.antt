-- ===== src/Lobby.antt =====
-- `LobbyPublisher` of server/intv_relay_server.py: the worker thread that posts the number of
-- players to the FujiNet Lobby, and the server's thread that updates and stops it. Each action is
-- what one thread does between two points at which the other can run: what it does under the
-- condition variable, or one HTTP request.
pub mod Newest
pub mod Progress
pub mod Escapes
mod Tests
use fujinet_intv_golf.Base.{
  ℕ, suc, ◌≡◌, ◌⊎◌, refl, ◌∙◌, Bool, true, false, ◌||◌, List, [], ◌∷◌, ◌++◌, Option, none, some,
  arith, if◌then◌else◌, Bool-cases, Option-cases, inl, inr,
}
use fujinet_intv_golf.Relay.Output.{publish}

-- What a request says: the number of players, and whether the status is "online".
pub record Payload : Type 0 where
  pub curplayers : ℕ
  pub online : Bool

-- How `_post` ends: with an answer; with an OSError, which it counts; or with another exception of
-- `urlopen`, such as http.client.BadStatusLine, which nothing catches.
pub data Ending : Type 0 where
  answered os_failed escaped : Ending

-- The worker: in `wait`, in `_post` with its snapshot, in the debounce, returned, or ended by an
-- exception.
pub data Worker : Type 0 where
  waiting debouncing finished died : Worker
  posting : Payload → Worker

-- The server's thread: before `shutdown`, in `join` with its snapshot, or after it.
pub data Main : Type 0 where
  serving ended : Main
  joining : Payload → Main

pub record Lobby : Type 0 where
  pub payload : Payload
  pub failures : ℕ
  pub dirty : Bool
  pub stopping : Bool
  pub worker : Worker
  pub main : Main
  -- the requests made so far, by either thread
  pub posts : List Payload

-- `update`; a `wait` that runs out; one that ends; the end of a request; the end of the
-- debounce; `shutdown` up to `join`, and from there on.
pub data Action : Type 0 where
  update : ℕ → Action
  wait_expired wake debounce_over shut_down : Action
  posted join_over : Ending → Action

abbrev pub no_players : Payload
no_players = record { curplayers = 0; online = true }

-- `__init__`
abbrev pub new_lobby : Lobby
new_lobby = record {
  payload = no_players;
  failures = 0;
  dirty = false;
  stopping = false;
  worker = waiting;
  main = serving;
  posts = [];
}

-- `_post`
abbrev pub post : Payload → Ending → Lobby → Lobby
post p ending s = record s {
  posts = s.posts ++ p ∷ [];
  failures = elim ending [ os_failed ↦ suc s.failures | other ↦ s.failures ];
}

-- Where the worker is after `_post`.
abbrev pub after_post : Ending → Worker
after_post answered = debouncing
after_post os_failed = debouncing
after_post escaped = died

abbrev pub offline : Payload → Payload
offline p = record p { online = false }

-- An action, where it can happen.
unfoldable pub act : Action → Lobby → Option Lobby
act (update n) s = some (
    if s.stopping
    then s
    else record s { payload = record { curplayers = n; online = s.payload.online }; dirty = true })
act wait_expired s = elim s.worker [
  | waiting ↦ if s.dirty || s.stopping then none else some (record s { dirty = true })
  | other ↦ none
]
act wake s = elim s.worker [
  | waiting ↦
      if s.stopping
      then some (record s { dirty = false; worker = finished })
      else if s.dirty
      then some (record s { dirty = false; worker = posting s.payload })
      else none
  | other ↦ none
]
act (posted ending) s = elim s.worker [
  | posting p ↦ some (record (post p ending s) { worker = after_post ending })
  | other ↦ none
]
act debounce_over s = elim s.worker [
  | debouncing ↦ some (record s { worker = waiting })
  | other ↦ none
]
act shut_down s = elim s.main [
  | serving ↦ some (record s {
    stopping = true;
    payload = offline s.payload;
    main = joining (offline s.payload);
  })
  | other ↦ none
]
act (join_over ending) s = elim s.main [
  | joining p ↦ some (record (post p ending s) { main = ended })
  | other ↦ none
]

-- Actions one after the other.
unfoldable pub act_all : List Action → Lobby → Option Lobby
unfolding act
act_all [] s = some s
act_all (a ∷ rest) s = elim (act a s) [ none ↦ none | some u ↦ act_all rest u ]

unfoldable pub last_post : List Payload → Option Payload
last_post [] = none
last_post (p ∷ ps) = elim (last_post ps) [ none ↦ some p | some q ↦ some q ]

-- The request that is under way, or else the last one.
abbrev pub newest : Lobby → Option Payload
newest s = elim s.worker [ posting p ↦ some p | other ↦ last_post s.posts ]

-- Unless there is something to publish or the publisher is stopping, the newest request says what
-- is to be said, or there was nothing to say yet.
abbrev pub IsPublished : Lobby → Type 0
IsPublished s =
    s.dirty ≡ false
    → s.stopping ≡ false
    → (newest s ≡ some s.payload) ⊎ ((newest s ≡ none) × (s.payload ≡ no_players))
