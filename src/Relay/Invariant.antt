-- ===== src/Relay/Invariant.antt =====
-- What holds of the server between any two calls, and how far a call that sends or drops may
-- change it. Each part of the invariant is stated over the tables that it reads, so that a call
-- that leaves these alone keeps it at once.
mod Change
pub use Change.*
use fujinet_intv_golf.Base.{
  ℕ, ◌≤◌, ◌<◌, ◌≡◌, Bool, true, false, not, List, [], Option, none, some, length, contains,
  AllDistinct,
}
use fujinet_intv_golf.Base.Assoc.{lookup, Unique}
use fujinet_intv_golf.Wire.{
  Bytes, Text, max_seats, max_tx_backlog, max_clients, max_connections_per_ip, is_ascii,
}
use fujinet_intv_golf.Relay.World.{World, Publisher}
use fujinet_intv_golf.Relay.Handlers.{is_some}
use fujinet_intv_golf.Relay.Service.{count_ip}

-- A client's room lists it; if a room is somebody's, all that it lists are in it; nobody is listed
-- twice, no room exceeds its seats, and whoever is listed has a name.
pub record RoomsOk (room : ℕ → Option ℕ) (members : ℕ → List ℕ) (name : ℕ → Option Text)
    (next_room : ℕ) : Type 0 where
  pub joined : (c r : ℕ) → room c ≡ some r → contains (members r) c ≡ true
  pub loyal : (c d r : ℕ) → room c ≡ some r → contains (members r) d ≡ true → room d ≡ some r
  pub distinct : (r : ℕ) → AllDistinct (members r)
  pub seats : (r : ℕ) → length (members r) ≤ max_seats
  pub named : (c r : ℕ) → contains (members r) c ≡ true → is_some (name c) ≡ true
  pub unused : (r : ℕ) → next_room ≤ r → members r ≡ []

-- Every name is ASCII, and an entry of `by_name` leads to the client of that name.
pub record NamesOk (name : ℕ → Option Text) (by_name : List (Text × ℕ)) : Type 0 where
  pub ascii : (c : ℕ) (n : Text) → name c ≡ some n → is_ascii n ≡ true
  pub owner : (n : Text) (c : ℕ) → lookup n by_name ≡ some c → name c ≡ some n
  pub unique : Unique by_name

-- The set holds the clients that are not dead, within both limits.
pub record ClientsOk (dead : ℕ → Bool) (clients : List ℕ) (ip : ℕ → ℕ) : Type 0 where
  pub active : (c : ℕ) → contains clients c ≡ not (dead c)
  pub once : AllDistinct clients
  pub capacity : length clients ≤ max_clients
  pub per_ip : (a : ℕ) → count_ip a ip clients ≤ max_connections_per_ip

-- Nothing is known of a client that has not connected yet.
pub record UnusedOk (dead : ℕ → Bool) (room : ℕ → Option ℕ) (name : ℕ → Option Text)
    (next_client : ℕ) : Type 0 where
  pub no_life : (c : ℕ) → next_client ≤ c → dead c ≡ true
  pub no_room : (c : ℕ) → next_client ≤ c → room c ≡ none
  pub no_name : (c : ℕ) → next_client ≤ c → name c ≡ none

abbrev pub BacklogOk : (ℕ → Bytes) → Type 0
BacklogOk tx = (c : ℕ) → length (tx c) ≤ max_tx_backlog

abbrev pub CrcOk : (ℕ → List (ℕ × List (ℕ × ℕ))) → Type 0
CrcOk crc = (r : ℕ) → length (crc r) ≤ 64

-- What was last published is the number of names.
abbrev pub LobbyOk : Option Publisher → List (Text × ℕ) → Type 0
LobbyOk none by_name = Unit
LobbyOk (some p) by_name = p.stopping ≡ false → p.curplayers ≡ length by_name

pub record Inv (w : World) : Type 0 where
  pub rooms : RoomsOk w.room w.members w.name w.next_room
  pub names : NamesOk w.name w.by_name
  pub clients : ClientsOk w.dead w.clients w.ip
  pub unused : UnusedOk w.dead w.room w.name w.next_client
  pub backlog : BacklogOk w.tx
  pub crc : CrcOk w.crc
  pub lobby : LobbyOk w.lobby w.by_name
