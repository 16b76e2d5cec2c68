-- ===== src/Relay/Settles/Steps.antt =====
-- The assignments that `send`, `flush` and `drop` make, each on its own.
use mathlib.Core.Option
use fujinet_intv_golf.Base.{
  ℕ, ◌≤◌, refl, Bool, true, not, List, [], ◌∷◌, Option, none, some, arith, ◌==◌, update, length,
  keep_if, erase, contains-erase_ne, contains-erase_self, erase-AllDistinct, length-erase-le, ==-eq,
}
use fujinet_intv_golf.Base.Assoc.{lookup-keep_if, keep_if-Unique}
use fujinet_intv_golf.Wire.{Bytes, Text, max_tx_backlog}
use fujinet_intv_golf.Relay.World.{World, Publisher}
use fujinet_intv_golf.Relay.Output.{publish}
use fujinet_intv_golf.Relay.Service.{count_ip}
use fujinet_intv_golf.Relay.Invariant.{
  NamesOk, ClientsOk, UnusedOk, BacklogOk, LobbyOk, Inv, Evolves,
}

pub update-BacklogOk :
    (tx : ℕ → Bytes) (c : ℕ) (bytes : Bytes)
    → BacklogOk tx
    → length bytes ≤ max_tx_backlog
    → BacklogOk (update tx c bytes)
update-BacklogOk tx c bytes h fits d = ground (arith, h d)

-- The output side: the queues, the selector, the sockets and the counters of `stats`.
abbrev pub output : World → (ℕ → Bytes) → (ℕ → Bool) → (ℕ → Bytes) → ℕ → ℕ → ℕ → World
output w tx want_write wire sends drops timeouts = record w {
  tx = tx;
  want_write = want_write;
  wire = wire;
  sends = sends;
  tx_backlog_drops = drops;
  hello_timeouts = timeouts;
}

module _ (w : World) (tx : ℕ → Bytes) (want_write : ℕ → Bool) (wire : ℕ → Bytes)
    (sends drops timeouts : ℕ) where
  pub output-Inv : Inv w → BacklogOk tx → Inv (output w tx want_write wire sends drops timeouts)
  output-Inv v fits = record {
    rooms = v.rooms;
    names = v.names;
    clients = v.clients;
    unused = v.unused;
    backlog = fits;
    crc = v.crc;
    lobby = v.lobby;
  }

  pub output-Evolves : Evolves w (output w tx want_write wire sends drops timeouts)
  output-Evolves = record {
    fewer = omega arith;
    left = λ c r e. e;
    shrunk = λ r. omega arith;
    stayed = λ c r e. e;
    died = λ c e. e;
    same_names = refl;
    same_rx = refl;
    same_delay = refl;
    same_next = refl;
  }

-- Publishing makes the count right, whatever it was.
pub publish-LobbyOk :
    (o : Option Publisher) (by_name : List (Text × ℕ))
    → LobbyOk (Option.map (publish (length by_name)) o) by_name
publish-LobbyOk none by_name = tt
publish-LobbyOk (some p) by_name = λ h. ground arith

count_ip-erase-le :
    (a c : ℕ) (ip : ℕ → ℕ) (cs : List ℕ) → count_ip a ip (erase c cs) ≤ count_ip a ip cs
unfolding count_ip
count_ip-erase-le a c ip [] = omega arith
count_ip-erase-le a c ip (x ∷ xs) = ground (arith, count_ip-erase-le a c ip xs)

pub forget-ClientsOk :
    (c : ℕ) (dead : ℕ → Bool) (clients : List ℕ) (ip : ℕ → ℕ)
    → ClientsOk dead clients ip
    → ClientsOk (update dead c true) (erase c clients) ip
forget-ClientsOk c dead clients ip v = record {
  active = λ d. ground (
    arith,
    v.active d,
    contains-erase_ne d c clients,
    contains-erase_self c clients v.once,
    ==-eq d c,
  );
  once = erase-AllDistinct c clients v.once;
  capacity = omega (arith, length-erase-le c clients, v.capacity);
  per_ip = λ a. omega (arith, count_ip-erase-le a c ip clients, v.per_ip a);
}

pub forget-NamesOk :
    (c : ℕ) (name : ℕ → Option Text) (by_name : List (Text × ℕ))
    → NamesOk name by_name
    → NamesOk name (keep_if (λ e. not (e.1 == c)) by_name)
forget-NamesOk c name by_name v = record {
  ascii = v.ascii;
  owner = λ n d e. v.owner n d (lookup-keep_if _ n d by_name v.unique e);
  unique = keep_if-Unique _ by_name v.unique;
}

pub forget-UnusedOk :
    (c : ℕ) (dead : ℕ → Bool) (room : ℕ → Option ℕ) (name : ℕ → Option Text) (next : ℕ)
    → UnusedOk dead room name next
    → UnusedOk (update dead c true) room name next
forget-UnusedOk c dead room name next v = record {
  no_life = λ d h. ground (arith, v.no_life d h);
  no_room = v.no_room;
  no_name = v.no_name;
}
