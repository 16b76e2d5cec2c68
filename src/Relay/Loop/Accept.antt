-- ===== src/Relay/Loop/Accept.antt =====
-- `accept` and the limits on connections.
use fujinet_intv_golf.Base.{
  ℕ, suc, ◌<◌, ◌≡◌, refl, false, List, [], ◌∷◌, ◌++◌, arith, leb, ◌==◌, ==-eq, ==-self,
  if◌then◌else◌, update, length, length-append, contains, contains-concat, concat-AllDistinct,
  Bool-cases, inl, inr,
}
use fujinet_intv_golf.Wire.{max_clients, max_connections_per_ip}
use fujinet_intv_golf.Relay.Loop.{Runs}
use fujinet_intv_golf.Relay.World.{World}
use fujinet_intv_golf.Relay.Service.{count_ip, new_client, reject, accept}
use fujinet_intv_golf.Relay.Invariant.{RoomsOk, NamesOk, ClientsOk, UnusedOk, Inv}

count_ip-append :
    (a c : ℕ) (ip : ℕ → ℕ) (cs : List ℕ)
    → count_ip a ip (cs ++ c ∷ [])
      ≡ (if ip c == a then suc (count_ip a ip cs) else count_ip a ip cs)
unfolding count_ip
count_ip-append a c ip [] = refl
count_ip-append a c ip (x ∷ cs) = ground (arith, count_ip-append a c ip cs)

-- An address given to a client that is not in the list changes no count.
count_ip-update :
    (a b c : ℕ) (ip : ℕ → ℕ) (cs : List ℕ)
    → contains cs c ≡ false
    → count_ip a (update ip c b) cs ≡ count_ip a ip cs
unfolding count_ip
count_ip-update a b c ip [] h = refl
count_ip-update a b c ip (x ∷ cs) h =
    ground (arith, count_ip-update a b c ip cs, ==-eq c x, ==-eq x c)

module _ (w : World) (addr now : ℕ) (v : Inv w) where
  new_in : contains w.clients w.next_client ≡ false
  new_in = ground (arith, v.clients.active w.next_client, v.unused.no_life w.next_client)

  -- Nobody lists a client that has not connected.
  not_listed : (r : ℕ) → contains (w.members r) w.next_client ≡ false
  not_listed r = ground (arith, v.rooms.named w.next_client r, v.unused.no_name w.next_client)

  new_client-RoomsOk :
      RoomsOk (new_client addr now w).room w.members (new_client addr now w).name w.next_room
  new_client-RoomsOk = record {
    joined = λ d s f. ground (arith, v.rooms.joined d s);
    loyal = λ d g s f h. ground (arith, v.rooms.loyal d g s, not_listed s, ==-eq g w.next_client);
    distinct = v.rooms.distinct;
    seats = v.rooms.seats;
    named = λ d s h. ground (arith, v.rooms.named d s, not_listed s, ==-eq d w.next_client);
    unused = v.rooms.unused;
  }

  new_client-NamesOk : NamesOk (new_client addr now w).name w.by_name
  new_client-NamesOk = record {
    ascii = λ d n e. ground (arith, v.names.ascii d n);
    owner = λ n d e.
        ground (arith, v.names.owner n d, v.unused.no_name w.next_client, ==-eq d w.next_client);
    unique = v.names.unique;
  }

  new_client-ClientsOk :
      length w.clients < max_clients
      → count_ip addr w.ip w.clients < max_connections_per_ip
      → ClientsOk
          (new_client addr now w).dead
          (new_client addr now w).clients
          (new_client addr now w).ip
  new_client-ClientsOk room_left ip_left = record {
    active = λ d. ground (arith, v.clients.active d, contains-concat d w.next_client w.clients);
    once = concat-AllDistinct w.next_client w.clients new_in v.clients.once;
    capacity = ground (arith, length-append w.clients (w.next_client ∷ []));
    per_ip = λ a. ground (
      arith,
      count_ip-append a w.next_client (update w.ip w.next_client addr) w.clients,
      count_ip-update a addr w.next_client w.ip w.clients new_in,
      v.clients.per_ip a,
      ==-self w.next_client,
      ==-eq addr a,
    );
  }

  new_client-UnusedOk :
      UnusedOk
        (new_client addr now w).dead
        (new_client addr now w).room
        (new_client addr now w).name
        (suc w.next_client)
  new_client-UnusedOk = record {
    no_life = λ d h. ground (arith, v.unused.no_life d);
    no_room = λ d h. ground (arith, v.unused.no_room d);
    no_name = λ d h. ground (arith, v.unused.no_name d);
  }

  new_client-Inv :
      length w.clients < max_clients
      → count_ip addr w.ip w.clients < max_connections_per_ip
      → Inv (new_client addr now w)
  new_client-Inv room_left ip_left = record {
    rooms = new_client-RoomsOk;
    names = new_client-NamesOk;
    clients = new_client-ClientsOk room_left ip_left;
    unused = new_client-UnusedOk;
    backlog = λ d. ground (arith, v.backlog d);
    crc = v.crc;
    lobby = v.lobby;
  }

reject-Inv : (w : World) → Inv w → Inv (reject w)
reject-Inv w v = record {
  rooms = v.rooms;
  names = v.names;
  clients = v.clients;
  unused = v.unused;
  backlog = v.backlog;
  crc = v.crc;
  lobby = v.lobby;
}

-- `accept` of a connection from any address at any time keeps `Inv`, and so the limits on clients
-- in all and on clients of one address; it returns and keeps the delay.
pub accept-Runs : (addr now : ℕ) (w : World) → Inv w → Runs w (accept addr now w)
unfolding accept
accept-Runs addr now w v = elim (Bool-cases (leb max_clients (length w.clients))) [
  | inl e ↦ rw e (reject-Inv w v, refl)
  | inr e ↦ rw e (elim (Bool-cases (leb max_connections_per_ip (count_ip addr w.ip w.clients))) [
    | inl f ↦ rw f (reject-Inv w v, refl)
    | inr f ↦ rw f (new_client-Inv w addr now v (ground arith) (ground arith), refl)
  ])
]
