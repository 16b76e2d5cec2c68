-- ===== src/Relay/Settles/Leaving.antt =====
-- A client leaves the books, and its room.
use fujinet_intv_golf.Base.{
  ℕ, ◌≡◌, refl, Option, none, some, arith, ==-self, ==-eq, update, erase, length-erase-le,
  contains_of-erase, contains-erase_self,
}
use fujinet_intv_golf.Relay.World.{World, Publisher}
use fujinet_intv_golf.Relay.Output.{forget, lobby_update}
use fujinet_intv_golf.Relay.Invariant.{LobbyOk, Inv, Evolves, UnusedOk}
use fujinet_intv_golf.Relay.Settles.{Settles}
use fujinet_intv_golf.Relay.Settles.Steps.{
  publish-LobbyOk, forget-ClientsOk, forget-NamesOk, forget-UnusedOk,
}
use fujinet_intv_golf.Relay.Settles.Rooms.{AllIn, leave-RoomsOk}

module _ (w : World) (c : ℕ) where
  pub forget-Inv :
      (lobby : Option Publisher)
      → Inv w
      → LobbyOk lobby (forget c w).by_name
      → Inv (record (forget c w) { lobby = lobby })
  forget-Inv lobby v h = record {
    rooms = v.rooms;
    names = forget-NamesOk c w.name w.by_name v.names;
    clients = forget-ClientsOk c w.dead w.clients w.ip v.clients;
    unused = forget-UnusedOk c w.dead w.room w.name w.next_client v.unused;
    backlog = v.backlog;
    crc = v.crc;
    lobby = h;
  }

  pub forget-Evolves :
      (lobby : Option Publisher) → Evolves w (record (forget c w) { lobby = lobby })
  forget-Evolves lobby = record {
    fewer = length-erase-le c w.clients;
    left = λ d s e. e;
    shrunk = λ s. omega arith;
    stayed = λ d s e. e;
    died = λ d e. ground arith;
    same_names = refl;
    same_rx = refl;
    same_delay = refl;
    same_next = refl;
  }

  abbrev pub gone : ℕ → World
  gone r = record w {
    room = update w.room c none;
    members = update w.members r (erase c (w.members r));
  }

  leave-UnusedOk :
      UnusedOk w.dead w.room w.name w.next_client
      → UnusedOk w.dead (update w.room c none) w.name w.next_client
  leave-UnusedOk u = record {
    no_life = u.no_life;
    no_room = λ d h. ground (arith, u.no_room d h);
    no_name = u.no_name;
  }

  pub leave-Inv : (r : ℕ) → Inv w → w.room c ≡ some r → Inv (gone r)
  leave-Inv r v e = record {
    rooms = leave-RoomsOk c r w.room w.members w.name w.next_room v.rooms e;
    names = v.names;
    clients = v.clients;
    unused = leave-UnusedOk v.unused;
    backlog = v.backlog;
    crc = v.crc;
    lobby = v.lobby;
  }

  pub leave-Evolves : (r : ℕ) → Evolves w (gone r)
  leave-Evolves r = record {
    fewer = omega arith;
    left = λ d s e. ground arith;
    shrunk = λ s. ground (arith, length-erase-le c (w.members r));
    stayed = λ d s e. ground (arith, contains_of-erase d c (w.members r));
    died = λ d e. e;
    same_names = refl;
    same_rx = refl;
    same_delay = refl;
    same_next = refl;
  }

  pub leave-AllIn : (r : ℕ) → Inv w → w.room c ≡ some r → AllIn (gone r).room (gone r).members r
  leave-AllIn r v e d h = ground (
    arith,
    ==-self r,
    v.rooms.loyal c d r e,
    contains_of-erase d c (w.members r),
    contains-erase_self c (w.members r) (v.rooms.distinct r),
    ==-eq d c,
  )

pub lobby_update-Settles : (w : World) → Inv w → Settles w (lobby_update w)
lobby_update-Settles w v = (
  record {
    rooms = v.rooms;
    names = v.names;
    clients = v.clients;
    unused = v.unused;
    backlog = v.backlog;
    crc = v.crc;
    lobby = publish-LobbyOk w.lobby w.by_name;
  },
  record {
    fewer = omega arith;
    left = λ d s e. e;
    shrunk = λ s. omega arith;
    stayed = λ d s e. e;
    died = λ d e. e;
    same_names = refl;
    same_rx = refl;
    same_delay = refl;
    same_next = refl;
  },
)
