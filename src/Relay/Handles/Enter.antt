-- ===== src/Relay/Handles/Enter.antt =====
-- A room is opened, and a client enters it.
use fujinet_intv_golf.Base.{
  ℕ, suc, ◌<◌, ◌≡◌, refl, true, false, [], ◌∷◌, none, some, arith, ==-eq, ==-self, length,
  length-append, contains, contains-concat, concat-AllDistinct,
}
use fujinet_intv_golf.Wire.{max_seats}
use fujinet_intv_golf.Relay.World.{World}
use fujinet_intv_golf.Relay.Handlers.{is_some, open_room, enter}
use fujinet_intv_golf.Relay.Invariant.{RoomsOk, Inv}
use fujinet_intv_golf.Relay.Settles.Rooms.{AllIn}
use fujinet_intv_golf.Relay.Handles.{Kept}

module _ (w : World) (t : ℕ) (v : Inv w) where
  -- The members of a room that is somebody's are on the books already.
  pub room-lt-next : (c r : ℕ) → w.room c ≡ some r → r < w.next_room
  room-lt-next c r e = ground (arith, v.rooms.joined c r e, v.rooms.unused r)

  open_room-RoomsOk :
      w.room t ≡ none
      → is_some (w.name t) ≡ true
      → RoomsOk (open_room t w).room (open_room t w).members w.name (suc w.next_room)
  open_room-RoomsOk alone has = record {
    joined = λ d s f. ground (arith, v.rooms.joined d s, room-lt-next d s, ==-eq d t);
    loyal = λ d g s f h.
        ground
          (arith, v.rooms.loyal d g s, room-lt-next d s, ==-eq d t, ==-eq g t, v.rooms.joined d s);
    distinct = λ s. ground (arith, v.rooms.distinct s);
    seats = λ s. ground (arith, v.rooms.seats s);
    named = λ d s h. ground (arith, v.rooms.named d s, ==-eq d t);
    unused = λ s h. ground (arith, v.rooms.unused s);
  }

  pub open_room-Inv :
      w.room t ≡ none → is_some (w.name t) ≡ true → t < w.next_client → Inv (open_room t w)
  open_room-Inv alone has known = record {
    rooms = open_room-RoomsOk alone has;
    names = v.names;
    clients = v.clients;
    unused = record {
      no_life = v.unused.no_life;
      no_room = λ d h. ground (arith, v.unused.no_room d h);
      no_name = v.unused.no_name;
    };
    backlog = v.backlog;
    crc = λ s. ground (arith, v.crc s);
    lobby = v.lobby;
  }

-- A client may enter a room when it is in none, the room is not full, and all it lists are in it.
pub record MayEnter (w : World) (c r : ℕ) : Type 0 where
  pub alone : w.room c ≡ none
  pub has : is_some (w.name c) ≡ true
  pub known : c < w.next_client
  pub all_in : AllIn w.room w.members r
  pub free_seat : length (w.members r) < max_seats
  pub old_room : r < w.next_room

module _ (w : World) (c r : ℕ) (v : Inv w) (m : MayEnter w c r) where
  not_in : contains (w.members r) c ≡ false
  not_in = ground (arith, m.all_in c, m.alone)

  enter-RoomsOk : RoomsOk (enter c r w).room (enter c r w).members w.name w.next_room
  enter-RoomsOk = record {
    joined = λ d s f.
        ground (arith, v.rooms.joined d s, contains-concat d c (w.members r), ==-eq d c, ==-self s);
    loyal = λ d g s f h. ground (
      arith,
      v.rooms.loyal d g s,
      contains-concat g c (w.members r),
      m.all_in g,
      ==-eq g c,
      ==-eq s r,
      v.rooms.joined d s,
    );
    distinct = λ s.
        ground (
          arith,
          v.rooms.distinct s,
          concat-AllDistinct c (w.members r) not_in (v.rooms.distinct r),
        );
    seats = λ s. ground (arith, v.rooms.seats s, m.free_seat, length-append (w.members r) (c ∷ []));
    named = λ d s h. ground (
      arith,
      v.rooms.named d s,
      v.rooms.named d r,
      contains-concat d c (w.members r),
      ==-eq d c,
      m.has,
    );
    unused = λ s h. ground (arith, v.rooms.unused s h, m.old_room);
  }

  pub enter-Inv : Inv (enter c r w)
  enter-Inv = record {
    rooms = enter-RoomsOk;
    names = v.names;
    clients = v.clients;
    unused = record {
      no_life = v.unused.no_life;
      no_room = λ d h. ground (arith, v.unused.no_room d h, m.known);
      no_name = v.unused.no_name;
    };
    backlog = v.backlog;
    crc = v.crc;
    lobby = v.lobby;
  }

  pub enter-Kept : Kept w (enter c r w)
  enter-Kept = record { same_rx = refl; same_next = refl; same_delay = refl }
