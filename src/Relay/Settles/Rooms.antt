-- ===== src/Relay/Settles/Rooms.antt =====
-- Clients leave rooms, and rooms are emptied.

use fujinet_intv_golf.Base.{
  ℕ, ◌≡◌, ◌≢◌, refl, subst, Bool, true, List, [], Option, none, some, arith, inl, inr, Bool-cases,
  ◌==◌, update, contains, erase, contains-erase_ne, contains-erase_self, erase-AllDistinct,
  contains_of-erase, length-erase-le, ==-eq,
}
use fujinet_intv_golf.Wire.{Text}
use fujinet_intv_golf.Relay.World.{World}
use fujinet_intv_golf.Relay.Output.{leave_all}
use fujinet_intv_golf.Relay.Invariant.{RoomsOk, UnusedOk, Inv, Evolves}

-- Out of a room: one client, with its entry in the list.
pub leave-RoomsOk :
    (c r : ℕ) (room : ℕ → Option ℕ) (members : ℕ → List ℕ) (name : ℕ → Option Text) (next : ℕ)
    → RoomsOk room members name next
    → room c ≡ some r
    → RoomsOk (update room c none) (update members r (erase c (members r))) name next
leave-RoomsOk c r room members name next v e = record {
  joined = λ d s f. ground (arith, v.joined d s, contains-erase_ne d c (members r));
  loyal = λ d g s f h. ground (
    arith,
    v.loyal d g s,
    contains_of-erase g c (members r),
    contains-erase_self c (members r) (v.distinct r),
    ==-eq g c,
  );
  distinct = λ s. ground (arith, v.distinct s, erase-AllDistinct c (members r) (v.distinct r));
  seats = λ s. ground (arith, v.seats s, v.seats r, length-erase-le c (members r));
  named = λ d s h. ground (arith, v.named d s, v.named d r, contains_of-erase d c (members r));
  unused = λ s h. ground (arith, v.unused s h, v.unused r);
}

-- All that a room lists are in it.
abbrev pub AllIn : (ℕ → Option ℕ) → (ℕ → List ℕ) → ℕ → Type 0
AllIn room members r = (d : ℕ) → contains (members r) d ≡ true → room d ≡ some r

-- All of a room's members lose it.
pub leave_all-RoomsOk :
    (r : ℕ) (room : ℕ → Option ℕ) (members : ℕ → List ℕ) (name : ℕ → Option Text) (next : ℕ)
    → RoomsOk room members name next
    → AllIn room members r
    → RoomsOk (leave_all (members r) room) members name next
leave_all-RoomsOk r room members name next v all_in = record {
  joined = λ d s f. ground (arith, v.joined d s);
  loyal = λ d g s f h. ground (arith, v.loyal d g s, all_in g, v.joined d s);
  distinct = v.distinct;
  seats = v.seats;
  named = v.named;
  unused = v.unused;
}

-- A room that is nobody's may be emptied.
pub clear-RoomsOk :
    (r : ℕ) (room : ℕ → Option ℕ) (members : ℕ → List ℕ) (name : ℕ → Option Text) (next : ℕ)
    → RoomsOk room members name next
    → ((c : ℕ) → room c ≢ some r)
    → RoomsOk room (update members r []) name next
clear-RoomsOk r room members name next v free = record {
  joined = λ d s f. elim (Bool-cases (s == r)) [
    | inl e ↦ absurd (free d (subst (λ q. room d ≡ some q) (==-eq s r e) f))
    | inr e ↦ rw e (v.joined d s f)
  ];
  loyal = λ d g s f h. ground (arith, v.loyal d g s);
  distinct = λ s. ground (arith, v.distinct s);
  seats = λ s. ground (arith, v.seats s);
  named = λ d s h. ground (arith, v.named d s);
  unused = λ s h. ground (arith, v.unused s h);
}

pub leave_all-free :
    (r c : ℕ) (room : ℕ → Option ℕ) (members : ℕ → List ℕ) (name : ℕ → Option Text) (next : ℕ)
    → RoomsOk room members name next
    → leave_all (members r) room c ≢ some r
leave_all-free r c room members name next v e = ground (arith, v.joined c r)

pub leave_all-UnusedOk :
    (ms : List ℕ) (dead : ℕ → Bool) (room : ℕ → Option ℕ) (name : ℕ → Option Text) (next : ℕ)
    → UnusedOk dead room name next
    → UnusedOk dead (leave_all ms room) name next
leave_all-UnusedOk ms dead room name next v = record {
  no_life = v.no_life;
  no_room = λ d h. ground (arith, v.no_room d h);
  no_name = v.no_name;
}

pub leave_all-Inv :
    (w : World) (r : ℕ)
    → Inv w
    → AllIn w.room w.members r
    → Inv (record w { room = leave_all (w.members r) w.room })
leave_all-Inv w r v all_in = record {
  rooms = leave_all-RoomsOk r w.room w.members w.name w.next_room v.rooms all_in;
  names = v.names;
  clients = v.clients;
  unused = leave_all-UnusedOk (w.members r) w.dead w.room w.name w.next_client v.unused;
  backlog = v.backlog;
  crc = v.crc;
  lobby = v.lobby;
}

pub leave_all-Evolves :
    (w : World) (r : ℕ) → Evolves w (record w { room = leave_all (w.members r) w.room })
leave_all-Evolves w r = record {
  fewer = omega arith;
  left = λ c s e. ground arith;
  shrunk = λ s. omega arith;
  stayed = λ c s e. e;
  died = λ c e. e;
  same_names = refl;
  same_rx = refl;
  same_delay = refl;
  same_next = refl;
}

pub clear-Inv :
    (w : World) (r : ℕ)
    → Inv w
    → ((c : ℕ) → w.room c ≢ some r)
    → Inv (record w { members = update w.members r [] })
clear-Inv w r v free = record {
  rooms = clear-RoomsOk r w.room w.members w.name w.next_room v.rooms free;
  names = v.names;
  clients = v.clients;
  unused = v.unused;
  backlog = v.backlog;
  crc = v.crc;
  lobby = v.lobby;
}

pub clear-Evolves : (w : World) (r : ℕ) → Evolves w (record w { members = update w.members r [] })
clear-Evolves w r = record {
  fewer = omega arith;
  left = λ c s e. e;
  shrunk = λ s. ground arith;
  stayed = λ c s e. ground arith;
  died = λ c e. e;
  same_names = refl;
  same_rx = refl;
  same_delay = refl;
  same_next = refl;
}
