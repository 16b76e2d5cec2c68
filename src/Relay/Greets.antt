-- ===== src/Relay/Greets.antt =====
-- What a HELLO does, while the network keeps up: `on_hello` past its guards.

use fujinet_intv_golf.Base.{
  ℕ, ◌≤◌, ◌<◌, ◌≡◌, refl, sym, ap, ap₂, ◌∙◌, subst, some_inj, Bool, true, false, List, [], ◌++◌,
  Option, none, some, arith, leb, ◌==◌, ==-eq, ==-self, same_self, length, drop, append_nil,
  is_empty, keep_if, contains, contains_of-erase, index_of?_lem, Bool-cases, Option-cases, inl, inr,
}
use fujinet_intv_golf.Base.Assoc.{lookup, lookup-insert}
use fujinet_intv_golf.Wire.{Bytes, Text, is_valid_name, proto_ver}
use fujinet_intv_golf.Relay.Outcome.{Ends, Ends-and_then, Ends-both, Ends-weaken}
use fujinet_intv_golf.Relay.World.{World, Os, Publisher}
use fujinet_intv_golf.Relay.Output.{forget, drop_body, drop_within, drop_client, leave_if}
use fujinet_intv_golf.Relay.Crc.{byte_at}
use fujinet_intv_golf.Relay.Handlers.{replace_old, stale_alias, on_hello, on_list, wire_name}
use fujinet_intv_golf.Relay.Handles.Hello.{renamed, rename-Inv, is_valid_name-is_ascii}
use fujinet_intv_golf.Relay.Invariant.{Inv, Evolves, Evolves-refl}
use fujinet_intv_golf.Relay.Settles.Drop.{drop_client-Drops}
use fujinet_intv_golf.Relay.Delivery.{KeepsUp, Told}
use fujinet_intv_golf.Relay.Telling.{AllReady}
use fujinet_intv_golf.Relay.Announce.{Told-Inv}
use fujinet_intv_golf.Relay.Listing.{lobby_frame, lobby_frame-same, on_list-Told}
use fujinet_intv_golf.Relay.Leaves.Drops.{Left, drop_client-Left}

-- The client is still there: nothing of its is waiting, and it may have been sent something.
record StillThere (c : ℕ) (w u : World) : Type 0 where
  alive : u.dead c ≡ false
  idle : u.tx c ≡ []
  more : (bytes : Bytes) × (u.wire c ≡ w.wire c ++ bytes)

-- After a holder of the name, if there is one, has been dropped.
record Evicted (c : ℕ) (o : Option ℕ) (w u : World) : Type 0 where
  inv : Inv u
  evolves : Evolves w u
  there : StillThere c w u
  evicted : (old : ℕ) → o ≡ some old → (old == c) ≡ false → u.dead old ≡ true

StillThere-refl : (c : ℕ) (w : World) → w.dead c ≡ false → w.tx c ≡ [] → StillThere c w w
StillThere-refl c w alive idle = record {
  alive = alive;
  idle = idle;
  more = ([], append_nil (w.wire c));
}

Left-StillThere :
    (c old r : ℕ) (stay : List ℕ) (over : Bool) (bytes : Bytes) (w u : World)
    → (old == c) ≡ false
    → w.dead c ≡ false
    → w.tx c ≡ []
    → Left w u old r stay over bytes
    → StillThere c w u
Left-StillThere c old r stay over bytes w u other alive idle h = record {
  alive = ground (arith, h.deaths c, other, ==-eq c old, ==-self old);
  idle = h.queues c ∙ idle;
  more = elim (Bool-cases (contains stay c)) [
    | inl e ↦ (bytes, h.frames c ∙ rw e refl)
    | inr e ↦ ([], (h.frames c ∙ rw e refl) ∙ append_nil (w.wire c))
  ];
}

module _ (os : Os) (up : KeepsUp os) (c : ℕ) (w : World) (v : Inv w) (alive : w.dead c ≡ false)
    (idle : w.tx c ≡ []) where
  forgotten :
      (lobby : Option Publisher) (old : ℕ)
      → (old == c) ≡ false
      → StillThere c w (record (forget old w) { lobby = lobby })
  forgotten lobby old other = record {
    alive = ground (arith, other, ==-eq c old, ==-self old, alive);
    idle = idle;
    more = ([], append_nil (w.wire c));
  }

  drop_old-StillThere :
      (old : ℕ)
      → (old == c) ≡ false
      → ((r : ℕ) → w.room old ≡ some r → AllReady w (w.members r))
      → Ends (drop_client os old w) (λ _ u. StillThere c w u) (λ _ _. ⊥)
  unfolding drop_client drop_within drop_body leave_if
  drop_old-StillThere old other ready = elim (Bool-cases (w.dead old)) [
    | inl e ↦ rw e (StillThere-refl c w alive idle)
    | inr e ↦ elim (Option-cases (w.room old)) [
      | inl f ↦
          rw e (elim (Bool-cases (is_empty (keep_if (λ (e : Text × ℕ). e.1 == old) w.by_name))) [
            | inl g ↦ rw (g, f) (forgotten w.lobby old other)
            | inr g ↦ rw (g, f) (forgotten _ old other)
          ])
      | inr (r, f) ↦
          let (seat, _, _, sits) = index_of?_lem old (w.members r) (v.rooms.joined old r f) in
          Ends-weaken (drop_client os old w) _ _ (λ _ _. ⊥) _
            (drop_client-Left os up old r seat w v e f sits
              (λ m h. ready r f m (contains_of-erase m old (w.members r) h)))
            (λ _ x q. Left-StillThere c old r _ _ _ w x other alive idle q) (λ _ _ q. q)
    ]
  ]

  replace_old-Evicted :
      (o : Option ℕ)
      → ((old r : ℕ) → o ≡ some old → w.room old ≡ some r → AllReady w (w.members r))
      → Ends (replace_old os c o w) (λ _ u. Evicted c o w u) (λ _ _. ⊥)
  unfolding replace_old
  replace_old-Evicted none ready = record {
    inv = v;
    evolves = Evolves-refl w;
    there = StillThere-refl c w alive idle;
    evicted = λ old e. cc;
  }
  replace_old-Evicted (some old) ready = elim (Bool-cases (old == c)) [
    | inl e ↦ rw e (record {
      inv = v;
      evolves = Evolves-refl w;
      there = StillThere-refl c w alive idle;
      evicted = λ x f n. absurd (ground (arith, some_inj f));
    })
    | inr e ↦ rw e (
        Ends-weaken (drop_client os old w) _ _ (λ _ _. ⊥ × ⊥) _
          (Ends-both (drop_client os old w) _ _ _ _ (drop_client-Drops os old w v)
            (drop_old-StillThere old e (λ r. ready old r refl)))
          (λ _ u q. record {
            inv = q.0.0;
            evolves = q.0.1;
            there = q.1;
            evicted = λ x f n. subst (λ y. u.dead y ≡ true) (some_inj f) q.0.2;
          })
          (λ _ _ q. q.0))
  ]

-- The client goes by the name.
pub record Named (w x : World) (c : ℕ) (n : Text) : Type 0 where
  pub named : x.name c ≡ some n
  pub found : lookup n x.by_name ≡ some c
  pub only : (k : Text) → lookup k x.by_name ≡ some c → k ≡ n
  pub evicted : (old : ℕ) → lookup n w.by_name ≡ some old → (old == c) ≡ false → x.dead old ≡ true
  pub answer : (bytes : Bytes) × (x.wire c ≡ (w.wire c ++ bytes) ++ lobby_frame c x)

Told-Named :
    (w u x : World) (c : ℕ) (n : Text)
    → Evicted c (lookup n w.by_name) w u
    → Inv (renamed u c n)
    → Told (renamed u c n) x (λ m. m == c) (λ _. lobby_frame c (renamed u c n))
    → Named w x c n
Told-Named w u x c n ev v h =
    let vx = Told-Inv (renamed u c n) x _ _ h v in
    let mine : x.name c ≡ some n = ap (λ (k : World). k.name c) h.same ∙ rw (==-self c) refl in
    record {
      named = mine;
      found =
          ap (λ (k : World). lookup n k.by_name) h.same
          ∙ (lookup-insert n n c (stale_alias c n u) ∙ rw (same_self n) refl);
      only = λ k e. some_inj (sym (vx.names.owner k c e) ∙ mine);
      evicted = λ old e f. ap (λ (k : World). k.dead old) h.same ∙ ev.evicted old e f;
      answer = (
        ev.there.more.0,
        h.wires c
            ∙ (rw (==-self c) refl
                ∙ ap₂ (λ a b. a ++ b) ev.there.more.1
                    (sym (lobby_frame-same c x (renamed u c n) h.same))),
      );
    }

-- HELLO with protocol version 2 and a valid name, while the system takes what it is given, in a
-- state that satisfies `Inv`, from a known client that is not dead and has no output waiting, as
-- holds of the members of the room of whoever has the name. Then the client goes by the name: the
-- name leads to it, and no other name does; another client that had the name is dead; and the last
-- thing that the client is sent is the LOBBY frame, of the state that the server is in then.
pub on_hello-Named :
    (os : Os) (up : KeepsUp os) (c : ℕ) (payload : Bytes) (w : World)
    → Inv w
    → c < w.next_client
    → w.dead c ≡ false
    → w.tx c ≡ []
    → 3 ≤ length payload
    → byte_at 0 payload ≡ 2
    → is_valid_name (wire_name (drop 1 payload)) ≡ true
    → ((old r : ℕ)
        → lookup (wire_name (drop 1 payload)) w.by_name ≡ some old
        → w.room old ≡ some r
        → AllReady w (w.members r))
    → Ends (on_hello os c payload w) (λ _ x. Named w x c (wire_name (drop 1 payload))) (λ _ _. ⊥)
unfolding on_hello
on_hello-Named os up c payload w v known alive idle long version valid ready =
    let spoken : (byte_at 0 payload == proto_ver) ≡ true = rw version refl in
    let enough : leb 3 (length payload) ≡ true = ground arith in
    rw enough (
      rw spoken (
        rw valid (
          Ends-and_then (replace_old os c (lookup name w.by_name) w) _
            (λ _ u. Evicted c (lookup name w.by_name) w u) _ _
            (replace_old-Evicted os up c w v alive idle (lookup name w.by_name) ready)
            (λ _ u ev.
              Ends-weaken (on_list os c (renamed u c name)) _ _ (λ _ _. ⊥) _
                (on_list-Told os up c (renamed u c name) (spoken_for u ev)
                  (ev.there.alive, ev.there.idle))
                (λ _ x q. Told-Named w u x c name ev (spoken_for u ev) q) (λ _ _ q. q)))))
  where
    name : Text
    name = wire_name (drop 1 payload)

    spoken_for : (u : World) → Evicted c (lookup name w.by_name) w u → Inv (renamed u c name)
    spoken_for u ev =
        rename-Inv u c name ev.inv (is_valid_name-is_ascii name valid)
          (omega (arith, ev.evolves.same_next))
