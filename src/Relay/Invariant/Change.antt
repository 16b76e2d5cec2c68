-- ===== src/Relay/Invariant/Change.antt =====
-- How far a call that sends or drops may change the server.
use fujinet_intv_golf.Base.{ℕ, ◌≤◌, ◌≡◌, refl, ◌∙◌, true, some, length, contains, arith}
use fujinet_intv_golf.Relay.World.{World}

-- Clients leave and die, rooms lose members, and nobody is renamed.
pub record Evolves (w w' : World) : Type 0 where
  pub fewer : length w'.clients ≤ length w.clients
  pub left : (c r : ℕ) → w'.room c ≡ some r → w.room c ≡ some r
  pub shrunk : (r : ℕ) → length (w'.members r) ≤ length (w.members r)
  pub stayed : (c r : ℕ) → contains (w'.members r) c ≡ true → contains (w.members r) c ≡ true
  pub died : (c : ℕ) → w.dead c ≡ true → w'.dead c ≡ true
  pub same_names : w'.name ≡ w.name
  pub same_rx : w'.rx ≡ w.rx
  pub same_delay : w'.delay ≡ w.delay
  pub same_next : w'.next_client ≡ w.next_client

pub Evolves-refl : (w : World) → Evolves w w
Evolves-refl w = record {
  fewer = omega arith;
  left = λ c r e. e;
  shrunk = λ r. omega arith;
  stayed = λ c r e. e;
  died = λ c e. e;
  same_names = refl;
  same_rx = refl;
  same_delay = refl;
  same_next = refl;
}

pub Evolves-trans : (u v w : World) → Evolves u v → Evolves v w → Evolves u w
Evolves-trans u v w p q = record {
  fewer = omega arith;
  left = λ c r e. p.left c r (q.left c r e);
  shrunk = λ r. omega (arith, p.shrunk r, q.shrunk r);
  stayed = λ c r e. p.stayed c r (q.stayed c r e);
  died = λ c e. q.died c (p.died c e);
  same_names = q.same_names ∙ p.same_names;
  same_rx = q.same_rx ∙ p.same_rx;
  same_delay = q.same_delay ∙ p.same_delay;
  same_next = q.same_next ∙ p.same_next;
}
