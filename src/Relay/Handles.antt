-- ===== src/Relay/Handles.antt =====
-- About the handlers: `Handles` is total correctness, up to a ProtocolError, with the invariant kept.
pub mod Lobby
pub mod Hello
pub mod Enter
pub mod Join
pub mod Start
pub mod Notes
pub mod Dispatch
use fujinet_intv_golf.Base.{ℕ, ◌<◌, ◌≡◌, refl, ◌∙◌, Bool, true, false, if◌then◌else◌}
use fujinet_intv_golf.Relay.Outcome.{
  Exn, protocol_error, Outcome, returned, raised, out_of_fuel, and_then, Ends,
}
use fujinet_intv_golf.Relay.World.{World, Os}
use fujinet_intv_golf.Relay.Invariant.{Inv, Evolves}
use fujinet_intv_golf.Relay.Settles.{Settles}

-- What no handler touches: the receive buffers, the configuration, and who has connected.
pub record Kept (w w' : World) : Type 0 where
  pub same_rx : w'.rx ≡ w.rx
  pub same_next : w'.next_client ≡ w.next_client
  pub same_delay : w'.delay ≡ w.delay

pub Kept-refl : (w : World) → Kept w w
Kept-refl w = record { same_rx = refl; same_next = refl; same_delay = refl }

pub Kept-trans : (u v w : World) → Kept u v → Kept v w → Kept u w
Kept-trans u v w p q = record {
  same_rx = q.same_rx ∙ p.same_rx;
  same_next = q.same_next ∙ p.same_next;
  same_delay = q.same_delay ∙ p.same_delay;
}

pub Evolves-Kept : (u v : World) → Evolves u v → Kept u v
Evolves-Kept u v e = record {
  same_rx = e.same_rx;
  same_next = e.same_next;
  same_delay = e.same_delay;
}

abbrev pub IsProtocolError : Exn → Type 0
IsProtocolError (protocol_error _) = Unit
IsProtocolError _ = ⊥

abbrev pub Handles : {A : Type 0} → World → Outcome World A → Type 0
Handles w o = Ends o (λ _ w'. Inv w' × Kept w w') (λ e w'. IsProtocolError e × Inv w' × Kept w w')

pub Handles-from :
    {A : Type 0} (u v : World) (o : Outcome World A) → Kept u v → Handles v o → Handles u o
Handles-from u v (returned a w) p h = (h.0, Kept-trans u v w p h.1)
Handles-from u v (raised e w) p h = (h.0, h.1, Kept-trans u v w p h.2)
Handles-from u v out_of_fuel p h = h

pub Handles-of-Settles : {A : Type 0} (u : World) (o : Outcome World A) → Settles u o → Handles u o
Handles-of-Settles u (returned a w) h = (h.0, Evolves-Kept u w h.1)
Handles-of-Settles u (raised e w) h = absurd h
Handles-of-Settles u out_of_fuel h = h

-- A part that settles, then the rest.
pub Settles-then :
    {A B : Type 0} (u : World) (o : Outcome World A) (f : A → World → Outcome World B)
    → Settles u o
    → ((a : A) (w : World) → Inv w → Evolves u w → Handles w (f a w))
    → Handles u (and_then o f)
Settles-then u (returned a w) f h k =
    Handles-from u w (f a w) (Evolves-Kept u w h.1) (k a w h.0 h.1)
Settles-then u (raised e w) f h k = absurd h
Settles-then u out_of_fuel f h k = h

pub if-Handles :
    {A : Type 0} (b : Bool) (w : World) (m n : World → Outcome World A)
    → (b ≡ true → Handles w (m w))
    → (b ≡ false → Handles w (n w))
    → Handles w ((if b then m else n) w)
if-Handles true w m n h k = h refl
if-Handles false w m n h k = k refl

-- The documented range of `random.randrange(1, 0x10000)`, as far as the server relies on it.
abbrev pub SeedsOk : Os → Type 0
SeedsOk os = (n : ℕ) → os.randrange n < 65536
