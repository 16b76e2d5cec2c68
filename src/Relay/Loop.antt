-- ===== src/Relay/Loop.antt =====
-- About the event loop: `accept`, `service` and `run`.
pub mod Accept
pub mod Serve
pub mod Run
use fujinet_intv_golf.Base.{ℕ, ◌≡◌, refl, ◌∙◌}
use fujinet_intv_golf.Relay.Outcome.{Outcome, returned, raised, out_of_fuel, and_then, Ends}
use fujinet_intv_golf.Relay.World.{World}
use fujinet_intv_golf.Relay.Invariant.{Inv}
use fujinet_intv_golf.Relay.Settles.{Settles}

-- The call returns, with the invariant and the configuration kept.
abbrev pub Runs : {A : Type 0} → World → Outcome World A → Type 0
Runs w o = Ends o (λ _ w'. Inv w' × (w'.delay ≡ w.delay)) (λ _ _. ⊥)

pub Runs-of-Settles : {A : Type 0} (w : World) (o : Outcome World A) → Settles w o → Runs w o
Runs-of-Settles w (returned a u) h = (h.0, h.1.same_delay)
Runs-of-Settles w (raised e u) h = h
Runs-of-Settles w out_of_fuel h = h

pub Runs-from :
    {A : Type 0} (w u : World) (o : Outcome World A) → u.delay ≡ w.delay → Runs u o → Runs w o
Runs-from w u (returned a x) e h = (h.0, h.1 ∙ e)
Runs-from w u (raised x y) e h = h
Runs-from w u out_of_fuel e h = h

pub Runs-and_then :
    {A B : Type 0} (w : World) (o : Outcome World A) (f : A → World → Outcome World B)
    → Runs w o
    → ((a : A) (u : World) → Inv u → u.delay ≡ w.delay → Runs u (f a u))
    → Runs w (and_then o f)
Runs-and_then w (returned a u) f h k = Runs-from w u (f a u) h.1 (k a u h.0 h.1)
Runs-and_then w (raised e u) f h k = h
Runs-and_then w out_of_fuel f h k = h
