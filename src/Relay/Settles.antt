-- ===== src/Relay/Settles.antt =====
-- About the calls that send or drop: `Settles` is total correctness, with the invariant kept and
-- the server changed no further than `Evolves` says.
pub mod Rooms
pub mod Steps
pub mod Send
pub mod Leaving
pub mod Drop
use fujinet_intv_golf.Base.{
  ℕ, zero, suc, ◌+◌, ◌≤◌, ◌<◌, ◌≡◌, refl, Bool, true, false, List, [], ◌∷◌, Option, none, some,
  arith, inl, inr, Option-cases, if◌then◌else◌, length, get_elem?, get_elem?-ge, contains,
}
use fujinet_intv_golf.Relay.Outcome.{
  Exn, Outcome, returned, raised, out_of_fuel, and_then, Ends, Ends-and_then,
}
use fujinet_intv_golf.Relay.World.{World, M}
use fujinet_intv_golf.Relay.Output.{each_member, for_each}
use fujinet_intv_golf.Relay.Invariant.{Inv, Evolves, Evolves-refl, Evolves-trans}

abbrev pub Settles : {A : Type 0} → World → Outcome World A → Type 0
Settles w o = Ends o (λ _ w'. Inv w' × Evolves w w') (λ _ _. ⊥)

pub Settles-returned : {A : Type 0} (a : A) (w : World) → Inv w → Settles w (returned a w)
Settles-returned a w v = (v, Evolves-refl w)

-- A later part is judged from where the earlier part left the server.
pub Settles-from :
    {A : Type 0} (u v : World) (o : Outcome World A) → Evolves u v → Settles v o → Settles u o
Settles-from u v (returned a w) p h = (h.0, Evolves-trans u v w p h.1)
Settles-from u v (raised e w) p h = h
Settles-from u v out_of_fuel p h = h

pub Settles-and_then :
    {A : Type 0} {B : Type 0} (u : World) (o : Outcome World A) (f : A → World → Outcome World B)
    → Settles u o
    → ((a : A) (w : World) → Inv w → Evolves u w → Settles w (f a w))
    → Settles u (and_then o f)
Settles-and_then u (returned a w) f h k = Settles-from u w (f a w) h.1 (k a w h.0 h.1)
Settles-and_then u (raised e w) f h k = h
Settles-and_then u out_of_fuel f h k = h

-- `d` may be called while fewer than `k` clients are in the set.
abbrev pub Calm : ℕ → (ℕ → M (Unit {0})) → Type 0
Calm k d = (c : ℕ) (w : World) → Inv w → length w.clients < k → Settles w (d c w)

pub if-Settles :
    {A : Type 0} (b : Bool) (w : World) (m n : World → Outcome World A)
    → (b ≡ true → Settles w (m w))
    → (b ≡ false → Settles w (n w))
    → Settles w ((if b then m else n) w)
if-Settles true w m n h k = h refl
if-Settles false w m n h k = k refl

module _ (k : ℕ) where
  pub for_each-Settles :
      (body : ℕ → M (Unit {0})) (ms : List ℕ) (w : World)
      → Calm k body
      → Inv w
      → length w.clients < k
      → Settles w (for_each ms body w)
  unfolding for_each
  for_each-Settles body [] w h v lt = Settles-returned tt w v
  for_each-Settles body (m ∷ ms) w h v lt =
      Settles-and_then w (body m w) _ (h m w v lt)
        λ _ w' v' e. for_each-Settles body ms w' h v' (omega (arith, e.fewer))

  -- With more rounds than members left the loop over a room ends by itself.
  pub each_member-Settles :
      (body : ℕ → ℕ → M (Unit {0})) (n r i : ℕ) (w : World)
      → ((j m : ℕ) (u : World)
          → get_elem? (u.members r) j ≡ some m
          → Inv u
          → length u.clients < k
          → Settles u (body j m u))
      → Inv w
      → length w.clients < k
      → length (w.members r) ≤ n + i
      → Settles w (each_member (suc n) r i body w)
  unfolding each_member
  each_member-Settles body zero r i w h v lt room =
      rw (get_elem?-ge (w.members r) i (omega arith)) (Settles-returned tt w v)
  each_member-Settles body (suc n) r i w h v lt room =
      elim (Option-cases (get_elem? (w.members r) i)) [
        | inl e ↦ rw e (Settles-returned tt w v)
        | inr (m, e) ↦ rw e (
            Settles-and_then w (body i m w) _ (h i m w e v lt) λ _ w' v' g.
              each_member-Settles body n r (suc i) w' h v' (omega (arith, g.fewer))
                (omega (arith, g.shrunk r)))
      ]
