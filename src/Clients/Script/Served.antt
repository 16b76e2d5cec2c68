-- ===== src/Clients/Script/Served.antt =====
-- Any script is served to its end.
use fujinet_intv_golf.Base.{
  ℕ, suc, ◌<◌, ◌≡◌, refl, Bool, ◌&&◌, true, false, List, [], ◌∷◌, map, Option, none, some, arith,
  same, Bool-cases, inl, inr,
}
use fujinet_intv_golf.Wire.{Bytes, Text}
use fujinet_intv_golf.Relay.World.{World, Os}
use fujinet_intv_golf.Relay.Service.{connection, step}
use fujinet_intv_golf.Relay.Invariant.{Inv}
use fujinet_intv_golf.Relay.Handles.{SeedsOk}
use fujinet_intv_golf.Relay.Loop.{Runs, Runs-and_then}
use fujinet_intv_golf.Relay.Loop.Run.{step-Runs}
use fujinet_intv_golf.Clients.Script.{
  Command, connects, sends, closes, syncs, Peer, deliver, send_as, close_as, drain_peer, play,
}

-- The frames of a script can be built.
abbrev is_sendable : Command → Bool
is_sendable (sends label none) = false
is_sendable _ = true

abbrev pub all_sendable : List Command → Bool
all_sendable [] = true
all_sendable (a ∷ acts) = is_sendable a && all_sendable acts

module _ (os : Os) (seeds : SeedsOk os) where
  deliver-Runs :
      (o : Option ℕ) (bytes : Bytes) (w : World)
      → w.delay < 256
      → Inv w
      → Runs w (deliver os o bytes w)
  unfolding deliver
  deliver-Runs none bytes w d v = (v, refl)
  deliver-Runs (some c) bytes w d v = step-Runs os seeds _ w tt d v

  send_as-Runs :
      (label : Text) (bytes : Bytes) (ps : List Peer) (w : World)
      → w.delay < 256
      → Inv w
      → Runs w (send_as os label bytes ps w)
  unfolding send_as
  send_as-Runs label bytes [] w d v = (v, refl)
  send_as-Runs label bytes (p ∷ ps) w d v = elim (Bool-cases (same p.label label)) [
    | inl e ↦ rw e (elim (Bool-cases p.is_open) [
      | inl f ↦ rw f (deliver-Runs p.number bytes w d v)
      | inr f ↦ rw f (v, refl)
    ])
    | inr e ↦ rw e (send_as-Runs label bytes ps w d v)
  ]

  -- Whatever a script of connections, sends, closes and syncs does, with frames that can be built,
  -- the server serves it to its end without an exception and without running out of fuel, for any
  -- answers of the sockets and 16-bit seeds, from any state that satisfies `Inv` with a delay below
  -- 256, and is again in such a state.
  pub play-Runs :
      (proto : ℕ) (acts : List Command) (ps : List Peer) (n : ℕ) (w : World)
      → all_sendable acts ≡ true
      → w.delay < 256
      → Inv w
      → Runs w (play os proto acts ps n w)
  unfolding play
  play-Runs proto [] ps n w s d v = (v, refl)
  play-Runs proto (connects label ∷ acts) ps n w s d v =
      Runs-and_then w (step os (connection 1 0) w) _ (step-Runs os seeds (connection 1 0) w tt d v)
        (λ _ u vu e. play-Runs proto acts _ n u s (omega (arith, e)) vu)
  play-Runs proto (sends label none ∷ acts) ps n w s d v = absurd (cc)
  play-Runs proto (sends label (some bytes) ∷ acts) ps n w s d v =
      Runs-and_then w (send_as os label bytes ps w) _ (send_as-Runs label bytes ps w d v)
        (λ _ u vu e. play-Runs proto acts ps n u s (omega (arith, e)) vu)
  play-Runs proto (closes label ∷ acts) ps n w s d v =
      Runs-and_then w (send_as os label [] ps w) _ (send_as-Runs label [] ps w d v)
        (λ _ u vu e. play-Runs proto acts (close_as label ps) n u s (omega (arith, e)) vu)
  play-Runs proto (syncs what ∷ acts) ps n w s d v =
      Runs-and_then w (play os proto acts (map (λ p. drain_peer p w) ps) (suc n) w) _
        (play-Runs proto acts (map (λ p. drain_peer p w) ps) (suc n) w s d v)
        (λ _ u vu e. (vu, refl))
