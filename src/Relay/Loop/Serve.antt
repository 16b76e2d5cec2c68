-- ===== src/Relay/Loop/Serve.antt =====
-- `service`: the loop over the frames in a client's buffer.
use fujinet_intv_golf.Base.{
  ℕ, zero, suc, ◌+◌, ◌≤◌, ◌<◌, ◌≡◌, ◌⊎◌, refl, ap, Bool, true, false, ◌||◌, [], ◌∷◌, ◌++◌, arith,
  ltb, if◌then◌else◌, update, length, take, drop, length-take, length-drop, ==-self, Bool-cases,
  inl, inr,
}
use fujinet_intv_golf.Wire.{Bytes}
use fujinet_intv_golf.Relay.Outcome.{
  protocol_error, attribute_error, unicode_error, value_error, assertion_error, os_error, Outcome,
  returned, raised, out_of_fuel, and_then, Ends,
}
use fujinet_intv_golf.Relay.World.{World, Os, M, pure, skip, ◌>>◌}
use fujinet_intv_golf.Relay.Output.{drop_client}
use fujinet_intv_golf.Relay.Crc.{byte_at}
use fujinet_intv_golf.Relay.Handlers.{handle}
use fujinet_intv_golf.Relay.Service.{
  attempt, verdict, RecvResult, received, recv_would_block, recv_error, serve_frame, serve_from,
  serve, service,
}
use fujinet_intv_golf.Relay.Invariant.{Inv}
use fujinet_intv_golf.Relay.Settles.{Settles}
use fujinet_intv_golf.Relay.Settles.Drop.{drop_client-Settles}
use fujinet_intv_golf.Relay.Handles.{Kept, Kept-trans, Evolves-Kept, Handles, SeedsOk}
use fujinet_intv_golf.Relay.Handles.Dispatch.{handle-Handles}
use fujinet_intv_golf.Relay.Loop.{Runs, Runs-of-Settles, Runs-from}

rx-Inv : (w : World) (rx : ℕ → Bytes) → Inv w → Inv (record w { rx = rx })
rx-Inv w rx v = record {
  rooms = v.rooms;
  names = v.names;
  clients = v.clients;
  unused = v.unused;
  backlog = v.backlog;
  crc = v.crc;
  lobby = v.lobby;
}

List-cases : (l : Bytes) → (l ≡ []) ⊎ ((b : ℕ) × (bs : Bytes) × (l ≡ b ∷ bs))
List-cases [] = inl refl
List-cases (b ∷ bs) = inr (b, bs, refl)

-- A frame has been handled: the buffers are as they were before.
abbrev Served : {A : Type 0} → World → Outcome World A → Type 0
Served w o = Ends o (λ _ w'. Inv w' × Kept w w') (λ _ _. ⊥)

module _ (os : Os) (seeds : SeedsOk os) where
  refused : (c : ℕ) (w u : World) → Kept w u → Inv u → Served w ((drop_client os c >> pure false) u)
  refused c w u k v = go (drop_client os c u) (drop_client-Settles os c u v)
    where
      go : (o : Outcome World (Unit {0})) → Settles u o → Served w (and_then o (λ _. pure false))
      go (returned _ x) h = (h.0, Kept-trans w u x k (Evolves-Kept u x h.1))
      go (raised e x) h = h
      go out_of_fuel h = h

  verdict-Served :
      (c : ℕ) (w : World) (o : Outcome World (Unit {0}))
      → Handles w o
      → Served w (and_then (attempt (λ _. o) w) (verdict os c))
  verdict-Served c w (returned _ u) h = h
  verdict-Served c w (raised (protocol_error r) u) h = refused c w u h.2 h.1
  verdict-Served c w (raised attribute_error u) h = h.0
  verdict-Served c w (raised unicode_error u) h = h.0
  verdict-Served c w (raised value_error u) h = h.0
  verdict-Served c w (raised assertion_error u) h = h.0
  verdict-Served c w (raised os_error u) h = h.0
  verdict-Served c w out_of_fuel h = h

  serve_frame-Served :
      (c : ℕ) (body : Bytes) (w : World)
      → w.delay < 256
      → Inv w
      → c < w.next_client
      → length body ≤ 255
      → Served w (serve_frame os c body w)
  unfolding serve_frame
  serve_frame-Served c body w d v known l =
      verdict-Served c w (handle os c (byte_at 0 body) (drop 1 body) w) (
        handle-Handles os c (byte_at 0 body) (drop 1 body) w seeds d v known
          (omega (arith, length-drop 1 body)))

  Served-then :
      (u : World) (o : Outcome World Bool) (again : M (Unit {0}))
      → Served u o
      → ((x : World) → Inv x → Kept u x → Runs x (again x))
      → Runs u (and_then o (λ more. if more then again else skip))
  Served-then u (returned true x) again h k = Runs-from u x _ h.1.same_delay (k x h.0 h.1)
  Served-then u (returned false x) again h k = (h.0, h.1.same_delay)
  Served-then u (raised e x) again h k = h
  Served-then u out_of_fuel again h k = h

  -- The bytes of a buffer that come before the next frame are gone for good, so the loop ends.
  serve_from-Runs :
      (n c : ℕ) (w : World)
      → w.delay < 256
      → Inv w
      → c < w.next_client
      → length (w.rx c) < n
      → Runs w (serve_from os n c w)
  unfolding serve_from
  serve_from-Runs zero c w d v known fits = absurd (omega arith)
  serve_from-Runs (suc n) c w d v known fits = elim (List-cases (w.rx c)) [
    | inl e ↦ rw e (v, refl)
    | inr (len, rest, e) ↦ rw e (elim (Bool-cases (ltb (len + 1) 2 || ltb 200 len)) [
      | inl f ↦ rw f (Runs-of-Settles w _ (drop_client-Settles os c w v))
      | inr f ↦ rw f (elim (Bool-cases (ltb (length rest) len)) [
        | inl g ↦ rw g (v, refl)
        | inr g ↦ rw g (
            Served-then (record w { rx = update w.rx c (drop len rest) }) _ (serve_from os n c)
              (serve_frame-Served c (take len rest) _ d (rx-Inv w _ v) known
                (ground (arith, length-take len rest)))
              λ x vx k.
                serve_from-Runs n c x (omega (arith, k.same_delay)) vx (omega (arith, k.same_next))
                  (ground (
                    arith,
                    ap length e,
                    length-drop len rest,
                    ==-self c,
                    k.same_rx,
                    ap (λ (t : ℕ → Bytes). length (t c)) k.same_rx,
                  )))
      ])
    ])
  ]

  serve-Runs :
      (c : ℕ) (w : World) → w.delay < 256 → Inv w → c < w.next_client → Runs w (serve os c w)
  unfolding serve
  serve-Runs c w d v known = serve_from-Runs (suc (length (w.rx c))) c w d v known (omega arith)

  -- `service`, for a client that has connected, in a state that satisfies `Inv`, with a start
  -- delay below 256 and 16-bit seeds: whatever `recv` does, and whatever the bytes are, it
  -- returns, raises nothing, and keeps `Inv` and the delay.
  pub service-Runs :
      (c : ℕ) (result : RecvResult) (w : World)
      → w.delay < 256
      → Inv w
      → c < w.next_client
      → Runs w (service os c result w)
  unfolding service
  service-Runs c recv_would_block w d v known = (v, refl)
  service-Runs c recv_error w d v known = Runs-of-Settles w _ (drop_client-Settles os c w v)
  service-Runs c (received []) w d v known = Runs-of-Settles w _ (drop_client-Settles os c w v)
  service-Runs c (received (b ∷ bs)) w d v known =
      Runs-from w filled (serve os c filled) refl
        (serve-Runs c filled d (rx-Inv w filled.rx v) known)
    where
      filled : World
      filled = record w { rx = update w.rx c (w.rx c ++ (b ∷ bs)) }
