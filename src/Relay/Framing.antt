-- ===== src/Relay/Framing.antt =====
-- About `service`: how the stream is cut into frames, and into segments.
use mathlib.Core.List.{append_assoc}
use fujinet_intv_golf.Base.{
  ℕ, suc, ◌+◌, ◌<◌, ◌≡◌, refl, ap, fun_ext, false, ◌||◌, [], ◌∷◌, ◌++◌, arith, ltb, ◌==◌, ==-self,
  update, length, Bool-cases, inl, inr,
}
use fujinet_intv_golf.Wire.{Bytes}
use fujinet_intv_golf.Relay.Outcome.{returned}
use fujinet_intv_golf.Relay.World.{World, Os, ◌>>◌}
use fujinet_intv_golf.Relay.Service.{received, serve_from, serve, service}

-- The start of a frame: the length is valid, and more bytes are to come.
abbrev pub IsPartial : Bytes → Type 0
IsPartial [] = Unit
IsPartial (len ∷ rest) = ((ltb (len + 1) 2 || ltb 200 len) ≡ false) × (length rest < len)

serve_from-partial :
    (os : Os) (n c : ℕ) (l : Bytes) (w : World)
    → w.rx c ≡ l
    → IsPartial l
    → serve_from os (suc n) c w ≡ returned tt w
unfolding serve_from
serve_from-partial os n c [] w e h = rw e
serve_from-partial os n c (len ∷ rest) w e h = rw e (rw (h.0) (ground arith))

serve-partial : (os : Os) (c : ℕ) (w : World) → IsPartial (w.rx c) → serve os c w ≡ returned tt w
unfolding serve
serve-partial os c w h = serve_from-partial os (length (w.rx c)) c (w.rx c) w refl h

same_buffers :
    (rx : ℕ → Bytes) (c : ℕ) (x y : Bytes)
    → update (update rx c (rx c ++ x)) c (update rx c (rx c ++ x) c ++ y)
      ≡ update rx c (rx c ++ (x ++ y))
same_buffers rx c x y = fun_ext (λ m. elim (Bool-cases (m == c)) [
  | inl e ↦ rw e (rw (==-self c) (append_assoc (rx c) x y))
  | inr e ↦ rw e
])

-- If the buffer with the first segment is only the start of a frame, then receiving two segments
-- one after the other does the same to the server as receiving them at once, with the same
-- outcome.
pub service-split :
    (os : Os) (c a b : ℕ) (xs ys : Bytes) (w : World)
    → IsPartial (w.rx c ++ (a ∷ xs))
    → (service os c (received (a ∷ xs)) >> service os c (received (b ∷ ys))) w
      ≡ service os c (received ((a ∷ xs) ++ (b ∷ ys))) w
unfolding service
service-split os c a b xs ys w h =
    rw
      (serve-partial os c (record w { rx = update w.rx c (w.rx c ++ (a ∷ xs)) }) (rw (==-self c) h))
      (ap (λ (rx : ℕ → Bytes). serve os c (record w { rx = rx }))
        (same_buffers w.rx c (a ∷ xs) (b ∷ ys)))
