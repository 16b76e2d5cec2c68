-- ===== src/Clients/Sim/Stream.antt =====
-- About `recv_frame`: how the stream is cut into chunks does not matter.
use mathlib.Core.List.{append_assoc}
use fujinet_intv_golf.Base.{
  ℕ, suc, ◌≤◌, ◌≡◌, refl, sym, ap, ◌∙◌, true, false, List, [], ◌∷◌, ◌++◌, arith, length, take, drop,
  is_empty, All, Bool-cases, inl, inr, length-append,
}
use fujinet_intv_golf.Wire.{Bytes}
use fujinet_intv_golf.Relay.Frames.{framed}
use fujinet_intv_golf.Clients.Sim.{got, ready, split_body, take_frame, recv_frame}

-- The bytes of the chunks.
unfoldable pub bytes_of : List Bytes → Bytes
bytes_of [] = []
bytes_of (c ∷ cs) = c ++ bytes_of cs

abbrev pub HasBytes : Bytes → Type 0
HasBytes c = is_empty c ≡ false

append_none : (xs : Bytes) → xs ++ [] ≡ xs
append_none [] = refl
append_none (x ∷ xs) = ap (◌∷◌ x) (append_none xs)

-- A front of one list is a front of another that is as long.
take_front :
    (xs rs ys zs : Bytes)
    → rs ++ ys ≡ xs ++ zs
    → length xs ≤ length rs
    → (take (length xs) rs ≡ xs) × (drop (length xs) rs ++ ys ≡ zs)
take_front [] rs ys zs e h = (refl, e)
take_front (x ∷ xs) [] ys zs e h = absurd (omega arith)
take_front (x ∷ xs) (r ∷ rs) ys zs e h =
    let same_head : r ≡ x = cc in
    let (p, q) = take_front xs rs ys zs (cc) (omega arith) in (rw same_head (ap (◌∷◌ x) p), q)

take_frame-got :
    (t : ℕ) (p rest buf : Bytes) (chunks : List Bytes)
    → buf ++ bytes_of chunks ≡ framed t p ++ rest
    → ready buf ≡ true
    → (buf' : Bytes) × (take_frame buf chunks ≡ got t p buf' chunks)
      × (buf' ++ bytes_of chunks ≡ rest)
unfolding take_frame split_body ready
take_frame-got t p rest [] chunks e h = absurd (cc)
take_frame-got t p rest (n ∷ buf) chunks e h =
    let same_length : n ≡ suc (length p) = cc in
    let (front, back) =
      take_front (t ∷ p) buf (bytes_of chunks) rest (cc) (ground (arith, h, same_length)) in
    (
      drop (suc (length p)) buf,
      rw same_length (ap (λ b. split_body b (drop (suc (length p)) buf) chunks) front),
      back,
    )

ready-framed : (t : ℕ) (p rest : Bytes) → ready (framed t p ++ rest) ≡ true
unfolding ready
ready-framed t p rest = ground (arith, length-append p rest)

-- If the buffer and the chunks to come, none of them empty, hold a frame and then anything, then
-- `recv_frame` returns the frame's type and payload, and what is left in the buffer and in the chunks
-- is what came after the frame: however the stream was cut.
pub recv_frame-framed :
    (t : ℕ) (p rest buf : Bytes) (chunks : List Bytes)
    → All HasBytes chunks
    → buf ++ bytes_of chunks ≡ framed t p ++ rest
    → (buf' : Bytes) × (chunks' : List Bytes) × (recv_frame buf chunks ≡ got t p buf' chunks')
      × (buf' ++ bytes_of chunks' ≡ rest)
      × All HasBytes chunks'
unfolding recv_frame bytes_of
recv_frame-framed t p rest buf [] h e =
    let whole : buf ≡ framed t p ++ rest = sym (append_none buf) ∙ e in
    let is_ready : ready buf ≡ true = ap ready whole ∙ ready-framed t p rest in
    let (buf', f, left) = take_frame-got t p rest buf [] e is_ready in
    (buf', [], rw is_ready f, left, tt)
recv_frame-framed t p rest buf (c ∷ cs) h e = elim (Bool-cases (ready buf)) [
  | inl is_ready ↦
      let (buf', f, left) = take_frame-got t p rest buf (c ∷ cs) e is_ready in
      (buf', c ∷ cs, rw is_ready f, left, h)
  | inr not_ready ↦
      let (buf', chunks', f, left, kept) =
        recv_frame-framed t p rest (buf ++ c) cs h.1 (append_assoc buf c (bytes_of cs) ∙ e) in
      (buf', chunks', rw not_ready (rw h.0 f), left, kept)
]
