-- ===== src/Clients/Sim/Drain.antt =====
-- About `drain_lobby`: it eats the LOBBY frames, and nothing else.
use mathlib.Core.List.{append_assoc}
use fujinet_intv_golf.Base.{
  ℕ, zero, suc, ◌+◌, ◌≤◌, ◌<◌, ◌≡◌, ◌≢◌, refl, ap, ◌∙◌, false, List, [], ◌∷◌, ◌++◌, Option, none,
  some, arith, ◌==◌, length, All, length-append,
}
use fujinet_intv_golf.Wire.{Bytes, t_lobby}
use fujinet_intv_golf.Relay.Frames.{framed}
use fujinet_intv_golf.Clients.Sim.{
  client_frame, drained, push_back, drain_next, drain_from, total, drain_lobby,
}
use fujinet_intv_golf.Clients.Sim.Stream.{bytes_of, HasBytes, recv_frame-framed}

-- LOBBY frames with these payloads, one after the other.
unfoldable pub lobby_frames : List Bytes → Bytes
lobby_frames [] = []
lobby_frames (p ∷ ps) = framed t_lobby p ++ lobby_frames ps

-- The last payload, if there is one.
unfoldable pub last_of : Option Bytes → List Bytes → Option Bytes
last_of last [] = last
last_of last (p ∷ ps) = last_of (some p) ps

client_frame_lem :
    (t : ℕ) (p : Bytes) → t < 256 → length p ≤ 254 → client_frame t p ≡ some (framed t p)
unfolding client_frame
client_frame_lem t p ht hp = ground arith

drain_from-pushed :
    (k t : ℕ) (p rest buf : Bytes) (ps chunks : List Bytes) (last : Option Bytes)
    → All HasBytes chunks
    → buf ++ bytes_of chunks ≡ lobby_frames ps ++ (framed t p ++ rest)
    → t ≢ t_lobby
    → t < 256
    → length p ≤ 254
    → length ps < k
    → (buf' : Bytes) × (chunks' : List Bytes) × (drain_from k last buf chunks
        ≡ drained (last_of last ps) buf' chunks')
      × (buf' ++ bytes_of chunks' ≡ framed t p ++ rest)
unfolding drain_from drain_next push_back lobby_frames last_of
drain_from-pushed zero t p rest buf ps chunks last h e ne ht hp hk = absurd (omega arith)
drain_from-pushed (suc k) t p rest buf [] chunks last h e ne ht hp hk =
    let (buf', chunks', f, left, kept) = recv_frame-framed t p rest buf chunks h e in
    let other : (t == t_lobby) ≡ false = ground (arith, ne) in
    (
      framed t p ++ buf',
      chunks',
      ap (drain_next (drain_from k) last) f
          ∙ (rw other (ap (λ o. push_back o last buf' chunks') (client_frame_lem t p ht hp))),
      append_assoc (framed t p) buf' (bytes_of chunks') ∙ ap (λ b. framed t p ++ b) left,
    )
drain_from-pushed (suc k) t p rest buf (q ∷ ps) chunks last h e ne ht hp hk =
    let (buf', chunks', f, left, kept) =
      recv_frame-framed t_lobby q (lobby_frames ps ++ (framed t p ++ rest)) buf chunks h
        (e ∙ append_assoc (framed t_lobby q) (lobby_frames ps) (framed t p ++ rest)) in
    let (buf2, chunks2, g, pushed) =
      drain_from-pushed k t p rest buf' ps chunks' (some q) kept left ne ht hp
        (omega (arith, hk)) in
    (buf2, chunks2, ap (drain_next (drain_from k) last) f ∙ g, pushed)

total-bytes_of : (chunks : List Bytes) → total chunks ≡ length (bytes_of chunks)
unfolding total bytes_of
total-bytes_of [] = refl
total-bytes_of (c ∷ cs) = omega (arith, total-bytes_of cs, length-append c (bytes_of cs))

length-lobby_frames-ge : (ps : List Bytes) → length ps ≤ length (lobby_frames ps)
unfolding lobby_frames
length-lobby_frames-ge [] = omega arith
length-lobby_frames-ge (p ∷ ps) =
    omega (arith, length-lobby_frames-ge ps, length-append (framed t_lobby p) (lobby_frames ps))

-- If the buffer and the chunks to come, none of them empty, hold any number of LOBBY frames, then a
-- frame of another type, of at most 254 bytes of payload, and then anything, then `drain_lobby`
-- returns the payload of the last LOBBY frame, none if there is none, and the buffer and the chunks
-- that it leaves start with the frame of the other type, followed by the rest.
pub drain_lobby-pushed :
    (t : ℕ) (p rest buf : Bytes) (ps chunks : List Bytes)
    → All HasBytes chunks
    → buf ++ bytes_of chunks ≡ lobby_frames ps ++ (framed t p ++ rest)
    → t ≢ t_lobby
    → t < 256
    → length p ≤ 254
    → (buf' : Bytes) × (chunks' : List Bytes) × (drain_lobby buf chunks
        ≡ drained (last_of none ps) buf' chunks')
      × (buf' ++ bytes_of chunks' ≡ framed t p ++ rest)
unfolding drain_lobby
drain_lobby-pushed t p rest buf ps chunks h e ne ht hp =
    drain_from-pushed (suc (length buf + total chunks)) t p rest buf ps chunks none h e ne ht hp (
      omega (
        arith,
        total-bytes_of chunks,
        length-append buf (bytes_of chunks),
        ap length e,
        length-append (lobby_frames ps) (framed t p ++ rest),
        length-lobby_frames-ge ps,
      ))
