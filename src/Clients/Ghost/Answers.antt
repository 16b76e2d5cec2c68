-- ===== src/Clients/Ghost/Answers.antt =====
-- The inputs that the ghost answers.
use Prim.Native.Nat.{max}
use fujinet_intv_golf.Base.{
  ℕ, zero, suc, ◌-◌, ◌*◌, ◌≤◌, ◌≡◌, refl, ◌∙◌, bit_or, true, List, [], ◌∷◌, ◌++◌, Option, some,
  arith, ltb, leb, length, length-append, length-replicate, take-append_self, drop-append_self, All,
  Bool-cases, inl, inr,
}
use fujinet_intv_golf.Wire.{Bytes, Text, t_input}
use fujinet_intv_golf.Relay.Frames.{framed}
use fujinet_intv_golf.Clients.Ghost.{
  Options, Ghost, ghost_frame, say, ghost_reply, mirrored_then, on_input, on_ghost_frame,
  ghost_frames, on_chunk,
}

-- An input: the tick, and what the console pressed.
pub record Input : Type 0 where
  pub lo : ℕ
  pub hi : ℕ
  pub cells : Bytes

abbrev pub tick_of : Input → ℕ
tick_of e = bit_or e.lo (e.hi * 256)

abbrev pub input_payload : Input → Bytes
input_payload e = e.lo ∷ e.hi ∷ e.cells

-- The frame that answers an input: for the same tick.
abbrev pub answer : Options → Input → Bytes
answer opts e = framed t_input (e.lo ∷ e.hi ∷ ghost_reply opts (tick_of e) (input_payload e))

-- The ghost after these inputs.
unfoldable pub answered : Options → List Input → Ghost → Ghost
answered opts [] g = g
answered opts (e ∷ es) g = answered opts es (record g {
  inputs = suc g.inputs;
  max_tick = max g.max_tick (tick_of e);
  mirrored = mirrored_then opts (input_payload e) g.mirrored;
  said = g.said ++ answer opts e ∷ [];
})

-- The inputs as a stream.
unfoldable pub input_stream : List Input → Bytes
input_stream [] = []
input_stream (e ∷ es) = framed t_input (input_payload e) ++ input_stream es

length-ghost_reply :
    (opts : Options) (tick : ℕ) (e : Input)
    → length e.cells ≤ 251
    → length (ghost_reply opts tick (input_payload e)) ≤ 252
unfolding ghost_reply
length-ghost_reply opts tick e l = elim (Bool-cases opts.mirror) [
  | inl m ↦ rw m (omega arith)
  | inr m ↦ rw m (omega (arith, length-replicate {A = ℕ} (max (length (input_payload e) - 3) 1) 0))
]

module _ (decode : Bytes → Option Text) (opts : Options) where
  on_input-answer :
      (e : Input) (g : Ghost)
      → length e.cells ≤ 251
      → on_ghost_frame decode opts t_input (input_payload e) g ≡ some (answered opts (e ∷ []) g)
  unfolding on_ghost_frame on_input say ghost_frame answered
  on_input-answer e g l =
      let fits : ltb (suc (length (e.lo ∷ e.hi ∷ ghost_reply opts (tick_of e) (input_payload e))))
            256
          ≡ true =
        ground (arith, length-ghost_reply opts (tick_of e) e l) in
      rw fits refl

  -- One frame, then the rest of the stream.
  frames-step :
      (k : ℕ) (p more : Bytes) (x y : Ghost)
      → on_ghost_frame decode opts t_input p x ≡ some y
      → ghost_frames decode opts (suc k) (framed t_input p ++ more) x
        ≡ ghost_frames decode opts k more y
  unfolding ghost_frames
  frames-step k p more x y e =
      let whole : leb (suc (length p)) (suc (length (p ++ more))) ≡ true =
        ground (arith, length-append p more) in
      rw (whole, take-append_self p more, drop-append_self p more) (rw e refl)

  frames-answered :
      (k : ℕ) (es : List Input) (x : Ghost)
      → All (λ e. length e.cells ≤ 251) es
      → length (input_stream es) ≤ k
      → ghost_frames decode opts k (input_stream es) x ≡ some (answered opts es x, [])
  unfolding ghost_frames input_stream answered
  frames-answered zero [] x h b = refl
  frames-answered (suc k) [] x h b = refl
  frames-answered zero (e ∷ es) x h b = absurd (omega arith)
  frames-answered (suc k) (e ∷ es) x h b =
      frames-step k (input_payload e) (input_stream es) x _ (on_input-answer e x h.0)
      ∙ frames-answered k es _ h.1
          (omega (arith, length-append (input_payload e) (input_stream es)))

  -- A stream of inputs, each with at most 251 bytes after the tick, is answered to the end: the
  -- ghost has sent one INPUT frame for each of them, for the same tick and in the same order, has
  -- counted them, and its highest tick is the highest of theirs and of what it had; nothing of the
  -- buffer is left.
  pub on_chunk-answered :
      (es : List Input) (g : Ghost)
      → All (λ e. length e.cells ≤ 251) es
      → on_chunk decode opts [] (input_stream es) g ≡ some (answered opts es g, [])
  unfolding on_chunk
  on_chunk-answered es g fits = frames-answered (length (input_stream es)) es g fits (omega arith)
