-- ===== src/Clients/Diff/Records.antt =====
-- About what is recorded: frames are recorded whole and in order, and nothing but the seed is hidden.
use mathlib.Core.List.{append_assoc}
use fujinet_intv_golf.Base.{
  ℕ, zero, suc, ◌≤◌, ◌<◌, ◌≡◌, refl, sym, ap, ◌∙◌, Bool, true, false, ◌&&◌, ◌||◌, List, [], ◌∷◌,
  ◌++◌, map, some, some_inj, arith, leb, ◌==◌, length, length-append, take, drop, take-append_self,
  drop-append_self, get_elem?, Bool-cases, inl, inr,
}
use fujinet_intv_golf.Wire.{Bytes, t_start}
use fujinet_intv_golf.Relay.Frames.{framed}
use fujinet_intv_golf.Clients.Diff.{
  frames_from, frames_of, Rendered, start_masked, plain, mask, render,
}

-- Frames of these types and payloads, one after the other.
unfoldable pub framed_all : List (ℕ × Bytes) → Bytes
framed_all [] = []
framed_all ((t, p) ∷ fs) = framed t p ++ framed_all fs

-- The start of a frame, or nothing.
abbrev pub IsPart : Bytes → Type 0
IsPart [] = Unit
IsPart (n ∷ rest) = length rest < n

abbrev body_of : ℕ × Bytes → Bytes
body_of (t, p) = t ∷ p

frames_from-part : (k : ℕ) (tail : Bytes) → IsPart tail → frames_from k tail ≡ ([], tail)
unfolding frames_from
frames_from-part zero tail h = refl
frames_from-part (suc k) [] h = refl
frames_from-part (suc k) (n ∷ rest) h =
    let too_short : leb n (length rest) ≡ false = ground (arith, h) in rw too_short refl

frames_from-framed :
    (k t : ℕ) (p rest : Bytes)
    → frames_from (suc k) (framed t p ++ rest)
      ≡ ((t ∷ p) ∷ (frames_from k rest).0, (frames_from k rest).1)
unfolding frames_from
frames_from-framed k t p rest =
    let enough : leb (suc (length p)) (length (t ∷ p ++ rest)) ≡ true =
      ground (arith, length-append p rest) in
    let front : take (suc (length p)) (t ∷ p ++ rest) ≡ t ∷ p = take-append_self (t ∷ p) rest in
    let back : drop (suc (length p)) (t ∷ p ++ rest) ≡ rest = drop-append_self (t ∷ p) rest in
    rw enough (rw front (rw back refl))

frames_from-framed_all :
    (k : ℕ) (fs : List (ℕ × Bytes)) (tail : Bytes)
    → IsPart tail
    → length (framed_all fs ++ tail) ≤ k
    → frames_from k (framed_all fs ++ tail) ≡ (map body_of fs, tail)
unfolding framed_all
frames_from-framed_all k [] tail h enough = frames_from-part k tail h
frames_from-framed_all zero ((t, p) ∷ fs) tail h enough = absurd (omega arith)
frames_from-framed_all (suc k) ((t, p) ∷ fs) tail h enough =
    let assoc = append_assoc (framed t p) (framed_all fs) tail in
    let later =
      frames_from-framed_all k fs tail h
        (omega (arith, ap length assoc, length-append (framed t p) (framed_all fs ++ tail))) in
    ap (frames_from (suc k)) assoc
    ∙ (frames_from-framed k t p (framed_all fs ++ tail)
        ∙ ap (λ (x : List Bytes × Bytes). ((t ∷ p) ∷ x.0, x.1)) later)

-- If a client's buffer holds whole frames and then only a part of one, or nothing, then `sync` takes
-- out the bodies of these frames, in order, and leaves the part.
pub frames_of-framed_all :
    (fs : List (ℕ × Bytes)) (tail : Bytes)
    → IsPart tail
    → frames_of (framed_all fs ++ tail) ≡ (map (λ f. f.0 ∷ f.1) fs, tail)
unfolding frames_of
frames_of-framed_all fs tail h =
    frames_from-framed_all (length (framed_all fs ++ tail)) fs tail h (omega arith)

-- Whether a byte of a payload is the seed's: bytes 2 and 3 of a START frame under protocol 2.
abbrev pub is_seed : ℕ → Bytes → ℕ → Bool
is_seed t p i = (t == t_start && leb 4 (length p)) && (i == 2 || i == 3)

-- The masked payload but for the two bytes.
get_elem?-mask :
    (p : Bytes) (i : ℕ)
    → 4 ≤ length p
    → (i == 2 || i == 3) ≡ false
    → get_elem? (mask 2 p) i ≡ get_elem? p i
get_elem?-mask [] i h e = absurd (omega arith)
get_elem?-mask (a ∷ []) i h e = absurd (omega arith)
get_elem?-mask (a ∷ b ∷ []) i h e = absurd (omega arith)
get_elem?-mask (a ∷ b ∷ c ∷ []) i h e = absurd (omega arith)
get_elem?-mask (a ∷ b ∷ c ∷ d ∷ p) zero h e = refl
get_elem?-mask (a ∷ b ∷ c ∷ d ∷ p) (suc zero) h e = refl
get_elem?-mask (a ∷ b ∷ c ∷ d ∷ p) (suc (suc zero)) h e = absurd (cc)
get_elem?-mask (a ∷ b ∷ c ∷ d ∷ p) (suc (suc (suc zero))) h e = absurd (cc)
get_elem?-mask (a ∷ b ∷ c ∷ d ∷ p) (suc (suc (suc (suc i)))) h e = refl

-- What a rendered frame shows of its type and of a byte of its payload.
unfoldable shown_type : Rendered → ℕ
shown_type (start_masked p) = t_start
shown_type (plain t p) = t

unfoldable shown_payload : Rendered → Bytes
shown_payload (start_masked p) = p
shown_payload (plain t p) = p

render_shows :
    (t : ℕ) (p : Bytes) (r : Rendered) (i : ℕ)
    → render 2 (t ∷ p) ≡ some r
    → (shown_type r ≡ t) × (is_seed t p i ≡ false → get_elem? (shown_payload r) i ≡ get_elem? p i)
unfolding render shown_type shown_payload
render_shows t p r i e = elim (Bool-cases (t == t_start && leb 4 (length p))) [
  | inl f ↦
      let is_r : start_masked (mask 2 p) ≡ r = some_inj (rw f at e) in
      (
        sym (ap shown_type is_r) ∙ ground (arith, f),
        λ other.
            sym (ap (λ x. get_elem? (shown_payload x) i) is_r)
            ∙ get_elem?-mask p i (ground (arith, f)) (rw f at other),
      )
  | inr f ↦
      let is_r : plain t p ≡ r = some_inj (rw f at e) in
      (sym (ap shown_type is_r), λ other. sym (ap (λ x. get_elem? (shown_payload x) i) is_r))
]

-- Under protocol 2, if two received frames are rendered alike, then they have the same type, and
-- the same bytes in the same places, but for the two bytes of the seed if the frame is a START of at
-- least four bytes.
pub render_hides_seed :
    (t u : ℕ) (p q : Bytes) (r : Rendered) (i : ℕ)
    → render 2 (t ∷ p) ≡ some r
    → render 2 (u ∷ q) ≡ some r
    → is_seed t p i ≡ false
    → is_seed u q i ≡ false
    → (t ≡ u) × (get_elem? p i ≡ get_elem? q i)
render_hides_seed t u p q r i e f other_p other_q =
    let (type_t, byte_p) = render_shows t p r i e in
    let (type_u, byte_q) = render_shows u q r i f in
    (sym type_t ∙ type_u, sym (byte_p other_p) ∙ byte_q other_q)
