-- ===== src/Clients/Sim/Names.antt =====
-- About `roster_names`: it reads the roster that the server writes.
use fujinet_intv_golf.Base.{
  ℕ, zero, suc, ◌+◌, ◌*◌, ◌-◌, ◌≤◌, ◌≡◌, refl, ap, ap₂, ◌∙◌, subst, true, false, List, [], ◌∷◌,
  ◌++◌, map, Option, some, arith, ◌==◌, length, take, drop, replicate, All, take-append_self,
  drop-append_self,
}
use mathlib.Core.List.{append_assoc}
use fujinet_intv_golf.Wire.{
  Bytes, Text, is_name_char, all_name_chars, is_valid_name, is_ascii, ljust8,
}
use fujinet_intv_golf.Relay.Outcome.{returned}
use fujinet_intv_golf.Relay.World.{World}
use fujinet_intv_golf.Relay.Output.{roster}
use fujinet_intv_golf.Relay.Invariant.{Inv}
use fujinet_intv_golf.Relay.Frames.{pad_of, pads_of, roster_of, roster_lem, length-ljust8}
use fujinet_intv_golf.Relay.Handles.Hello.{is_valid_name-is_ascii}
use fujinet_intv_golf.Clients.Sim.{strip_zeros, and_names, names_from, roster_names}

pub take_short : (n : ℕ) (s : Bytes) → length s ≤ n → take n s ≡ s
take_short zero [] h = refl
take_short zero (b ∷ s) h = absurd (omega arith)
take_short (suc n) [] h = refl
take_short (suc n) (b ∷ s) h = ap (◌∷◌ b) (take_short n s (omega arith))

strip_zeros-replicate : (k : ℕ) → strip_zeros (replicate k 0) ≡ []
unfolding strip_zeros
strip_zeros-replicate zero = refl
strip_zeros-replicate (suc k) = rw (strip_zeros-replicate k) refl

strip_zeros-append :
    (t : Text) (k : ℕ) → all_name_chars t ≡ true → strip_zeros (t ++ replicate k 0) ≡ t
unfolding strip_zeros all_name_chars is_name_char
strip_zeros-append [] k h = strip_zeros-replicate k
strip_zeros-append (c ∷ t) k h =
    let rest = strip_zeros-append t k (ground (arith, h)) in
    let not_zero : (c == 0) ≡ false = ground (arith, h) in rw (rest, not_zero) (ground arith)

-- A valid name comes out of its padding.
pub strip_zeros-ljust8 : (t : Text) → is_valid_name t ≡ true → strip_zeros (ljust8 t) ≡ t
unfolding is_valid_name ljust8
strip_zeros-ljust8 t h =
    let short : take 8 t ≡ t = take_short 8 t (ground (arith, h)) in
    rw short (strip_zeros-append t (8 - length t) (ground (arith, h)))

-- The first eight bytes, and the rest.
pub take-ljust8 : (t rest : Bytes) → take 8 (ljust8 t ++ rest) ≡ ljust8 t
take-ljust8 t rest =
    subst (λ n. take n (ljust8 t ++ rest) ≡ ljust8 t) (length-ljust8 t)
      (take-append_self (ljust8 t) rest)

pub drop-ljust8 : (t rest : Bytes) → drop 8 (ljust8 t ++ rest) ≡ rest
drop-ljust8 t rest =
    subst (λ n. drop n (ljust8 t ++ rest) ≡ rest) (length-ljust8 t)
      (drop-append_self (ljust8 t) rest)

-- The names that are padded, one after the other.
unfoldable pads_texts : List Text → Bytes
pads_texts [] = []
pads_texts (t ∷ ts) = ljust8 t ++ pads_texts ts

pads_of-texts :
    (name : ℕ → Option Text) (ms : List ℕ) (ts : List Text)
    → map name ms ≡ map some ts
    → pads_of name ms ≡ pads_texts ts
unfolding pads_of pads_texts
pads_of-texts name [] [] e = refl
pads_of-texts name [] (t ∷ ts) e = absurd (cc)
pads_of-texts name (m ∷ ms) [] e = absurd (cc)
pads_of-texts name (m ∷ ms) (t ∷ ts) e =
    let named : name m ≡ some t = cc in
    let others : map name ms ≡ map some ts = cc in
    ap₂ (λ o b. pad_of o ++ b) named (pads_of-texts name ms ts others)

replicate-add : (m n : ℕ) → replicate {A = ℕ} (m + n) 0 ≡ replicate m 0 ++ replicate n 0
replicate-add zero n =
    let nothing : 0 + n ≡ n = omega arith in ap (λ k. replicate {A = ℕ} k 0) nothing
replicate-add (suc m) n =
    let one_more : suc m + n ≡ suc (m + n) = omega arith in
    ap (λ k. replicate {A = ℕ} k 0) one_more ∙ ap (◌∷◌ 0) (replicate-add m n)

zeros-suc : (n : ℕ) → replicate {A = ℕ} (8 * suc n) 0 ≡ replicate 8 0 ++ replicate (8 * n) 0
zeros-suc n =
    let eight_more : 8 * suc n ≡ 8 + 8 * n = omega arith in
    ap (λ k. replicate {A = ℕ} k 0) eight_more ∙ replicate-add 8 (8 * n)

module _ (decode : Bytes → Option Text)
    (decode-ascii : (s : Bytes) → is_ascii s ≡ true → decode s ≡ some s) where
  names_from-zeros : (n : ℕ) → names_from decode n (replicate (8 * n) 0) ≡ some (replicate n [])
  unfolding names_from and_names strip_zeros is_ascii
  names_from-zeros zero = refl
  names_from-zeros (suc n) =
      ap (names_from decode (suc n)) (zeros-suc n)
      ∙ ap₂ and_names (decode-ascii [] refl) (names_from-zeros n)

  names_from-pads :
      (ts : List Text) (k : ℕ)
      → All (λ t. is_valid_name t ≡ true) ts
      → names_from decode (length ts + k) (pads_texts ts ++ replicate (8 * k) 0)
        ≡ some (ts ++ replicate k [])
  unfolding names_from and_names pads_texts
  names_from-pads [] k h =
      let nothing : 0 + k ≡ k = omega arith in
      ap (λ n. names_from decode n (replicate (8 * k) 0)) nothing ∙ names_from-zeros k
  names_from-pads (t ∷ ts) k h =
      let zeros : Bytes = replicate (8 * k) 0 in
      let rest : Bytes = pads_texts ts ++ zeros in
      let first : decode (strip_zeros (take 8 (ljust8 t ++ rest))) ≡ some t =
        ap (λ s. decode (strip_zeros s)) (take-ljust8 t rest)
        ∙ (ap decode (strip_zeros-ljust8 t h.0) ∙ decode-ascii t (is_valid_name-is_ascii t h.0)) in
      let others : names_from decode (length ts + k) (drop 8 (ljust8 t ++ rest))
          ≡ some (ts ++ replicate k []) =
        ap (names_from decode (length ts + k)) (drop-ljust8 t rest) ∙ names_from-pads ts k h.1 in
      let one_more : suc (length ts) + k ≡ suc (length ts + k) = omega arith in
      ap (λ n. names_from decode n ((ljust8 t ++ pads_texts ts) ++ zeros)) one_more
      ∙ (ap (names_from decode (suc (length ts + k)))
            (append_assoc (ljust8 t) (pads_texts ts) zeros)
          ∙ ap₂ and_names first others)

length-map-some :
    (name : ℕ → Option Text) (ms : List ℕ) (ts : List Text)
    → map name ms ≡ map some ts
    → length ms ≡ length ts
length-map-some name [] [] e = refl
length-map-some name [] (t ∷ ts) e = absurd (cc)
length-map-some name (m ∷ ms) [] e = absurd (cc)
length-map-some name (m ∷ ms) (t ∷ ts) e = ap suc (length-map-some name ms ts (cc))

-- In every state that satisfies Inv, if the members of a room have valid names, then the room's
-- roster is made, and `roster_names` reads these names back from it, in the order of the seats, and
-- empty names for the seats that are free; whatever `decode` does with bytes that are not ASCII.
pub roster_names-roster :
    (decode : Bytes → Option Text) (r : ℕ) (w : World) (ts : List Text)
    → ((s : Bytes) → is_ascii s ≡ true → decode s ≡ some s)
    → Inv w
    → map w.name (w.members r) ≡ map some ts
    → All (λ t. is_valid_name t ≡ true) ts
    → (raw : Bytes) × (roster r w ≡ returned raw w)
      × (roster_names decode raw ≡ some (ts ++ replicate (4 - length ts) []))
unfolding roster_of roster_names
roster_names-roster decode r w ts ascii v named valid =
    let seats = length-map-some w.name (w.members r) ts named in
    let four : 4 ≡ length ts + (4 - length ts) = omega (arith, seats, v.rooms.seats r) in
    (
      roster_of w.name (w.members r),
      roster_lem r w v,
      ap₂ (λ b n. roster_names decode (b ++ replicate (8 * (4 - n)) 0))
            (pads_of-texts w.name (w.members r) ts named) seats
          ∙ (ap (λ n. names_from decode n (pads_texts ts ++ replicate (8 * (4 - length ts)) 0)) four
              ∙ names_from-pads decode ascii ts (4 - length ts) valid),
    )
