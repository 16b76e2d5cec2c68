-- ===== src/Tools/Recon/Calls.antt =====
-- About `jsrs`: it finds the calls that the ROM encodes, and no others.
use fujinet_intv_golf.Base.{
  ℕ, zero, suc, ◌+◌, ◌*◌, ◌/◌, ◌%◌, ◌<◌, ◌≡◌, refl, ap, ap₂, ◌∙◌, bit_or, bit_and, not, ◌||◌, List,
  [], ◌∷◌, some, arith, ◌==◌, ==-eq, if◌then◌else◌, length, get_elem?, All, drop, length-drop,
  subst, Bool-cases, inl, inr,
}
use fujinet_intv_golf.Base.Bits.{bit_and_low, bit_and_shifted, bit_or_disjoint}
use fujinet_intv_golf.Base.Found.{Found, Found-left, Found-right, Found-append, Found-single}
use fujinet_intv_golf.Tools.Recon.{Rom, Call, jsr_at, jsrs_from, jsrs}

-- The second word of a JSR through R4 + r to a target, whose two low bits say what becomes of the
-- interrupts.
abbrev pub second_word : ℕ → ℕ → ℕ → ℕ
second_word r tgt ff = r * 256 + tgt / 1024 * 4 + ff

high_bits : (x : ℕ) → bit_and x 0xFC00 ≡ x / 1024 % 64 * 1024
high_bits x = bit_and_shifted 10 x 63 ∙ ap (λ y. y * 1024) (bit_and_low 6 (x / 1024))

target_of :
    (w1 w2 : ℕ)
    → bit_or (bit_and w1 0xFF / 4 * 1024) (bit_and w2 0x3FF) ≡ w1 % 256 / 4 * 1024 + w2 % 1024
target_of w1 w2 =
    ap₂ (λ x y. bit_or (x / 4 * 1024) y) (bit_and_low 8 w1) (bit_and_low 10 w2)
    ∙ bit_or_disjoint 10 (w1 % 256 / 4) (w2 % 1024) (omega arith)

-- The round of the loop in arithmetic.
jsr_at_lem :
    (site w0 w1 w2 : ℕ)
    → jsr_at site w0 w1 w2 ≡ (
        if not (w0 == 4)
        then []
        else if not (w1 / 1024 % 64 * 1024 == 0) || not (w2 / 1024 % 64 * 1024 == 0)
        then []
        else record { site = site; reg = 4 + w1 / 256 % 4; tgt = w1 % 256 / 4 * 1024 + w2 % 1024 }
          ∷ [])
unfolding jsr_at
jsr_at_lem site w0 w1 w2 =
    let p = high_bits w1 in
    let q = high_bits w2 in
    let r = bit_and_low 2 (w1 / 256) in let t = target_of w1 w2 in rw (p, q, r, t) refl

abbrev call_of : ℕ → ℕ → ℕ → Call
call_of site reg tgt = record { site = site; reg = reg; tgt = tgt }

-- The words of a JSR are read as that call.
jsr_at_encoded :
    (site r tgt ff : ℕ)
    → r < 4
    → tgt < 65536
    → ff < 4
    → jsr_at site 4 (second_word r tgt ff) (tgt % 1024) ≡ call_of site (4 + r) tgt ∷ []
jsr_at_encoded site r tgt ff hr ht hf =
    let p : (second_word r tgt ff) / 1024 % 64 * 1024 ≡ 0 = omega arith in
    let q : tgt % 1024 / 1024 % 64 * 1024 ≡ 0 = omega arith in
    let reg : 4 + (second_word r tgt ff) / 256 % 4 ≡ 4 + r = omega arith in
    let target : (second_word r tgt ff) % 256 / 4 * 1024 + tgt % 1024 % 1024 ≡ tgt = omega arith in
    jsr_at_lem site 4 (second_word r tgt ff) (tgt % 1024)
    ∙ (rw (p, q) (ap₂ (λ x y. call_of site x y ∷ []) reg target))

-- The words that a site starts with, and what its round finds.
jsrs_from-drop :
    (c : Call) (site : ℕ) (ws : List ℕ) (i w0 w1 w2 : ℕ) (rest : List ℕ)
    → drop i ws ≡ w0 ∷ w1 ∷ w2 ∷ rest
    → Found c (jsr_at (site + i) w0 w1 w2)
    → Found c (jsrs_from site ws)
unfolding jsrs_from
jsrs_from-drop c site [] zero w0 w1 w2 rest e h = absurd (cc)
jsrs_from-drop c site [] (suc i) w0 w1 w2 rest e h = absurd (cc)
jsrs_from-drop c site (v0 ∷ []) zero w0 w1 w2 rest e h = absurd (cc)
jsrs_from-drop c site (v0 ∷ []) (suc zero) w0 w1 w2 rest e h = absurd (cc)
jsrs_from-drop c site (v0 ∷ []) (suc (suc i)) w0 w1 w2 rest e h = absurd (cc)
jsrs_from-drop c site (v0 ∷ v1 ∷ []) zero w0 w1 w2 rest e h = absurd (cc)
jsrs_from-drop c site (v0 ∷ v1 ∷ []) (suc i) w0 w1 w2 rest e h =
    absurd (ground (arith, ap length e, length-drop i (v1 ∷ [])))
jsrs_from-drop c site (v0 ∷ v1 ∷ v2 ∷ ws) zero w0 w1 w2 rest e h =
    let at_start : site + 0 ≡ site = omega arith in
    let here : Found c (jsr_at site w0 w1 w2) =
      subst (λ n. Found c (jsr_at n w0 w1 w2)) at_start h in
    let p : w0 ≡ v0 = cc in
    let q : w1 ≡ v1 = cc in
    let r : w2 ≡ v2 = cc in
    Found-left c (jsr_at site v0 v1 v2) (jsrs_from (suc site) (v1 ∷ v2 ∷ ws)) (rw (p, q, r) at here)
jsrs_from-drop c site (v0 ∷ v1 ∷ v2 ∷ ws) (suc i) w0 w1 w2 rest e h =
    Found-right c (jsr_at site v0 v1 v2) (jsrs_from (suc site) (v1 ∷ v2 ∷ ws)) (
      jsrs_from-drop c (suc site) (v1 ∷ v2 ∷ ws) i w0 w1 w2 rest e
        (subst (λ n. Found c (jsr_at n w0 w1 w2)) (omega arith) h))

jsrs_from-Found :
    (c : Call) (site : ℕ) (ws : List ℕ)
    → Found c (jsrs_from site ws)
    → (i w0 w1 w2 : ℕ) × (rest : List ℕ) × (drop i ws ≡ w0 ∷ w1 ∷ w2 ∷ rest)
      × Found c (jsr_at (site + i) w0 w1 w2)
unfolding jsrs_from
jsrs_from-Found c site [] (k, h) = absurd (cc)
jsrs_from-Found c site (w0 ∷ []) (k, h) = absurd (cc)
jsrs_from-Found c site (w0 ∷ w1 ∷ []) (k, h) = absurd (cc)
jsrs_from-Found c site (w0 ∷ w1 ∷ w2 ∷ ws) h =
    elim (Found-append c (jsr_at site w0 w1 w2) (jsrs_from (suc site) (w1 ∷ w2 ∷ ws)) h) [
      | inl g ↦ (0, w0, w1, w2, ws, refl, subst (λ n. Found c (jsr_at n w0 w1 w2)) (omega arith) g)
      | inr g ↦
          let (i, v0, v1, v2, rest, e, found) = jsrs_from-Found c (suc site) (w1 ∷ w2 ∷ ws) g in
          (suc i, v0, v1, v2, rest, e, subst (λ n. Found c (jsr_at n v0 v1 v2)) (omega arith) found)
    ]

-- The words at a place are small, when all are.
drop-All :
    (ws : List ℕ) (i w0 w1 w2 : ℕ) (rest : List ℕ)
    → All (λ v. v < 65536) ws
    → drop i ws ≡ w0 ∷ w1 ∷ w2 ∷ rest
    → (w1 < 65536) × (w2 < 65536)
drop-All [] zero w0 w1 w2 rest h e = absurd (cc)
drop-All [] (suc i) w0 w1 w2 rest h e = absurd (cc)
drop-All (v ∷ ws) zero w0 w1 w2 rest h e =
    let all_small = subst (All (λ v. v < 65536)) e h in (all_small.1.0, all_small.1.1.0)
drop-All (v ∷ ws) (suc i) w0 w1 w2 rest h e = drop-All ws i w0 w1 w2 rest h.1 e

-- What a round finds is a JSR's encoding.
jsr_at-Found :
    (c : Call) (site w0 w1 w2 : ℕ)
    → w1 < 65536
    → w2 < 65536
    → Found c (jsr_at site w0 w1 w2)
    → (r tgt ff : ℕ) × (r < 4)
      × (tgt < 65536)
      × (ff < 4)
      × (w0 ≡ 4)
      × (w1 ≡ second_word r tgt ff)
      × (w2 ≡ tgt % 1024)
      × (c ≡ call_of site (4 + r) tgt)
jsr_at-Found c site w0 w1 w2 h1 h2 (k, e) =
    let e2 = rw (jsr_at_lem site w0 w1 w2) at e in
    elim (Bool-cases (w0 == 4)) [
      | inr f ↦ absurd (cc (rw f at e2))
      | inl f ↦
          elim (Bool-cases (not (w1 / 1024 % 64 * 1024 == 0) || not (w2 / 1024 % 64 * 1024 == 0))) [
            | inl g ↦ absurd (cc (rw g at rw f at e2))
            | inr g ↦
                let small : w1 < 1024 = ground (arith, g, h1) in
                let small2 : w2 < 1024 = ground (arith, g, h2) in
                (
                  w1 / 256 % 4,
                  w1 % 256 / 4 * 1024 + w2 % 1024,
                  w1 % 4,
                  omega arith,
                  omega arith,
                  omega arith,
                  ==-eq w0 4 f,
                  omega arith,
                  omega arith,
                  Found-single c (call_of site (4 + w1 / 256 % 4) (w1 % 256 / 4 * 1024 + w2 % 1024))
                      (k, rw g at rw f at e2),
                )
          ]
    ]

-- If the words at a place of the ROM encode a call, by a JSR through R4, R5 or R6, or a jump, to any
-- 16-bit address, then the list of calls has it, with the address of the place, the register and the
-- target.
pub jsrs-encoded :
    (rom : Rom) (i r tgt ff : ℕ) (rest : List ℕ)
    → drop i rom.w ≡ 4 ∷ second_word r tgt ff ∷ tgt % 1024 ∷ rest
    → r < 4
    → tgt < 65536
    → ff < 4
    → (k : ℕ) × (get_elem? (jsrs rom) k
        ≡ some (record { site = rom.base + i; reg = 4 + r; tgt = tgt }))
unfolding jsrs
jsrs-encoded rom i r tgt ff rest e hr ht hf =
    jsrs_from-drop (call_of (rom.base + i) (4 + r) tgt) rom.base rom.w i 4 (second_word r tgt ff)
      (tgt % 1024) rest e
      (0, ap (λ (cs : List Call). get_elem? cs 0) (jsr_at_encoded (rom.base + i) r tgt ff hr ht hf))

-- Each call in the list stands in the ROM, whose words have 16 bits: at its site there are the words
-- that encode a call through its register to its target.
pub encoded-jsrs :
    (rom : Rom) (k : ℕ) (c : Call)
    → All (λ v. v < 65536) rom.w
    → get_elem? (jsrs rom) k ≡ some c
    → (i r ff : ℕ) × (rest : List ℕ) × (drop i rom.w
        ≡ 4 ∷ second_word r c.tgt ff ∷ c.tgt % 1024 ∷ rest)
      × (c.site ≡ rom.base + i)
      × (c.reg ≡ 4 + r)
      × (r < 4)
      × (c.tgt < 65536)
      × (ff < 4)
unfolding jsrs
encoded-jsrs rom k c small e =
    let (i, w0, w1, w2, rest, at_i, found) = jsrs_from-Found c rom.base rom.w (k, e) in
    let (h1, h2) = drop-All rom.w i w0 w1 w2 rest small at_i in
    let (r, tgt, ff, hr, ht, hf, e0, e1, e2, ec) =
      jsr_at-Found c (rom.base + i) w0 w1 w2 h1 h2 found in
    let same_tgt : tgt ≡ c.tgt = cc in
    (
      i,
      r,
      ff,
      rest,
      at_i ∙ (rw e0 (rw e1 (rw e2 (rw same_tgt refl)))),
      cc,
      cc,
      hr,
      omega (arith, same_tgt, ht),
      hf,
    )
