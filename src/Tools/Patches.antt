-- ===== src/Tools/Patches.antt =====
-- tools/patches.py: the words of the ROM that the port rewrites, and the expressions that the
-- assembler puts there.
use fujinet_intv_golf.Base.{
  ℕ, zero, suc, ==-eq, ◌+◌, ◌/◌, ◌%◌, ◌≤◌, ◌≡◌, refl, sym, ap, ◌∙◌, Bool, true, false, ◌&&◌, List,
  [], ◌∷◌, none, some, arith, leb, ◌==◌, if◌then◌else◌, length, Bool-cases, inl, inr,
}
use fujinet_intv_golf.Base.NatMap
use fujinet_intv_golf.Base.Texts.{codes}
use fujinet_intv_golf.Wire.{Bytes, Text}
use fujinet_intv_golf.Relay.Handlers.{is_some}
use fujinet_intv_golf.Tools.Words.{word, words, first_words}
use fujinet_intv_golf.Tools.DumpRom.{Patches, dump_rom, dump_from, all_used}
use fujinet_intv_golf.Tools.CheckPatch.{base_addr}

unfoldable pub patch_map : Patches
patch_map =
    (0x5002, codes "NEW_TIMER_TBL AND $FF")
    ∷ (0x5003, codes "NEW_TIMER_TBL SHR 8")
    ∷ (0x5004, codes "NET_START AND $FF")
    ∷ (0x5005, codes "NET_START SHR 8")
    ∷ (0x55FF, codes "((GF_RAND1 SHR 10) SHL 2) OR $0100")
    ∷ (0x5600, codes "GF_RAND1 AND $3FF")
    ∷ (0x5607, codes "((GF_RAND1 SHR 10) SHL 2) OR $0100")
    ∷ (0x5608, codes "GF_RAND1 AND $3FF")
    ∷ (0x564B, codes "((GF_RAND1 SHR 10) SHL 2) OR $0100")
    ∷ (0x564C, codes "GF_RAND1 AND $3FF")
    ∷ (0x5653, codes "((GF_RAND1 SHR 10) SHL 2) OR $0100")
    ∷ (0x5654, codes "GF_RAND1 AND $3FF")
    ∷ (0x52FA, codes "((GF_RAND2 SHR 10) SHL 2) OR $0100")
    ∷ (0x52FB, codes "GF_RAND2 AND $3FF")
    ∷ (0x55A2, codes "((GF_RAND2 SHR 10) SHL 2) OR $0100")
    ∷ (0x55A3, codes "GF_RAND2 AND $3FF")
    ∷ (0x55C5, codes "((GF_RAND2 SHR 10) SHL 2) OR $0100")
    ∷ (0x55C6, codes "GF_RAND2 AND $3FF")
    ∷ (0x5BEF, codes "((GF_RAND2 SHR 10) SHL 2) OR $0100")
    ∷ (0x5BF0, codes "GF_RAND2 AND $3FF")
    ∷ (0x525B, codes "((GF_ARM_SHIM SHR 10) SHL 2) OR $0100")
    ∷ (0x525C, codes "GF_ARM_SHIM AND $3FF")
    ∷ (0x5353, codes "((GF_ARM_SHIM SHR 10) SHL 2) OR $0100")
    ∷ (0x5354, codes "GF_ARM_SHIM AND $3FF")
    ∷ (0x535F, codes "((GF_ARM_SHIM SHR 10) SHL 2) OR $0100")
    ∷ (0x5360, codes "GF_ARM_SHIM AND $3FF")
    ∷ (0x503C, codes "((GF_STOP_SHIM SHR 10) SHL 2) OR $0100")
    ∷ (0x503D, codes "GF_STOP_SHIM AND $3FF")
    ∷ (0x527C, codes "((GF_STOP_SHIM SHR 10) SHL 2) OR $0100")
    ∷ (0x527D, codes "GF_STOP_SHIM AND $3FF")
    ∷ (0x53CF, codes "((GF_STOP_SHIM SHR 10) SHL 2) OR $0100")
    ∷ (0x53D0, codes "GF_STOP_SHIM AND $3FF")
    ∷ (0x53D6, codes "((GF_STOP_SHIM SHR 10) SHL 2) OR $0100")
    ∷ (0x53D7, codes "GF_STOP_SHIM AND $3FF")
    ∷ (0x5260, codes "SHADOW_CTRL")
    ∷ (0x526E, codes "SHADOW_CTRL + 2")
    ∷ []

-- So many words are there.
first_words-length :
    (n : ℕ) (image : Bytes)
    → n + n ≤ length image
    → (ws : List ℕ) × (first_words n image ≡ some ws) × (length ws ≡ n)
unfolding first_words
first_words-length zero image h = ([], refl, refl)
first_words-length (suc n) [] h = absurd (omega arith)
first_words-length (suc n) (hi ∷ []) h = absurd (omega arith)
first_words-length (suc n) (hi ∷ lo ∷ image) h =
    let (ws, e, l) = first_words-length n image (omega arith) in
    (word hi lo ∷ ws, rw e, omega (arith, l))

-- A longer ROM has room for the same patches.
all_used_longer :
    (base m n : ℕ) (patches : Patches)
    → m ≤ n
    → all_used base m patches ≡ true
    → all_used base n patches ≡ true
unfolding all_used
all_used_longer base m n [] h e = refl
all_used_longer base m n ((addr, _) ∷ patches) h e =
    ground (arith, all_used_longer base m n patches h)

-- One patch beyond the end is enough to fail.
all_used_beyond :
    (base n addr : ℕ) (symbol : Text) (patches : Patches)
    → NatMap.lookup addr patches ≡ some symbol
    → base + n ≤ addr
    → all_used base n patches ≡ false
unfolding all_used NatMap.lookup
all_used_beyond base n addr symbol [] e h = absurd (cc)
all_used_beyond base n addr symbol ((a, _) ∷ patches) e h =
    ground (arith, all_used_beyond base n addr symbol patches, ==-eq a addr)

fits : all_used base_addr 0xBF1 patch_map ≡ true
unfolding all_used patch_map
fits = refl

abbrev last_symbol : Text
last_symbol = codes "GF_RAND2 AND $3FF"

last_patch : NatMap.lookup 0x5BF0 patch_map ≡ some last_symbol
unfolding NatMap.lookup patch_map
last_patch = refl

-- The patches reach up to $5BF0, and so need 0xBF1 words.
all_used-patch_map : (n : ℕ) → all_used base_addr n patch_map ≡ leb 0xBF1 n
all_used-patch_map n = elim (Bool-cases (leb 0xBF1 n)) [
  | inl e ↦ rw e (all_used_longer base_addr 0xBF1 n patch_map (ground arith) fits)
  | inr e ↦
      rw e (all_used_beyond base_addr n 0x5BF0 last_symbol patch_map last_patch (ground arith))
]

-- An option that is there when a test holds.
if_some {ℓ} : {A : Type ℓ} (a : A) {b c : Bool} → b ≡ c → is_some (if b then some a else none) ≡ c
if_some a {b} e = elim (Bool-cases b) [ inl f ↦ rw f (sym f ∙ e) | inr f ↦ rw f (sym f ∙ e) ]

-- For any image, `dump_rom` with the port's patches writes its lines exactly when the image has an
-- even number of bytes, and at least 0xBF1 words; otherwise an assertion fails.
pub is_some-dump_rom :
    (image : Bytes)
    → is_some (dump_rom patch_map base_addr image)
      ≡ (length image % 2 == 0 && leb 0xBF1 (length image / 2))
unfolding dump_rom words
is_some-dump_rom image = elim (Bool-cases (length image % 2 == 0)) [
  | inr e ↦ rw (e, dump_rom) refl
  | inl e ↦
      let (ws, f, l) = first_words-length (length image / 2) image (omega arith) in
      rw (e, dump_rom)
        (rw (f, dump_rom)
          (if_some (dump_from patch_map base_addr [] ws)
            (all_used-patch_map (length ws) ∙ ap (leb 0xBF1) l)))
]
