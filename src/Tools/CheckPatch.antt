-- ===== src/Tools/CheckPatch.antt =====
-- tools/check_patch.py: the hooked build may differ from the original ROM only where PATCHES.py
-- says so. What is printed is modelled by the lists that are printed from.
use mathlib.Core.Option
use fujinet_intv_golf.Base.{
  ◌↔◌, ℕ, zero, suc, ◌+◌, ◌≡◌, ◌⊎◌, refl, subst, ◌∙◌, ◌&&◌, ◌||◌, Bool, true, false, List, [], ◌∷◌,
  Option, none, some, arith, ◌==◌, ==-eq, ==-self, if◌then◌else◌, length, get_elem?, is_empty,
  Bool-cases, inl, inr,
}
use fujinet_intv_golf.Base.NatMap
use fujinet_intv_golf.Wire.{Bytes}
use fujinet_intv_golf.Tools.Words.{first_words, words}
use fujinet_intv_golf.Tools.DumpRom.{Patches}

abbrev pub base_addr : ℕ
base_addr = 0x5000

-- `addr in patches`
abbrev pub is_patched : ℕ → Patches → Bool
is_patched addr patches = elim (NatMap.lookup addr patches) [ none ↦ false | some _ ↦ true ]

-- `bad` and `unpatched`, from an address on.
unfoldable pub compare_from : Patches → ℕ → List ℕ → List ℕ → List (ℕ × ℕ × ℕ) × List ℕ
compare_from patches addr [] hooked = ([], [])
compare_from patches addr (a ∷ orig) [] = ([], [])
compare_from patches addr (a ∷ orig) (b ∷ hooked) =
    let (bad, unpatched) = compare_from patches (suc addr) orig hooked in
    if is_patched addr patches
    then (bad, if a == b then addr ∷ unpatched else unpatched)
    else if a == b
    then (bad, unpatched)
    else ((addr, a, b) ∷ bad, unpatched)

-- `main`: whether it ends with status 0, or none if the hooked file is too short.
unfoldable pub check_patch : Patches → Bytes → Bytes → Option Bool
unfolding compare_from
check_patch patches orig_image hooked_image = elim (words orig_image) [
  | none ↦ none
  | some orig ↦
      Option.map (λ hooked. is_empty (compare_from patches base_addr orig hooked).0)
        (first_words (length orig) hooked_image)
]

-- At each position, the words agree or the address is patched.
abbrev pub AgreesOutside : Patches → ℕ → List ℕ → List ℕ → Type 0
AgreesOutside patches addr orig hooked =
    (i a b : ℕ)
    → get_elem? orig i ≡ some a
    → get_elem? hooked i ≡ some b
    → (a ≡ b) ⊎ (is_patched (addr + i) patches ≡ true)

-- One position more.
compare_from-cons :
    (patches : Patches) (addr a b : ℕ) (orig hooked : List ℕ)
    → is_empty (compare_from patches addr (a ∷ orig) (b ∷ hooked)).0 ≡ (
        (is_patched addr patches || a == b)
        && is_empty (compare_from patches (suc addr) orig hooked).0)
unfolding compare_from
compare_from-cons patches addr a b orig hooked = elim (Bool-cases (is_patched addr patches)) [
  | inl e ↦ rw (e, is_patched) refl
  | inr e ↦
      rw (e, is_patched) (elim (Bool-cases (a == b)) [ inl f ↦ rw f refl | inr f ↦ rw f refl ])
]

compare_from_sound :
    (patches : Patches) (addr : ℕ) (orig hooked : List ℕ)
    → is_empty (compare_from patches addr orig hooked).0 ≡ true
    → AgreesOutside patches addr orig hooked
unfolding compare_from
compare_from_sound patches addr [] hooked h i a b ea eb = absurd (cc)
compare_from_sound patches addr (x ∷ orig) [] h i a b ea eb = absurd (cc)
compare_from_sound patches addr (x ∷ orig) (y ∷ hooked) h zero a b ea eb =
    let here = compare_from-cons patches addr x y orig hooked in
    subst (λ n. (a ≡ b) ⊎ (is_patched n patches ≡ true)) (omega arith)
      (elim (Bool-cases (is_patched addr patches)) [
        | inl e ↦ inr e
        | inr e ↦ inl (ground (arith, here, h, e, ea, eb, ==-eq x y))
      ])
compare_from_sound patches addr (x ∷ orig) (y ∷ hooked) h (suc i) a b ea eb =
    subst (λ n. (a ≡ b) ⊎ (is_patched n patches ≡ true)) (omega arith)
      (compare_from_sound patches (suc addr) orig hooked
        (ground (arith, h, compare_from-cons patches addr x y orig hooked)) i a b ea eb)

unary : (n : ℕ) → n + 0 ≡ n
unary n = omega arith

compare_from_complete :
    (patches : Patches) (addr : ℕ) (orig hooked : List ℕ)
    → AgreesOutside patches addr orig hooked
    → is_empty (compare_from patches addr orig hooked).0 ≡ true
unfolding compare_from
compare_from_complete patches addr [] hooked h = refl
compare_from_complete patches addr (x ∷ orig) [] h = refl
compare_from_complete patches addr (x ∷ orig) (y ∷ hooked) h =
    let rest = compare_from_complete patches (suc addr) orig hooked (λ i a b ea eb.
      subst (λ n. (a ≡ b) ⊎ (is_patched n patches ≡ true)) (omega arith) (h (suc i) a b ea eb)) in
    compare_from-cons patches addr x y orig hooked ∙ (elim (h 0 x y refl refl) [
      | inl e ↦ rw rest (rw e (ground (arith, ==-self y)))
      | inr e ↦
          let here : is_patched addr patches ≡ true =
            subst (λ n. is_patched n patches ≡ true) (unary addr) e in
          rw rest (ground (arith, here))
    ])

-- If the check passes, then the two images, read as words, differ at no address but those that
-- PATCHES.py names.
pub check_patch-AgreesOutside :
    (patches : Patches) (orig_image hooked_image : Bytes) (orig hooked : List ℕ) (i a b : ℕ)
    → words orig_image ≡ some orig
    → first_words (length orig) hooked_image ≡ some hooked
    → check_patch patches orig_image hooked_image ≡ some true
    → get_elem? orig i ≡ some a
    → get_elem? hooked i ≡ some b
    → (a ≡ b) ⊎ (is_patched (base_addr + i) patches ≡ true)
unfolding check_patch
check_patch-AgreesOutside patches orig_image hooked_image orig hooked i a b eo eh h ea eb =
    compare_from_sound patches base_addr orig hooked (ground (arith, h, eo, eh)) i a b ea eb

-- If the two images, read as words, differ at no address but those that PATCHES.py names, then the
-- check passes.
pub AgreesOutside-check_patch :
    (patches : Patches) (orig_image hooked_image : Bytes) (orig hooked : List ℕ)
    → words orig_image ≡ some orig
    → first_words (length orig) hooked_image ≡ some hooked
    → AgreesOutside patches base_addr orig hooked
    → check_patch patches orig_image hooked_image ≡ some true
unfolding check_patch
AgreesOutside-check_patch patches orig_image hooked_image orig hooked eo eh h =
    rw (eo, check_patch) (rw eh (rw (compare_from_complete patches base_addr orig hooked h)))

-- The check passes if and only if the two images, read as words, differ at no address but those
-- that PATCHES.py names.
pub check_patch_iff :
    (patches : Patches) (orig_image hooked_image : Bytes) (orig hooked : List ℕ)
    → words orig_image ≡ some orig
    → first_words (length orig) hooked_image ≡ some hooked
    → (check_patch patches orig_image hooked_image ≡ some true)
      ↔ AgreesOutside patches base_addr orig hooked
check_patch_iff patches orig_image hooked_image orig hooked eo eh = (
  (λ h i a b. check_patch-AgreesOutside patches orig_image hooked_image orig hooked i a b eo eh h),
  AgreesOutside-check_patch patches orig_image hooked_image orig hooked eo eh,
)
