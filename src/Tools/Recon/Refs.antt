-- ===== src/Tools/Recon/Refs.antt =====
-- About `refs`: it never fails, and each operand is where it says.
use fujinet_intv_golf.Base.{
  some_inj, ℕ, zero, suc, ◌+◌, ◌/◌, ◌%◌, ◌≤◌, ◌<◌, ◌≡◌, refl, sym, ap, ap₂, ◌∙◌, bit_and, true, not,
  ◌&&◌, List, [], ◌∷◌, ◌++◌, some, arith, leb, ◌==◌, get_elem?, drop, subst, Bool-cases, inl, inr,
  ◌⊎◌,
}
use fujinet_intv_golf.Base.NatMap
use fujinet_intv_golf.Base.Texts.{codes}
use fujinet_intv_golf.Base.Found.{Found, Found-append, Found-single}
use fujinet_intv_golf.Base.Bits.{bit_and_low}
use fujinet_intv_golf.Tools.Recon.{Rom, Ref, ops, ref_mode, ref_op, ref_at, join, refs_from, refs}

-- The operations have names: 1 to 7 are keys.
ops_total : (n : ℕ) → 1 ≤ n → n < 8 → (op : List ℕ) × (NatMap.lookup n ops ≡ some op)
unfolding NatMap.lookup
ops_total zero lo hi = absurd (omega arith)
ops_total (suc zero) lo hi = (codes "MVO", refl)
ops_total (suc (suc zero)) lo hi = (codes "MVI", refl)
ops_total (suc (suc (suc zero))) lo hi = (codes "ADD", refl)
ops_total (suc (suc (suc (suc zero)))) lo hi = (codes "SUB", refl)
ops_total (suc (suc (suc (suc (suc zero))))) lo hi = (codes "CMP", refl)
ops_total (suc (suc (suc (suc (suc (suc zero)))))) lo hi = (codes "AND", refl)
ops_total (suc (suc (suc (suc (suc (suc (suc zero))))))) lo hi = (codes "XOR", refl)
ops_total (suc (suc (suc (suc (suc (suc (suc (suc n)))))))) lo hi = absurd (omega arith)

-- A word in the range of the opcodes has an operation.
range_op :
    (v : ℕ)
    → leb 0x0240 v ≡ true
    → leb v 0x03FF ≡ true
    → (op : List ℕ) × (NatMap.lookup (bit_and (v / 64) 7) ops ≡ some op)
range_op v lo hi =
    let low_bits = bit_and_low 3 (v / 64) in
    ops_total (bit_and (v / 64) 7) (ground (arith, low_bits, lo, hi)) (omega (arith, low_bits))

-- What the round finds: nothing, or one operand, of the word before it.
abbrev IsRef : ℕ → ℕ → ℕ → Ref → Type 0
IsRef site v operand r =
    (r.site ≡ site + 1)
    × (r.operand ≡ operand)
    × (r.reg ≡ v % 8)
    × (0x0240 ≤ v)
    × (v ≤ 0x03FF)
    × ((v / 8 % 8 ≡ 0) ⊎ (v / 8 % 8 ≡ 7))

ref_mode-IsRef :
    (site : ℕ) (op : List ℕ) (v operand : ℕ) (r : Ref)
    → 0x0240 ≤ v
    → v ≤ 0x03FF
    → Found r (ref_mode (bit_and (v / 8) 7) (site + 1) op (bit_and v 7) operand)
    → IsRef site v operand r
unfolding ref_mode
ref_mode-IsRef site op v operand r lo hi (k, e) =
    let mode = bit_and_low 3 (v / 8) in
    let reg = bit_and_low 3 v in
    elim (Bool-cases (bit_and (v / 8) 7 == 0)) [
      | inl f ↦
          let is_r =
            Found-single r
              (record { site = site + 1; op = op; reg = bit_and v 7; operand = operand })
              (k, rw f at e) in
          (
            ap (λ x. x.site) is_r,
            ap (λ x. x.operand) is_r,
            ap (λ x. x.reg) is_r ∙ reg,
            lo,
            hi,
            inl (ground (arith, f, mode)),
          )
      | inr f ↦ elim (Bool-cases (bit_and (v / 8) 7 == 7)) [
        | inl g ↦
            let is_r =
              Found-single r
                (record {
                  site = site + 1;
                  op = op ++ codes "I";
                  reg = bit_and v 7;
                  operand = operand;
                })
                (k, rw g at rw f at e) in
            (
              ap (λ x. x.site) is_r,
              ap (λ x. x.operand) is_r,
              ap (λ x. x.reg) is_r ∙ reg,
              lo,
              hi,
              inr (ground (arith, g, mode)),
            )
        | inr g ↦ absurd (cc (rw g at rw f at e))
      ]
    ]

-- The round does not fail.
ref_at_lem :
    (site v operand : ℕ)
    → (found : List Ref) × (ref_at site v operand ≡ some found)
      × ((r : Ref) → Found r found → IsRef site v operand r)
unfolding ref_at ref_op
ref_at_lem site v operand = elim (Bool-cases (not (leb 0x0240 v && leb v 0x03FF))) [
  | inl e ↦ ([], rw e refl, λ r h. absurd (cc (h.1)))
  | inr e ↦
      let lo : leb 0x0240 v ≡ true = ground (arith, e) in
      let hi : leb v 0x03FF ≡ true = ground (arith, e) in
      let (op, named) = range_op v lo hi in
      (
        ref_mode (bit_and (v / 8) 7) (site + 1) op (bit_and v 7) operand,
        rw e (ap (λ o. ref_op o site v operand) named),
        λ r h. ref_mode-IsRef site op v operand r (ground (arith, lo)) (ground (arith, hi)) h,
      )
]

abbrev IsRefOf : ℕ → List ℕ → Ref → Type 0
IsRefOf site ws r =
    (i v operand : ℕ) × (rest : List ℕ) × (drop i ws ≡ v ∷ operand ∷ rest)
    × IsRef (site + i) v operand r

refs_from_lem :
    (site : ℕ) (ws : List ℕ)
    → (found : List Ref) × (refs_from site ws ≡ some found)
      × ((r : Ref) → Found r found → IsRefOf site ws r)
unfolding refs_from join
refs_from_lem site [] = ([], refl, λ r h. absurd (cc (h.1)))
refs_from_lem site (v ∷ []) = ([], refl, λ r h. absurd (cc (h.1)))
refs_from_lem site (v ∷ operand ∷ ws) =
    let (here, e, is_here) = ref_at_lem site v operand in
    let (rest, f, is_rest) = refs_from_lem (suc site) (operand ∷ ws) in
    (
      here ++ rest,
      ap₂ join e f,
      λ r h. elim (Found-append r here rest h) [
        | inl g ↦
            (0, v, operand, ws, refl, subst (λ n. IsRef n v operand r) (omega arith) (is_here r g))
        | inr g ↦
            let (i, w, o, others, at_i, is_ref) = is_rest r g in
            (suc i, w, o, others, at_i, subst (λ n. IsRef n w o r) (omega arith) is_ref)
      ],
    )

-- The list of references is made for any ROM: no opcode in the range that is scanned is missing
-- from the table of operations.
pub refs_total : (rom : Rom) → (found : List Ref) × (refs rom ≡ some found)
unfolding refs
refs_total rom = let (found, e, are_refs) = refs_from_lem rom.base rom.w in (found, e)

-- Each reference in the list stands in the ROM: its site is the address of the word that is its
-- operand, and the word before that is an opcode from 0x240 to 0x3FF in direct or immediate mode, on
-- its register.
pub refs_sites :
    (rom : Rom) (found : List Ref) (k : ℕ) (r : Ref)
    → refs rom ≡ some found
    → get_elem? found k ≡ some r
    → (i v : ℕ) × (rest : List ℕ) × (drop i rom.w ≡ v ∷ r.operand ∷ rest)
      × (r.site ≡ rom.base + i + 1)
      × (r.reg ≡ v % 8)
      × (0x0240 ≤ v)
      × (v ≤ 0x03FF)
      × ((v / 8 % 8 ≡ 0) ⊎ (v / 8 % 8 ≡ 7))
unfolding refs
refs_sites rom found k r ok h =
    let (list, e, are_refs) = refs_from_lem rom.base rom.w in
    let same_list : found ≡ list = some_inj (sym ok ∙ e) in
    let (i, v, operand, rest, at_i, is_ref) = are_refs r (k, rw same_list at h) in
    let (at_site, is_operand, reg, lo, hi, mode) = is_ref in
    (i, v, rest, at_i ∙ (rw is_operand refl), at_site, reg, lo, hi, mode)
