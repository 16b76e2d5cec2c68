-- ===== src/Tools/Recon/Report/Walk.antt =====
-- About `walk`: it stays in the image and ends, and what its entries are.
use mathlib.Core.Option
use fujinet_intv_golf.Base.{
  some_inj, ℕ, zero, suc, ◌+◌, ◌*◌, ◌-◌, ◌/◌, ◌%◌, ◌≤◌, ◌<◌, ◌≡◌, ◌≢◌, ◌⊎◌, refl, sym, ap, ap₂, ◌∙◌,
  subst, bit_or, bit_and, true, not, List, [], ◌∷◌, Option, none, some, arith, leb, ◌==◌, length,
  get_elem?, Bool-cases, inl, inr,
}
use fujinet_intv_golf.Base.Bits.{bit_and_low, bit_and_shifted}
use fujinet_intv_golf.Tools.Recon.{Rom, has, word_at, pair, ptr}
use fujinet_intv_golf.Tools.Recon.Report.{
  cons_ok, TimerEntry, entry_of, entry_or_stop, walk, timer_table,
}

get_elem?-lt : (xs : List ℕ) (i : ℕ) → i < length xs → (x : ℕ) × (get_elem? xs i ≡ some x)
get_elem?-lt [] i h = absurd (omega arith)
get_elem?-lt (x ∷ xs) zero h = (x, refl)
get_elem?-lt (x ∷ xs) (suc i) h = get_elem?-lt xs i (omega arith)

pub word_at-some :
    (rom : Rom) (addr : ℕ)
    → rom.base ≤ addr
    → addr < rom.base + length rom.w
    → (v : ℕ) × (word_at rom addr ≡ some v)
unfolding word_at
word_at-some rom addr lo hi =
    let after : leb rom.base addr ≡ true = ground (arith, lo) in
    rw after (get_elem?-lt rom.w (addr - rom.base) (omega arith))

pub ptr-some :
    (rom : Rom) (addr : ℕ)
    → rom.base ≤ addr
    → addr + 1 < rom.base + length rom.w
    → (v : ℕ) × (ptr rom addr ≡ some v)
unfolding ptr pair
ptr-some rom addr lo hi =
    let (v, e) = word_at-some rom addr lo (omega arith) in
    let (w, f) = word_at-some rom (addr + 1) (omega arith) hi in (bit_or v (w * 256), ap₂ pair e f)

empty_list : (k : ℕ) (e : TimerEntry) (es : List TimerEntry) → [] ≡ es → get_elem? es k ≢ some e
empty_list k e [] nothing h = cc
empty_list k e (x ∷ es) nothing h = cc

pub has-ge : (rom : Rom) (addr : ℕ) → has rom addr ≡ true → rom.base ≤ addr
has-ge rom addr e = ground (arith, e)

entry_or_stop-some :
    (n addr interval : ℕ) (rest : Option (List TimerEntry))
    → (es : List TimerEntry) × (rest ≡ some es)
    → (es : List TimerEntry) × (entry_or_stop n (some addr) (some interval) rest ≡ some es)
unfolding entry_or_stop cons_ok
entry_or_stop-some n addr interval rest (es, e) = elim (Bool-cases (addr == 0)) [
  | inl f ↦ ([], rw f refl)
  | inr f ↦ (entry_of n addr interval ∷ es, rw f (ap (cons_ok (some (entry_of n addr interval))) e))
]

-- Enough fuel for the words that are left.
pub walk_total :
    (rom : Rom) (fuel a n : ℕ)
    → rom.end_addr ≡ rom.base + length rom.w
    → rom.base ≤ a
    → a ≤ rom.end_addr
    → rom.end_addr + 4 ≤ a + fuel * 4
    → (es : List TimerEntry) × (walk rom fuel a n ≡ some es)
unfolding walk
walk_total rom zero a n at_end lo hi enough = absurd (omega arith)
walk_total rom (suc fuel) a n at_end lo hi enough = elim (Bool-cases (has rom (a + 3))) [
  | inr e ↦ ([], rw (e, walk) refl)
  | inl e ↦
      let inside : a + 3 < rom.end_addr = ground (arith, e) in
      let (addr, p) = ptr-some rom a lo (omega arith) in
      let (interval, q) = ptr-some rom (a + 2) (omega arith) (omega arith) in
      let rest =
        walk_total rom fuel (a + 4) (suc n) at_end (omega arith) (omega arith) (omega arith) in
      rw (e, walk)
        (rw (p, q) (entry_or_stop-some n addr interval (walk rom fuel (a + 4) (suc n)) rest))
]

entry_or_stop_lem :
    (n : ℕ) (o p : Option ℕ) (rest : Option (List TimerEntry)) (es : List TimerEntry)
    → entry_or_stop n o p rest ≡ some es
    → (es ≡ [])
      ⊎ ((addr interval : ℕ) × (tail : List TimerEntry) × (o ≡ some addr)
          × (p ≡ some interval)
          × (addr ≢ 0)
          × (rest ≡ some tail)
          × (es ≡ entry_of n addr interval ∷ tail))
unfolding entry_or_stop cons_ok
entry_or_stop_lem n none p rest es e = absurd (cc)
entry_or_stop_lem n (some addr) none rest es e = absurd (cc)
entry_or_stop_lem n (some addr) (some interval) none es e = elim (Bool-cases (addr == 0)) [
  | inl f ↦ inl (sym (some_inj (rw f at e)))
  | inr f ↦ absurd (cc (rw f at e))
]
entry_or_stop_lem n (some addr) (some interval) (some tail) es e = elim (Bool-cases (addr == 0)) [
  | inl f ↦ inl (sym (some_inj (rw f at e)))
  | inr f ↦
      inr (addr, interval, tail, refl, refl, ground (arith, f), refl, sym (some_inj (rw f at e)))
]

-- The entry that a round adds.
abbrev pub IsEntry : Rom → ℕ → ℕ → TimerEntry → Type 0
IsEntry rom a n e =
    (addr interval : ℕ) × (has rom (a + 3) ≡ true)
    × (ptr rom a ≡ some addr)
    × (ptr rom (a + 2) ≡ some interval)
    × (addr ≢ 0)
    × (e ≡ entry_of n addr interval)

cons-IsEntry :
    (rom : Rom) (a n : ℕ) (x : TimerEntry) (tail : List TimerEntry) (k : ℕ) (e : TimerEntry)
    → IsEntry rom a n x
    → ((j : ℕ) → get_elem? tail j ≡ some e → IsEntry rom (a + 4 + j * 4) (suc n + j) e)
    → get_elem? (x ∷ tail) k ≡ some e
    → IsEntry rom (a + k * 4) (n + k) e
cons-IsEntry rom a n x tail zero e here later h =
    let same_entry : x ≡ e = some_inj h in
    let at_a : IsEntry rom a n e = subst (IsEntry rom a n) same_entry here in
    subst (λ b. IsEntry rom b (n + 0) e) (omega arith)
      (subst (λ m. IsEntry rom a m e) (omega arith) at_a)
cons-IsEntry rom a n x tail (suc k) e here later h =
    subst (λ b. IsEntry rom b (n + suc k) e) (omega arith)
      (subst (λ m. IsEntry rom (a + 4 + k * 4) m e) (omega arith) (later k h))

pub walk-IsEntry :
    (rom : Rom) (fuel a n : ℕ) (es : List TimerEntry) (k : ℕ) (e : TimerEntry)
    → walk rom fuel a n ≡ some es
    → get_elem? es k ≡ some e
    → IsEntry rom (a + k * 4) (n + k) e
unfolding walk
walk-IsEntry rom zero a n es k e ok h = absurd (cc)
walk-IsEntry rom (suc fuel) a n es k e ok h = elim (Bool-cases (has rom (a + 3))) [
  | inr f ↦ absurd (empty_list k e es (some_inj (rw (f, walk) at ok)) h)
  | inl f ↦
      elim (entry_or_stop_lem n (ptr rom a) (ptr rom (a + 2)) (walk rom fuel (a + 4) (suc n)) es
        (rw (f, walk) at ok)) [
          | inl g ↦ absurd (empty_list k e es (sym g) h)
          | inr (addr, interval, tail, p, q, used, rest, g) ↦
              cons-IsEntry rom a n (entry_of n addr interval) tail k e
                (addr, interval, f, p, q, used, refl)
                (λ j m. walk-IsEntry rom fuel (a + 4) (suc n) tail j e rest m)
                (ap (λ (xs : List TimerEntry). get_elem? xs k) (sym g) ∙ h)
        ]
]

map-some :
    (o : Option (List TimerEntry)) (es : List TimerEntry)
    → Option.map (λ xs. some xs) o ≡ some (some es)
    → o ≡ some es
map-some none es e = absurd (cc)
map-some (some xs) es e = some_inj e

entry_bits :
    (interval : ℕ)
    → (bit_and interval 0x7FFF ≡ interval % 32768)
      × (not (bit_and interval 0x8000 == 0) ≡ (interval / 32768 % 2 == 1))
entry_bits interval =
    let one_bit = bit_and_low 1 (interval / 32768) in
    let high = bit_and_shifted 15 interval 1 in
    (bit_and_low 15 interval, rw high (rw one_bit (ground arith)))

-- The timer table of the report, when it lies in the image, is read from the place that it is looked
-- for: entry k has the number k, its address, not 0, and its interval are the pointers at 4k and
-- 4k + 2 from there, all in the image, and it is stopped when the top bit of the interval is set, the
-- other 15 bits being its rate.
pub timer_table_entries :
    (rom : Rom) (tbl : ℕ) (es : List TimerEntry) (k : ℕ) (e : TimerEntry)
    → timer_table rom tbl ≡ some (some es)
    → get_elem? es k ≡ some e
    → (e.number ≡ k)
      × (e.addr ≢ 0)
      × (ptr rom (tbl + k * 4) ≡ some e.addr)
      × (ptr rom (tbl + k * 4 + 2) ≡ some e.interval)
      × (tbl + k * 4 + 3 < rom.end_addr)
      × (e.iv ≡ e.interval % 32768)
      × (e.stopped ≡ (e.interval / 32768 % 2 == 1))
unfolding timer_table
timer_table_entries rom tbl es k e ok h = elim (Bool-cases (has rom tbl)) [
  | inr f ↦ absurd (cc (rw f at ok))
  | inl f ↦
      let (addr, interval, inside, p, q, used, is_e) =
        walk-IsEntry rom (suc (length rom.w)) tbl 0 es k e
          (map-some (walk rom (suc (length rom.w)) tbl 0) es (rw f at ok)) h in
      let (iv, stopped) = entry_bits interval in
      let same_addr : addr ≡ e.addr = sym (ap (λ x. x.addr) is_e) in
      let same_interval : interval ≡ e.interval = sym (ap (λ x. x.interval) is_e) in
      (
        ap (λ x. x.number) is_e ∙ omega arith,
        rw same_addr at used,
        rw same_addr at p,
        rw same_interval at q,
        ground (arith, inside),
        rw same_interval at (ap (λ x. x.iv) is_e ∙ iv),
        rw same_interval at (ap (λ x. x.stopped) is_e ∙ stopped),
      )
]
