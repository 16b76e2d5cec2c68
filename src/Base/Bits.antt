-- ===== src/Base/Bits.antt =====
-- `|`, `&` and shifts as arithmetic: the native operations have no laws at variables.
use Prim.Native.Nat.{
  ℕ, zero, suc, ◌+◌, ◌-◌, ◌*◌, ◌/◌, ◌%◌, ◌^◌, ◌≤◌, ◌<◌, min, max, bit_and, bit_or, digits,
  bit_and-bitwise, bit_or-bitwise,
}
use mathlib.Core.Path.{◌≡◌, refl, ap, ◌∙◌}
use native.Mathlib.Nat.{
  pow-suc, one-le-pow, div-div-eq-div-mul, mod-eq-sub-div-mul, div-mul-le_self,
}
use native.Mathlib.Omega.{arith}

-- More fuel than digits changes nothing.
module _ (last : ℕ → ℕ) (digit : ℕ → ℕ → ℕ) where
  digits-enough : (x y k l : ℕ) → x ≤ k → x ≤ l → digits last digit k x y ≡ digits last digit l x y
  digits-enough zero y zero zero hk hl = refl
  digits-enough zero y zero (suc l) hk hl = refl
  digits-enough zero y (suc k) zero hk hl = refl
  digits-enough zero y (suc k) (suc l) hk hl = refl
  digits-enough (suc x) y zero l hk hl = absurd (omega arith)
  digits-enough (suc x) y (suc k) zero hk hl = absurd (omega arith)
  digits-enough (suc x) y (suc k) (suc l) hk hl =
      ap (λ d. d * 2 + digit (suc x % 2) (y % 2))
        (digits-enough (suc x / 2) (y / 2) k l (omega arith) (omega arith))

-- The lowest digit, and the others.
bit_or-halves : (x y : ℕ) → bit_or x y ≡ bit_or (x / 2) (y / 2) * 2 + max (x % 2) (y % 2)
bit_or-halves zero y = simp bit_or-bitwise (omega arith)
bit_or-halves (suc x) y = simp bit_or-bitwise (
    omega (
      arith,
      digits-enough (λ b. b) max (suc x / 2) (y / 2) x (suc x / 2) (omega arith) (omega arith),
    ))

bit_and-halves : (x y : ℕ) → bit_and x y ≡ bit_and (x / 2) (y / 2) * 2 + min (x % 2) (y % 2)
bit_and-halves zero y = simp bit_and-bitwise (omega arith)
bit_and-halves (suc x) y = simp bit_and-bitwise (
    omega (
      arith,
      digits-enough (λ b. 0) min (suc x / 2) (y / 2) x (suc x / 2) (omega arith) (omega arith),
    ))

-- The left number without a right one.
or_none : (k x : ℕ) → x ≤ k → bit_or x 0 ≡ x
or_none zero x h = ground (arith, bit_or-halves x 0)
or_none (suc k) zero h = refl
or_none (suc k) (suc x) h =
    omega (arith, bit_or-halves (suc x) 0, or_none k (suc x / 2) (omega arith))

and_none : (k x : ℕ) → x ≤ k → bit_and x 0 ≡ 0
and_none zero zero h = refl
and_none zero (suc x) h = absurd (omega arith)
and_none (suc k) zero h = refl
and_none (suc k) (suc x) h =
    omega (arith, bit_and-halves (suc x) 0, and_none k (suc x / 2) (omega arith))

double-pow : (m k : ℕ) → m * 2 ^ suc k ≡ m * 2 ^ k * 2
double-pow m k = omega (arith, ap (λ (p : ℕ). m * p) (pow-suc 2 k))

-- `(hi << k) | lo`, where `lo` has at most `k` digits.
pub bit_or_disjoint : (k hi lo : ℕ) → lo < 2 ^ k → bit_or (hi * 2 ^ k) lo ≡ hi * 2 ^ k + lo
bit_or_disjoint zero hi lo h = ground (arith, or_none hi hi)
bit_or_disjoint (suc k) hi lo h =
    let halved : hi * 2 ^ suc k / 2 ≡ hi * 2 ^ k = omega (arith, double-pow hi k) in
    let even : hi * 2 ^ suc k % 2 ≡ 0 = omega (arith, double-pow hi k) in
    let rest = bit_or_disjoint k hi (lo / 2) (omega (arith, pow-suc 2 k)) in
    bit_or-halves (hi * 2 ^ suc k) lo ∙ (rw (halved, even, rest) (omega (arith, double-pow hi k)))

bit_or_comm_within : (k x y : ℕ) → x ≤ k → y ≤ k → bit_or x y ≡ bit_or y x
bit_or_comm_within zero zero zero h g = refl
bit_or_comm_within zero zero (suc y) h g = absurd (omega arith)
bit_or_comm_within zero (suc x) y h g = absurd (omega arith)
bit_or_comm_within (suc k) x y h g =
    let rest = bit_or_comm_within k (x / 2) (y / 2) (omega arith) (omega arith) in
    omega (arith, bit_or-halves x y, bit_or-halves y x, rest)

pub bit_or_comm : (x y : ℕ) → bit_or x y ≡ bit_or y x
bit_or_comm x y = bit_or_comm_within (x + y) x y (omega arith) (omega arith)

-- A word from its low byte and its high byte.
pub bit_or_word : (n : ℕ) → bit_or (n % 256) (n / 256 * 256) ≡ n
bit_or_word n =
    bit_or_comm (n % 256) (n / 256 * 256)
    ∙ omega (arith, bit_or_disjoint 8 (n / 256) (n % 256) (omega arith))

halve : (x k : ℕ) → x / 2 / 2 ^ k ≡ x / 2 ^ suc k
halve x k = div-div-eq-div-mul x 2 (2 ^ k) ∙ ap (λ p. x / p) (omega (arith, pow-suc 2 k))

-- `x & (m << k)` is `((x >> k) & m) << k`.
pub bit_and_shifted : (k x m : ℕ) → bit_and x (m * 2 ^ k) ≡ bit_and (x / 2 ^ k) m * 2 ^ k
bit_and_shifted zero x m =
    let whole : x / 2 ^ 0 ≡ x = omega arith in
    let once : m * 2 ^ 0 ≡ m = omega arith in rw (whole, once) (omega arith)
bit_and_shifted (suc k) x m =
    let halved : m * 2 ^ suc k / 2 ≡ m * 2 ^ k = omega (arith, double-pow m k) in
    let even : m * 2 ^ suc k % 2 ≡ 0 = omega (arith, double-pow m k) in
    bit_and-halves x (m * 2 ^ suc k)
    ∙ (rw (halved, even, bit_and_shifted k (x / 2) m, halve x k)
        (omega (arith, double-pow (bit_and (x / 2 ^ suc k) m) k)))

-- `x & (2 ^ k - 1)`
pub bit_and_low : (k x : ℕ) → bit_and x (2 ^ k - 1) ≡ x % 2 ^ k
bit_and_low zero x = and_none x x (omega arith) ∙ omega arith
bit_and_low (suc k) x =
    let halved : (2 ^ suc k - 1) / 2 ≡ 2 ^ k - 1 = omega (arith, pow-suc 2 k, one-le-pow k 2) in
    let odd : (2 ^ suc k - 1) % 2 ≡ 1 = omega (arith, pow-suc 2 k, one-le-pow k 2) in
    bit_and-halves x (2 ^ suc k - 1)
    ∙ (rw (halved, odd, bit_and_low k (x / 2))
        (omega (
          arith,
          mod-eq-sub-div-mul x (2 ^ suc k),
          mod-eq-sub-div-mul (x / 2) (2 ^ k),
          div-mul-le_self (x / 2) (2 ^ k),
          ap (λ (q : ℕ). q * 2 ^ k) (halve x k),
          double-pow (x / 2 ^ suc k) k,
        )))
