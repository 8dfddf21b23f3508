-- ===== src/Base/Bits.antt =====
-- `a & m` for a mask m of b ones with k zeroes behind them.
use Prim.Native.Nat.{
  ℕ, zero, suc, ◌+◌, ◌*◌, ◌/◌, ◌%◌, ◌^◌, ◌≤◌, ◌<◌, min, bit_and, digits, bit_and-bitwise,
}
use mathlib.Core.Logic.{inl, inr}
use pna.Base.Tests.{◌==◌, nat_eq, Bool-cases}
use mathlib.Core.Path.{◌≡◌, refl, ap, sym, ◌∙◌}
use native.Mathlib.Nat.{pow-suc, pow-succ', div-div-eq-div-mul, mul-div_cancel}
use native.Mathlib.Omega.{arith}

abbrev pub ones : ℕ → ℕ
ones zero = 0
ones (suc b) = 2 * ones b + 1

abbrev pub mask : ℕ → ℕ → ℕ
mask b zero = ones b
mask b (suc k) = 2 * mask b k

-- What the mask leaves of a number, digit by digit.
abbrev low : ℕ → ℕ → ℕ
low a zero = 0
low a (suc b) = a % 2 + 2 * low (a / 2) b

abbrev high : ℕ → ℕ → ℕ → ℕ
high a b zero = low a b
high a b (suc k) = 2 * high (a / 2) b k

abbrev and_digits : ℕ → ℕ → ℕ → ℕ
and_digits = digits (λ b. zero) min

zero-low : (b : ℕ) → low 0 b ≡ 0
zero-low zero = refl
zero-low (suc b) = omega (arith, zero-low b)

zero-high : (b k : ℕ) → high 0 b k ≡ 0
zero-high b zero = zero-low b
zero-high b (suc k) = omega (arith, zero-high b k)

and_digits-ones : (n a b : ℕ) → a ≤ n → and_digits n a (ones b) ≡ low a b
and_digits-ones zero zero b h = omega (arith, zero-low b)
and_digits-ones zero (suc a) b h = absurd (omega arith)
and_digits-ones (suc n) zero b h = omega (arith, zero-low b)
and_digits-ones (suc n) (suc a) zero h =
    omega (arith, and_digits-ones n (suc a / 2) zero (omega arith))
and_digits-ones (suc n) (suc a) (suc b) h =
    let half : (2 * ones b + 1) / 2 ≡ ones b = omega arith in
    omega (arith, ap (and_digits n (suc a / 2)) half, and_digits-ones n (suc a / 2) b (omega arith))

and_digits-mask : (n a b k : ℕ) → a ≤ n → and_digits n a (mask b k) ≡ high a b k
and_digits-mask n a b zero h = and_digits-ones n a b h
and_digits-mask zero zero b (suc k) h = omega (arith, zero-high b k)
and_digits-mask zero (suc a) b (suc k) h = absurd (omega arith)
and_digits-mask (suc n) zero b (suc k) h = omega (arith, zero-high b k)
and_digits-mask (suc n) (suc a) b (suc k) h =
    let half : 2 * mask b k / 2 ≡ mask b k = omega arith in
    omega
      (arith, ap (and_digits n (suc a / 2)) half, and_digits-mask n (suc a / 2) b k (omega arith))

pub pow_add : (m n : ℕ) → 2 ^ (m + n) ≡ 2 ^ m * 2 ^ n
pow_add m zero = let e : m + zero ≡ m = omega arith in rw e (omega arith)
pow_add m (suc n) =
    let e : m + suc n ≡ suc (m + n) = omega arith in
    rw (e, pow-suc 2 (m + n), pow-suc 2 n) (omega (arith, pow_add m n))

pub pow_pos : (n : ℕ) → 0 < 2 ^ n
pow_pos zero = omega arith
pow_pos (suc n) = omega (arith, pow_pos n, pow-suc 2 n)

low_small : (a b : ℕ) → a < 2 ^ b → low a b ≡ a
low_small a zero h = omega arith
low_small a (suc b) h = omega (arith, low_small (a / 2) b (omega (arith, pow-suc 2 b)))

high_small : (a b k : ℕ) → a < 2 ^ k * 2 ^ b → high a b k ≡ a / 2 ^ k * 2 ^ k
high_small a b zero h = omega (arith, low_small a b (omega arith))
high_small a b (suc k) h =
    let bound : a < 2 * 2 ^ k * 2 ^ b = rw (pow-succ' 2 k) at h in
    let q = a / 2 / 2 ^ k in
    let upper : high (a / 2) b k ≡ q * 2 ^ k = high_small (a / 2) b k (omega arith) in
    let same : q ≡ a / (2 * 2 ^ k) = div-div-eq-div-mul a 2 (2 ^ k) in
    rw (pow-succ' 2 k, ← same) (omega arith)

-- A number of b + k digits keeps its upper b digits.
pub bit_and-mask : (a b k : ℕ) → a < 2 ^ k * 2 ^ b → bit_and a (mask b k) ≡ a / 2 ^ k * 2 ^ k
bit_and-mask a b k h =
    bit_and-bitwise a (mask b k) ∙ and_digits-mask a a b k (omega arith) ∙ high_small a b k h

mul_cancel : (x y p : ℕ) → 0 < p → x * p ≡ y * p → x ≡ y
mul_cancel x y p h e = sym (mul-div_cancel x h) ∙ (ap (λ (t : ℕ). t / p) e ∙ mul-div_cancel y h)

-- Cancelling a positive factor on both sides of a test.
pub mul_beq : (x y p : ℕ) → 0 < p → (x * p == y * p) ≡ (x == y)
mul_beq x y p h = elim (Bool-cases (x == y)) [
  | inl same ↦
      let e : x ≡ y = ground arith in
      let products : x * p ≡ y * p = ap (λ t. t * p) e in ground arith
  | inr other ↦ ground (arith, λ (e : x * p ≡ y * p). mul_cancel x y p h e)
]
