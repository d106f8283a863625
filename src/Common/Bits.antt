-- ===== src/Common/Bits.antt =====
-- The bitwise operations at variables: the lowest digit of a result comes from the lowest digits, and
-- the rest from the halves.
use Prim.Native.Nat.{
  ℕ, zero, suc, ◌+◌, ◌*◌, ◌/◌, ◌%◌, ◌≤◌, max, min, bit_or, bit_and, digits, bitwise, bit_or-bitwise,
  bit_and-bitwise, bit_xor, bit_xor-bitwise, differ,
}
use mathlib.Core.Path.{◌≡◌, refl, sym}
use mathlib.Core.Logic.{◌↔◌}
use native.Mathlib.Omega.{arith}

-- The native operations count the digits to go by the number itself; more of them change nothing.
module _ (over : ℕ → ℕ) (digit : ℕ → ℕ → ℕ) where
  enough_digits :
      (cap n a b : ℕ) → n ≤ cap → a ≤ n → digits over digit n a b ≡ bitwise over digit a b
  enough_digits cap zero zero b within small = refl
  enough_digits cap zero (suc a) b within small = absurd (omega arith)
  enough_digits cap (suc n) zero b within small = refl
  enough_digits zero (suc n) (suc a) b within small = absurd (omega arith)
  enough_digits (suc cap) (suc n) (suc a) b within small =
      let half = suc a / 2 in
      let left = enough_digits cap n half (b / 2) (omega arith) (omega arith) in
      let right = enough_digits cap a half (b / 2) (omega arith) (omega arith) in
      omega (arith, left, right)

  halved :
      (a b : ℕ)
      → digit (suc a % 2) (b % 2) + 2 * bitwise over digit (suc a / 2) (b / 2)
        ≡ bitwise over digit (suc a) b
  halved a b = omega (arith, enough_digits a a (suc a / 2) (b / 2) (omega arith) (omega arith))

zero-bit_or : (b : ℕ) → bit_or 0 b ≡ b
zero-bit_or b = bit_or-bitwise 0 b

zero-bit_and : (b : ℕ) → bit_and 0 b ≡ 0
zero-bit_and b = bit_and-bitwise 0 b

bit_or_halved : (a b : ℕ) → max (a % 2) (b % 2) + 2 * bit_or (a / 2) (b / 2) ≡ bit_or a b
bit_or_halved zero b = omega (arith, zero-bit_or b, zero-bit_or (b / 2))
bit_or_halved (suc a) b = simp bit_or-bitwise (halved (λ d. d) max a b)

bit_and_halved : (a b : ℕ) → min (a % 2) (b % 2) + 2 * bit_and (a / 2) (b / 2) ≡ bit_and a b
bit_and_halved zero b = omega (arith, zero-bit_and b, zero-bit_and (b / 2))
bit_and_halved (suc a) b = simp bit_and-bitwise (halved (λ d. 0) min a b)

bit_or-ge_fuel : (n a b : ℕ) → a ≤ n → (a ≤ bit_or a b) × (b ≤ bit_or a b)
bit_or-ge_fuel n zero b h = (omega arith, omega (arith, zero-bit_or b))
bit_or-ge_fuel zero (suc a) b h = absurd (omega arith)
bit_or-ge_fuel (suc n) (suc a) b h =
    let ih = bit_or-ge_fuel n (suc a / 2) (b / 2) (omega arith) in
    (omega (arith, bit_or_halved (suc a) b, ih.0), omega (arith, bit_or_halved (suc a) b, ih.1))

-- An or is zero exactly where both sides are.
pub bit_or-eq_zero : (a b : ℕ) → (bit_or a b ≡ 0) ↔ ((a ≡ 0) × (b ≡ 0))
bit_or-eq_zero a b = (
  (λ e.
      let ge = bit_or-ge_fuel a a b (omega arith) in
      (omega (arith, ge.0, e), omega (arith, ge.1, e))),
  both a b,
)
  where
    both : (a b : ℕ) → (a ≡ 0) × (b ≡ 0) → bit_or a b ≡ 0
    both zero zero h = refl
    both zero (suc b) h = absurd (omega arith)
    both (suc a) b h = absurd (omega arith)

bit_and-zero_fuel : (n a : ℕ) → a ≤ n → bit_and a 0 ≡ 0
bit_and-zero_fuel n zero h = bit_and-bitwise 0 0
bit_and-zero_fuel zero (suc a) h = absurd (omega arith)
bit_and-zero_fuel (suc n) (suc a) h =
    omega (arith, bit_and_halved (suc a) 0, bit_and-zero_fuel n (suc a / 2) (omega arith))

-- An and with a mask of ones is a remainder.
pub bit_and-1 : (a : ℕ) → bit_and a 1 ≡ a % 2
bit_and-1 a = omega (arith, bit_and_halved a 1, bit_and-zero_fuel (a / 2) (a / 2) (omega arith))

pub bit_and-3 : (a : ℕ) → bit_and a 3 ≡ a % 4
bit_and-3 a = omega (arith, bit_and_halved a 3, bit_and-1 (a / 2))

pub bit_and-7 : (a : ℕ) → bit_and a 7 ≡ a % 8
bit_and-7 a = omega (arith, bit_and_halved a 7, bit_and-3 (a / 2))

pub bit_and-15 : (a : ℕ) → bit_and a 15 ≡ a % 16
bit_and-15 a = omega (arith, bit_and_halved a 15, bit_and-7 (a / 2))

pub bit_and-31 : (a : ℕ) → bit_and a 31 ≡ a % 32
bit_and-31 a = omega (arith, bit_and_halved a 31, bit_and-15 (a / 2))

pub bit_and-63 : (a : ℕ) → bit_and a 63 ≡ a % 64
bit_and-63 a = omega (arith, bit_and_halved a 63, bit_and-31 (a / 2))

pub bit_and-127 : (a : ℕ) → bit_and a 127 ≡ a % 128
bit_and-127 a = omega (arith, bit_and_halved a 127, bit_and-63 (a / 2))

bit_xor_halved : (a b : ℕ) → differ (a % 2) (b % 2) + 2 * bit_xor (a / 2) (b / 2) ≡ bit_xor a b
bit_xor_halved zero b = omega (arith, bit_xor-bitwise 0 b, bit_xor-bitwise 0 (b / 2))
bit_xor_halved (suc a) b = simp bit_xor-bitwise (halved (λ d. d) differ a b)

differ_lem : (x y : ℕ) → x ≤ 1 → y ≤ 1 → (differ x y ≤ 1) × (differ x y ≡ 0 → x ≡ y)
differ_lem zero zero h k = (omega arith, λ e. refl)
differ_lem zero (suc zero) h k = (omega arith, λ e. absurd (omega arith))
differ_lem (suc zero) zero h k = (omega arith, λ e. absurd (omega arith))
differ_lem (suc zero) (suc zero) h k = (omega arith, λ e. refl)
differ_lem zero (suc (suc y)) h k = absurd (omega arith)
differ_lem (suc zero) (suc (suc y)) h k = absurd (omega arith)
differ_lem (suc (suc x)) y h k = absurd (omega arith)

-- k binary digits that are 1
abbrev pub ones : ℕ → ℕ
ones zero = 0
ones (suc k) = 1 + 2 * ones k

-- Where an exclusive or has no bit within a mask of ones, the numbers are the same.
pub same_bits : (k v b : ℕ) → v ≤ ones k → b ≤ ones k → bit_and (ones k) (bit_xor v b) ≡ 0 → v ≡ b
same_bits zero v b h l e = omega arith
same_bits (suc k) v b h l e =
    let (one, same) = differ_lem (v % 2) (b % 2) (omega arith) (omega arith) in
    let x = bit_xor v b in
    let low : differ (v % 2) (b % 2) ≡ x % 2 = omega (arith, bit_xor_halved v b, one) in
    let high : bit_xor (v / 2) (b / 2) ≡ x / 2 = omega (arith, bit_xor_halved v b, one) in
    let half : ones (suc k) / 2 ≡ ones k = omega arith in
    let all = bit_and_halved (ones (suc k)) x in
    let bit : differ (v % 2) (b % 2) ≡ 0 = omega (arith, all, e, low) in
    let rest : bit_and (ones k) (bit_xor (v / 2) (b / 2)) ≡ 0 =
      rw (high, sym half) (omega (arith, all, e)) in
    omega (arith, same bit, same_bits k (v / 2) (b / 2) (omega arith) (omega arith) rest)
