-- ===== src/Base/Bits.antt =====
-- The bitwise or with a run of low ones, as arithmetic.
use Prim.Native.Nat.{digits, max, bit_or-bitwise}
use log2bgp.Base.{
  ℕ, zero, suc, ◌+◌, ◌-◌, ◌*◌, ◌/◌, ◌%◌, ◌^◌, ◌≤◌, ◌<◌, ◌≡◌, refl, ap, bit_or, arith,
}
use native.Mathlib.Nat.{pow-suc, one-le-pow}

-- The digits of the larger numbers are computed on fuel, and more fuel changes nothing.
abbrev or_digits : (fuel a b : ℕ) → ℕ
or_digits = digits (λ rest. rest) max

or_digits-fuel : (f g a b : ℕ) → a ≤ f → a ≤ g → or_digits f a b ≡ or_digits g a b
or_digits-fuel (suc f) (suc g) (suc a) b p q =
    omega (arith, or_digits-fuel f g (suc a / 2) (b / 2) (omega arith) (omega arith))
or_digits-fuel (suc f) (suc g) zero b p q = refl
or_digits-fuel (suc f) zero (suc a) b p q = absurd (omega arith)
or_digits-fuel (suc f) zero zero b p q = refl
or_digits-fuel zero g (suc a) b p q = absurd (omega arith)
or_digits-fuel zero (suc g) zero b p q = refl
or_digits-fuel zero zero zero b p q = refl

-- The lowest digit of an or.
bit_or-lowest : (a b : ℕ) → bit_or a b ≡ bit_or (a / 2) (b / 2) * 2 + max (a % 2) (b % 2)
bit_or-lowest zero b = omega (arith, bit_or-bitwise 0 b, bit_or-bitwise 0 (b / 2))
bit_or-lowest (suc a) b = omega (
  arith,
  bit_or-bitwise (suc a) b,
  bit_or-bitwise (suc a / 2) (b / 2),
  or_digits-fuel a (suc a / 2) (suc a / 2) (b / 2) (omega arith) (omega arith),
)

bit_or-zero_fuel : (fuel a : ℕ) → a ≤ fuel → bit_or a 0 ≡ a
bit_or-zero_fuel fuel zero h = refl
bit_or-zero_fuel zero (suc a) h = absurd (omega arith)
bit_or-zero_fuel (suc fuel) (suc a) h =
    omega (arith, bit_or-lowest (suc a) 0, bit_or-zero_fuel fuel (suc a / 2) (omega arith))

double : (q k : ℕ) → q * 2 ^ suc k ≡ 2 * (q * 2 ^ k)
double q k = omega (arith, ap (λ (t : ℕ). q * t) (pow-suc 2 k))

-- With k low ones, the last k digits are ones and the others stay.
pub bit_or-ones :
    (k q r : ℕ) → r < 2 ^ k → bit_or (q * 2 ^ k + r) (2 ^ k - 1) ≡ q * 2 ^ k + (2 ^ k - 1)
bit_or-ones zero q r h = ground (arith, bit_or-zero_fuel q q (omega arith))
bit_or-ones (suc k) q r h = ground (
  arith,
  bit_or-lowest (q * 2 ^ suc k + r) (2 ^ suc k - 1),
  double q k,
  pow-suc 2 k,
  one-le-pow k 2,
  bit_or-ones k q (r / 2) (omega (arith, pow-suc 2 k)),
)
