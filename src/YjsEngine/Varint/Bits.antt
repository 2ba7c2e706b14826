-- ===== src/YjsEngine/Varint/Bits.antt =====
-- The native `bit_or` of two numbers whose binary digits do not meet.
use Prim.Native.Nat.{
  ℕ, zero, suc, ◌+◌, ◌*◌, ◌/◌, ◌%◌, ◌^◌, ◌≤◌, ◌<◌, max, bit_or, digits, bit_or-bitwise,
}
use mathlib.Core.Path.{◌≡◌, refl, ap}
use native.Mathlib.Omega.{arith}

-- More rounds than the number has digits change nothing.
digits_enough :
    (n m a b : ℕ) → a ≤ n → a ≤ m → digits (λ c. c) max n a b ≡ digits (λ c. c) max m a b
digits_enough zero zero a b p q = refl
digits_enough zero (suc m) zero b p q = refl
digits_enough zero (suc m) (suc a) b p q = absurd (omega arith)
digits_enough (suc n) zero zero b p q = refl
digits_enough (suc n) zero (suc a) b p q = absurd (omega arith)
digits_enough (suc n) (suc m) zero b p q = refl
digits_enough (suc n) (suc m) (suc a) b p q =
    omega (arith, digits_enough n m (suc a / 2) (b / 2) (omega arith) (omega arith))

bit_or_zero : (b : ℕ) → bit_or 0 b ≡ b
bit_or_zero b = bit_or-bitwise 0 b

-- The lowest digit is the larger of the two.
bit_or_half : (a b : ℕ) → bit_or a b ≡ bit_or (a / 2) (b / 2) * 2 + max (a % 2) (b % 2)
bit_or_half zero b = omega (arith, bit_or_zero b, bit_or_zero (b / 2))
bit_or_half (suc a) b = omega (
  arith,
  bit_or-bitwise (suc a) b,
  bit_or-bitwise (suc a / 2) (b / 2),
  digits_enough a (suc a / 2) (suc a / 2) (b / 2) (omega arith) (omega arith),
)

-- Below the place where the second number begins, the first has its digits to itself.
pub bit_or_disjoint : (s a b : ℕ) → a < 2 ^ s → bit_or a (b * 2 ^ s) ≡ a + b * 2 ^ s
bit_or_disjoint zero zero b h = omega (arith, bit_or_zero (b * 1))
bit_or_disjoint zero (suc a) b h = absurd (omega arith)
bit_or_disjoint (suc s) a b h =
    let p : 2 ^ suc s ≡ 2 * 2 ^ s = omega arith in
    let q : b * 2 ^ suc s ≡ 2 * (b * 2 ^ s) = omega (arith, ap (λ (t : ℕ). b * t) p) in
    let half : (b * 2 ^ suc s) / 2 ≡ b * 2 ^ s = omega (arith, q) in
    let r : bit_or (a / 2) ((b * 2 ^ suc s) / 2) ≡ a / 2 + b * 2 ^ s =
      rw half (bit_or_disjoint s (a / 2) b (omega (arith, h, p))) in
    omega (arith, bit_or_half a (b * 2 ^ suc s), r, q)
