-- ===== src/Prelude/Bits.antt =====
-- One bit of a number: what `v & mask`, `v | mask` and `v & ~mask` do to it where `mask = 1 << k`.
use Prim.Native.Nat.{
  ℕ, zero, suc, ◌+◌, ◌-◌, ◌*◌, ◌/◌, ◌%◌, ◌^◌, ◌≤◌, ◌<◌, min, max, bit_and, bit_or, digits,
  bit_and-bitwise, bit_or-bitwise,
}
use mathlib.Core.Path.{◌≡◌, refl}
use mathlib.Core.Bool.{Bool, true, false}
use native.Mathlib.Omega.{arith}
use native.Mathlib.Nat.{pow-suc, one-le-pow}
use amitools.Prelude.Tests.{◌==◌, if◌then◌else◌}

-- The binary digit of `v` at place `k`.
abbrev pub has_bit : ℕ → ℕ → Bool
has_bit v zero = v % 2 == 1
has_bit v (suc k) = has_bit (v / 2) k

-- `v & ~mask`
abbrev pub and_not : ℕ → ℕ → ℕ
and_not v mask = v - bit_and v mask

-- Fuel above the first number changes nothing.
module _ (z : ℕ → ℕ) (f : ℕ → ℕ → ℕ) where
  digits_enough : (n m a b : ℕ) → a ≤ n → a ≤ m → digits z f n a b ≡ digits z f m a b
  digits_enough zero zero a b h k = refl
  digits_enough (suc n) zero zero b h k = refl
  digits_enough zero (suc m) zero b h k = refl
  digits_enough (suc n) (suc m) zero b h k = refl
  digits_enough (suc n) zero (suc a) b h k = absurd (omega arith)
  digits_enough zero (suc m) (suc a) b h k = absurd (omega arith)
  digits_enough (suc n) (suc m) (suc a) b h k =
      omega (arith, digits_enough n m (suc a / 2) (b / 2) (omega arith) (omega arith))

-- The lowest digit.
pub bit_and-half : (a b : ℕ) → bit_and a b ≡ bit_and (a / 2) (b / 2) * 2 + min (a % 2) (b % 2)
bit_and-half zero b = omega (arith, bit_and-bitwise 0 b, bit_and-bitwise 0 (b / 2))
bit_and-half (suc a) b = omega (
  arith,
  bit_and-bitwise (suc a) b,
  bit_and-bitwise (suc a / 2) (b / 2),
  digits_enough (λ _. 0) min a (suc a / 2) (suc a / 2) (b / 2) (omega arith) (omega arith),
)

pub bit_or-half : (a b : ℕ) → bit_or a b ≡ bit_or (a / 2) (b / 2) * 2 + max (a % 2) (b % 2)
bit_or-half zero b = omega (arith, bit_or-bitwise 0 b, bit_or-bitwise 0 (b / 2))
bit_or-half (suc a) b = omega (
  arith,
  bit_or-bitwise (suc a) b,
  bit_or-bitwise (suc a / 2) (b / 2),
  digits_enough (λ y. y) max a (suc a / 2) (suc a / 2) (b / 2) (omega arith) (omega arith),
)

bit_and-nothing : (n a : ℕ) → a ≤ n → bit_and a 0 ≡ 0
bit_and-nothing n zero h = refl
bit_and-nothing zero (suc a) h = absurd (omega arith)
bit_and-nothing (suc n) (suc a) h =
    omega (arith, bit_and-half (suc a) 0, bit_and-nothing n (suc a / 2) (omega arith))

bit_or-nothing : (n a : ℕ) → a ≤ n → bit_or a 0 ≡ a
bit_or-nothing n zero h = refl
bit_or-nothing zero (suc a) h = absurd (omega arith)
bit_or-nothing (suc n) (suc a) h =
    omega (arith, bit_or-half (suc a) 0, bit_or-nothing n (suc a / 2) (omega arith))

pub pow_pos : (k : ℕ) → 0 < 2 ^ k
pow_pos k = one-le-pow k 2 (omega arith)

-- `v & mask` is the mask where the bit is set, and else 0.
pub bit_and-mask : (v k : ℕ) → bit_and v (2 ^ k) ≡ (if has_bit v k then 2 ^ k else 0)
bit_and-mask v zero =
    ground (arith, bit_and-half v 1, bit_and-nothing (v / 2) (v / 2) (omega arith))
bit_and-mask v (suc k) =
    ground (arith, bit_and-half v (2 ^ suc k), pow-suc 2 k, bit_and-mask (v / 2) k)

pub has_bit-test : (v k : ℕ) → (bit_and v (2 ^ k) == 2 ^ k) ≡ has_bit v k
has_bit-test v k = ground (arith, bit_and-mask v k, pow_pos k)

-- `v | mask` adds the mask where the bit is clear.
pub bit_or-mask : (v k : ℕ) → bit_or v (2 ^ k) ≡ (if has_bit v k then v else v + 2 ^ k)
bit_or-mask v zero = ground (arith, bit_or-half v 1, bit_or-nothing (v / 2) (v / 2) (omega arith))
bit_or-mask v (suc k) =
    ground (arith, bit_or-half v (2 ^ suc k), pow-suc 2 k, bit_or-mask (v / 2) k)

half-add-pow : (v k : ℕ) → (v + 2 ^ suc k) / 2 ≡ v / 2 + 2 ^ k
half-add-pow v k = omega (arith, pow-suc 2 k)

half-sub-pow : (v k : ℕ) → (v - 2 ^ suc k) / 2 ≡ v / 2 - 2 ^ k
half-sub-pow v k = omega (arith, pow-suc 2 k)

pub has_bit-add :
    (v k j : ℕ)
    → has_bit v k ≡ false
    → has_bit (v + 2 ^ k) j ≡ (if j == k then true else has_bit v j)
has_bit-add v zero zero h = ground arith
has_bit-add v zero (suc j) h = let e : (v + 1) / 2 ≡ v / 2 = ground arith in rw e (ground arith)
has_bit-add v (suc k) zero h = ground (arith, pow-suc 2 k)
has_bit-add v (suc k) (suc j) h = rw (half-add-pow v k) (ground (arith, has_bit-add (v / 2) k j h))

-- A bit that is set stands for a part of the number.
pub pow-le_of_has_bit : (v k : ℕ) → has_bit v k ≡ true → 2 ^ k ≤ v
pow-le_of_has_bit v zero h = ground arith
pow-le_of_has_bit v (suc k) h = omega (arith, pow-suc 2 k, pow-le_of_has_bit (v / 2) k h)

pub has_bit-sub :
    (v k j : ℕ)
    → has_bit v k ≡ true
    → has_bit (v - 2 ^ k) j ≡ (if j == k then false else has_bit v j)
has_bit-sub v zero zero h = ground arith
has_bit-sub v zero (suc j) h = let e : (v - 1) / 2 ≡ v / 2 = ground arith in rw e (ground arith)
has_bit-sub v (suc k) zero h = ground (arith, pow-suc 2 k, pow-le_of_has_bit v (suc k) h)
has_bit-sub v (suc k) (suc j) h = rw (half-sub-pow v k) (ground (arith, has_bit-sub (v / 2) k j h))

-- Setting a clear bit below the width keeps the number below it.
pub add-pow-lt : (w v k : ℕ) → has_bit v k ≡ false → k < w → v < 2 ^ w → v + 2 ^ k < 2 ^ w
add-pow-lt zero v k h l b = absurd (omega arith)
add-pow-lt (suc w) v zero h l b = ground (arith, pow-suc 2 w)
add-pow-lt (suc w) v (suc k) h l b = omega (
  arith,
  pow-suc 2 w,
  pow-suc 2 k,
  add-pow-lt w (v / 2) k h (omega arith) (omega (arith, pow-suc 2 w)),
)

pub has_bit-zero : (k : ℕ) → has_bit 0 k ≡ false
has_bit-zero zero = refl
has_bit-zero (suc k) = has_bit-zero k
