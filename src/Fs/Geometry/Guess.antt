-- ===== src/Fs/Geometry/Guess.antt =====
-- The guesses of a geometry: they fit into the size.
use amitools.Prelude.{
  ℕ, zero, suc, ◌+◌, ◌*◌, ◌/◌, ◌≤◌, ◌<◌, ◌≡◌, inl, inr, refl, ap, ◌∙◌, true, false, leb, arith,
  Bool-cases,
}
use native.Mathlib.Nat.{div-mul-le_self, mul-div_cancel, mul-le-mul_right}
use amitools.Fs.Geometry.{heads_for, halve}

pub regroup : (q r s h bb : ℕ) → q * r * s * h * bb ≡ q * s * (h * r) * bb
regroup q r s h bb = grind arith

pub product_assoc : (q s h bb : ℕ) → q * s * h * bb ≡ q * (s * h) * bb
product_assoc q s h bb = grind arith

-- What is reported fits.
pub fits-size : (size bb s h : ℕ) → size / bb / (s * h) * s * h * bb ≤ size
fits-size size bb s h =
    let x = size / bb in
    omega (
      arith,
      mul-le-mul_right bb (div-mul-le_self x (s * h)),
      div-mul-le_self size bb,
      product_assoc (x / (s * h)) s h bb,
    )

-- The same number of heads or fewer, by a factor, fit just as well.
pub refit : (q r s h bb : ℕ) → 0 < bb → 0 < s * h → (q * s * (h * r) * bb) / bb / (s * h) ≡ q * r
refit q r s h bb hb hs =
    ap (λ x. x / (s * h)) (mul-div_cancel (q * s * (h * r)) hb)
    ∙ ap (λ x. x / (s * h)) (factor q r s h)
    ∙ mul-div_cancel (q * r) hs
  where
    factor : (q r s h : ℕ) → q * s * (h * r) ≡ q * r * (s * h)
    factor q r s h = grind arith

-- The heads for a size are those for a smaller one times a power of two.
pub heads_for-factor : (m n : ℕ) → m ≤ n → (r : ℕ) × (heads_for n ≡ heads_for m * r)
unfolding heads_for
heads_for-factor m n h = (heads_for n / heads_for m, ground arith)

halve_zero : (c h : ℕ) → halve 0 c h ≡ (c, h)
unfolding halve
halve_zero c h = refl

halve_stop : (fuel c h : ℕ) → leb c 65535 ≡ true → halve (suc fuel) c h ≡ (c, h)
unfolding halve
halve_stop fuel c h e = ground (arith, e)

halve_step :
    (fuel c h : ℕ) → leb c 65535 ≡ false → halve (suc fuel) c h ≡ halve fuel (c / 2) (h * 2)
unfolding halve
halve_step fuel c h e = ground (arith, e)

abbrev pub product : ℕ × ℕ → ℕ
product p = p.0 * p.1

-- The loop keeps the product up to what it rounds off.
pub halve-le : (fuel c h : ℕ) → product (halve fuel c h) ≤ c * h
halve-le zero c h = rw (halve_zero c h) (omega arith)
halve-le (suc fuel) c h = elim (Bool-cases (leb c 65535)) [
  | inl e ↦ rw (halve_stop fuel c h e) (omega arith)
  | inr e ↦
      rw (halve_step fuel c h e)
        (grind (arith, halve-le fuel (c / 2) (h * 2), mul-le-mul_right h (div-mul-le_self c 2)))
]

-- With the cylinders as fuel the loop ends with a number of cylinders that the disk can hold.
pub halve-low : (fuel c h : ℕ) → c ≤ fuel → (halve fuel c h).0 ≤ 65535
unfolding halve
halve-low zero c h k = omega arith
halve-low (suc fuel) c h k = ground (arith, halve-low fuel (c / 2) (h * 2))

-- A number of cylinders that is a low one doubled is halved with nothing lost.
unfoldable pub doubled : ℕ → ℕ → ℕ
doubled zero c = c
doubled (suc k) c = doubled k c + doubled k c

double_div : (d : ℕ) → (d + d) / 2 ≡ d
double_div d = omega arith

pub halve-exact :
    (fuel k c h : ℕ) → c ≤ 65535 → product (halve fuel (doubled k c) h) ≡ doubled k c * h
unfolding doubled
halve-exact zero k c h e = rw (halve_zero (doubled k c) h) refl
halve-exact (suc fuel) zero c h e = rw (halve_stop fuel c h (ground arith)) refl
halve-exact (suc fuel) (suc k) c h e = elim (Bool-cases (leb (doubled k c + doubled k c) 65535)) [
  | inl f ↦ rw (halve_stop fuel _ h f) refl
  | inr f ↦
      rw (halve_step fuel _ h f, double_div (doubled k c))
        (grind (arith, halve-exact fuel k c (h * 2) e))
]

pub doubled_mul : (k c : ℕ) → doubled k c ≡ c * doubled k 1
unfolding doubled
doubled_mul zero c = omega arith
doubled_mul (suc k) c = grind (arith, doubled_mul k c)

doubled-twice : (k h : ℕ) → doubled k (h * 2) ≡ doubled (suc k) h
unfolding doubled
doubled-twice zero h = omega arith
doubled-twice (suc k) h = omega (arith, doubled-twice k h)

-- The heads that the loop returns are the first ones doubled.
pub halve-doubled : (fuel c h : ℕ) → (k : ℕ) × ((halve fuel c h).1 ≡ doubled k h)
unfolding doubled
halve-doubled zero c h = (0, ap (λ p. p.1) (halve_zero c h))
halve-doubled (suc fuel) c h = elim (Bool-cases (leb c 65535)) [
  | inl e ↦ (0, ap (λ p. p.1) (halve_stop fuel c h e))
  | inr e ↦
      let (k, f) = halve-doubled fuel (c / 2) (h * 2) in
      (suc k, ap (λ p. p.1) (halve_step fuel c h e) ∙ f ∙ doubled-twice k h)
]
