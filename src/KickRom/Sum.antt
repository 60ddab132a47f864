-- ===== src/KickRom/Sum.antt =====
-- The sum of `calc_check_sum`: the sum of the longs up to multiples of 2 ^ 32 - 1.
use amitools.Prelude.{
  ℕ, zero, suc, ◌+◌, ◌*◌, ◌^◌, ◌≤◌, ◌<◌, ◌≡◌, inl, inr, refl, Option, none, some, List, ltb,
  if◌then◌else◌, arith, length, Bool-cases,
}
use mathlib.Core.Path.{subst}
use native.Mathlib.Nat.{add_assoc}
use amitools.Prelude.Bytes.{
  IsBytes, word_at, set_word, word_at-lt, word_at-set_word_self, word_at-set_word_ne,
}
use amitools.KickRom.{add_long, carry_sum, max_u32, is_off}

-- The sum without its carries.
unfoldable pub total : ℕ → ℕ → Option ℕ → List ℕ → ℕ
total zero off skip_off bytes = 0
total (suc n) off skip_off bytes =
    (if is_off off skip_off then 0 else word_at bytes off) + total n (off + 4) skip_off bytes

-- `f` is what is left of `t` when the carries are added at its end.
unfoldable pub IsFolded : ℕ → ℕ → Type 0
IsFolded f t = (f ≤ max_u32) × ((q : ℕ) × (f + q * max_u32 ≡ t)) × ((f ≡ 0) → t ≡ 0)

add_long-IsFolded : (c v : ℕ) → c ≤ max_u32 → v < 2 ^ 32 → IsFolded (add_long c v) (c + v)
unfolding IsFolded add_long
add_long-IsFolded c v h k = elim (Bool-cases (ltb max_u32 (c + v))) [
  | inl e ↦ (ground arith, (1, ground arith), λ z. ground arith)
  | inr e ↦ (ground arith, (0, ground arith), λ z. ground arith)
]

IsFolded-step : (f a t u : ℕ) → IsFolded f (a + u) → IsFolded a t → IsFolded f (t + u)
unfolding IsFolded
IsFolded-step f a t u (h, (q, e), z) (k, (p, d), w) =
    (h, (q + p, omega arith), λ x. let s = z x in omega (arith, s, w (omega (arith, s))))

summand-lt :
    (off : ℕ) (skip_off : Option ℕ) (bytes : List ℕ)
    → IsBytes bytes
    → (if is_off off skip_off then 0 else word_at bytes off) < 2 ^ 32
summand-lt off skip_off bytes h = ground (arith, word_at-lt bytes off h)

pub carry_sum-IsFolded :
    (n off : ℕ) (skip_off : Option ℕ) (bytes : List ℕ) (c : ℕ)
    → IsBytes bytes
    → c ≤ max_u32
    → IsFolded (carry_sum n off skip_off bytes c) (c + total n off skip_off bytes)
unfolding carry_sum total IsFolded
carry_sum-IsFolded zero off skip_off bytes c h k = (k, (0, omega arith), λ z. omega arith)
carry_sum-IsFolded (suc n) off skip_off bytes c h k =
    let v = if is_off off skip_off then 0 else word_at bytes off in
    let t = total n (off + 4) skip_off bytes in
    let first = add_long-IsFolded c v k (summand-lt off skip_off bytes h) in
    let rest = carry_sum-IsFolded n (off + 4) skip_off bytes (add_long c v) h first.0 in
    let f = carry_sum n (off + 4) skip_off bytes (add_long c v) in
    subst (IsFolded f) (add_assoc c v t) (IsFolded-step f (add_long c v) (c + v) t rest first)

-- Behind the long that is skipped nothing changes.
total-behind :
    (n off o cs : ℕ) (bytes : List ℕ)
    → o + 4 ≤ off
    → o + 4 ≤ length bytes
    → total n off none (set_word bytes o cs) ≡ total n off (some o) bytes
unfolding total
total-behind zero off o cs bytes h k = refl
total-behind (suc n) off o cs bytes h k =
    ground (arith, total-behind n (off + 4) o cs bytes, word_at-set_word_ne bytes o cs off k)

total-here :
    (n off cs : ℕ) (bytes : List ℕ)
    → off + 4 ≤ length bytes
    → cs < 2 ^ 32
    → total (suc n) off none (set_word bytes off cs) ≡ cs + total (suc n) off (some off) bytes
unfolding total
total-here n off cs bytes h k =
    ground (arith, total-behind n (off + 4) off cs bytes, word_at-set_word_self bytes off cs h k)

total-ahead :
    (n off o cs : ℕ) (bytes : List ℕ)
    → off + 4 ≤ o
    → o + 4 ≤ length bytes
    → total n (off + 4) none (set_word bytes o cs) ≡ cs + total n (off + 4) (some o) bytes
    → total (suc n) off none (set_word bytes o cs) ≡ cs + total (suc n) off (some o) bytes
unfolding total
total-ahead n off o cs bytes h k e = ground (arith, e, word_at-set_word_ne bytes o cs off k (inr h))

-- A long that is stored where the sum skips adds to it; `o` is that long's offset.
pub total-set_word :
    (n off j o cs : ℕ) (bytes : List ℕ)
    → o ≡ off + 4 * j
    → j < n
    → o + 4 ≤ length bytes
    → cs < 2 ^ 32
    → total n off none (set_word bytes o cs) ≡ cs + total n off (some o) bytes
total-set_word zero off j o cs bytes e h k w = absurd (omega arith)
total-set_word (suc n) off zero o cs bytes e h k w =
    subst (λ x. total (suc n) x none (set_word bytes o cs) ≡ cs + total (suc n) x (some o) bytes)
      (the_off o off e) (total-here n o cs bytes k w)
  where
    the_off : (o off : ℕ) → o ≡ off + 4 * zero → o ≡ off
    the_off o off e = omega arith
total-set_word (suc n) off (suc j) o cs bytes e h k w =
    total-ahead n off o cs bytes (omega arith) k
      (total-set_word n (off + 4) j o cs bytes (omega arith) (omega arith) k w)
