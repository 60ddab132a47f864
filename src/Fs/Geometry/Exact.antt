-- ===== src/Fs/Geometry/Exact.antt =====
-- A size that a guess has reported is met exactly by the next guess.
use amitools.Prelude.{
  ℕ, zero, suc, ◌*◌, ◌/◌, ◌≤◌, ◌<◌, ◌≡◌, refl, sym, ap, ap₂, ◌∙◌, true, Option, none, some, arith,
}
use mathlib.Core.Path.{subst}
use native.Mathlib.Nat.{mul-pos, mul-le-mul_right}
use amitools.Fs.Geometry.{
  DiskGeometry, or_default, heads_for, guess_for_size1, guess_for_size2, halve, Algo, first, second,
  run_algo,
}
use amitools.Fs.Geometry.Guess.{
  fits-size, refit, heads_for-factor, halve-le, halve-low, halve-exact, doubled, doubled_mul,
  halve-doubled, regroup,
}

unfoldable bytes1 : ℕ → ℕ → ℕ → ℕ → ℕ
bytes1 size bb s h = size / bb / (s * h) * s * h * bb

unfoldable bytes2 : ℕ → ℕ → ℕ → ℕ → ℕ
bytes2 size bb s h = let c = size / bb / (s * h) in let low = halve c c h in low.0 * s * low.1 * bb

abbrev heads1 : ℕ → Option ℕ → ℕ
heads1 size heads = or_default heads (heads_for (size / 1024))

run_first :
    (size : ℕ) (secs heads : Option ℕ) (g : DiskGeometry)
    → (run_algo first size true secs heads g).0
      ≡ some (bytes1 size g.block_bytes (or_default secs 63) (heads1 size heads))
unfolding run_algo guess_for_size1 bytes1
run_first size secs heads g = refl

run_second :
    (size : ℕ) (secs heads : Option ℕ) (g : DiskGeometry)
    → (run_algo second size true secs heads g).0
      ≡ some (bytes2 size g.block_bytes (or_default secs 32) (or_default heads 1))
unfolding run_algo guess_for_size2 bytes2
run_second size secs heads g = refl

or_default-pos : (o : Option ℕ) (d : ℕ) → 0 < d → 0 < or_default o d
or_default-pos none d h = h
or_default-pos (some zero) d h = h
or_default-pos (some (suc n)) d h = omega arith

heads_for-pos : (m : ℕ) → 0 < heads_for m
unfolding heads_for
heads_for-pos m = ground arith

bytes1-le : (size bb s h : ℕ) → bytes1 size bb s h ≤ size
unfolding bytes1
bytes1-le size bb s h = fits-size size bb s h

swap : (a b s bb : ℕ) → a * s * b * bb ≡ a * b * (s * bb)
swap a b s bb = grind arith

swap_in : (c h s bb : ℕ) → c * s * h * bb ≡ c * h * (s * bb)
swap_in c h s bb = grind arith

bytes2-le : (size bb s h : ℕ) → bytes2 size bb s h ≤ size
unfolding bytes2
bytes2-le size bb s h =
    let c = size / bb / (s * h) in
    let low = halve c c h in
    omega (
      arith,
      fits-size size bb s h,
      mul-le-mul_right (s * bb) (halve-le c c h),
      swap low.0 low.1 s bb,
      swap_in c h s bb,
    )

-- With the same heads, or fewer by a factor.
bytes1-again :
    (size bb s h r : ℕ)
    → 0 < bb
    → 0 < s * h
    → let n = bytes1 size bb s (h * r) in bytes1 n bb s h ≡ n
unfolding bytes1
bytes1-again size bb s h r hb hs =
    let q = size / bb / (s * (h * r)) in rw (refit q r s h bb hb hs) (regroup q r s h bb)

heads1-pos : (m : ℕ) (heads : Option ℕ) → 0 < heads1 m heads
heads1-pos m heads = or_default-pos heads _ (heads_for-pos (m / 1024))

heads1-factor :
    (m n : ℕ) (heads : Option ℕ) → m ≤ n → (r : ℕ) × (heads1 n heads ≡ heads1 m heads * r)
heads1-factor m n none h = heads_for-factor (m / 1024) (n / 1024) (omega arith)
heads1-factor m n (some zero) h = heads_for-factor (m / 1024) (n / 1024) (omega arith)
heads1-factor m n (some (suc k)) h = (1, omega arith)

bytes1-exact :
    (size bb s : ℕ) (heads : Option ℕ)
    → 0 < bb
    → 0 < s
    → let n = bytes1 size bb s (heads1 size heads) in bytes1 n bb s (heads1 n heads) ≡ n
bytes1-exact size bb s heads hb hs =
    let n = bytes1 size bb s (heads1 size heads) in
    let (r, e) = heads1-factor n size heads (bytes1-le size bb s (heads1 size heads)) in
    let k = heads1 n heads in
    subst (λ x. bytes1 (bytes1 size bb s x) bb s k ≡ bytes1 size bb s x) (sym e)
      (bytes1-again size bb s k r hb (mul-pos hs (heads1-pos n heads)))

bytes2-halved :
    (n bb s h k a : ℕ)
    → n / bb / (s * h) ≡ doubled k a
    → a ≤ 65535
    → bytes2 n bb s h ≡ doubled k a * h * (s * bb)
unfolding bytes2
bytes2-halved n bb s h k a e l =
    let low = halve (doubled k a) (doubled k a) h in
    rw e (swap low.0 low.1 s bb ∙ ap (λ x. x * (s * bb)) (halve-exact (doubled k a) k a h l))

doubled-product : (a b k s h bb : ℕ) → b ≡ doubled k h → a * s * b * bb ≡ doubled k a * h * (s * bb)
doubled-product a b k s h bb e =
    ap (λ x. a * s * x * bb) (e ∙ doubled_mul k h)
    ∙ regroup_in a (doubled k 1) s h bb
    ∙ ap (λ x. x * h * (s * bb)) (sym (doubled_mul k a))
  where
    regroup_in : (a d s h bb : ℕ) → a * s * (h * d) * bb ≡ a * d * h * (s * bb)
    regroup_in a d s h bb = grind arith

bytes2-again :
    (a b k s h bb : ℕ)
    → 0 < bb
    → 0 < s * h
    → a ≤ 65535
    → b ≡ doubled k h
    → bytes2 (a * s * b * bb) bb s h ≡ a * s * b * bb
bytes2-again a b k s h bb hb hs l e =
    let f = refit a (doubled k 1) s h bb hb hs in
    let e' = e ∙ doubled_mul k h in
    let g = ap (λ x. a * s * x * bb / bb / (s * h)) e' ∙ f ∙ sym (doubled_mul k a) in
    bytes2-halved (a * s * b * bb) bb s h k a g l ∙ sym (doubled-product a b k s h bb e)

bytes2-exact :
    (size bb s h : ℕ) → 0 < bb → 0 < s → 0 < h → let n = bytes2 size bb s h in bytes2 n bb s h ≡ n
unfolding bytes2
bytes2-exact size bb s h hb hs hh =
    let c = size / bb / (s * h) in
    let low = halve c c h in
    let (k, e) = halve-doubled c c h in
    bytes2-again low.0 low.1 k s h bb hb (mul-pos hs hh) (halve-low c c h (omega arith)) e

-- What an algorithm reports: it fits, and the algorithm reports it again of itself.
pub algo_bytes : Algo → ℕ → Option ℕ → Option ℕ → ℕ → ℕ
algo_bytes first size secs heads bb = bytes1 size bb (or_default secs 63) (heads1 size heads)
algo_bytes second size secs heads bb = bytes2 size bb (or_default secs 32) (or_default heads 1)

pub run_algo-bytes :
    (a : Algo) (size : ℕ) (secs heads : Option ℕ) (g : DiskGeometry)
    → (run_algo a size true secs heads g).0 ≡ some (algo_bytes a size secs heads g.block_bytes)
unfolding algo_bytes
run_algo-bytes first size secs heads g = run_first size secs heads g
run_algo-bytes second size secs heads g = run_second size secs heads g

pub algo_bytes-le :
    (a : Algo) (size : ℕ) (secs heads : Option ℕ) (bb : ℕ) → algo_bytes a size secs heads bb ≤ size
unfolding algo_bytes
algo_bytes-le first size secs heads bb = bytes1-le size bb _ _
algo_bytes-le second size secs heads bb = bytes2-le size bb _ _

pub algo_bytes-exact :
    (a : Algo) (size : ℕ) (secs heads : Option ℕ) (bb : ℕ)
    → 0 < bb
    → let n = algo_bytes a size secs heads bb in algo_bytes a n secs heads bb ≡ n
unfolding algo_bytes
algo_bytes-exact first size secs heads bb h =
    bytes1-exact size bb (or_default secs 63) heads h (or_default-pos secs 63 (omega arith))
algo_bytes-exact second size secs heads bb h =
    bytes2-exact size bb (or_default secs 32) (or_default heads 1) h
      (or_default-pos secs 32 (omega arith)) (or_default-pos heads 1 (omega arith))

-- Only through `or_default` does an algorithm see the numbers that are given.
pub algo_bytes-default :
    (a : Algo) (size : ℕ) (secs secs' heads heads' : Option ℕ) (bb : ℕ)
    → ((d : ℕ) → or_default secs d ≡ or_default secs' d)
    → ((d : ℕ) → or_default heads d ≡ or_default heads' d)
    → algo_bytes a size secs heads bb ≡ algo_bytes a size secs' heads' bb
unfolding algo_bytes
algo_bytes-default first size secs secs' heads heads' bb h k =
    ap₂ (bytes1 size bb) (h 63) (k (heads_for (size / 1024)))
algo_bytes-default second size secs secs' heads heads' bb h k = ap₂ (bytes2 size bb) (h 32) (k 1)
