-- ===== src/Fs/Geometry/Best.antt =====
-- With no algorithm chosen, the guess is the better one of the two.
use amitools.Prelude.{
  ℕ, zero, suc, ◌*◌, ◌/◌, ◌≤◌, ◌<◌, ◌≡◌, refl, sym, ap, ap₂, ◌∙◌, true, Option, none, some, ltb,
  if◌then◌else◌, arith,
}
use amitools.Fs.Geometry.{
  DiskGeometry, or_default, Algo, first, second, run_algo, guess_for_size, guess_approx,
  guess_for_size1, guess_for_size2, nearer, is_algo,
}
use amitools.Fs.Geometry.Guess.{halve-low}
use amitools.Fs.Geometry.Exact.{algo_bytes, run_algo-bytes, algo_bytes-le, algo_bytes-exact}

run_algo-block_bytes :
    (a : Algo) (size : ℕ) (secs heads : Option ℕ) (g : DiskGeometry)
    → (run_algo a size true secs heads g).1.block_bytes ≡ g.block_bytes
unfolding run_algo guess_for_size1 guess_for_size2
run_algo-block_bytes first size secs heads g = refl
run_algo-block_bytes second size secs heads g = refl

abbrev larger : ℕ → ℕ → ℕ
larger a b = if ltb a b then b else a

abbrev nonzero : ℕ → Option ℕ
nonzero zero = none
nonzero (suc n) = some (suc n)

-- The choice of `nearer`, on two sizes that fit.
abbrev choice : ℕ → ℕ → Option Algo
choice zero zero = none
choice a b = if ltb a b then some second else some first

nearer-choice :
    (size a b : ℕ)
    → a ≤ size
    → b ≤ size
    → (nearer size second (some b) (nearer size first (some a) (size, none))).1 ≡ choice a b
nearer-choice size zero zero h k = refl
nearer-choice size zero (suc b) h k = ground arith
nearer-choice size (suc a) zero h k = ground arith
nearer-choice size (suc a) (suc b) h k = ground arith

-- The size that the guess reports.
abbrev pub guess_bytes : ℕ → Option ℕ → Option ℕ → Option ℕ → ℕ → Option ℕ
guess_bytes size algo secs heads bb =
    let a = algo_bytes first size secs heads bb in
    let b = algo_bytes second size secs heads bb in
    if is_algo 1 algo then some a else if is_algo 2 algo then some b else nonzero (larger a b)

abbrev pub outcome : Option Algo → ℕ → Option ℕ → Option ℕ → DiskGeometry → Option ℕ × DiskGeometry
outcome c size secs heads g = elim c [
  | none ↦ (none, g)
  | some a ↦ run_algo a size true secs heads g
]

outcome-choice :
    (a b size : ℕ) (secs heads : Option ℕ) (g : DiskGeometry)
    → a ≡ algo_bytes first size secs heads g.block_bytes
    → b ≡ algo_bytes second size secs heads g.block_bytes
    → (outcome (choice a b) size secs heads g).0 ≡ nonzero (larger a b)
outcome-choice a b size secs heads g h k =
    let e = run_algo-bytes first size secs heads g in
    let f = run_algo-bytes second size secs heads g in
    choice-cases a b (e ∙ ap some (sym h)) (f ∙ ap some (sym k))
  where
    choice-cases :
        (a b : ℕ)
        → (run_algo first size true secs heads g).0 ≡ some a
        → (run_algo second size true secs heads g).0 ≡ some b
        → (outcome (choice a b) size secs heads g).0 ≡ nonzero (larger a b)
    choice-cases zero zero e f = ground arith
    choice-cases zero (suc b) e f = ground (arith, f)
    choice-cases (suc a) zero e f = ground (arith, e)
    choice-cases (suc a) (suc b) e f = ground (arith, e, f)

abbrev picked : ℕ → Option ℕ → Option ℕ → Option Algo
picked size s1 s2 = (nearer size second s2 (nearer size first s1 (size, none))).1

guess_approx-bytes :
    (size : ℕ) (secs heads : Option ℕ) (g : DiskGeometry)
    → (guess_approx size secs heads g).0
      ≡ nonzero (
          larger
            (algo_bytes first size secs heads g.block_bytes)
            (algo_bytes second size secs heads g.block_bytes))
unfolding guess_approx
guess_approx-bytes size secs heads g =
    let r1 = run_algo first size true secs heads g in
    let e1 = run_algo-block_bytes first size secs heads g in
    let r2 = run_algo second size true secs heads r1.1 in
    let e2 = run_algo-block_bytes second size secs heads r1.1 ∙ e1 in
    let f1 = run_algo-bytes first size secs heads g in
    let f2 =
      run_algo-bytes second size secs heads r1.1
      ∙ ap (λ x. some (algo_bytes second size secs heads x)) e1 in
    let a = algo_bytes first size secs heads g.block_bytes in
    let b = algo_bytes second size secs heads g.block_bytes in
    let m = nearer-choice size a b (algo_bytes-le _ _ _ _ _) (algo_bytes-le _ _ _ _ _) in
    let o =
      outcome-choice a b size secs heads r2.1 (ap (algo_bytes first size secs heads) (sym e2))
        (ap (algo_bytes second size secs heads) (sym e2)) in
    ap (λ c. (outcome c size secs heads r2.1).0) (ap₂ (picked size) f1 f2 ∙ m) ∙ o

pub guess_for_size-bytes :
    (size : ℕ) (algo secs heads : Option ℕ) (g : DiskGeometry)
    → (guess_for_size size true algo secs heads g).0
      ≡ guess_bytes size algo secs heads g.block_bytes
unfolding guess_for_size
guess_for_size-bytes size algo secs heads g = ground (
  arith,
  run_algo-bytes first size secs heads g,
  run_algo-bytes second size secs heads g,
  guess_approx-bytes size secs heads g,
)

largest :
    (size n m : ℕ) (a : Algo) (secs heads : Option ℕ) (bb : ℕ)
    → guess_bytes size none secs heads bb ≡ some n
    → some (algo_bytes a size secs heads bb) ≡ some m
    → (m ≤ n) × (n ≤ size)
largest size n m first secs heads bb h k =
    let le = λ (a : Algo). algo_bytes-le a size secs heads bb in
    (ground (arith, le first, le second), ground (arith, le first, le second))
largest size n m second secs heads bb h k =
    let le = λ (a : Algo). algo_bytes-le a size secs heads bb in
    (ground (arith, le first, le second), ground (arith, le first, le second))

-- The guess for a size that a guess has reported is that size.
pub guess_bytes-exact :
    (size n : ℕ) (algo secs heads : Option ℕ) (bb : ℕ)
    → 0 < bb
    → guess_bytes size algo secs heads bb ≡ some n
    → guess_bytes n algo secs heads bb ≡ some n
guess_bytes-exact size n algo secs heads bb hb h = ground (
  arith,
  algo_bytes-exact first size secs heads bb hb,
  algo_bytes-exact second size secs heads bb hb,
  algo_bytes-le first n secs heads bb,
  algo_bytes-le second n secs heads bb,
)

-- The guess that is made with no algorithm chosen reports at most the size asked for, and at least
-- what either algorithm reports.
pub guess_for_size-best :
    (size n m : ℕ) (a : Algo) (secs heads : Option ℕ) (g g₁ : DiskGeometry)
    → guess_for_size size true none secs heads g ≡ (some n, g₁)
    → (run_algo a size true secs heads g).0 ≡ some m
    → (m ≤ n) × (n ≤ size)
guess_for_size-best size n m a secs heads g g₁ h k =
    let e = sym (guess_for_size-bytes size none secs heads g) ∙ ap (λ r. r.0) h in
    let f = sym (run_algo-bytes a size secs heads g) ∙ k in
    largest size n m a secs heads g.block_bytes e f

-- The second algorithm leaves at most 65535 cylinders: its loop has fuel enough.
pub guess_for_size2-low :
    (size : ℕ) (secs heads : Option ℕ) (g : DiskGeometry)
    → (guess_for_size2 size true secs heads g).1.cyls ≤ 65535
unfolding guess_for_size2
guess_for_size2-low size secs heads g =
    let h = or_default heads 1 in
    let c = size / g.block_bytes / (or_default secs 32 * h) in halve-low c c h (omega arith)
