-- ===== src/Fs/Geometry/Detect.antt =====
-- `setup` and `detect`: the size of a geometry that was set up.
use amitools.Prelude.{
  ℕ, zero, suc, ◌*◌, ◌/◌, ◌<◌, ◌≡◌, inl, inr, refl, sym, ap, ◌∙◌, Bool, true, false, Option, none,
  some, ◌&&◌, arith, Option-cases, Bool-cases,
}
use amitools.Fs.Geometry.{
  DiskGeometry, Options, Chs, answer, update_block_size, parse_chs, set_chs, filled, setup,
  setup_size, size_of, detect, detect_size, Algo, first, second, guess_for_size, get_num_bytes,
  get_num_blocks, is_given, or_default, or_else, update_bs, keep, run_algo, heads_for, halve,
  guess_for_size1, guess_for_size2, guess_approx, nearer, is_algo,
}
use amitools.Fs.Geometry.Exact.{algo_bytes-default}
use amitools.Fs.Geometry.Best.{outcome, guess_bytes, guess_for_size-bytes, guess_bytes-exact}

or_default-else : (a : Option ℕ) (d : ℕ) → or_default (or_else a none) d ≡ or_default a d
or_default-else none d = refl
or_default-else (some zero) d = refl
or_default-else (some (suc n)) d = refl

is_given-else : (a : Option ℕ) → is_given (or_else a none) ≡ is_given a
is_given-else none = refl
is_given-else (some zero) = refl
is_given-else (some (suc n)) = refl

-- The block size of the options, or that of the geometry.
update-same :
    (o : Options) (g g' k : DiskGeometry)
    → update_block_size o g ≡ some k
    → 0 < g.block_bytes
    → g'.block_bytes ≡ g.block_bytes
    → (k' : DiskGeometry) × (update_block_size o g' ≡ some k')
      × (0 < k.block_bytes)
      × (k'.block_bytes ≡ k.block_bytes)
unfolding update_block_size
update-same o g g' k h hb e = elim (Option-cases o.bs) [
  | inl n ↦ (g', ground (arith, n), ground (arith, n), ground (arith, n))
  | inr (bs, n) ↦
      (record g' { block_bytes = bs }, ground (arith, n), ground (arith, n), ground (arith, n))
]

full : Chs → Bool
full v = is_given v.c && (is_given v.h && is_given v.s)

-- A guess sees no difference between a number that is missing and one that is 0.
guess_bytes-filled :
    (size : ℕ) (algo : Option ℕ) (v : Chs) (bb : ℕ)
    → let w = filled v none none none in
      guess_bytes size algo w.s w.h bb ≡ guess_bytes size algo v.s v.h bb
unfolding filled
guess_bytes-filled size algo v bb =
    let f = λ (a : Algo).
      algo_bytes-default a size (or_else v.s none) v.s (or_else v.h none) v.h bb
        (or_default-else v.s) (or_default-else v.h) in
    ground (arith, f first, f second)

with_chs : Chs → DiskGeometry → DiskGeometry
with_chs v g = record g {
  cyls = or_default v.c 0;
  heads = or_default v.h 0;
  secs = or_default v.s 0;
}

set_chs-full : (v : Chs) (g : DiskGeometry) → full v ≡ true → set_chs v g ≡ some (with_chs v g)
unfolding set_chs full with_chs
set_chs-full v g h = ground (arith, h)

set_chs-not : (v : Chs) (g : DiskGeometry) → full v ≡ false → set_chs v g ≡ none
unfolding set_chs full
set_chs-not v g h = ground (arith, h)

full-filled : (v : Chs) → full (filled v none none none) ≡ full v
unfolding full filled
full-filled v = rw (is_given-else v.c, is_given-else v.h, is_given-else v.s) refl

chs_bytes : Chs → ℕ → ℕ
chs_bytes v bb = or_default v.c 0 * or_default v.h 0 * or_default v.s 0 * bb

chs_bytes-filled : (v : Chs) (bb : ℕ) → chs_bytes (filled v none none none) bb ≡ chs_bytes v bb
unfolding chs_bytes filled
chs_bytes-filled v bb =
    rw (or_default-else v.c 0, or_default-else v.h 0, or_default-else v.s 0) refl

with_chs-bytes :
    (v : Chs) (g : DiskGeometry) → get_num_bytes (with_chs v g) ≡ chs_bytes v g.block_bytes
unfolding with_chs get_num_bytes get_num_blocks chs_bytes
with_chs-bytes v g = refl

-- What `setup` reports, and `detect`.
setup_size-full :
    (o : Options) (v : Chs) (g : DiskGeometry)
    → full v ≡ true
    → (g₁ : DiskGeometry) × (setup_size o v g ≡ answer (some (chs_bytes v g.block_bytes)) g₁)
unfolding setup_size
setup_size-full o v g h = (with_chs v g, ground (arith, set_chs-full v g h, with_chs-bytes v g))

detect_size-full :
    (n : ℕ) (o : Options) (g : DiskGeometry)
    → full (parse_chs o) ≡ true
    → chs_bytes (parse_chs o) g.block_bytes ≡ n
    → (g₂ : DiskGeometry) × (detect_size n (some o) g ≡ answer (some n) g₂) × (get_num_bytes g₂ ≡ n)
unfolding detect_size
detect_size-full n o g h k =
    let v = parse_chs o in
    (
      with_chs v g,
      ground (arith, set_chs-full v g h, with_chs-bytes v g, k),
      with_chs-bytes v g ∙ k,
    )

-- What a guess reports is the size of the geometry that it leaves.
keep-stored :
    (size cyls heads secs n : ℕ) (g : DiskGeometry)
    → (keep size true cyls heads secs g).0 ≡ some n
    → get_num_bytes (keep size true cyls heads secs g).1 ≡ n
unfolding get_num_bytes get_num_blocks
keep-stored size cyls heads secs n g h =
    let e : cyls * secs * heads * g.block_bytes ≡ n = ground (arith, h) in
    swap cyls heads secs g.block_bytes ∙ e
  where
    swap : (a b c d : ℕ) → a * b * c * d ≡ a * c * b * d
    swap a b c d = grind arith

run_algo-stored :
    (a : Algo) (size n : ℕ) (secs heads : Option ℕ) (g : DiskGeometry)
    → (run_algo a size true secs heads g).0 ≡ some n
    → get_num_bytes (run_algo a size true secs heads g).1 ≡ n
unfolding run_algo guess_for_size1 guess_for_size2
run_algo-stored first size n secs heads g h =
    let secs' = or_default secs 63 in
    let heads' = or_default heads (heads_for (size / 1024)) in
    keep-stored size (size / g.block_bytes / (secs' * heads')) heads' secs' n g h
run_algo-stored second size n secs heads g h =
    let heads' = or_default heads 1 in
    let secs' = or_default secs 32 in
    let cyls = size / g.block_bytes / (secs' * heads') in
    let low = halve cyls cyls heads' in keep-stored size low.0 low.1 secs' n g h

chosen-stored :
    (c : Option Algo) (size n : ℕ) (secs heads : Option ℕ) (g : DiskGeometry)
    → (outcome c size secs heads g).0 ≡ some n
    → get_num_bytes (outcome c size secs heads g).1 ≡ n
chosen-stored none size n secs heads g h = cc
chosen-stored (some a) size n secs heads g h = run_algo-stored a size n secs heads g h

guess_approx-stored :
    (size n : ℕ) (secs heads : Option ℕ) (g : DiskGeometry)
    → (guess_approx size secs heads g).0 ≡ some n
    → get_num_bytes (guess_approx size secs heads g).1 ≡ n
unfolding guess_approx
guess_approx-stored size n secs heads g h =
    let (s1, g1) = run_algo first size true secs heads g in
    let (s2, g2) = run_algo second size true secs heads g1 in
    let best = nearer size second s2 (nearer size first s1 (size, none)) in
    chosen-stored best.1 size n secs heads g2 h

guess_for_size-stored :
    (size n : ℕ) (algo secs heads : Option ℕ) (g : DiskGeometry)
    → (guess_for_size size true algo secs heads g).0 ≡ some n
    → get_num_bytes (guess_for_size size true algo secs heads g).1 ≡ n
unfolding guess_for_size
guess_for_size-stored size n algo secs heads g h = elim (Bool-cases (is_algo 1 algo)) [
  | inl e ↦ rw e (run_algo-stored first size n secs heads g (rw e at h))
  | inr e ↦ rw e (elim (Bool-cases (is_algo 2 algo)) [
    | inl k ↦ rw k (run_algo-stored second size n secs heads g (rw (e, k) at h))
    | inr k ↦ rw k (guess_approx-stored size n secs heads g (rw (e, k) at h))
  ])
]

setup_size-guess :
    (o : Options) (v : Chs) (n : ℕ) (g g₁ : DiskGeometry)
    → full v ≡ false
    → setup_size o v g ≡ answer (some n) g₁
    → (size : ℕ) × (guess_bytes size o.algo v.s v.h g.block_bytes ≡ some n)
unfolding setup_size
setup_size-guess o v n g g₁ h k = elim (Option-cases (size_of o)) [
  | inl e ↦ ground (arith, e, set_chs-not v g h)
  | inr (size, e) ↦
      (size, ground (arith, e, set_chs-not v g h, guess_for_size-bytes size o.algo v.s v.h g))
]

detect_size-guess :
    (n : ℕ) (o : Options) (g : DiskGeometry)
    → full (parse_chs o) ≡ false
    → let v = parse_chs o in
      guess_bytes n o.algo v.s v.h g.block_bytes ≡ some n
      → (g₂ : DiskGeometry) × (detect_size n (some o) g ≡ answer (some n) g₂)
        × (get_num_bytes g₂ ≡ n)
unfolding detect_size
detect_size-guess n o g h k =
    let v = parse_chs o in
    let r = guess_for_size n true o.algo v.s v.h g in
    let b : r.0 ≡ some n = guess_for_size-bytes n o.algo v.s v.h g ∙ k in
    (r.1, ground (arith, set_chs-not v g h, b), guess_for_size-stored n n o.algo v.s v.h g b)

-- Once the block size is set.
detect_size-setup :
    (o : Options) (n : ℕ) (k g₁ k' : DiskGeometry)
    → 0 < k.block_bytes
    → k'.block_bytes ≡ k.block_bytes
    → setup_size o (filled (parse_chs o) none none none) k ≡ answer (some n) g₁
    → (g₂ : DiskGeometry) × (detect_size n (some o) k' ≡ answer (some n) g₂)
      × (get_num_bytes g₂ ≡ n)
detect_size-setup o n k g₁ k' hb e h =
    let v = parse_chs o in
    let w = filled v none none none in
    elim (Bool-cases (full v)) [
      | inl f ↦
          let (g, p) = setup_size-full o w k (full-filled v ∙ f) in
          let q = chs_bytes-filled v k.block_bytes in
          detect_size-full n o k' f (ap (chs_bytes v) e ∙ sym q ∙ answer-some _ _ _ _ (sym p ∙ h))
      | inr f ↦
          let (size, p) = setup_size-guess o w n k g₁ (full-filled v ∙ f) h in
          let q = guess_bytes-filled size o.algo v k.block_bytes in
          let r = guess_bytes-exact size n o.algo v.s v.h k.block_bytes hb (sym q ∙ p) in
          detect_size-guess n o k' f (ap (guess_bytes n o.algo v.s v.h) e ∙ r)
    ]
  where
    answer-some : (a b : ℕ) (g g' : DiskGeometry) → answer (some a) g ≡ answer (some b) g' → a ≡ b
    answer-some a b g g' h = ground (arith, h)

detect_eq :
    (n : ℕ) (o : Options) (g k : DiskGeometry)
    → update_block_size o g ≡ some k
    → detect n (some o) g ≡ detect_size n (some o) k
unfolding detect update_bs
detect_eq n o g k h = ground (arith, h)

setup_cases :
    (o : Options) (n : ℕ) (g g₁ : DiskGeometry)
    → setup (some o) none none none g ≡ answer (some n) g₁
    → (k : DiskGeometry) × (update_block_size o g ≡ some k)
      × (setup_size o (filled (parse_chs o) none none none) k ≡ answer (some n) g₁)
unfolding setup
setup_cases o n g g₁ h = elim (Option-cases (update_block_size o g)) [
  | inl e ↦ ground (arith, e)
  | inr (k, e) ↦ (k, e, ground (arith, e))
]

-- When `setup` reports a size for some options, and no numbers are passed beside them, `detect` reports
-- that size for the same options and leaves a geometry that has exactly so many bytes, if the block size
-- is positive and the same before both.
pub detect-setup :
    (o : Options) (n : ℕ) (g g₁ g' : DiskGeometry)
    → 0 < g.block_bytes
    → g'.block_bytes ≡ g.block_bytes
    → setup (some o) none none none g ≡ answer (some n) g₁
    → (g₂ : DiskGeometry) × (detect n (some o) g' ≡ answer (some n) g₂) × (get_num_bytes g₂ ≡ n)
detect-setup o n g g₁ g' hb e h =
    let (k, p, q) = setup_cases o n g g₁ h in
    let (k', p', hk, ek) = update-same o g g' k p hb e in
    let (g₂, r, size) = detect_size-setup o n k g₁ k' hk ek q in
    (g₂, detect_eq n o g' k' p' ∙ r, size)
