-- ===== src/Fs/Rdb/Unlink.antt =====
-- What taking a partition out does to the chain, the blocks and the ranges of the others.
use amitools.Prelude.{
  ℕ, zero, suc, ◌<◌, ◌≡◌, refl, sym, ap, ◌∙◌, true, false, some, List, [], ◌∷◌, ◌==◌, length,
  Bool-cases, inl, inr, ==_iff, arith,
}
use mathlib.Core.Path.{subst}
use amitools.Fs.Rdb.{PartBlock, Partition, part, Device, put, is_in, all_apart}
use amitools.Fs.Rdb.Edit.{set_part}
use amitools.Fs.Rdb.Made.{made_part}
use amitools.Fs.Rdb.Remove.{remove_blk, remove_at, relabel, blk_at}
use amitools.Fs.Rdb.Ranges.{are_disjoint, are_inside}
use amitools.Fs.Rdb.Parts.{part_blks, are_distinct, IsPartChain, agree-IsPartChain}
use amitools.Fs.Rdb.Sound.{all_in, put-other, is_in-other}

abbrev pub point_at : ℕ → PartBlock → PartBlock
point_at next b = record b { next = next }

pub relabel-IsPartChain :
    (d : Device) (cb start n m : ℕ) (ps : List Partition)
    → IsPartChain d cb start n ps
    → IsPartChain d cb start m (relabel m ps)
relabel-IsPartChain d cb start n m [] c = c
relabel-IsPartChain d cb start n m (p ∷ ps) (e, i, k, x, at, c) =
    (e, refl, k, x, at, relabel-IsPartChain d cb p.part_blk.next (suc n) (suc m) ps c)

pub start-IsPartChain :
    (d : Device) (cb start n : ℕ) (ps : List Partition)
    → IsPartChain d cb start n ps
    → blk_at 0 ps ≡ start
start-IsPartChain d cb start n [] c = sym c
start-IsPartChain d cb start n (p ∷ ps) c = sym c.0

made_part-other :
    (x prev next : ℕ) (ps : List Partition) (d : Device)
    → is_in x (part_blks ps) ≡ false
    → made_part prev (set_part prev (point_at next) ps) d x ≡ d x
made_part-other x prev next [] d h = refl
made_part-other x zero next (p ∷ ps) d h = ground (arith, h)
made_part-other x (suc prev) next (p ∷ ps) d h =
    made_part-other x prev next ps d (ground (arith, h))

-- A partition behind the first, taken out of the chain.
pub unlink-IsPartChain :
    (d : Device) (cb start n m prev : ℕ) (ps : List Partition)
    → suc prev < length ps
    → are_distinct (part_blks ps) ≡ true
    → IsPartChain d cb start n ps
    → IsPartChain
        (made_part prev (set_part prev (point_at (blk_at (suc (suc prev)) ps)) ps) d)
        cb
        start
        m
        (relabel m
          (remove_at (suc prev) (set_part prev (point_at (blk_at (suc (suc prev)) ps)) ps)))
unlink-IsPartChain d cb start n m prev [] h k c = absurd (omega arith)
unlink-IsPartChain d cb start n m zero (p ∷ []) h k c = absurd (omega arith)
unlink-IsPartChain d cb start n m zero (p ∷ q ∷ ps) h k (e, i, b, x, at, (e₂, i₂, b₂, x₂, at₂, c)) =
    let p' = part (point_at (blk_at 0 ps) p.part_blk) in
    (
      e,
      refl,
      b,
      x,
      ground arith,
      relabel-IsPartChain (put p.blk_num p' d) cb (blk_at 0 ps) (suc (suc n)) (suc m) ps (
          agree-IsPartChain cb (blk_at 0 ps) (suc (suc n)) d (put p.blk_num p' d) ps
            (λ y z.
              put-other y p.blk_num p' d
                (is_in-other y p.blk_num (part_blks ps) z (ground (arith, k))))
            (subst (λ s. IsPartChain d cb s (suc (suc n)) ps)
              (sym (start-IsPartChain d cb q.part_blk.next (suc (suc n)) ps c)) c)),
    )
unlink-IsPartChain d cb start n m (suc prev) (p ∷ ps) h k (e, i, b, x, at, c) = (
  e,
  refl,
  b,
  x,
  made_part-other p.blk_num prev (blk_at (suc (suc prev)) ps) ps d (ground (arith, k)) ∙ at,
  unlink-IsPartChain d cb p.part_blk.next (suc n) (suc m) prev ps (omega arith) (ground (arith, k))
      c,
)

-- Other partitions in the same blocks and ranges.
pub relabel-blks : (m : ℕ) (ps : List Partition) → part_blks (relabel m ps) ≡ part_blks ps
relabel-blks m [] = refl
relabel-blks m (p ∷ ps) = ap (λ bs. p.blk_num ∷ bs) (relabel-blks (suc m) ps)

pub set_part-blks :
    (i next : ℕ) (ps : List Partition) → part_blks (set_part i (point_at next) ps) ≡ part_blks ps
set_part-blks i next [] = refl
set_part-blks zero next (p ∷ ps) = refl
set_part-blks (suc i) next (p ∷ ps) = ap (λ bs. p.blk_num ∷ bs) (set_part-blks i next ps)

pub remove_at-blks :
    (i : ℕ) (ps : List Partition) → part_blks (remove_at i ps) ≡ remove_at i (part_blks ps)
remove_at-blks i [] = refl
remove_at-blks zero (p ∷ ps) = refl
remove_at-blks (suc i) (p ∷ ps) = ap (λ bs. p.blk_num ∷ bs) (remove_at-blks i ps)

-- A list without one of its blocks.
remove_at-not_in : (x i : ℕ) (bs : List ℕ) → is_in x bs ≡ false → is_in x (remove_at i bs) ≡ false
remove_at-not_in x i [] h = refl
remove_at-not_in x zero (b ∷ bs) h = ground (arith, h)
remove_at-not_in x (suc i) (b ∷ bs) h = ground (arith, h, remove_at-not_in x i bs)

pub remove_at-distinct :
    (i : ℕ) (bs : List ℕ) → are_distinct bs ≡ true → are_distinct (remove_at i bs) ≡ true
remove_at-distinct i [] h = refl
remove_at-distinct zero (b ∷ bs) h = ground (arith, h)
remove_at-distinct (suc i) (b ∷ bs) h =
    ground (arith, h, remove_at-distinct i bs, remove_at-not_in b i bs)

pub remove_at-all_in :
    (i : ℕ) (used bs : List ℕ) → all_in used bs ≡ true → all_in used (remove_at i bs) ≡ true
remove_at-all_in i used [] h = refl
remove_at-all_in zero used (b ∷ bs) h = ground (arith, h)
remove_at-all_in (suc i) used (b ∷ bs) h = ground (arith, h, remove_at-all_in i used bs)

pub blk_at-in :
    (i : ℕ) (ps : List Partition) → i < length ps → is_in (blk_at i ps) (part_blks ps) ≡ true
blk_at-in i [] h = absurd (omega arith)
blk_at-in zero (p ∷ ps) h = ground arith
blk_at-in (suc i) (p ∷ ps) h = ground (arith, blk_at-in i ps (omega arith))

-- The block that is taken out is none of those that are left.
pub removed-not_in :
    (i : ℕ) (ps : List Partition)
    → i < length ps
    → are_distinct (part_blks ps) ≡ true
    → is_in (blk_at i ps) (remove_at i (part_blks ps)) ≡ false
removed-not_in i [] h k = refl
removed-not_in zero (p ∷ ps) h k = ground (arith, k)
removed-not_in (suc i) (p ∷ ps) h k =
    let behind = blk_at-in i ps (omega arith) in
    let other : (blk_at i ps == p.blk_num) ≡ false =
      is_in-other (blk_at i ps) p.blk_num (part_blks ps) behind (ground (arith, k)) in
    ground (arith, k, other, removed-not_in i ps (omega arith))

pub all_in-in :
    (x : ℕ) (used bs : List ℕ) → all_in used bs ≡ true → is_in x bs ≡ true → is_in x used ≡ true
all_in-in x used [] h k = ground (arith, k)
all_in-in x used (b ∷ bs) h k =
    ground (arith, h, k, all_in-in x used bs, ==_iff x b, same-in x b used)
  where
    same-in :
        (x b : ℕ) (used : List ℕ) → (x == b) ≡ true → is_in b used ≡ true → is_in x used ≡ true
    same-in x b [] e h = ground (arith, h)
    same-in x b (u ∷ used) e h = ground (arith, e, h, same-in x b used e)

-- The used blocks without one of them.
pub remove_blk-some :
    (b : ℕ) (used : List ℕ)
    → is_in b used ≡ true
    → (used' : List ℕ) × (remove_blk b used ≡ some used')
      × ((x : ℕ) → (x == b) ≡ false → is_in x used ≡ true → is_in x used' ≡ true)
remove_blk-some b [] h = absurd (ground (arith, h))
remove_blk-some b (u ∷ used) h = elim (Bool-cases (u == b)) [
  | inl e ↦ (used, ground (arith, e), (λ x n k. ground (arith, e, n, k)))
  | inr e ↦
      let rest = remove_blk-some b used (ground (arith, h, e)) in
      (u ∷ rest.0, ground (arith, e, rest.1), (λ x n k. ground (arith, k, rest.2 x n)))
]

pub kept-all_in :
    (b : ℕ) (used used' bs : List ℕ)
    → ((x : ℕ) → (x == b) ≡ false → is_in x used ≡ true → is_in x used' ≡ true)
    → all_in used bs ≡ true
    → is_in b bs ≡ false
    → all_in used' bs ≡ true
kept-all_in b used used' [] f h k = refl
kept-all_in b used used' (x ∷ bs) f h k =
    ground (arith, h, k, f x (ground (arith, k)), kept-all_in b used used' bs f)

relabel-apart :
    (lo hi m : ℕ) (ps : List Partition) → all_apart lo hi (relabel m ps) ≡ all_apart lo hi ps
relabel-apart lo hi m [] = refl
relabel-apart lo hi m (p ∷ ps) = ground (arith, relabel-apart lo hi (suc m) ps)

pub relabel-disjoint : (m : ℕ) (ps : List Partition) → are_disjoint (relabel m ps) ≡ are_disjoint ps
relabel-disjoint m [] = refl
relabel-disjoint m (p ∷ ps) = ground (
  arith,
  relabel-disjoint (suc m) ps,
  relabel-apart p.part_blk.low_cyl p.part_blk.high_cyl (suc m) ps,
)

pub relabel-inside :
    (disk : ℕ × ℕ) (m : ℕ) (ps : List Partition)
    → are_inside disk (relabel m ps) ≡ are_inside disk ps
relabel-inside disk m [] = refl
relabel-inside disk m (p ∷ ps) = ground (arith, relabel-inside disk (suc m) ps)

set_part-apart :
    (lo hi i next : ℕ) (ps : List Partition)
    → all_apart lo hi (set_part i (point_at next) ps) ≡ all_apart lo hi ps
set_part-apart lo hi i next [] = refl
set_part-apart lo hi zero next (p ∷ ps) = refl
set_part-apart lo hi (suc i) next (p ∷ ps) = ground (arith, set_part-apart lo hi i next ps)

pub set_part-disjoint :
    (i next : ℕ) (ps : List Partition)
    → are_disjoint (set_part i (point_at next) ps) ≡ are_disjoint ps
set_part-disjoint i next [] = refl
set_part-disjoint zero next (p ∷ ps) = refl
set_part-disjoint (suc i) next (p ∷ ps) = ground (
  arith,
  set_part-disjoint i next ps,
  set_part-apart p.part_blk.low_cyl p.part_blk.high_cyl i next ps,
)

pub set_part-inside :
    (disk : ℕ × ℕ) (i next : ℕ) (ps : List Partition)
    → are_inside disk (set_part i (point_at next) ps) ≡ are_inside disk ps
set_part-inside disk i next [] = refl
set_part-inside disk zero next (p ∷ ps) = refl
set_part-inside disk (suc i) next (p ∷ ps) = ground (arith, set_part-inside disk i next ps)

remove_at-apart :
    (lo hi i : ℕ) (ps : List Partition)
    → all_apart lo hi ps ≡ true
    → all_apart lo hi (remove_at i ps) ≡ true
remove_at-apart lo hi i [] h = refl
remove_at-apart lo hi zero (p ∷ ps) h = ground (arith, h)
remove_at-apart lo hi (suc i) (p ∷ ps) h = ground (arith, h, remove_at-apart lo hi i ps)

pub remove_at-disjoint :
    (i : ℕ) (ps : List Partition) → are_disjoint ps ≡ true → are_disjoint (remove_at i ps) ≡ true
remove_at-disjoint i [] h = refl
remove_at-disjoint zero (p ∷ ps) h = ground (arith, h)
remove_at-disjoint (suc i) (p ∷ ps) h =
    ground (
      arith,
      h,
      remove_at-disjoint i ps,
      remove_at-apart p.part_blk.low_cyl p.part_blk.high_cyl i ps,
    )

pub remove_at-inside :
    (disk : ℕ × ℕ) (i : ℕ) (ps : List Partition)
    → are_inside disk ps ≡ true
    → are_inside disk (remove_at i ps) ≡ true
remove_at-inside disk i [] h = refl
remove_at-inside disk zero (p ∷ ps) h = ground (arith, h)
remove_at-inside disk (suc i) (p ∷ ps) h = ground (arith, h, remove_at-inside disk i ps)
