-- ===== src/Fs/Rdb/Parts.antt =====
-- The chain of the partition blocks on the device, and what linking a new one does to it.
use amitools.Prelude.{
  ℕ, zero, suc, ◌+◌, ◌≤◌, ◌<◌, ◌≡◌, ◌≢◌, refl, ap, ◌∙◌, Bool, true, false, not, List, [], ◌∷◌, ◌++◌,
  ◌==◌, leb, ◌&&◌, ◌||◌, length, arith,
}
use amitools.Fs.Rdb.{no_blk, Partition, part, Device, is_in, cyl_range, is_apart, all_apart}
use amitools.Fs.Rdb.Edit.{set_last_next}
use amitools.Fs.Rdb.Made.{made_last}
use amitools.Fs.Rdb.Remove.{all_parts, read_parts}
use amitools.Fs.Rdb.Ranges.{are_disjoint, are_inside}

abbrev pub part_blks : List Partition → List ℕ
part_blks [] = []
part_blks (p ∷ ps) = p.blk_num ∷ part_blks ps

abbrev pub are_distinct : List ℕ → Bool
are_distinct [] = true
are_distinct (b ∷ bs) = not (is_in b bs) && are_distinct bs

-- The block of each partition stands on the device and points at the next one, the last at none, and
-- the partitions count from `num`.
abbrev pub IsPartChain : Device → ℕ → ℕ → ℕ → List Partition → Type 0
IsPartChain d cyl_blks start num [] = start ≡ no_blk
IsPartChain d cyl_blks start num (p ∷ ps) =
    (start ≡ p.blk_num)
    × (p.num ≡ num)
    × (p.cyl_blks ≡ cyl_blks)
    × (p.blk_num ≢ no_blk)
    × (d p.blk_num ≡ part p.part_blk)
    × IsPartChain d cyl_blks p.part_blk.next (suc num) ps

pub read_parts-IsPartChain :
    (fuel cyl_blks start num : ℕ) (d : Device) (ps : List Partition)
    → length ps < fuel
    → IsPartChain d cyl_blks start num ps
    → read_parts fuel start num cyl_blks d ≡ all_parts ps
unfolding read_parts
read_parts-IsPartChain zero cyl_blks start num d ps h c = absurd (omega arith)
read_parts-IsPartChain (suc fuel) cyl_blks start num d [] h c = ground (arith, c)
read_parts-IsPartChain (suc fuel) cyl_blks start num d (p ∷ ps) h (e, i, k, n, at, c) =
    let rest =
      read_parts-IsPartChain fuel cyl_blks p.part_blk.next (suc num) d ps (omega arith) c in
    ground (arith, e, i, k, n, at, rest)

pub agree-IsPartChain :
    (cyl_blks start num : ℕ) (d d' : Device) (ps : List Partition)
    → ((x : ℕ) → is_in x (part_blks ps) ≡ true → d' x ≡ d x)
    → IsPartChain d cyl_blks start num ps
    → IsPartChain d' cyl_blks start num ps
agree-IsPartChain cyl_blks start num d d' [] f c = c
agree-IsPartChain cyl_blks start num d d' (p ∷ ps) f (e, i, k, n, at, c) = (
  e,
  i,
  k,
  n,
  f p.blk_num (ground arith) ∙ at,
  agree-IsPartChain cyl_blks p.part_blk.next (suc num) d d' ps (λ x h. f x (ground (arith, h))) c,
)

pub made_last-other :
    (x b : ℕ) (ps : List Partition) (d : Device)
    → is_in x (part_blks ps) ≡ false
    → made_last (set_last_next b ps) d x ≡ d x
made_last-other x b [] d h = refl
made_last-other x b (p ∷ []) d h = ground (arith, h)
made_last-other x b (p ∷ q ∷ []) d h = ground (arith, h)
made_last-other x b (p ∷ q ∷ o ∷ ps) d h = made_last-other x b (q ∷ o ∷ ps) d (ground (arith, h))

-- A new partition behind the last one, in whose block it is linked.
pub link-IsPartChain :
    (cyl_blks start num : ℕ) (d : Device) (p new : Partition) (ps : List Partition)
    → new.num ≡ num + length (p ∷ ps)
    → new.cyl_blks ≡ cyl_blks
    → new.part_blk.next ≡ no_blk
    → new.blk_num ≢ no_blk
    → d new.blk_num ≡ part new.part_blk
    → is_in new.blk_num (part_blks (p ∷ ps)) ≡ false
    → are_distinct (part_blks (p ∷ ps)) ≡ true
    → IsPartChain d cyl_blks start num (p ∷ ps)
    → IsPartChain
        (made_last (set_last_next new.blk_num (p ∷ ps)) d)
        cyl_blks
        start
        num
        (set_last_next new.blk_num (p ∷ ps) ++ new ∷ [])
link-IsPartChain cb start num d p new [] h₁ h₂ h₃ h₄ h₅ h₆ h₇ (e, i, k, n, at, c) =
    (e, i, k, n, ground arith, (refl, omega (arith, h₁), h₂, h₄, ground (arith, h₅, h₆), h₃))
link-IsPartChain cb start num d p new (q ∷ []) h₁ h₂ h₃ h₄ h₅ h₆ h₇ (e, i, k, n, at, c) = (
  e,
  i,
  k,
  n,
  made_last-other p.blk_num new.blk_num (q ∷ []) d (ground (arith, h₇)) ∙ at,
  link-IsPartChain cb p.part_blk.next (suc num) d q new [] (omega (arith, h₁)) h₂ h₃ h₄ h₅
      (ground (arith, h₆)) (ground (arith, h₇)) c,
)
link-IsPartChain cb start num d p new (q ∷ o ∷ ps) h₁ h₂ h₃ h₄ h₅ h₆ h₇ (e, i, k, n, at, c) = (
  e,
  i,
  k,
  n,
  made_last-other p.blk_num new.blk_num (q ∷ o ∷ ps) d (ground (arith, h₇)) ∙ at,
  link-IsPartChain cb p.part_blk.next (suc num) d q new (o ∷ ps) (omega (arith, h₁)) h₂ h₃ h₄ h₅
      (ground (arith, h₆)) (ground (arith, h₇)) c,
)

pub part_blks-link :
    (b : ℕ) (new : Partition) (ps : List Partition)
    → part_blks (set_last_next b ps ++ new ∷ []) ≡ part_blks ps ++ new.blk_num ∷ []
part_blks-link b new [] = refl
part_blks-link b new (p ∷ []) = refl
part_blks-link b new (p ∷ q ∷ ps) = ap (λ bs. p.blk_num ∷ bs) (part_blks-link b new (q ∷ ps))

pub is_in-append : (x b : ℕ) (bs : List ℕ) → is_in x (bs ++ b ∷ []) ≡ (is_in x bs || x == b)
is_in-append x b [] = ground arith
is_in-append x b (c ∷ bs) = ground (arith, is_in-append x b bs)

pub are_distinct-append :
    (b : ℕ) (bs : List ℕ)
    → are_distinct bs ≡ true
    → is_in b bs ≡ false
    → are_distinct (bs ++ b ∷ []) ≡ true
are_distinct-append b [] h k = refl
are_distinct-append b (c ∷ bs) h k =
    ground (arith, h, k, are_distinct-append b bs, is_in-append c b bs)

pub all_apart-link :
    (lo hi b : ℕ) (new : Partition) (ps : List Partition)
    → all_apart lo hi ps ≡ true
    → is_apart lo hi (cyl_range new) ≡ true
    → all_apart lo hi (set_last_next b ps ++ new ∷ []) ≡ true
all_apart-link lo hi b new [] h k = ground (arith, k)
all_apart-link lo hi b new (p ∷ []) h k = ground (arith, h, k)
all_apart-link lo hi b new (p ∷ q ∷ ps) h k =
    ground (arith, h, k, all_apart-link lo hi b new (q ∷ ps))

pub are_disjoint-link :
    (b : ℕ) (new : Partition) (ps : List Partition)
    → are_disjoint ps ≡ true
    → (cyl_range new).0 ≤ (cyl_range new).1
    → all_apart (cyl_range new).0 (cyl_range new).1 ps ≡ true
    → are_disjoint (set_last_next b ps ++ new ∷ []) ≡ true
are_disjoint-link b new [] h k e = ground (arith, k)
are_disjoint-link b new (p ∷ []) h k e = ground (arith, h, k, e)
are_disjoint-link b new (p ∷ q ∷ ps) h k e = ground (
  arith,
  h,
  k,
  e,
  are_disjoint-link b new (q ∷ ps),
  all_apart-link (cyl_range p).0 (cyl_range p).1 b new (q ∷ ps),
)

pub are_inside-link :
    (disk : ℕ × ℕ) (b : ℕ) (new : Partition) (ps : List Partition)
    → are_inside disk ps ≡ true
    → (leb disk.0 (cyl_range new).0 && leb (cyl_range new).1 disk.1) ≡ true
    → are_inside disk (set_last_next b ps ++ new ∷ []) ≡ true
are_inside-link disk b new [] h k = ground (arith, k)
are_inside-link disk b new (p ∷ []) h k = ground (arith, h, k)
are_inside-link disk b new (p ∷ q ∷ ps) h k =
    ground (arith, h, k, are_inside-link disk b new (q ∷ ps))
