-- ===== src/Fs/Rdb/Ranges.antt =====
-- The free ranges of cylinders.
use amitools.Prelude.{
  ℕ, ◌+◌, ◌-◌, ◌≤◌, ◌<◌, ◌≡◌, refl, Bool, true, false, none, some, List, [], ◌∷◌, ◌++◌, leb, ◌&&◌,
  ◌||◌, arith,
}
use amitools.Fs.Rdb.{
  Partition, RDisk, cyl_range, is_apart, all_apart, check_cyl_range, split_range, split_ranges,
  split_all, get_free_cyl_ranges, first_fit, find_free_cyl_range_start,
}

-- The partition lies in the range, or apart from it.
abbrev fits : ℕ × ℕ → ℕ × ℕ → Bool
fits fr pr = (leb fr.0 pr.0 && leb pr.1 fr.1) || is_apart fr.0 fr.1 pr

abbrev all_in_or_apart : ℕ × ℕ → List Partition → Bool
all_in_or_apart fr [] = true
all_in_or_apart fr (p ∷ ps) = fits fr (cyl_range p) && all_in_or_apart fr ps

-- Partitions with cylinders, no two of which share one.
abbrev pub are_disjoint : List Partition → Bool
are_disjoint [] = true
are_disjoint (p ∷ ps) =
    leb (cyl_range p).0 (cyl_range p).1
    && (all_apart (cyl_range p).0 (cyl_range p).1 ps && are_disjoint ps)

-- Partitions in a range of cylinders.
abbrev pub are_inside : ℕ × ℕ → List Partition → Bool
are_inside fr [] = true
are_inside fr (p ∷ ps) = (leb fr.0 (cyl_range p).0 && leb (cyl_range p).1 fr.1) && are_inside fr ps

-- A free range of the disk, when `seen` are dealt with and `left` are not.
abbrev is_free : ℕ × ℕ → List Partition → List Partition → ℕ × ℕ → Bool
is_free disk seen left fr =
    (leb disk.0 fr.0 && (leb fr.0 fr.1 && leb fr.1 disk.1))
    && (all_apart fr.0 fr.1 seen && all_in_or_apart fr left)

abbrev all_free : ℕ × ℕ → List Partition → List Partition → List (ℕ × ℕ) → Bool
all_free disk seen left [] = true
all_free disk seen left (fr ∷ free) = is_free disk seen left fr && all_free disk seen left free

all_free-append :
    (disk : ℕ × ℕ) (seen left : List Partition) (f g : List (ℕ × ℕ))
    → all_free disk seen left f ≡ true
    → all_free disk seen left g ≡ true
    → all_free disk seen left (f ++ g) ≡ true
all_free-append disk seen left [] g h k = k
all_free-append disk seen left (fr ∷ f) g h k =
    ground (arith, h, all_free-append disk seen left f g, k)

-- A smaller range is apart from what the range was apart from.
all_apart-smaller :
    (lo hi lo' hi' : ℕ) (ps : List Partition)
    → lo ≤ lo'
    → hi' ≤ hi
    → all_apart lo hi ps ≡ true
    → all_apart lo' hi' ps ≡ true
all_apart-smaller lo hi lo' hi' [] h k e = refl
all_apart-smaller lo hi lo' hi' (p ∷ ps) h k e =
    ground (arith, h, k, e, all_apart-smaller lo hi lo' hi' ps)

-- What is left in front of the partition, or behind it, when the others are apart from it.
in_or_apart-front :
    (lo hi a b : ℕ) (ps : List Partition)
    → (lo < a) × (a ≤ b) × (b ≤ hi)
    → all_in_or_apart (lo, hi) ps ≡ true
    → all_apart a b ps ≡ true
    → are_disjoint ps ≡ true
    → all_in_or_apart (lo, a - 1) ps ≡ true
in_or_apart-front lo hi a b [] h e f g = refl
in_or_apart-front lo hi a b (p ∷ ps) h e f g =
    ground (arith, h, e, f, g, in_or_apart-front lo hi a b ps h)

in_or_apart-back :
    (lo hi a b : ℕ) (ps : List Partition)
    → (lo ≤ a) × (a ≤ b) × (b < hi)
    → all_in_or_apart (lo, hi) ps ≡ true
    → all_apart a b ps ≡ true
    → are_disjoint ps ≡ true
    → all_in_or_apart (b + 1, hi) ps ≡ true
in_or_apart-back lo hi a b [] h e f g = refl
in_or_apart-back lo hi a b (p ∷ ps) h e f g =
    ground (arith, h, e, f, g, in_or_apart-back lo hi a b ps h)

split_range-free :
    (disk : ℕ × ℕ) (seen left : List Partition) (p : Partition) (fr : ℕ × ℕ)
    → is_free disk seen (p ∷ left) fr ≡ true
    → are_disjoint (p ∷ left) ≡ true
    → all_free disk (p ∷ seen) left (split_range (cyl_range p) fr) ≡ true
unfolding split_range
split_range-free disk seen left p fr h d =
    let a = p.part_blk.low_cyl in
    let b = p.part_blk.high_cyl in
    ground (
      arith,
      h,
      d,
      in_or_apart-front fr.0 fr.1 a b left,
      in_or_apart-back fr.0 fr.1 a b left,
      all_apart-smaller fr.0 fr.1 fr.0 (a - 1) seen,
      all_apart-smaller fr.0 fr.1 (b + 1) fr.1 seen,
    )

split_ranges-free :
    (disk : ℕ × ℕ) (seen left : List Partition) (p : Partition) (free : List (ℕ × ℕ))
    → all_free disk seen (p ∷ left) free ≡ true
    → are_disjoint (p ∷ left) ≡ true
    → all_free disk (p ∷ seen) left (split_ranges (cyl_range p) free) ≡ true
split_ranges-free disk seen left p [] h d = refl
split_ranges-free disk seen left p (fr ∷ free) h d =
    all_free-append disk (p ∷ seen) left (split_range (cyl_range p) fr)
      (split_ranges (cyl_range p) free) (split_range-free disk seen left p fr (ground (arith, h)) d)
      (split_ranges-free disk seen left p free (ground (arith, h)) d)

-- Free ranges, when all partitions are dealt with.
abbrev all_clear : ℕ × ℕ → List Partition → List Partition → List (ℕ × ℕ) → Bool
all_clear disk seen left [] = true
all_clear disk seen left (fr ∷ free) =
    ((leb disk.0 fr.0 && (leb fr.0 fr.1 && leb fr.1 disk.1))
      && (all_apart fr.0 fr.1 seen && all_apart fr.0 fr.1 left))
    && all_clear disk seen left free

all_clear-none :
    (disk : ℕ × ℕ) (seen : List Partition) (free : List (ℕ × ℕ))
    → all_free disk seen [] free ≡ true
    → all_clear disk seen [] free ≡ true
all_clear-none disk seen [] h = refl
all_clear-none disk seen (fr ∷ free) h = ground (arith, h, all_clear-none disk seen free)

all_clear-move :
    (disk : ℕ × ℕ) (seen left : List Partition) (p : Partition) (free : List (ℕ × ℕ))
    → all_clear disk (p ∷ seen) left free ≡ true
    → all_clear disk seen (p ∷ left) free ≡ true
all_clear-move disk seen left p [] h = refl
all_clear-move disk seen left p (fr ∷ free) h =
    ground (arith, h, all_clear-move disk seen left p free)

split_all-clear :
    (disk : ℕ × ℕ) (seen left : List Partition) (free : List (ℕ × ℕ))
    → all_free disk seen left free ≡ true
    → are_disjoint left ≡ true
    → all_clear disk seen left (split_all left free) ≡ true
split_all-clear disk seen [] free h d = all_clear-none disk seen free h
split_all-clear disk seen (p ∷ left) free h d =
    let next = split_ranges (cyl_range p) free in
    all_clear-move disk seen left p (split_all left next) (
      split_all-clear disk (p ∷ seen) left next (split_ranges-free disk seen left p free h d)
        (ground (arith, d)))

first_fit-clear :
    (disk : ℕ × ℕ) (n c : ℕ) (ps : List Partition) (free : List (ℕ × ℕ))
    → 0 < n
    → all_clear disk [] ps free ≡ true
    → first_fit n free ≡ some c
    → (leb disk.0 c && (leb (c + n - 1) disk.1 && all_apart c (c + n - 1) ps)) ≡ true
first_fit-clear disk n c ps [] pos h e = ground (arith, e)
first_fit-clear disk n c ps (fr ∷ free) pos h e = ground (
  arith,
  pos,
  h,
  e,
  all_apart-smaller fr.0 fr.1 fr.0 (fr.0 + n - 1) ps,
  first_fit-clear disk n c ps free pos,
)

start-fits :
    (lo hi : ℕ) (ps : List Partition)
    → are_inside (lo, hi) ps ≡ true
    → all_in_or_apart (lo, hi) ps ≡ true
start-fits lo hi [] h = refl
start-fits lo hi (p ∷ ps) h = ground (arith, h, start-fits lo hi ps)

-- The partitions of a disk lie on it, and no two share a cylinder.
unfoldable pub has_sound_parts : RDisk → Bool
has_sound_parts r =
    leb r.rdb.lo_cyl r.rdb.hi_cyl
    && (are_inside (r.rdb.lo_cyl, r.rdb.hi_cyl) r.parts && are_disjoint r.parts)

-- On a disk with sound partitions, when `find_free_cyl_range_start` finds a start for one cylinder or
-- more, `check_cyl_range` accepts that many cylinders from there on.
pub check_cyl_range-find_free :
    (num_cyls start : ℕ) (r : RDisk)
    → has_sound_parts r ≡ true
    → 0 < num_cyls
    → find_free_cyl_range_start num_cyls r ≡ some start
    → check_cyl_range start (start + num_cyls - 1) r ≡ true
unfolding has_sound_parts find_free_cyl_range_start get_free_cyl_ranges check_cyl_range
check_cyl_range-find_free n c r sound pos e =
    let disk : ℕ × ℕ = (r.rdb.lo_cyl, r.rdb.hi_cyl) in
    let free = split_all r.parts (disk ∷ []) in
    let clear =
      split_all-clear disk [] r.parts (disk ∷ [])
        (ground (arith, sound, start-fits r.rdb.lo_cyl r.rdb.hi_cyl r.parts))
        (ground (arith, sound)) in
    let found = first_fit-clear disk n c r.parts free pos clear in
    ground (arith, sound, pos, e, found, free)

-- A free range that holds all cylinders from `s` to `e`.
abbrev holds : ℕ → ℕ → List (ℕ × ℕ) → Bool
holds s e [] = false
holds s e (fr ∷ free) = (leb fr.0 s && leb e fr.1) || holds s e free

holds-append :
    (s e : ℕ) (f g : List (ℕ × ℕ)) → (holds s e f || holds s e g) ≡ true → holds s e (f ++ g) ≡ true
holds-append s e [] g h = h
holds-append s e (fr ∷ f) g h = ground (arith, h, holds-append s e f g)

split_range-holds :
    (s e : ℕ) (pr fr : ℕ × ℕ)
    → s ≤ e
    → pr.0 ≤ pr.1
    → (leb fr.0 s && leb e fr.1) ≡ true
    → is_apart s e pr ≡ true
    → holds s e (split_range pr fr) ≡ true
unfolding split_range
split_range-holds s e pr fr h p k q = ground (arith, h, p, k, q)

split_ranges-holds :
    (s e : ℕ) (pr : ℕ × ℕ) (free : List (ℕ × ℕ))
    → s ≤ e
    → pr.0 ≤ pr.1
    → is_apart s e pr ≡ true
    → holds s e free ≡ true
    → holds s e (split_ranges pr free) ≡ true
split_ranges-holds s e pr [] h p q k = ground (arith, k)
split_ranges-holds s e pr (fr ∷ free) h p q k =
    holds-append s e (split_range pr fr) (split_ranges pr free)
      (ground (arith, k, split_range-holds s e pr fr h p, q, split_ranges-holds s e pr free h p q))

split_all-holds :
    (s e : ℕ) (ps : List Partition) (free : List (ℕ × ℕ))
    → s ≤ e
    → are_disjoint ps ≡ true
    → all_apart s e ps ≡ true
    → holds s e free ≡ true
    → holds s e (split_all ps free) ≡ true
split_all-holds s e [] free h d q k = k
split_all-holds s e (p ∷ ps) free h d q k =
    split_all-holds s e ps (split_ranges (cyl_range p) free) h (ground (arith, d))
      (ground (arith, q))
      (split_ranges-holds s e (cyl_range p) free h (ground (arith, d)) (ground (arith, q)) k)

first_fit-holds :
    (s n : ℕ) (free : List (ℕ × ℕ))
    → 0 < n
    → first_fit n free ≡ none
    → holds s (s + n - 1) free ≡ false
first_fit-holds s n [] h e = refl
first_fit-holds s n (fr ∷ free) h e = ground (arith, h, e, first_fit-holds s n free h)

-- On a disk with sound partitions, when `find_free_cyl_range_start` finds no start for one cylinder or
-- more, `check_cyl_range` accepts so many cylinders from nowhere on.
pub check_cyl_range-none_free :
    (num_cyls start : ℕ) (r : RDisk)
    → has_sound_parts r ≡ true
    → 0 < num_cyls
    → find_free_cyl_range_start num_cyls r ≡ none
    → check_cyl_range start (start + num_cyls - 1) r ≡ false
unfolding has_sound_parts find_free_cyl_range_start get_free_cyl_ranges check_cyl_range
check_cyl_range-none_free n c r sound pos e =
    let disk : ℕ × ℕ = (r.rdb.lo_cyl, r.rdb.hi_cyl) in
    let free = split_all r.parts (disk ∷ []) in
    let kept =
      split_all-holds c (c + n - 1) r.parts (disk ∷ []) (omega arith) (ground (arith, sound)) in
    ground (arith, sound, pos, e, kept, first_fit-holds c n free pos, free)
