-- ===== src/Fs/Rdb/Blocks.antt =====
-- The free blocks of the RDB area.
use amitools.Prelude.{
  ℕ, zero, suc, ◌+◌, ◌≤◌, ◌<◌, ◌≡◌, refl, Bool, true, false, not, some, List, [], ◌∷◌, ltb, leb,
  ◌&&◌, length, take, length-take, take-all, arith,
}
use amitools.Fs.Rdb.{
  RDisk, has_free_rdb_blocks, is_in, free_from, get_free_blocks, alloc_rdb_blocks,
}

-- Blocks that are not used, below `max`, in rising order from `i` on.
abbrev are_rising : ℕ → ℕ → List ℕ → List ℕ → Bool
are_rising i max used [] = true
are_rising i max used (b ∷ bs) =
    (leb i b && (ltb b max && not (is_in b used))) && are_rising (suc b) max used bs

-- Blocks that are not used, below `max`, and no two the same.
abbrev pub are_fresh : ℕ → List ℕ → List ℕ → Bool
are_fresh max used [] = true
are_fresh max used (b ∷ bs) =
    (ltb b max && (not (is_in b used) && not (is_in b bs))) && are_fresh max used bs

are_rising-lower :
    (i j max : ℕ) (used bs : List ℕ)
    → i ≤ j
    → are_rising j max used bs ≡ true
    → are_rising i max used bs ≡ true
are_rising-lower i j max used [] h e = refl
are_rising-lower i j max used (b ∷ bs) h e = ground (arith, h, e)

free_from-rising :
    (n i max : ℕ) (used : List ℕ) → i + n ≡ max → are_rising i max used (free_from n i used) ≡ true
free_from-rising zero i max used h = refl
free_from-rising (suc n) i max used h = ground (
  arith,
  free_from-rising n (suc i) max used (omega (arith, h)),
  h,
  are_rising-lower i (suc i) max used (free_from n (suc i) used),
)

take-rising :
    (n i max : ℕ) (used bs : List ℕ)
    → are_rising i max used bs ≡ true
    → are_rising i max used (take n bs) ≡ true
take-rising zero i max used bs h = refl
take-rising (suc n) i max used [] h = refl
take-rising (suc n) i max used (b ∷ bs) h = ground (arith, h, take-rising n (suc b) max used bs)

rising-not_in :
    (x i max : ℕ) (used bs : List ℕ) → x < i → are_rising i max used bs ≡ true → is_in x bs ≡ false
rising-not_in x i max used [] h e = refl
rising-not_in x i max used (b ∷ bs) h e = ground (arith, h, e, rising-not_in x (suc b) max used bs)

rising-fresh :
    (i max : ℕ) (used bs : List ℕ) → are_rising i max used bs ≡ true → are_fresh max used bs ≡ true
rising-fresh i max used [] h = refl
rising-fresh i max used (b ∷ bs) h =
    ground (
      arith,
      h,
      rising-fresh (suc b) max used bs,
      rising-not_in b (suc b) max used bs (omega arith),
    )

-- A block below `i` takes none from those behind, and any block takes one at most.
free_from-below :
    (n i u : ℕ) (used : List ℕ)
    → u < i
    → length (free_from n i (u ∷ used)) ≡ length (free_from n i used)
free_from-below zero i u used h = refl
free_from-below (suc n) i u used h = ground (arith, h, free_from-below n (suc i) u used)

free_from-one :
    (n i u : ℕ) (used : List ℕ)
    → length (free_from n i used) ≤ suc (length (free_from n i (u ∷ used)))
free_from-one zero i u used = omega arith
free_from-one (suc n) i u used =
    ground (arith, free_from-one n (suc i) u used, free_from-below n (suc i) u used)

free_from-all : (n i : ℕ) → length (free_from n i []) ≡ n
free_from-all zero i = refl
free_from-all (suc n) i = omega (arith, free_from-all n (suc i))

length-free_from : (n i : ℕ) (used : List ℕ) → n ≤ length (free_from n i used) + length used
length-free_from n i [] = omega (arith, free_from-all n i)
length-free_from n i (u ∷ used) = omega (arith, free_from-one n i u used, length-free_from n i used)

-- If `has_free_rdb_blocks` says that there is room for `num` blocks, `alloc_rdb_blocks` gives so many:
-- they are below `max_blks` and not used, and no two are the same.
pub alloc_rdb_blocks_succeeds :
    (num : ℕ) (r : RDisk)
    → has_free_rdb_blocks num r ≡ true
    → (blks : List ℕ) × (alloc_rdb_blocks num r ≡ some blks)
      × (length blks ≡ num)
      × (are_fresh r.max_blks r.used_blks blks ≡ true)
unfolding has_free_rdb_blocks alloc_rdb_blocks get_free_blocks
alloc_rdb_blocks_succeeds num r h =
    let free = free_from r.max_blks 0 r.used_blks in
    let rising =
      take-rising num 0 r.max_blks r.used_blks free
        (free_from-rising r.max_blks 0 r.max_blks r.used_blks (omega arith)) in
    let enough : num ≤ length free = ground (arith, h, length-free_from r.max_blks 0 r.used_blks) in
    (
      take num free,
      ground (arith, enough, take-all num free),
      omega (arith, enough, length-take num free),
      rising-fresh 0 r.max_blks r.used_blks (take num free) rising,
    )
