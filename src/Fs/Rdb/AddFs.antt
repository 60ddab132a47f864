-- ===== src/Fs/Rdb/AddFs.antt =====
-- What `add_filesystem` writes is what `FileSystem.read` finds, up to a last long that is not full.
use amitools.Prelude.{
  ℕ, zero, suc, ◌+◌, ◌-◌, ◌*◌, ◌/◌, ◌≤◌, ◌<◌, ◌≡◌, refl, sym, ap, ◌∙◌, Bool, true, false, Option,
  none, some, List, [], ◌∷◌, ◌++◌, map, ◌==◌, ltb, ◌&&◌, if◌then◌else◌, length, length-map, take,
  arith,
}
use mathlib.Core.Path.{subst}
use native.Mathlib.Nat.{div-add-mod', mod-lt}
use amitools.Fs.Rdb.{
  fits_long, no_blk, FsHeader, LoadSeg, FileSystem, fs_header, Device, put, is_in, RDisk,
  has_free_rdb_blocks, get_free_blocks, alloc_rdb_blocks, next_rdb_block, update_hi_blk,
}
use amitools.Fs.Rdb.Edit.{done}
use amitools.Fs.Rdb.Blocks.{are_fresh, alloc_rdb_blocks_succeeds}
use amitools.Fs.Rdb.FileSystems.{
  DevFlag, header_fits, write_new_fs, header, file_system, make_lsegs, create_fs, write_fs,
  join_bytes, read_fs, set_last_fs, write_last_header, append_fs, get_total_blocks, add_filesystem,
}
use amitools.Fs.Rdb.Flags.{are_plain, IsFlagged, set_flags-IsFlagged}
use amitools.Fs.Rdb.LoadSegs.{
  blk_of, IsMade, IsLinked, IsChain, make_lsegs-IsMade, write_lsegs-IsChain, write_lsegs-other,
  agree-IsChain, read_lsegs-IsChain, put_self,
}

-- The headers of the file systems stand in used blocks.
abbrev pub fs_in : List ℕ → List FileSystem → Bool
fs_in used [] = true
fs_in used (f ∷ fs) = is_in f.blk_num used && fs_in used fs

apart : (x y : ℕ) (used : List ℕ) → is_in x used ≡ false → is_in y used ≡ true → (x == y) ≡ false
apart x y [] h k = ground (arith, k)
apart x y (u ∷ used) h k = ground (arith, h, k, apart x y used)

write_last_header-other :
    (x b : ℕ) (used : List ℕ) (fs : List FileSystem) (d : Device)
    → is_in x used ≡ false
    → fs_in used fs ≡ true
    → write_last_header (set_last_fs b fs) d x ≡ d x
write_last_header-other x b used [] d h k = refl
write_last_header-other x b used (f ∷ []) d h k = ground (arith, apart x f.blk_num used h, k)
write_last_header-other x b used (f ∷ g ∷ []) d h k = ground (arith, apart x g.blk_num used h, k)
write_last_header-other x b used (f ∷ g ∷ e ∷ fs) d h k =
    write_last_header-other x b used (g ∷ e ∷ fs) d h (ground (arith, k))

append_fs-other :
    (x : ℕ) (used : List ℕ) (f : FileSystem) (r : RDisk)
    → is_in x used ≡ false
    → is_in r.rdb_blk used ≡ true
    → fs_in used r.fs ≡ true
    → (append_fs f r).rawblk x ≡ write_fs f r.rawblk x
unfolding append_fs
append_fs-other x used f r h k i = ground (
  arith,
  apart x r.rdb_blk used h k,
  r.fs,
  write_last_header-other x f.blk_num used r.fs (write_fs f r.rawblk) h i,
)

first_of : List ℕ → Option ℕ
first_of [] = none
first_of (b ∷ bs) = some b

some-first :
    (num b : ℕ) (bs free : List ℕ)
    → (if length free == num
        then some free
        else if ltb num (length free)
        then some (take num free)
        else none)
      ≡ some (b ∷ bs)
    → first_of free ≡ some b
unfolding first_of
some-first num b bs [] h = ground (arith, h)
some-first zero b bs (x ∷ xs) h = ground (arith, h)
some-first (suc num) b bs (x ∷ xs) h = ground (arith, h)

next_rdb_block-alloc :
    (num b : ℕ) (bs : List ℕ) (r : RDisk)
    → alloc_rdb_blocks num r ≡ some (b ∷ bs)
    → next_rdb_block r ≡ some b
unfolding alloc_rdb_blocks next_rdb_block get_free_blocks first_of
next_rdb_block-alloc num b bs r h =
    ground (arith, some-first num b bs (get_free_blocks r) h, get_free_blocks r)

-- The blocks that the data need: as many as `make_lsegs` fills.
total_fits :
    (n size k : ℕ) → 0 < n → suc k ≡ (size + n - 1) / n + 1 → (size ≤ k * n) × (k * n < size + n)
total_fits n size k p h =
    let e : k * n ≡ (size + n - 1) / n * n = ap (λ j. j * n) (omega (arith, h)) in
    let whole = div-add-mod' (size + n - 1) n in
    let rest = mod-lt (size + n - 1) {m = n} p in
    (omega (arith, e, whole, rest, p), omega (arith, e, whole, rest, p))

create_fs-IsMade :
    (n block_bytes b num c version dos_type : ℕ) (flags : List DevFlag) (h : FsHeader)
    (blks bytes : List ℕ) (ls : List LoadSeg)
    → block_bytes - 20 ≡ n
    → IsFlagged flags (header version dos_type c) h
    → IsMade n (c ∷ blks) bytes ls
    → create_fs block_bytes b num (c ∷ blks) bytes version dos_type flags
      ≡ done (file_system b num h ls)
unfolding create_fs
create_fs-IsMade n block_bytes b num c version dos_type flags h blks bytes ls e i m =
    let makes = ap (λ k. make_lsegs k (c ∷ blks) bytes) e ∙ m.makes in
    let sets = i.sets in ground (arith, makes, sets)

-- The file system is made, and its blocks are chained on the device `d` that it is written to.
record IsCreated (r : RDisk) (b version dos_type : ℕ) (flags : List DevFlag) (blks bytes : List ℕ)
    (f : FileSystem) : Type 0 where
  makes : create_fs r.block_bytes b (length r.fs) blks bytes version dos_type flags ≡ done f
  fitting : header_fits f.fshd ≡ true
  starts : f.blk_num ≡ b
  keeps : join_bytes f.lsegs ≡ take (length bytes / 4 * 4) bytes
  size : length f.lsegs ≡ length blks
  fresh : are_fresh r.max_blks r.used_blks (map blk_of f.lsegs) ≡ true
  stored : write_fs f r.rawblk b ≡ fs_header f.fshd
  chained : IsChain (write_fs f r.rawblk) f.fshd.seg_list_blk f.lsegs

IsCreated-with :
    (r : RDisk) (n b c version dos_type : ℕ) (flags : List DevFlag) (blks bytes : List ℕ)
    (ls : List LoadSeg)
    → are_plain flags ≡ true
    → header_fits (header version dos_type c) ≡ true
    → r.block_bytes - 20 ≡ n
    → r.max_blks ≤ no_blk
    → are_fresh r.max_blks r.used_blks (b ∷ c ∷ blks) ≡ true
    → IsMade n (c ∷ blks) bytes ls
    → (f : FileSystem) × IsCreated r b version dos_type flags (c ∷ blks) bytes f
IsCreated-with r n b c version dos_type flags blks bytes ls plain hf z m fr made =
    let fresh : are_fresh r.max_blks r.used_blks (map blk_of ls) ≡ true =
      ap (are_fresh r.max_blks r.used_blks) made.blocks ∙ ground (arith, fr) in
    let apart_b : is_in b (map blk_of ls) ≡ false = ap (is_in b) made.blocks ∙ ground (arith, fr) in
    let (fshd, flagged) = set_flags-IsFlagged flags (header version dos_type c) plain hf in
    (
      file_system b (length r.fs) fshd ls,
      record {
        makes =
            create_fs-IsMade n r.block_bytes b (length r.fs) c version dos_type flags fshd blks
              bytes ls z flagged made;
        fitting = flagged.fitting;
        starts = refl;
        keeps = made.keeps;
        size = sym (length-map ls blk_of) ∙ ap length made.blocks;
        fresh = fresh;
        stored =
            write_lsegs-other b (put b (fs_header fshd) r.rawblk) ls apart_b
            ∙ put_self b (fs_header fshd) r.rawblk;
        chained =
            write_lsegs-IsChain fshd.seg_list_blk r.max_blks r.used_blks
              (put b (fs_header fshd) r.rawblk) ls m fresh
              (subst (λ start. IsLinked start ls) (sym flagged.first) made.links);
      },
    )

created :
    (r : RDisk) (q n b version dos_type : ℕ) (flags : List DevFlag) (blks bytes : List ℕ)
    → are_plain flags ≡ true
    → fits_long version ≡ true
    → fits_long dos_type ≡ true
    → n ≡ 4 * q
    → r.block_bytes - 20 ≡ n
    → 0 < n
    → 0 < length bytes
    → suc (length blks) ≡ get_total_blocks r.block_bytes (length bytes)
    → r.max_blks ≤ no_blk
    → are_fresh r.max_blks r.used_blks (b ∷ blks) ≡ true
    → (f : FileSystem) × IsCreated r b version dos_type flags blks bytes f
unfolding get_total_blocks
created r q n b version dos_type flags [] bytes plain fv fd e z p pos h m fr =
    let total : suc 0 ≡ (length bytes + n - 1) / n + 1 =
      h ∙ ap (λ k. (length bytes + k - 1) / k + 1) z in
    absurd (grind (arith, total_fits n (length bytes) 0 p total, pos))
created r q n b version dos_type flags (c ∷ blks) bytes plain fv fd e z p pos h m fr =
    let total : suc (suc (length blks)) ≡ (length bytes + n - 1) / n + 1 =
      h ∙ ap (λ k. (length bytes + k - 1) / k + 1) z in
    let fits = total_fits n (length bytes) (suc (length blks)) p total in
    let made = make_lsegs-IsMade q n (c ∷ blks) bytes e fits.0 fits.1 in
    let hf : header_fits (header version dos_type c) ≡ true = ground (arith, fv, fd, fr, m) in
    IsCreated-with r n b c version dos_type flags blks bytes made.0 plain hf z m fr made.1

-- The state after a file system is added in the blocks `blks`.
abbrev with_blocks : List ℕ → RDisk → RDisk
with_blocks blks r = update_hi_blk (record r { used_blks = r.used_blks ++ blks })

read_fs-append :
    (fuel max : ℕ) (used : List ℕ) (f : FileSystem) (r : RDisk)
    → is_in r.rdb_blk used ≡ true
    → fs_in used r.fs ≡ true
    → is_in f.blk_num used ≡ false
    → are_fresh max used (map blk_of f.lsegs) ≡ true
    → write_fs f r.rawblk f.blk_num ≡ fs_header f.fshd
    → IsChain (write_fs f r.rawblk) f.fshd.seg_list_blk f.lsegs
    → length f.lsegs < fuel
    → read_fs fuel f.blk_num (append_fs f r).rawblk ≡ some (join_bytes f.lsegs)
unfolding read_fs
read_fs-append fuel max used f r at fs new fresh stored chain size =
    let d = (append_fs f r).rawblk in
    let head : d f.blk_num ≡ fs_header f.fshd =
      append_fs-other f.blk_num used f r new at fs ∙ stored in
    let chain' =
      agree-IsChain f.fshd.seg_list_blk max used (write_fs f r.rawblk) d f.lsegs
        (λ x h. append_fs-other x used f r h at fs) fresh chain in
    let reads = read_lsegs-IsChain fuel f.fshd.seg_list_blk d f.lsegs size chain' in
    ground (arith, head, reads)

add_filesystem-created :
    (bytes : List ℕ) (dos_type version b : ℕ) (flags : List DevFlag) (blks : List ℕ)
    (f : FileSystem) (r : RDisk)
    → header_fits f.fshd ≡ true
    → has_free_rdb_blocks (get_total_blocks r.block_bytes (length bytes)) r ≡ true
    → alloc_rdb_blocks (get_total_blocks r.block_bytes (length bytes)) r ≡ some (b ∷ blks)
    → create_fs r.block_bytes b (length r.fs) blks bytes version dos_type flags ≡ done f
    → add_filesystem bytes dos_type version flags r
      ≡ (done true, append_fs f (with_blocks (b ∷ blks) r))
unfolding add_filesystem write_new_fs
add_filesystem-created bytes dos_type version b flags blks f r hf h a c =
    let next = next_rdb_block-alloc (get_total_blocks r.block_bytes (length bytes)) b blks r a in
    ground (arith, hf, h, a, c, next)

-- `add_filesystem` succeeds, and what it has written is read back.
abbrev IsAdded : List ℕ → ℕ → ℕ → List DevFlag → ℕ → RDisk → Type 0
IsAdded bytes dos_type version flags total r =
    (b : ℕ) × (r' : RDisk) × (next_rdb_block r ≡ some b)
    × (add_filesystem bytes dos_type version flags r ≡ (done true, r'))
    × (read_fs total b r'.rawblk ≡ some (take (length bytes / 4 * 4) bytes))

created-IsAdded :
    (bytes : List ℕ) (dos_type version b : ℕ) (flags : List DevFlag) (blks : List ℕ)
    (f : FileSystem) (r : RDisk)
    → is_in r.rdb_blk r.used_blks ≡ true
    → fs_in r.used_blks r.fs ≡ true
    → has_free_rdb_blocks (get_total_blocks r.block_bytes (length bytes)) r ≡ true
    → alloc_rdb_blocks (get_total_blocks r.block_bytes (length bytes)) r ≡ some (b ∷ blks)
    → suc (length blks) ≡ get_total_blocks r.block_bytes (length bytes)
    → are_fresh r.max_blks r.used_blks (b ∷ blks) ≡ true
    → IsCreated r b version dos_type flags blks bytes f
    → IsAdded bytes dos_type version flags (get_total_blocks r.block_bytes (length bytes)) r
unfolding update_hi_blk
created-IsAdded bytes dos_type version b flags blks f r at fs h a size fr c =
    let total = get_total_blocks r.block_bytes (length bytes) in
    let fits : length f.lsegs < total = omega (arith, size, c.size) in
    let new : is_in f.blk_num r.used_blks ≡ false = ground (arith, c.starts, fr) in
    let stored = ap (write_fs f r.rawblk) c.starts ∙ c.stored in
    let reads =
      read_fs-append total r.max_blks r.used_blks f (with_blocks (b ∷ blks) r) at fs new c.fresh
        stored c.chained fits in
    (
      b,
      append_fs f (with_blocks (b ∷ blks) r),
      next_rdb_block-alloc total b blks r a,
      add_filesystem-created bytes dos_type version b flags blks f r c.fitting h a c.makes,
      ap (λ x. read_fs total x (append_fs f (with_blocks (b ∷ blks) r)).rawblk) (sym c.starts)
          ∙ (reads ∙ ap some c.keeps),
    )

allocated-IsAdded :
    (q : ℕ) (bytes : List ℕ) (dos_type version : ℕ) (flags : List DevFlag) (blks : List ℕ)
    (r : RDisk)
    → are_plain flags ≡ true
    → fits_long version ≡ true
    → fits_long dos_type ≡ true
    → r.block_bytes ≡ 4 * q + 20
    → 0 < q
    → 0 < length bytes
    → r.max_blks ≤ no_blk
    → is_in r.rdb_blk r.used_blks ≡ true
    → fs_in r.used_blks r.fs ≡ true
    → has_free_rdb_blocks (get_total_blocks r.block_bytes (length bytes)) r ≡ true
    → alloc_rdb_blocks (get_total_blocks r.block_bytes (length bytes)) r ≡ some blks
    → length blks ≡ get_total_blocks r.block_bytes (length bytes)
    → are_fresh r.max_blks r.used_blks blks ≡ true
    → IsAdded bytes dos_type version flags (get_total_blocks r.block_bytes (length bytes)) r
unfolding get_total_blocks
allocated-IsAdded q bytes dos_type version flags [] r plain fv fd bb p pos m at fs h a size fr =
    absurd (omega (arith, size))
allocated-IsAdded q bytes dos_type version flags (b ∷ blks) r plain fv fd bb p pos m at fs h a size
      fr =
    let c =
      created r q (4 * q) b version dos_type flags blks bytes plain fv fd refl (omega (arith, bb))
        (omega (arith, p)) pos size m fr in
    created-IsAdded bytes dos_type version b flags blks c.0 r at fs h a size fr c.1

-- On a disk whose blocks have whole longs, and whose RDB and file systems stand in used blocks,
-- `add_filesystem` succeeds for data of one byte or more if the RDB area has room for its blocks, the
-- version and the DOS type fit their longs, and the flags are valid, fit theirs and do not name
-- seg_list_blk. Its header takes the next free block; reading the file system from there gives the data back, less the
-- bytes of a last long that is not full.
pub read_fs-add_filesystem :
    (q : ℕ) (bytes : List ℕ) (dos_type version : ℕ) (flags : List DevFlag) (r : RDisk)
    → are_plain flags ≡ true
    → fits_long version ≡ true
    → fits_long dos_type ≡ true
    → r.block_bytes ≡ 4 * q + 20
    → 0 < q
    → 0 < length bytes
    → r.max_blks ≤ no_blk
    → is_in r.rdb_blk r.used_blks ≡ true
    → fs_in r.used_blks r.fs ≡ true
    → has_free_rdb_blocks (get_total_blocks r.block_bytes (length bytes)) r ≡ true
    → (b : ℕ) × (r' : RDisk) × (next_rdb_block r ≡ some b)
      × (add_filesystem bytes dos_type version flags r ≡ (done true, r'))
      × (read_fs (get_total_blocks r.block_bytes (length bytes)) b r'.rawblk
          ≡ some (take (length bytes / 4 * 4) bytes))
read_fs-add_filesystem q bytes dos_type version flags r plain fv fd bb p pos m at fs h =
    let a = alloc_rdb_blocks_succeeds (get_total_blocks r.block_bytes (length bytes)) r h in
    allocated-IsAdded q bytes dos_type version flags a.0 r plain fv fd bb p pos m at fs h a.1 a.2
      a.3
