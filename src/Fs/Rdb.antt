-- ===== src/Fs/Rdb.antt =====
-- Rigid disk blocks: RDisk of amitools/fs/rdb/RDisk.py with Partition.py and FileSystem.py beside it,
-- and what PartitionBlock.py and RDBlock.py of amitools/fs/block/rdb keep. The device holds blocks of a
-- kind with their fields, `Stored`: writing a block stores it, and reading one succeeds if it is of the
-- kind that is read. Fields that the operations only pass on are left out. Blocks have room for their
-- fields, as those of 512 bytes or more do, and the numbers of the RDB fit its longs; whether those of a
-- partition or of a file system do is tested where they are written.
pub mod Edit
pub mod Remove
pub mod Resize
pub mod FileSystems
pub mod Ranges
pub mod Made
pub mod Blocks
pub mod LoadSegs
pub mod Flags
pub mod AddFs
pub mod Parts
pub mod Sound
pub mod AddPart
pub mod Unlink
pub mod DeletePart
pub mod Unwritten
pub mod Remap
mod Tests
use amitools.Prelude.{
  ℕ, zero, suc, ◌+◌, ◌-◌, ◌*◌, Bool, true, false, not, Option, none, some, List, [], ◌∷◌, ◌++◌,
  ◌==◌, ltb, leb, ◌&&◌, ◌||◌, if◌then◌else◌, length, take,
}
use amitools.Prelude.Int.{ℤ, pos_part, neg_part}

-- What `struct.pack_into` takes for a long, and for a signed one.
abbrev pub fits_long : ℕ → Bool
fits_long v = ltb v 4294967296

abbrev pub fits_slong : ℤ → Bool
fits_slong v = ltb (pos_part v) 2147483648 && leb (neg_part v) 2147483648

-- `Block.no_blk`
abbrev pub no_blk : ℕ
no_blk = 4294967295

-- `PartitionBlock`, with the fields of its `PartitionDosEnv`.
pub record PartBlock : Type 0 where
  pub next : ℕ
  pub drv_name : List ℕ
  pub flags : ℕ
  pub dev_flags : ℕ
  pub low_cyl : ℕ
  pub high_cyl : ℕ
  pub surfaces : ℕ
  pub blk_per_trk : ℕ
  pub dos_type : ℕ
  pub boot_pri : ℤ
  pub block_size : ℕ
  pub sec_per_blk : ℕ

pub record Partition : Type 0 where
  pub blk_num : ℕ
  pub num : ℕ
  pub cyl_blks : ℕ
  pub part_blk : PartBlock

-- `FSHeaderBlock`, with its `FSHeaderDeviceNode`.
pub record FsHeader : Type 0 where
  pub next : ℕ
  pub version : ℕ
  pub dos_type : ℕ
  pub node_type : ℕ
  pub task : ℕ
  pub lock : ℕ
  pub handler : ℕ
  pub stack_size : ℕ
  pub priority : ℕ
  pub startup : ℕ
  pub seg_list_blk : ℕ
  pub global_vec : ℕ

pub record LoadSeg : Type 0 where
  pub blk_num : ℕ
  pub next : ℕ
  pub bytes : List ℕ

pub record FileSystem : Type 0 where
  pub blk_num : ℕ
  pub num : ℕ
  pub fshd : FsHeader
  pub lsegs : List LoadSeg

-- `RDBlock`, with its `RDBPhysicalDrive` and `RDBLogicalDrive`.
pub record RdBlock : Type 0 where
  pub part_list : ℕ
  pub fs_list : ℕ
  pub cyls : ℕ
  pub heads : ℕ
  pub secs : ℕ
  pub lo_cyl : ℕ
  pub hi_cyl : ℕ
  pub cyl_blks : ℕ
  pub rdb_blk_hi : ℕ
  pub high_rdsk_blk : ℕ

pub data Stored : Type 0 where
  rdsk : RdBlock → Stored
  part : PartBlock → Stored
  fs_header : FsHeader → Stored
  load_seg : LoadSeg → Stored
  blank : Stored

abbrev pub Device : Type 0
Device = ℕ → Stored

abbrev pub put : ℕ → Stored → Device → Device
put blk b d = λ i. if i == blk then b else d i

pub record RDisk : Type 0 where
  pub rawblk : Device
  pub rdb_blk : ℕ
  pub rdb : RdBlock
  pub parts : List Partition
  pub fs : List FileSystem
  pub used_blks : List ℕ
  pub max_blks : ℕ
  pub block_bytes : ℕ

-- `self.rdb.write()`
abbrev pub write_rdb : RDisk → RDisk
write_rdb r = record r { rawblk = put r.rdb_blk (rdsk r.rdb) r.rawblk }

-- Queries. The last cylinder counts, and a range with more cylinders before it than in it has none.
unfoldable pub get_logical_cylinders : RDisk → ℕ
get_logical_cylinders r = r.rdb.hi_cyl + 1 - r.rdb.lo_cyl

unfoldable pub get_logical_blocks : RDisk → ℕ
unfolding get_logical_cylinders
get_logical_blocks r = get_logical_cylinders r * r.rdb.cyl_blks

unfoldable pub get_total_blocks : RDisk → ℕ
get_total_blocks r = r.rdb.cyls * r.rdb.heads * r.rdb.secs

-- `Partition.get_cyl_range`
abbrev pub cyl_range : Partition → ℕ × ℕ
cyl_range p = (p.part_blk.low_cyl, p.part_blk.high_cyl)

abbrev pub is_apart : ℕ → ℕ → ℕ × ℕ → Bool
is_apart lo_cyl hi_cyl pr = ltb hi_cyl pr.0 || ltb pr.1 lo_cyl

abbrev pub all_apart : ℕ → ℕ → List Partition → Bool
all_apart lo_cyl hi_cyl [] = true
all_apart lo_cyl hi_cyl (p ∷ ps) =
    if not (is_apart lo_cyl hi_cyl (cyl_range p)) then false else all_apart lo_cyl hi_cyl ps

unfoldable pub check_cyl_range : ℕ → ℕ → RDisk → Bool
check_cyl_range lo_cyl hi_cyl r =
    if ltb hi_cyl lo_cyl
    then false
    else if not (leb r.rdb.lo_cyl lo_cyl && leb hi_cyl r.rdb.hi_cyl)
    then false
    else all_apart lo_cyl hi_cyl r.parts

-- What is left of the free range `fr` beside a partition.
unfoldable pub split_range : ℕ × ℕ → ℕ × ℕ → List (ℕ × ℕ)
split_range pr fr =
    if pr.0 == fr.0 && pr.1 == fr.1
    then []
    else if pr.0 == fr.0
    then (pr.1 + 1, fr.1) ∷ []
    else if pr.1 == fr.1
    then (fr.0, pr.0 - 1) ∷ []
    else if ltb fr.0 pr.0 && ltb pr.1 fr.1
    then (fr.0, pr.0 - 1) ∷ (pr.1 + 1, fr.1) ∷ []
    else fr ∷ []

abbrev pub split_ranges : ℕ × ℕ → List (ℕ × ℕ) → List (ℕ × ℕ)
split_ranges pr [] = []
split_ranges pr (fr ∷ free) = split_range pr fr ++ split_ranges pr free

abbrev pub split_all : List Partition → List (ℕ × ℕ) → List (ℕ × ℕ)
split_all [] free = free
split_all (p ∷ ps) free = split_all ps (split_ranges (cyl_range p) free)

unfoldable pub get_free_cyl_ranges : RDisk → Option (List (ℕ × ℕ))
get_free_cyl_ranges r = elim (split_all r.parts ((r.rdb.lo_cyl, r.rdb.hi_cyl) ∷ [])) [
  | [] ↦ none
  | fr ∷ free ↦ some (fr ∷ free)
]

abbrev pub first_fit : ℕ → List (ℕ × ℕ) → Option ℕ
first_fit num_cyls [] = none
first_fit num_cyls (fr ∷ free) =
    if leb num_cyls (fr.1 + 1 - fr.0) then some fr.0 else first_fit num_cyls free

unfoldable pub find_free_cyl_range_start : ℕ → RDisk → Option ℕ
unfolding get_free_cyl_ranges
find_free_cyl_range_start num_cyls r = elim (get_free_cyl_ranges r) [
  | none ↦ none
  | some ranges ↦ first_fit num_cyls ranges
]

-- The blocks of the RDB area.
unfoldable pub has_free_rdb_blocks : ℕ → RDisk → Bool
has_free_rdb_blocks num r = leb (length r.used_blks + num) r.max_blks

abbrev pub is_in : ℕ → List ℕ → Bool
is_in i [] = false
is_in i (x ∷ xs) = i == x || is_in i xs

-- The free blocks among the `n` from `i` on.
abbrev pub free_from : ℕ → ℕ → List ℕ → List ℕ
free_from zero i used = []
free_from (suc n) i used =
    if is_in i used then free_from n (suc i) used else i ∷ free_from n (suc i) used

unfoldable pub get_free_blocks : RDisk → List ℕ
get_free_blocks r = free_from r.max_blks 0 r.used_blks

unfoldable pub alloc_rdb_blocks : ℕ → RDisk → Option (List ℕ)
unfolding get_free_blocks
alloc_rdb_blocks num r =
    let free = get_free_blocks r in
    if length free == num
    then some free
    else if ltb num (length free)
    then some (take num free)
    else none

unfoldable pub next_rdb_block : RDisk → Option ℕ
unfolding get_free_blocks
next_rdb_block r = elim (get_free_blocks r) [ [] ↦ none | b ∷ bs ↦ some b ]

abbrev pub highest : ℕ → List ℕ → ℕ
highest hi [] = hi
highest hi (b ∷ bs) = highest (if ltb hi b then b else hi) bs

unfoldable pub update_hi_blk : RDisk → RDisk
update_hi_blk r =
    let rdb = record r.rdb { high_rdsk_blk = highest 0 r.used_blks } in record r { rdb = rdb }
