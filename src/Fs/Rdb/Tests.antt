-- ===== src/Fs/Rdb/Tests.antt =====
-- Runs on small rigid disks.
use amitools.Prelude.{
  ℕ, ◌/◌, ◌≤◌, ◌≡◌, refl, true, false, none, some, List, [], ◌∷◌, length, replicate, get_elem?,
  arith,
}
use amitools.Prelude.Int.{pos, negsuc}
use amitools.Fs.Rdb.{
  no_blk, PartBlock, Partition, blank, fs_header, RDisk, check_cyl_range, get_free_cyl_ranges,
  split_range, find_free_cyl_range_start, has_free_rdb_blocks, alloc_rdb_blocks, get_free_blocks,
  next_rdb_block, update_hi_blk, is_in,
}
use amitools.Fs.Rdb.Edit.{
  done, struct_error, key_boot_pri, add_partition, append_partition, change_partition,
  is_bad_sec_per_blk,
}
use amitools.Fs.Rdb.Resize.{coarser, create, remap_op}
use amitools.Fs.Rdb.FileSystems.{
  flag_stack_size, flag_seg_list_blk, header, add_filesystem, delete_filesystem, create_fs,
  make_lsegs, append_fs, write_new_fs, get_total_blocks, read_fs, read_lsegs,
}
use amitools.Fs.Rdb.Ranges.{has_sound_parts, check_cyl_range-find_free, check_cyl_range-none_free}
use amitools.Fs.Rdb.Blocks.{are_fresh, alloc_rdb_blocks_succeeds}
use amitools.Fs.Rdb.AddFs.{fs_in, read_fs-add_filesystem}
use amitools.Fs.Rdb.AddPart.{made_block}
use amitools.Fs.Rdb.Unwritten.{
  last_blks, delete_filesystem-keeps, only_size, change_partition-unwritten,
}

abbrev no_disk : RDisk
no_disk = record {
  rawblk = λ i. blank;
  rdb_blk = 0;
  rdb = record {
    part_list = no_blk;
    fs_list = no_blk;
    cyls = 0;
    heads = 0;
    secs = 0;
    lo_cyl = 0;
    hi_cyl = 0;
    cyl_blks = 0;
    rdb_blk_hi = 0;
    high_rdsk_blk = 0;
  };
  parts = [];
  fs = [];
  used_blks = [];
  max_blks = 0;
  block_bytes = 512;
}

-- 20 cylinders, of 4 heads and 8 sectors.
abbrev fresh_disk : RDisk
fresh_disk = create 20 4 8 2 0 no_disk

-- With a partition in the cylinders 5 to 9.
abbrev one_part : RDisk
one_part = (add_partition (68 ∷ []) 5 9 0 0 (negsuc 4) [] 0 fresh_disk).1

one_part-run : (add_partition (68 ∷ []) 5 9 0 0 (negsuc 4) [] 0 fresh_disk).0 ≡ done 1
unfolding add_partition check_cyl_range has_free_rdb_blocks alloc_rdb_blocks update_hi_blk
    append_partition create get_free_blocks
one_part-run = refl

free-run : get_free_cyl_ranges one_part ≡ some ((2, 4) ∷ (10, 19) ∷ [])
unfolding add_partition check_cyl_range has_free_rdb_blocks alloc_rdb_blocks update_hi_blk
    append_partition create get_free_blocks get_free_cyl_ranges split_range
free-run = refl

find-run : find_free_cyl_range_start 4 one_part ≡ some 10
unfolding add_partition check_cyl_range has_free_rdb_blocks alloc_rdb_blocks update_hi_blk
    append_partition create get_free_blocks find_free_cyl_range_start get_free_cyl_ranges
    split_range
find-run = refl

sound : has_sound_parts one_part ≡ true
unfolding add_partition check_cyl_range has_free_rdb_blocks alloc_rdb_blocks update_hi_blk
    append_partition create get_free_blocks has_sound_parts
sound = refl

check_cyl_range-find_free_example : check_cyl_range 10 13 one_part ≡ true
check_cyl_range-find_free_example =
    check_cyl_range-find_free 4 10 one_part sound (omega arith) find-run

none-run : find_free_cyl_range_start 11 one_part ≡ none
unfolding add_partition check_cyl_range has_free_rdb_blocks alloc_rdb_blocks update_hi_blk
    append_partition create get_free_blocks find_free_cyl_range_start get_free_cyl_ranges
    split_range
none-run = refl

check_cyl_range-none_free_example : check_cyl_range 8 18 one_part ≡ false
check_cyl_range-none_free_example =
    check_cyl_range-none_free 11 8 one_part sound (omega arith) none-run

room-run : has_free_rdb_blocks 3 one_part ≡ true
unfolding add_partition check_cyl_range has_free_rdb_blocks alloc_rdb_blocks update_hi_blk
    append_partition create get_free_blocks
room-run = refl

alloc_rdb_blocks_succeeds-run :
    (blks : List ℕ) × (alloc_rdb_blocks 3 one_part ≡ some blks)
    × (length blks ≡ 3)
    × (are_fresh one_part.max_blks one_part.used_blks blks ≡ true)
alloc_rdb_blocks_succeeds-run = alloc_rdb_blocks_succeeds 3 one_part room-run

fresh-size-run : fresh_disk.block_bytes ≡ 512
unfolding create
fresh-size-run = refl

-- A name of 40 characters, of which the block keeps 31, and a priority that `more_dos_env` gives.
abbrev long_name : List ℕ
long_name = replicate 40 68

abbrev asked : PartBlock
asked = made_block long_name 5 9 1 0 (negsuc 4) (key_boot_pri (negsuc 9) ∷ []) 1024 fresh_disk

-- A number that does not fit raises when the block is taken already.
too_big-run : (add_partition (68 ∷ []) 5 9 4294967296 0 (pos 0) [] 0 fresh_disk).0 ≡ struct_error
unfolding add_partition check_cyl_range has_free_rdb_blocks alloc_rdb_blocks update_hi_blk
    append_partition create get_free_blocks
too_big-run = refl

-- Seven bytes: the last three are no long.
abbrev small_data : List ℕ
small_data = 1 ∷ 2 ∷ 3 ∷ 4 ∷ 5 ∷ 6 ∷ 7 ∷ []

used-run : is_in fresh_disk.rdb_blk fresh_disk.used_blks ≡ true
unfolding create
used-run = refl

fs_in-run : fs_in fresh_disk.used_blks fresh_disk.fs ≡ true
unfolding create
fs_in-run = refl

fs_room-run : has_free_rdb_blocks (get_total_blocks fresh_disk.block_bytes 7) fresh_disk ≡ true
unfolding create has_free_rdb_blocks get_total_blocks
fs_room-run = refl

max_blks-run : fresh_disk.max_blks ≤ no_blk
unfolding create
max_blks-run = omega arith

read_fs-add_filesystem_example :
    (b : ℕ) × (r' : RDisk) × (next_rdb_block fresh_disk ≡ some b)
    × (add_filesystem small_data 0 0 (flag_stack_size 4096 ∷ []) fresh_disk ≡ (done true, r'))
    × (read_fs (get_total_blocks fresh_disk.block_bytes 7) b r'.rawblk ≡ some (1 ∷ 2 ∷ 3 ∷ 4 ∷ []))
read_fs-add_filesystem_example =
    read_fs-add_filesystem 123 small_data 0 0 (flag_stack_size 4096 ∷ []) fresh_disk refl refl refl
      fresh-size-run (omega arith) (omega arith) max_blks-run used-run fs_in-run fs_room-run

-- A flag that names the first block of the data hides them.
hidden-run :
    read_fs 3 1 (add_filesystem small_data 0 0 (flag_seg_list_blk no_blk ∷ []) fresh_disk).1.rawblk
    ≡ some []
unfolding create add_filesystem has_free_rdb_blocks get_total_blocks alloc_rdb_blocks
    get_free_blocks next_rdb_block update_hi_blk create_fs make_lsegs append_fs write_new_fs read_fs
    read_lsegs
hidden-run = refl

-- Two file systems, in the blocks 1 and 2, and 3 and 4; then the second one goes.
abbrev two_fs : RDisk
two_fs = (add_filesystem small_data 0 0 [] (add_filesystem small_data 0 0 [] fresh_disk).1).1

first_header-run : is_in 1 (two_fs.rdb_blk ∷ last_blks two_fs.fs) ≡ false
unfolding create add_filesystem has_free_rdb_blocks get_total_blocks alloc_rdb_blocks
    get_free_blocks next_rdb_block update_hi_blk create_fs make_lsegs append_fs write_new_fs
first_header-run = refl

delete_filesystem-keeps_example : (delete_filesystem 1 two_fs).1.rawblk 1 ≡ two_fs.rawblk 1
delete_filesystem-keeps_example = delete_filesystem-keeps 0 1 two_fs first_header-run

-- The header of the first still points at the block 3 of the second.
still_linked-run : two_fs.rawblk 1 ≡ fs_header (record (header 0 0 2) { next = 3 })
unfolding create add_filesystem has_free_rdb_blocks get_total_blocks alloc_rdb_blocks
    get_free_blocks next_rdb_block update_hi_blk create_fs make_lsegs append_fs write_new_fs
still_linked-run = refl

abbrev the_part : Partition
the_part = record {
  blk_num = 1;
  num = 0;
  cyl_blks = 32;
  part_blk = record {
    next = no_blk;
    drv_name = 68 ∷ [];
    flags = 0;
    dev_flags = 0;
    low_cyl = 5;
    high_cyl = 9;
    surfaces = 4;
    blk_per_trk = 8;
    dos_type = 0;
    boot_pri = negsuc 4;
    block_size = 128;
    sec_per_blk = 1;
  };
}

the_part-run : get_elem? one_part.parts 0 ≡ some the_part
unfolding add_partition check_cyl_range has_free_rdb_blocks alloc_rdb_blocks update_hi_blk
    append_partition create get_free_blocks
the_part-run = refl

size-run : is_bad_sec_per_blk (2048 / one_part.block_bytes) ≡ false
unfolding add_partition check_cyl_range has_free_rdb_blocks alloc_rdb_blocks update_hi_blk
    append_partition create get_free_blocks
size-run = refl

change_partition-unwritten_example :
    (r' : RDisk) × (change_partition 0 (only_size 2048) one_part ≡ (done true, r'))
    × (get_elem? r'.parts 0
        ≡ some (record the_part {
          part_blk = record the_part.part_blk { sec_per_blk = 2048 / one_part.block_bytes };
        }))
    × (r'.rawblk ≡ one_part.rawblk)
change_partition-unwritten_example =
    change_partition-unwritten 0 2048 the_part one_part (omega arith) size-run the_part-run

-- From 3 sectors to 6 is a multiple, from 4 to 9 is none.
multiple-run : remap_op 3 6 fresh_disk ≡ none
unfolding create remap_op
multiple-run = refl

abbrev even_disk : RDisk
even_disk = record fresh_disk { rdb = record fresh_disk.rdb { hi_cyl = 18 } }

no_multiple-run : remap_op 4 9 even_disk ≡ some (coarser 2)
unfolding create remap_op
no_multiple-run = refl

abbrev two_parts : RDisk
two_parts = (add_partition (69 ∷ []) 10 12 0 0 (pos 0) [] 0 one_part).1
