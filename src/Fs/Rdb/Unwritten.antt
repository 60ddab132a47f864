-- ===== src/Fs/Rdb/Unwritten.antt =====
-- What `delete_filesystem` and `change_partition` do not write.
use amitools.Prelude.{
  ℕ, zero, suc, ◌/◌, ◌<◌, ◌≡◌, refl, ◌∙◌, true, false, none, some, List, [], ◌∷◌, map, length,
  get_elem?, arith,
}
use amitools.Fs.Rdb.{
  PartBlock, Partition, LoadSeg, FileSystem, load_seg, fs_header, Device, put, RDisk, is_in,
  update_hi_blk,
}
use amitools.Fs.Rdb.Edit.{
  done, Change, change_block, change_env, set_size, is_bad_sec_per_blk, set_part, change_partition,
}
use amitools.Fs.Rdb.FileSystems.{
  get_blk_nums, write_lsegs, set_last_fs, write_last_fs, fs_blk_at, delete_filesystem,
}

-- The blocks of the last file system.
abbrev pub last_blks : List FileSystem → List ℕ
last_blks [] = []
last_blks (f ∷ []) = get_blk_nums f
last_blks (f ∷ g ∷ fs) = last_blks (g ∷ fs)

write_lsegs-apart :
    (x : ℕ) (ls : List LoadSeg) (d : Device)
    → is_in x (map (λ (l : LoadSeg). l.blk_num) ls) ≡ false
    → write_lsegs ls d x ≡ d x
write_lsegs-apart x [] d h = refl
write_lsegs-apart x (l ∷ ls) d h =
    write_lsegs-apart x ls (put l.blk_num (load_seg l) d) (ground (arith, h)) ∙ ground (arith, h)

write_last_fs-apart :
    (x b : ℕ) (fs : List FileSystem) (d : Device)
    → is_in x (last_blks fs) ≡ false
    → write_last_fs (set_last_fs b fs) d x ≡ d x
write_last_fs-apart x b [] d h = refl
write_last_fs-apart x b (f ∷ []) d h =
    write_lsegs-apart x f.lsegs (put f.blk_num (fs_header (record f.fshd { next = b })) d)
      (ground (arith, h))
    ∙ ground (arith, h)
write_last_fs-apart x b (f ∷ g ∷ []) d h =
    write_lsegs-apart x g.lsegs (put g.blk_num (fs_header (record g.fshd { next = b })) d)
      (ground (arith, h))
    ∙ ground (arith, h)
write_last_fs-apart x b (f ∷ g ∷ e ∷ fs) d h = write_last_fs-apart x b (g ∷ e ∷ fs) d h

-- When `delete_filesystem` takes out a file system that is not the first one, it writes to the RDB's block
-- and to those of the last file system only: the header in front of the one that is taken out still points
-- at that, if it is not the last.
pub delete_filesystem-keeps :
    (fid x : ℕ) (r : RDisk)
    → is_in x (r.rdb_blk ∷ last_blks r.fs) ≡ false
    → (delete_filesystem (suc fid) r).1.rawblk x ≡ r.rawblk x
unfolding delete_filesystem update_hi_blk
delete_filesystem-keeps fid x r h =
    let kept =
      write_last_fs-apart x (fs_blk_at (suc (suc fid)) r.fs) r.fs r.rawblk (ground (arith, h)) in
    ground (arith, h, kept)

-- A size of 1 to 16 sectors for a file system's blocks, and nothing else.
abbrev pub only_size : ℕ → Change
only_size size = record {
  drv_name = none;
  dev_flags = none;
  dos_type = none;
  flags = none;
  boot_pri = none;
  more_dos_env = none;
  fs_block_size = size;
}

set_part-get :
    (pid : ℕ) (f : PartBlock → PartBlock) (ps : List Partition) (p : Partition)
    → get_elem? ps pid ≡ some p
    → get_elem? (set_part pid f ps) pid ≡ some (record p { part_blk = f p.part_blk })
set_part-get pid f [] p h = ground (arith, h)
set_part-get zero f (q ∷ ps) p h = ground (arith, h)
set_part-get (suc pid) f (q ∷ ps) p h = set_part-get pid f ps p h

get_elem?-lt :
    (i : ℕ) (ps : List Partition) (p : Partition) → get_elem? ps i ≡ some p → i < length ps
get_elem?-lt i [] p h = ground (arith, h)
get_elem?-lt zero (q ∷ ps) p h = omega arith
get_elem?-lt (suc i) (q ∷ ps) p h = omega (arith, get_elem?-lt i ps p h)

-- When `change_partition` is given a size of 1 to 16 sectors for a file system's blocks, and nothing else,
-- it succeeds and the partition has that size, but the device is as before.
pub change_partition-unwritten :
    (pid size : ℕ) (p : Partition) (r : RDisk)
    → 0 < size
    → is_bad_sec_per_blk (size / r.block_bytes) ≡ false
    → get_elem? r.parts pid ≡ some p
    → (r' : RDisk) × (change_partition pid (only_size size) r ≡ (done true, r'))
      × (get_elem? r'.parts pid
          ≡ some (record p { part_blk = record p.part_blk { sec_per_blk = size / r.block_bytes } }))
      × (r'.rawblk ≡ r.rawblk)
unfolding change_partition
change_partition-unwritten pid size p r h k e =
    let b = p.part_blk in
    let sec = size / r.block_bytes in
    let changed = set_part pid (change_block (only_size size)) r.parts in
    let sized = set_part pid (set_size sec) changed in
    let parts = set_part pid (change_env none) sized in
    let got = set_part-get pid (change_block (only_size size)) r.parts p e in
    let got_size = set_part-get pid (set_size sec) changed p got in
    let got_all =
      set_part-get pid (change_env none) sized (record p { part_blk = set_size sec b }) got_size in
    (record r { parts = parts }, ground (arith, h, k, get_elem?-lt pid r.parts p e), got_all, refl)
