-- ===== src/Fs/Rdb/AddPart.antt =====
-- `add_partition` succeeds on a sound disk and keeps it sound, and `open` finds the partitions that the
-- RDisk has.
use amitools.Prelude.{ℕ, suc, ◌≡◌, List, [], ◌∷◌, ◌++◌, length}
use amitools.Prelude.Int.{ℤ}
use amitools.Fs.Rdb.{PartBlock, Partition, RDisk, cyl_range, update_hi_blk}
use amitools.Fs.Rdb.Edit.{DosEnvKey, adjust_dos_env, set_last_next, part_block, sec_per_blk_of}
use amitools.Fs.Rdb.Remove.{all_parts, open_parts}
use amitools.Fs.Rdb.Sound.{IsSound}

-- A block that is taken into use.
abbrev taken : ℕ → RDisk → RDisk
taken b r = update_hi_blk (record r { used_blks = r.used_blks ++ b ∷ [] })

-- The partition block that `add_partition` makes.
abbrev pub made_block : List ℕ → ℕ → ℕ → ℕ → ℕ → ℤ → List DosEnvKey → ℕ → RDisk → PartBlock
made_block drv_name lo_cyl hi_cyl flags dos_type boot_pri more_dos_env fs_block_size r =
    adjust_dos_env more_dos_env (
      part_block drv_name lo_cyl hi_cyl flags dos_type boot_pri
        (sec_per_blk_of fs_block_size r.block_bytes) r)

-- The partition is added, the disk is sound, and its partitions are read back.
abbrev IsAdded : ℕ → ℕ → PartBlock → RDisk → ℕ → RDisk → Type 0
IsAdded lo hi pb r b r' =
    (p : Partition) × IsSound r'
    × (r'.parts ≡ set_last_next b r.parts ++ p ∷ [])
    × (p.part_blk ≡ pb)
    × (cyl_range p ≡ (lo, hi))
    × (open_parts (suc (length r'.parts)) r'.rdb_blk r'.rawblk ≡ all_parts r'.parts)
