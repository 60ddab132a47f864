-- ===== src/Fs/Rdb/DeletePart.antt =====
-- `delete_partition` keeps a disk sound, and `open` finds the partitions that are left.
use amitools.Prelude.{ℕ, zero, suc, List}
use amitools.Fs.Rdb.{Partition, RDisk, write_rdb, update_hi_blk}
use amitools.Fs.Rdb.Edit.{set_part}
use amitools.Fs.Rdb.Remove.{remove_at, relabel, blk_at}
use amitools.Fs.Rdb.Made.{made_unlink}
use amitools.Fs.Rdb.Unlink.{point_at}

-- The partitions that are left, and the state behind `delete_partition`.
abbrev left : ℕ → List Partition → List Partition
left zero ps = relabel 0 (remove_at 0 ps)
left (suc prev) ps =
    relabel 0 (remove_at (suc prev) (set_part prev (point_at (blk_at (suc (suc prev)) ps)) ps))

abbrev written : ℕ → List ℕ → RDisk → RDisk
written pid used r =
    write_rdb
      (update_hi_blk (record (made_unlink pid (blk_at (suc pid) r.parts) r) { used_blks = used }))

abbrev deleted : ℕ → List ℕ → RDisk → RDisk
deleted pid used r = record (written pid used r) {
  parts = relabel 0 (remove_at pid (written pid used r).parts);
}
