-- ===== src/Fs/Rdb/Remove.antt =====
-- `delete_partition`, and the partitions that `open` reads.
use amitools.Prelude.{
  ℕ, zero, suc, Bool, true, false, Option, none, some, List, [], ◌∷◌, ◌==◌, leb, if◌then◌else◌,
  length,
}
use amitools.Fs.Rdb.{
  no_blk, PartBlock, Partition, rdsk, part, fs_header, load_seg, blank, Device, RDisk, write_rdb,
  update_hi_blk,
}
use amitools.Fs.Rdb.Edit.{
  Outcome, done, value_error, and_then, written, write_part, set_part, partition,
}

-- `list.remove`; `none` is the ValueError.
abbrev pub remove_blk : ℕ → List ℕ → Option (List ℕ)
remove_blk b [] = none
remove_blk b (x ∷ xs) = elim (x == b) [
  | true ↦ some xs
  | false ↦ elim (remove_blk b xs) [ none ↦ none | some ys ↦ some (x ∷ ys) ]
]

module _ {ℓ} {A : Type ℓ} where
  abbrev pub remove_at : ℕ → List A → List A
  remove_at i [] = []
  remove_at zero (x ∷ xs) = xs
  remove_at (suc i) (x ∷ xs) = x ∷ remove_at i xs

-- "relabel remaining parts"
abbrev pub relabel : ℕ → List Partition → List Partition
relabel num [] = []
relabel num (p ∷ ps) = record p { num = num } ∷ relabel (suc num) ps

-- The block number of partition `i`.
abbrev pub blk_at : ℕ → List Partition → ℕ
blk_at i [] = no_blk
blk_at zero (p ∷ ps) = p.blk_num
blk_at (suc i) (p ∷ ps) = blk_at i ps

-- "unlink partition block"
abbrev pub unlink_partition : ℕ → ℕ → RDisk → Outcome (Unit {0}) × RDisk
unlink_partition zero next r = (done tt, record r { rdb = record r.rdb { part_list = next } })
unlink_partition (suc prev) next r =
    let parts = set_part prev (λ b. record b { next = next }) r.parts in
    written (write_part prev parts r.rawblk) (record r { parts = parts })

-- From "free block" on.
unfoldable pub free_partition : ℕ → RDisk → Outcome Bool × RDisk
free_partition pid r = elim (remove_blk (blk_at pid r.parts) r.used_blks) [
  | none ↦ (value_error, r)
  | some used ↦
      let r' = write_rdb (update_hi_blk (record r { used_blks = used })) in
      (done true, record r' { parts = relabel 0 (remove_at pid r'.parts) })
]

unfoldable pub delete_partition : ℕ → RDisk → Outcome Bool × RDisk
unfolding free_partition
delete_partition pid r =
    if leb (length r.parts) pid
    then (done false, r)
    else and_then (unlink_partition pid (blk_at (suc pid) r.parts) r) (λ u. free_partition pid)

-- `Partition.read`, whose block is to be one of a partition.
abbrev pub read_part : ℕ → Device → Option PartBlock
read_part blk d = elim (d blk) [
  | rdsk _ ↦ none
  | part b ↦ some b
  | fs_header _ ↦ none
  | load_seg _ ↦ none
  | blank ↦ none
]

-- What the loop over the partitions comes to: the partitions, a block that is not valid, or no end.
pub data Parts : Type 0 where
  all_parts : List Partition → Parts
  not_valid endless : Parts

abbrev pub before : Partition → Parts → Parts
before p (all_parts ps) = all_parts (p ∷ ps)
before p not_valid = not_valid
before p endless = endless

-- "read partitions", on fuel.
unfoldable pub read_parts : ℕ → ℕ → ℕ → ℕ → Device → Parts
read_parts zero part_blk num cyl_blks d = endless
read_parts (suc fuel) part_blk num cyl_blks d = elim (part_blk == no_blk) [
  | true ↦ all_parts []
  | false ↦ elim (read_part part_blk d) [
    | none ↦ not_valid
    | some b ↦
        before (partition part_blk num cyl_blks b) (read_parts fuel b.next (suc num) cyl_blks d)
  ]
]

-- `open`, from the RDB to the last partition, on a device whose blocks have the size that the RDB says.
unfoldable pub open_parts : ℕ → ℕ → Device → Parts
unfolding read_parts
open_parts fuel rdb_blk d = elim (d rdb_blk) [
  | rdsk rdb ↦ read_parts fuel rdb.part_list 0 rdb.cyl_blks d
  | part _ ↦ not_valid
  | fs_header _ ↦ not_valid
  | load_seg _ ↦ not_valid
  | blank ↦ not_valid
]
