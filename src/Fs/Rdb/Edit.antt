-- ===== src/Fs/Rdb/Edit.antt =====
-- What RDisk does with its partitions: `add_partition`, `change_partition`, `delete_partition`, `open`,
-- `resize` and `remap`. An operation gives its outcome and the state, also where it raises.
use amitools.Prelude.{
  ℕ, zero, suc, ◌*◌, ◌/◌, Bool, true, false, not, Option, none, some, List, [], ◌∷◌, ◌++◌, ◌==◌,
  ltb, leb, ◌&&◌, ◌||◌, if◌then◌else◌, length, take,
}
use amitools.Prelude.Int.{ℤ}
use amitools.Fs.Rdb.{
  fits_long, fits_slong, no_blk, PartBlock, Partition, part, Device, put, RDisk, write_rdb,
  check_cyl_range, has_free_rdb_blocks, alloc_rdb_blocks, update_hi_blk,
}

pub data Outcome {ℓ} (A : Type ℓ) : Type ℓ where
  done : A → Outcome A
  value_error type_error index_error struct_error assertion_error : Outcome A

-- What comes behind a call that may raise.
abbrev pub and_then :
    {A B : Type 0} → Outcome A × RDisk → (A → RDisk → Outcome B × RDisk) → Outcome B × RDisk
and_then (done a, r) f = f a r
and_then (value_error, r) f = (value_error, r)
and_then (type_error, r) f = (type_error, r)
and_then (index_error, r) f = (index_error, r)
and_then (struct_error, r) f = (struct_error, r)
and_then (assertion_error, r) f = (assertion_error, r)

-- `PartitionDosEnv.write`: whether its numbers fit their longs.
abbrev pub env_fits : PartBlock → Bool
env_fits b =
    fits_long b.block_size
    && (fits_long b.surfaces
        && (fits_long b.sec_per_blk
            && (fits_long b.blk_per_trk
                && (fits_long b.low_cyl
                    && (fits_long b.high_cyl && (fits_slong b.boot_pri && fits_long b.dos_type))))))

-- `_put_bstr` keeps the first 31 characters of a name.
abbrev pub cut : PartBlock → PartBlock
cut b = record b { drv_name = take 31 b.drv_name }

-- `PartitionBlock.write`: what the block then holds, or what is raised before it is written.
abbrev pub pack : PartBlock → Outcome PartBlock
pack b =
    if not (fits_long b.next && (fits_long b.flags && fits_long b.dev_flags))
    then struct_error
    else if leb 256 (length b.drv_name)
    then assertion_error
    else if not (env_fits b)
    then struct_error
    else done (cut b)

abbrev stores : ℕ → Outcome PartBlock → Device → Outcome Device
stores blk (done b) d = done (put blk (part b) d)
stores blk value_error d = value_error
stores blk type_error d = type_error
stores blk index_error d = index_error
stores blk struct_error d = struct_error
stores blk assertion_error d = assertion_error

-- `Partition.write`
abbrev pub write_block : Partition → Device → Outcome Device
write_block p d = stores p.blk_num (pack p.part_blk) d

-- The state behind a write; where that raises, the device is as before.
abbrev pub written : Outcome Device → RDisk → Outcome (Unit {0}) × RDisk
written (done d) r = (done tt, record r { rawblk = d })
written value_error r = (value_error, r)
written type_error r = (type_error, r)
written index_error r = (index_error, r)
written struct_error r = (struct_error, r)
written assertion_error r = (assertion_error, r)

-- What `more_dos_env` gives, a name and a number; `other_key` is a name that is not modelled, or no field
-- at all. Only `boot_pri` is given numbers below 0.
pub data DosEnvKey : Type 0 where
  key_low_cyl key_high_cyl key_surfaces key_blk_per_trk : ℕ → DosEnvKey
  key_dos_type key_block_size key_sec_per_blk : ℕ → DosEnvKey
  key_boot_pri : ℤ → DosEnvKey
  other_key : DosEnvKey

abbrev pub set_key : DosEnvKey → PartBlock → PartBlock
set_key (key_low_cyl v) b = record b { low_cyl = v }
set_key (key_high_cyl v) b = record b { high_cyl = v }
set_key (key_surfaces v) b = record b { surfaces = v }
set_key (key_blk_per_trk v) b = record b { blk_per_trk = v }
set_key (key_dos_type v) b = record b { dos_type = v }
set_key (key_boot_pri v) b = record b { boot_pri = v }
set_key (key_block_size v) b = record b { block_size = v }
set_key (key_sec_per_blk v) b = record b { sec_per_blk = v }
set_key other_key b = b

abbrev pub adjust_dos_env : List DosEnvKey → PartBlock → PartBlock
adjust_dos_env [] b = b
adjust_dos_env (k ∷ more) b = adjust_dos_env more (set_key k b)

-- The last partition's block points at `b`.
abbrev pub set_last_next : ℕ → List Partition → List Partition
set_last_next b [] = []
set_last_next b (p ∷ []) = record p { part_blk = record p.part_blk { next = b } } ∷ []
set_last_next b (p ∷ q ∷ ps) = p ∷ set_last_next b (q ∷ ps)

abbrev pub write_last : List Partition → Device → Outcome Device
write_last [] d = done d
write_last (p ∷ []) d = write_block p d
write_last (p ∷ q ∷ ps) d = write_last (q ∷ ps) d

-- "link block", behind the partitions that there are, and the RDB, which is always written.
abbrev pub link_behind : ℕ → List Partition → RDisk → Outcome (Unit {0}) × RDisk
link_behind b [] r = (done tt, record r { rdb = record r.rdb { part_list = b } })
link_behind b (p ∷ ps) r =
    let parts = set_last_next b (p ∷ ps) in
    written (write_last parts r.rawblk) (record r { parts = parts })

abbrev pub link_partition : ℕ → RDisk → Outcome (Unit {0}) × RDisk
link_partition b r = and_then (link_behind b r.parts r) (λ u linked. (done tt, write_rdb linked))

abbrev pub partition : ℕ → ℕ → ℕ → PartBlock → Partition
partition blk_num num cyl_blks part_blk = record {
  blk_num = blk_num;
  num = num;
  cyl_blks = cyl_blks;
  part_blk = part_blk;
}

-- From the block that was written, `b`, with what it holds, to the new partition: `p.read()` gives it that.
unfoldable pub append_partition : ℕ → PartBlock → RDisk → Outcome ℕ × RDisk
append_partition b pb r =
    let p = partition b (length r.parts) (r.rdb.secs * r.rdb.heads) pb in
    and_then (link_partition b (record r { rawblk = put b (part pb) r.rawblk }))
      (λ u linked. (done b, record linked { parts = linked.parts ++ p ∷ [] }))

-- `PartitionDosEnv` and `PartitionBlock.create`
abbrev pub part_block : List ℕ → ℕ → ℕ → ℕ → ℕ → ℤ → ℕ → RDisk → PartBlock
part_block drv_name lo_cyl hi_cyl flags dos_type boot_pri sec_per_blk r = record {
  next = no_blk;
  drv_name = drv_name;
  flags = flags;
  dev_flags = 0;
  low_cyl = lo_cyl;
  high_cyl = hi_cyl;
  surfaces = r.rdb.heads;
  blk_per_trk = r.rdb.secs;
  dos_type = dos_type;
  boot_pri = boot_pri;
  block_size = r.block_bytes / 4;
  sec_per_blk = sec_per_blk;
}

-- A `fs_block_size` of 0 is None; the message of the ValueError adds a string and a number.
abbrev pub sec_per_blk_of : ℕ → ℕ → ℕ
sec_per_blk_of fs_block_size block_bytes =
    (if fs_block_size == 0 then block_bytes else fs_block_size) / block_bytes

abbrev pub is_bad_sec_per_blk : ℕ → Bool
is_bad_sec_per_blk n = ltb n 1 || ltb 16 n

unfoldable pub add_partition :
    List ℕ → ℕ → ℕ → ℕ → ℕ → ℤ → List DosEnvKey → ℕ → RDisk → Outcome ℕ × RDisk
unfolding append_partition
add_partition drv_name lo_cyl hi_cyl flags dos_type boot_pri more_dos_env fs_block_size r =
    if not (check_cyl_range lo_cyl hi_cyl r)
    then (value_error, r)
    else if not (has_free_rdb_blocks 1 r)
    then (value_error, r)
    else (elim (alloc_rdb_blocks 1 r) [
      | none ↦ (type_error, r)
      | some [] ↦ (index_error, r)
      | some (b ∷ bs) ↦
          let r₁ = update_hi_blk (record r { used_blks = r.used_blks ++ b ∷ [] }) in
          let sec_per_blk = sec_per_blk_of fs_block_size r.block_bytes in
          let pb =
            adjust_dos_env more_dos_env
              (part_block drv_name lo_cyl hi_cyl flags dos_type boot_pri sec_per_blk r₁) in
          if is_bad_sec_per_blk sec_per_blk
          then (type_error, r₁)
          else and_then (pack pb, r₁) (append_partition b)
    ])

-- `self.parts[pid]`, changed and written.
abbrev pub set_part : ℕ → (PartBlock → PartBlock) → List Partition → List Partition
set_part pid f [] = []
set_part zero f (p ∷ ps) = record p { part_blk = f p.part_blk } ∷ ps
set_part (suc pid) f (p ∷ ps) = p ∷ set_part pid f ps

abbrev pub write_part : ℕ → List Partition → Device → Outcome Device
write_part pid [] d = done d
write_part zero (p ∷ ps) d = write_block p d
write_part (suc pid) (p ∷ ps) d = write_part pid ps d

abbrev pub or_else : {A : Type 0} → Option A → A → A
or_else none v = v
or_else (some w) v = w

abbrev is_given : {A : Type 0} → Option A → Bool
is_given none = false
is_given (some a) = true

-- The arguments of `change_partition`; None leaves a field as it is.
pub record Change : Type 0 where
  pub drv_name : Option (List ℕ)
  pub dev_flags : Option ℕ
  pub dos_type : Option ℕ
  pub flags : Option ℕ
  pub boot_pri : Option ℤ
  pub more_dos_env : Option (List DosEnvKey)
  pub fs_block_size : ℕ

abbrev new_name : Option (List ℕ) → PartBlock → List ℕ
new_name none b = b.drv_name
new_name (some name) b = name

abbrev pub change_block : Change → PartBlock → PartBlock
change_block c b = record b {
  flags = or_else c.flags b.flags;
  drv_name = new_name c.drv_name b;
  dev_flags = or_else c.dev_flags b.dev_flags;
  dos_type = or_else c.dos_type b.dos_type;
  boot_pri = or_else c.boot_pri b.boot_pri;
}

abbrev pub change_env : Option (List DosEnvKey) → PartBlock → PartBlock
change_env none b = b
change_env (some more) b = adjust_dos_env more b

abbrev pub set_size : ℕ → PartBlock → PartBlock
set_size sec_per_blk b = record b { sec_per_blk = sec_per_blk }

-- A changed block size of the file system does not make the block dirty.
abbrev is_dirty : Change → Bool
is_dirty c =
    is_given c.flags
    || (is_given c.drv_name
        || (is_given c.dev_flags
            || (is_given c.dos_type || (is_given c.boot_pri || is_given c.more_dos_env))))

unfoldable pub change_partition : ℕ → Change → RDisk → Outcome Bool × RDisk
change_partition pid c r =
    let sec_per_blk = c.fs_block_size / r.block_bytes in
    let changed = set_part pid (change_block c) r.parts in
    let sized =
      if c.fs_block_size == 0 then changed else set_part pid (set_size sec_per_blk) changed in
    let parts = set_part pid (change_env c.more_dos_env) sized in
    if leb (length r.parts) pid
    then (done false, r)
    else if not (c.fs_block_size == 0) && is_bad_sec_per_blk sec_per_blk
    then (type_error, record r { parts = changed })
    else if is_dirty c
    then and_then (written (write_part pid parts r.rawblk) (record r { parts = parts }))
        (λ u r'. (done true, r'))
    else (done true, record r { parts = parts })
