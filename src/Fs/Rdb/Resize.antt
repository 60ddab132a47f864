-- ===== src/Fs/Rdb/Resize.antt =====
-- `create`, `resize` and `remap`.
use Prim.Native.Nat.{bit_and}
use amitools.Prelude.{
  ℕ, ◌+◌, ◌-◌, ◌*◌, ◌/◌, ◌%◌, Bool, true, false, not, Option, none, some, List, [], ◌∷◌, ◌==◌, ltb,
  ◌&&◌, ◌||◌, if◌then◌else◌,
}
use amitools.Fs.Rdb.{no_blk, PartBlock, Partition, RdBlock, Device, RDisk, write_rdb, cyl_range}
use amitools.Fs.Rdb.Edit.{
  Outcome, done, value_error, type_error, index_error, struct_error, assertion_error, and_then,
  write_block,
}

-- The RDB goes to block 0; the names of the disk and of its controller are left out.
abbrev pub new_rdb : ℕ → ℕ → ℕ → ℕ → ℕ → RdBlock
new_rdb cyls heads secs rdb_cyls hi_rdb_blk = record {
  part_list = no_blk;
  fs_list = no_blk;
  cyls = cyls;
  heads = heads;
  secs = secs;
  lo_cyl = rdb_cyls;
  hi_cyl = cyls - 1;
  cyl_blks = heads * secs;
  rdb_blk_hi = heads * secs * rdb_cyls - 1;
  high_rdsk_blk = hi_rdb_blk;
}

unfoldable pub create : ℕ → ℕ → ℕ → ℕ → ℕ → RDisk → RDisk
create cyls heads secs rdb_cyls hi_rdb_blk r =
    let rdb = new_rdb cyls heads secs rdb_cyls hi_rdb_blk in
    write_rdb
      (record r { rdb_blk = 0; rdb = rdb; used_blks = 0 ∷ []; max_blks = rdb.rdb_blk_hi + 1 })

-- None and 0 are the present one.
abbrev pub cyl_or : ℕ → ℕ → ℕ
cyl_or new old = if new == 0 then old else new

abbrev pub all_fit : ℕ → ℕ → List Partition → Bool
all_fit lo hi [] = true
all_fit lo hi (p ∷ ps) =
    if ltb (cyl_range p).0 lo || ltb hi (cyl_range p).1 then false else all_fit lo hi ps

abbrev set_cyls : ℕ → ℕ → ℕ → RDisk → RDisk
set_cyls cyls lo hi r =
    write_rdb (record r { rdb = record r.rdb { cyls = cyls; lo_cyl = lo; hi_cyl = hi } })

unfoldable pub resize : ℕ → ℕ → Bool → RDisk → Outcome Bool × RDisk
resize new_lo_cyl new_hi_cyl adjust_physical r =
    let lo = cyl_or new_lo_cyl r.rdb.lo_cyl in
    let hi = cyl_or new_hi_cyl r.rdb.hi_cyl in
    if lo == r.rdb.lo_cyl && hi == r.rdb.hi_cyl
    then (done true, r)
    else if ltb hi lo
    then (value_error, r)
    else if not (all_fit lo hi r.parts)
    then (value_error, r)
    else if hi + 1 == r.rdb.cyls
    then (done true, set_cyls r.rdb.cyls lo hi r)
    else if adjust_physical
    then (done true, set_cyls (hi + 1) lo hi r)
    else (value_error, r)

-- How a cylinder is converted: times `factor`, or divided by it.
pub data CylOp : Type 0 where
  finer coarser : ℕ → CylOp

abbrev pub op : CylOp → ℕ → ℕ
op (finer factor) x = x * factor
op (coarser factor) x = x / factor

abbrev pub is_multiple : ℕ → ℕ → Bool
is_multiple factor x = x % factor == 0

abbrev pub all_multiples : ℕ → List Partition → Bool
all_multiples factor [] = true
all_multiples factor (p ∷ ps) =
    if not (is_multiple factor (cyl_range p).0) || not (is_multiple factor (cyl_range p).1)
    then false
    else all_multiples factor ps

-- "validate if remapping is possible"; `none` is a ValueError.
unfoldable pub remap_op : ℕ → ℕ → RDisk → Option CylOp
remap_op old_cyl_blocks new_cyl_blocks r =
    let factor = new_cyl_blocks / old_cyl_blocks in
    if ltb new_cyl_blocks old_cyl_blocks
    then (if old_cyl_blocks % new_cyl_blocks == 0
        then some (finer (old_cyl_blocks / new_cyl_blocks))
        else none)
    else if not (bit_and new_cyl_blocks old_cyl_blocks == 0)
    then none
    else if not (is_multiple factor r.rdb.cyls)
    then none
    else if not (is_multiple factor r.rdb.lo_cyl) || not (is_multiple factor r.rdb.hi_cyl)
    then none
    else if not (all_multiples factor r.parts)
    then none
    else some (coarser factor)

abbrev pub remap_block : CylOp → ℕ → PartBlock → PartBlock
remap_block o cyl_blks b = record b {
  low_cyl = op o b.low_cyl;
  high_cyl = op o b.high_cyl;
  blk_per_trk = cyl_blks;
}

abbrev pub remap_part : CylOp → ℕ → Partition → Partition
remap_part o cyl_blks p = record p {
  cyl_blks = cyl_blks;
  part_blk = remap_block o cyl_blks p.part_blk;
}

abbrev pub Remapped : Type 0
Remapped = Outcome (Unit {0}) × List Partition × Device

abbrev pub after_part :
    Outcome Device → Partition → List Partition → Device → (Device → Remapped) → Remapped
after_part (done d') p ps d rest = let (o, qs, e) = rest d' in (o, p ∷ qs, e)
after_part value_error p ps d rest = (value_error, p ∷ ps, d)
after_part type_error p ps d rest = (type_error, p ∷ ps, d)
after_part index_error p ps d rest = (index_error, p ∷ ps, d)
after_part struct_error p ps d rest = (struct_error, p ∷ ps, d)
after_part assertion_error p ps d rest = (assertion_error, p ∷ ps, d)

-- "change partitions": each is changed and written; where that raises, the others stay.
abbrev pub remap_parts : CylOp → ℕ → List Partition → Device → Remapped
remap_parts o cyl_blks [] d = (done tt, [], d)
remap_parts o cyl_blks (p ∷ ps) d =
    let q = remap_part o cyl_blks p in
    after_part (write_block q d) q ps d (remap_parts o cyl_blks ps)

abbrev pub remap_rdb : CylOp → ℕ → ℕ → RdBlock → RdBlock
remap_rdb o heads secs b = record b {
  heads = heads;
  secs = secs;
  cyls = op o b.cyls;
  lo_cyl = op o b.lo_cyl;
  hi_cyl = op o b.hi_cyl;
  cyl_blks = heads * secs;
}

-- "process RDB's cyl values with 'op'"
unfoldable pub apply_op : CylOp → ℕ → ℕ → RDisk → Outcome (Unit {0}) × RDisk
apply_op o heads secs r =
    let r₁ = write_rdb (record r { rdb = remap_rdb o heads secs r.rdb }) in
    let (e, parts, d) = remap_parts o (heads * secs) r.parts r₁.rawblk in
    (e, record r₁ { parts = parts; rawblk = d })

unfoldable pub remap : ℕ → ℕ → RDisk → Outcome Bool × RDisk
remap new_heads new_secs r =
    let heads = cyl_or new_heads r.rdb.heads in
    let secs = cyl_or new_secs r.rdb.secs in
    if heads == r.rdb.heads && secs == r.rdb.secs
    then (done true, r)
    else (elim (remap_op (r.rdb.heads * r.rdb.secs) (heads * secs) r) [
      | none ↦ (value_error, r)
      | some o ↦ and_then (apply_op o heads secs r) (λ u r'. (done true, r'))
    ])

-- `Partition.part_num_blocks`, for a last cylinder that is not before the first one.
abbrev pub part_num_blocks : Partition → ℕ
part_num_blocks p = (p.part_blk.high_cyl - p.part_blk.low_cyl + 1) * p.cyl_blks

-- `PartBlockDevice.open`: the block of the disk at which the block device of a partition begins.
abbrev pub blk_off : PartBlock → ℕ
blk_off b = b.surfaces * b.blk_per_trk * b.low_cyl
