-- ===== src/Fs/Block.antt =====
-- A block of the file system: class `Block` of amitools/fs/block/Block.py, with its longwords, types
-- and checksum. The device is not part of it: `read` is given what `read_block` returns, and `write`
-- leaves in `data` what it hands to `write_block`.
pub mod Longs
pub mod Read
pub mod Write
pub mod Strings
mod Tests
use amitools.Prelude.{
  ℕ, zero, suc, ◌+◌, ◌-◌, ◌*◌, ◌%◌, ◌^◌, Bool, Option, none, some, ◌>>=◌, List, true, ltb, leb,
  ◌==◌, ◌&&◌, if◌then◌else◌, length, replicate, not, ◌||◌,
}
use amitools.Prelude.Bytes.{unpack_u32, pack_u32}
use amitools.Prelude.Int.{ℤ, pos, negsuc}

pub record Block : Type 0 where
  pub block_longs : ℕ
  pub block_bytes : ℕ
  pub is_type : ℕ
  pub is_sub_type : ℕ
  pub chk_loc : ℕ
  pub bytes : Option (List ℕ)
  pub type : ℕ
  pub sub_type : ℕ
  pub valid_types : Bool
  pub got_chksum : ℕ
  pub calc_chksum : ℕ
  pub valid_chksum : Bool
  pub valid : Bool

-- The byte offset of a long. A `num` below 0 counts from the end of the block, and an offset that is
-- still below 0 from the end of the data, as `struct` does.
pub offset : ℤ → ℕ → ℕ → Option ℕ
offset (pos n) longs size = some (n * 4)
offset (negsuc n) longs size =
    let back = (n + 1 - longs) * 4 in
    if ltb n longs
    then some ((longs - (n + 1)) * 4)
    else if leb back size
    then some (size - back)
    else none

pub get_long : ℤ → ℕ → List ℕ → Option ℕ
get_long num longs bytes = do off ← offset num longs (length bytes); unpack_u32 bytes off

pub put_long : ℤ → ℕ → ℕ → List ℕ → Option (List ℕ)
put_long num val longs bytes = do off ← offset num longs (length bytes); pack_u32 bytes off val

-- The loop of `_calc_chksum`, with `left` longs to go from `i` on.
pub sum_longs : ℕ → ℕ → ℕ → ℕ → ℕ → List ℕ → Option ℕ
sum_longs zero i chksum chk_loc longs bytes = some chksum
sum_longs (suc left) i chksum chk_loc longs bytes = do
  chksum' ←
      (if i == chk_loc
        then some chksum
        else (do v ← get_long (pos i) longs bytes; some (chksum + v)))
  sum_longs left (i + 1) chksum' chk_loc longs bytes

-- `(-chksum) & 0xFFFFFFFF`
abbrev pub negate : ℕ → ℕ
negate chksum = (2 ^ 32 - chksum % 2 ^ 32) % 2 ^ 32

-- `_calc_chksum`
pub checksum : ℕ → ℕ → List ℕ → Option ℕ
unfolding sum_longs
checksum chk_loc longs bytes = do
  chksum ← sum_longs longs 0 0 chk_loc longs bytes
  some (negate chksum)

-- `_get_types`
pub get_types : List ℕ → Block → Option Block
get_types bytes b = do
  type ← get_long (pos 0) b.block_longs bytes
  sub_type ← get_long (negsuc 0) b.block_longs bytes
  some (record b {
    type = type;
    sub_type = sub_type;
    valid_types =
        (b.is_type == 0 || type == b.is_type) && (b.is_sub_type == 0 || sub_type == b.is_sub_type);
  })

-- `_put_types`
pub put_types : Block → List ℕ → Option (List ℕ)
put_types b bytes = do
  bytes' ← (if b.is_type == 0 then some bytes else put_long (pos 0) b.is_type b.block_longs bytes)
  (if b.is_sub_type == 0
      then some bytes'
      else put_long (negsuc 0) b.is_sub_type b.block_longs bytes')

-- `_get_chksum`
pub get_chksum : List ℕ → Block → Option Block
get_chksum bytes b = do
  got ← get_long (pos b.chk_loc) b.block_longs bytes
  calc ← checksum b.chk_loc b.block_longs bytes
  some (record b { got_chksum = got; calc_chksum = calc; valid_chksum = got == calc })

-- `_put_chksum`
pub put_chksum : List ℕ → Block → Option Block
put_chksum bytes b = do
  calc ← checksum b.chk_loc b.block_longs bytes
  bytes' ← put_long (pos b.chk_loc) calc b.block_longs bytes
  some
      (record b { bytes = some bytes'; got_chksum = calc; calc_chksum = calc; valid_chksum = true })

-- `_read_data`, given what the device returns; `none` is its `ValueError`.
pub read_data : List ℕ → Block → Option (List ℕ)
read_data raw b = if length raw == b.block_bytes then some raw else none

pub read : List ℕ → Block → Option Block
read raw b = do
  bytes ← elim b.bytes [ none ↦ read_data raw b | some d ↦ some d ]
  b₁ ← get_types bytes (record b { bytes = some bytes })
  b₂ ← get_chksum bytes b₁
  some (record b₂ { valid = b₂.valid_types && b₂.valid_chksum })

-- `_create_data`
pub create_data : Block → List ℕ
create_data b = replicate b.block_bytes 0

pub write : Block → Option Block
write b = do
  bytes ← put_types b (elim b.bytes [ none ↦ create_data b | some d ↦ d ])
  put_chksum bytes b
