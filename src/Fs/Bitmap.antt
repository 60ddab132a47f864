-- ===== src/Fs/Bitmap.antt =====
-- The free-block bitmap of a volume: class `ADFSBitmap` of amitools/fs/ADFSBitmap.py. A set bit
-- marks a free block.
pub mod Bits
pub mod Search
pub mod Blocks
pub mod Marking
pub mod Allocate
mod Tests
use amitools.Prelude.{
  ℕ, zero, suc, ◌+◌, ◌-◌, ◌*◌, ◌/◌, ◌%◌, ◌^◌, Bool, true, false, Option, none, some, ◌>>=◌, List,
  [], ◌∷◌, ◌++◌, ◌||◌, not, length, ltb, leb, ◌==◌, if◌then◌else◌,
}
use Prim.Native.Nat.{bit_and, bit_or}
use amitools.Prelude.Bits.{and_not}
use amitools.Prelude.Bytes.{unpack_u32, pack_u32}
use amitools.Prelude.Int.{ℤ, pos, ◌+ℤ◌, ◌-ℤ◌}

-- The state of the object. `reserved` and `num_blocks` are the block device's.
pub record AdfsBitmap : Type 0 where
  pub reserved : ℕ
  pub num_blocks : ℕ
  pub bitmap_data : List ℕ
  pub find_start_off : ℕ
  pub dirty : Bool
  pub num_used : ℤ

-- The sizes that `__init__` computes.
abbrev pub bitmap_bits : AdfsBitmap → ℕ
bitmap_bits m = m.num_blocks - m.reserved

abbrev pub bitmap_longs : AdfsBitmap → ℕ
bitmap_longs m = (bitmap_bits m + 31) / 32

abbrev pub bitmap_last_long_bits : AdfsBitmap → ℕ
bitmap_last_long_bits m = if bitmap_bits m % 32 == 0 then 32 else bitmap_bits m % 32

-- `off < self.blkdev.reserved or off >= self.blkdev.num_blocks`
abbrev pub out_of_range : ℕ → AdfsBitmap → Bool
out_of_range off m = ltb off m.reserved || leb m.num_blocks off

-- `None` outside the volume.
-- The outer `none` is `struct.error`, from an access behind the end of the data.
pub get_bit : ℕ → AdfsBitmap → Option (Option Bool)
get_bit off m = if out_of_range off m then some none else (do
  let place = off - m.reserved
  let mask = 2 ^ (place % 32)
  val ← unpack_u32 m.bitmap_data (place / 32 * 4)
  some (some (bit_and val mask == mask)))

-- Mark a block as free. The result is `False` outside the volume, else `None`.
pub set_bit : ℕ → AdfsBitmap → Option (Option Bool × AdfsBitmap)
set_bit off m = if out_of_range off m then some (some false, m) else (do
  let place = off - m.reserved
  let mask = 2 ^ (place % 32)
  val ← unpack_u32 m.bitmap_data (place / 32 * 4)
  (if bit_and val mask == 0
      then (do
        bytes ← pack_u32 m.bitmap_data (place / 32 * 4) (bit_or val mask)
        some (none, record m { bitmap_data = bytes; dirty = true; num_used = m.num_used -ℤ pos 1 }))
      else some (none, m)))

-- Mark a block as used.
pub clr_bit : ℕ → AdfsBitmap → Option (Option Bool × AdfsBitmap)
clr_bit off m = if out_of_range off m then some (some false, m) else (do
  let place = off - m.reserved
  let mask = 2 ^ (place % 32)
  val ← unpack_u32 m.bitmap_data (place / 32 * 4)
  (if bit_and val mask == mask
      then (do
        bytes ← pack_u32 m.bitmap_data (place / 32 * 4) (and_not val mask)
        some (none, record m { bitmap_data = bytes; dirty = true; num_used = m.num_used +ℤ pos 1 }))
      else some (none, m)))

-- A search in progress: the blocks collected, and whether they are enough.
pub data Collected : Type 0 where
  enough more : List ℕ → Collected

-- `result.append(blk_num)` and the test behind it.
pub collect : ℕ → ℕ → List ℕ → Collected
collect num blk result =
    let result' = result ++ blk ∷ [] in
    if length result' == num then enough result' else more result'

-- `for bit in range(max_bits)`, with `left` bits to go from `bit` on.
pub scan_bits : ℕ → ℕ → ℕ → ℕ → ℕ → List ℕ → Collected
scan_bits num val base zero bit result = more result
scan_bits num val base (suc left) bit result =
    let mask = 2 ^ bit in
    let next =
      (if bit_and val mask == mask then collect num (base + bit) result else more result) in
    elim next [ enough r ↦ enough r | more r ↦ scan_bits num val base left (bit + 1) r ]

-- One round of `for n in range(self.bitmap_longs)`.
pub scan_long : ℕ → AdfsBitmap → ℕ → List ℕ → Option Collected
unfolding scan_bits collect
scan_long num m long_off result = do
  val ← unpack_u32 m.bitmap_data (long_off * 4)
  let max_bits = (if long_off == bitmap_longs m - 1 then bitmap_last_long_bits m else 32)
  some (
      if val == 0
      then more result
      else scan_bits num val (m.reserved + long_off * 32) max_bits 0 result)

-- `long_off += 1`, back to 0 at the end.
abbrev pub next_long : AdfsBitmap → ℕ → ℕ
next_long m long_off = if long_off + 1 == bitmap_longs m then 0 else long_off + 1

-- The rounds that are left, from `long_off` on.
pub scan_longs : ℕ → AdfsBitmap → ℕ → ℕ → List ℕ → Option (Option (List ℕ × ℕ))
scan_longs num m zero long_off result = some none
scan_longs num m (suc rounds) long_off result = elim (scan_long num m long_off result) [
  | none ↦ none
  | some c ↦ elim c [
    | enough r ↦ some (some (r, long_off))
    | more r ↦ scan_longs num m rounds (next_long m long_off) r
  ]
]

-- `None` where there are not `num` free blocks.
pub find_n_free : ℕ → AdfsBitmap → Option (Option (List ℕ) × AdfsBitmap)
find_n_free num m = do
  found ← scan_longs num m (bitmap_longs m) m.find_start_off []
  some (elim found [
    | none ↦ (none, m)
    | some (r, long_off) ↦ (some r, record m { find_start_off = long_off })
  ])

-- `for b in blks: self.clr_bit(b)`
pub clr_bits : List ℕ → AdfsBitmap → Option AdfsBitmap
clr_bits [] m = some m
clr_bits (b ∷ blks) m = do (_, m') ← clr_bit b m; clr_bits blks m'

pub dealloc_n : List ℕ → AdfsBitmap → Option AdfsBitmap
dealloc_n [] m = some m
dealloc_n (b ∷ blks) m = do (_, m') ← set_bit b m; dealloc_n blks m'

pub alloc_n : ℕ → AdfsBitmap → Option (Option (List ℕ) × AdfsBitmap)
alloc_n num m = do
  (found, m') ← find_n_free num m
  elim found [
    | none ↦ some (none, m')
    | some blks ↦ (do m'' ← clr_bits blks m'; some (some blks, m''))
  ]

-- Whether a block counts: `if self.get_bit(...)` for the free ones, `if not ...` for the others.
abbrev pub counts : Bool → Option Bool → Bool
counts free (some true) = free
counts free _ = not free

-- The loops of `get_num_free` and `get_num_used`, with `left` bits to go from `i` on.
pub count_bits : Bool → ℕ → ℕ → ℕ → AdfsBitmap → Option ℕ
count_bits free zero i num m = some num
count_bits free (suc left) i num m = elim (get_bit (i + m.reserved) m) [
  | none ↦ none
  | some bit ↦ count_bits free left (i + 1) (if counts free bit then num + 1 else num) m
]

pub get_num_free : AdfsBitmap → Option ℕ
unfolding count_bits
get_num_free m = count_bits true (bitmap_bits m) 0 0 m

pub get_num_used : AdfsBitmap → Option ℕ
unfolding count_bits
get_num_used m = count_bits false (bitmap_bits m) 0 0 m

-- `find_free`: the first block of a search for one.
pub find_free : AdfsBitmap → Option (Option ℕ × AdfsBitmap)
find_free m = do
  (found, m') ← find_n_free 1 m
  some (elim found [ some (b ∷ r) ↦ some b | _ ↦ none ], m')
