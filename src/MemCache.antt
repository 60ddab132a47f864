-- ===== src/MemCache.antt =====
-- The cache of a region of memory: `MemoryCache` of amitools/vamos/mem/cache.py. Its bytes are a list,
-- `contents`; after `read_cache` they are immutable `bytes`, before it a `bytearray`. The memory of
-- the machine is given by the block that its `r_block` returns, and what `write_cache` passes to its
-- `w_block` is the block that it returns here. Signed numbers are integers.
pub mod Blocks
pub mod Access
pub mod Strings
mod Tests
use amitools.Prelude.{
  ℕ, zero, suc, ◌+◌, ◌-◌, ◌*◌, ◌/◌, ◌%◌, ◌^◌, Bool, true, false, not, List, [], ◌∷◌, ◌++◌, Option,
  none, some, ◌==◌, ◌&&◌, ◌||◌, ltb, leb, if◌then◌else◌, length, get_or, set, take, drop, replicate,
}
use amitools.Prelude.Bytes.{word_at, set_word}
use amitools.Prelude.Int.{ℤ, pos, negsuc}

pub record MemoryCache : Type 0 where
  pub start_addr : ℕ
  pub size_bytes : ℕ
  pub contents : List ℕ
  pub immutable : Bool

pub data CacheError : Type 0 where
  value_error type_error struct_error index_error : CacheError

-- What a method returns, or what it raises.
pub data CacheResult (A : Type 0) : Type 0 where
  ok : A → CacheResult A
  raised : CacheError → CacheResult A

abbrev pub new_cache : ℕ → ℕ → MemoryCache
new_cache start_addr size_bytes = record {
  start_addr = start_addr;
  size_bytes = size_bytes;
  contents = replicate size_bytes 0;
  immutable = false;
}

abbrev pub end_addr : MemoryCache → ℕ
end_addr c = c.start_addr + c.size_bytes

abbrev pub read_cache : List ℕ → MemoryCache → MemoryCache
read_cache block c = record c { contents = block; immutable = true }

abbrev write_cache : MemoryCache → ℕ × List ℕ
write_cache c = (c.start_addr, c.contents)

-- `_check`: whether it passes.
abbrev pub check : ℕ → ℕ → MemoryCache → Bool
check addr size c = leb c.start_addr addr && leb (addr + size) (end_addr c)

-- A read behind `_check`, at the offset of the address.
abbrev pub checked : {A : Type 0} → ℕ → ℕ → MemoryCache → (ℕ → CacheResult A) → CacheResult A
checked addr size c f = if check addr size c then f (addr - c.start_addr) else raised value_error

-- `struct.unpack_from` and an index, where they lie in the data.
abbrev pub fetch : {A : Type 0} → ℕ → ℕ → CacheError → MemoryCache → A → CacheResult A
fetch off size e c v = if leb (off + size) (length c.contents) then ok v else raised e

abbrev pub half_at : List ℕ → ℕ → ℕ
half_at bytes off = get_or bytes off 0 * 256 + get_or bytes (off + 1) 0

unfoldable pub r8 : ℕ → MemoryCache → CacheResult ℕ
r8 addr c = checked addr 1 c (λ off. fetch off 1 index_error c (get_or c.contents off 0))

unfoldable pub r16 : ℕ → MemoryCache → CacheResult ℕ
r16 addr c = checked addr 2 c (λ off. fetch off 2 struct_error c (half_at c.contents off))

unfoldable pub r32 : ℕ → MemoryCache → CacheResult ℕ
r32 addr c = checked addr 4 c (λ off. fetch off 4 struct_error c (word_at c.contents off))

-- A store into the data, if they are mutable and it lies in them, of a number in its range.
abbrev pub store : ℕ → ℕ → CacheError → Bool → MemoryCache → List ℕ → CacheResult MemoryCache
store off size e in_range c bytes =
    if c.immutable
    then raised type_error
    else if leb (off + size) (length c.contents) && in_range
    then ok (record c { contents = bytes })
    else raised e

-- A number that is no byte raises a ValueError when it is stored at an index.
unfoldable pub w8 : ℕ → ℕ → MemoryCache → CacheResult MemoryCache
w8 addr value c = checked addr 1 c (λ off.
    if not c.immutable && not (ltb value 256) && ltb off (length c.contents)
    then raised value_error
    else store off 1 index_error true c (set c.contents off value))

unfoldable pub w16 : ℕ → ℕ → MemoryCache → CacheResult MemoryCache
w16 addr value c = checked addr 2 c (λ off.
    store off 2 struct_error (ltb value 65536) c
      (set (set c.contents off (value / 256)) (off + 1) (value % 256)))

unfoldable pub w32 : ℕ → ℕ → MemoryCache → CacheResult MemoryCache
w32 addr value c =
    checked addr 4 c
      (λ off. store off 4 struct_error (ltb value (2 ^ 32)) c (set_word c.contents off value))

-- Two's complement of a width, both ways.
abbrev pub signed : ℕ → ℕ → ℤ
signed half v = if ltb v half then pos v else negsuc (half + half - 1 - v)

abbrev pub unsigned : ℕ → ℤ → ℕ
unsigned half (pos n) = n
unsigned half (negsuc n) = half + half - 1 - n

abbrev pub fits_signed : ℕ → ℤ → Bool
fits_signed half (pos n) = ltb n half
fits_signed half (negsuc n) = ltb n half

unfoldable pub r8s : ℕ → MemoryCache → CacheResult ℤ
r8s addr c =
    checked addr 1 c (λ off. fetch off 1 struct_error c (signed 128 (get_or c.contents off 0)))

unfoldable pub r16s : ℕ → MemoryCache → CacheResult ℤ
r16s addr c =
    checked addr 2 c (λ off. fetch off 2 struct_error c (signed 32768 (half_at c.contents off)))

unfoldable pub r32s : ℕ → MemoryCache → CacheResult ℤ
r32s addr c =
    checked addr 4 c (λ off. fetch off 4 struct_error c (signed (2 ^ 31) (word_at c.contents off)))

unfoldable pub w8s : ℕ → ℤ → MemoryCache → CacheResult MemoryCache
w8s addr value c = checked addr 1 c (λ off.
    store off 1 struct_error (fits_signed 128 value) c (set c.contents off (unsigned 128 value)))

unfoldable pub w16s : ℕ → ℤ → MemoryCache → CacheResult MemoryCache
w16s addr value c = checked addr 2 c (λ off.
    let v = unsigned 32768 value in
    store off 2 struct_error (fits_signed 32768 value) c
      (set (set c.contents off (v / 256)) (off + 1) (v % 256)))

unfoldable pub w32s : ℕ → ℤ → MemoryCache → CacheResult MemoryCache
w32s addr value c = checked addr 4 c (λ off.
    store off 4 struct_error (fits_signed (2 ^ 31) value) c
      (set_word c.contents off (unsigned (2 ^ 31) value)))

-- By width: 0, 1 and 2 are bytes, words and longs.
abbrev pub by_width : {A : Type 0} → ℕ → A → A → A → A → A
by_width zero a b c d = a
by_width (suc zero) a b c d = b
by_width (suc (suc zero)) a b c d = c
by_width _ a b c d = d

unfoldable pub read : ℕ → ℕ → MemoryCache → CacheResult ℕ
unfolding r8 r16 r32
read width addr c = by_width width (r8 addr c) (r16 addr c) (r32 addr c) (raised value_error)

unfoldable pub write : ℕ → ℕ → ℕ → MemoryCache → CacheResult MemoryCache
unfolding w8 w16 w32
write width addr value c =
    by_width width (w8 addr value c) (w16 addr value c) (w32 addr value c) (raised value_error)

unfoldable pub reads : ℕ → ℕ → MemoryCache → CacheResult ℤ
unfolding r8s r16s r32s
reads width addr c = by_width width (r8s addr c) (r16s addr c) (r32s addr c) (raised value_error)

unfoldable pub writes : ℕ → ℕ → ℤ → MemoryCache → CacheResult MemoryCache
unfolding w8s w16s w32s
writes width addr value c =
    by_width width (w8s addr value c) (w16s addr value c) (w32s addr value c) (raised value_error)
