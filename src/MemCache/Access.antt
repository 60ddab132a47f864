-- ===== src/MemCache/Access.antt =====
-- Longs of `MemoryCache`: what is written is read.
use amitools.Prelude.{ℕ, ◌+◌, ◌-◌, ◌^◌, ◌≤◌, ◌<◌, ◌≡◌, ◌⊎◌, false, length, arith}
use amitools.Prelude.Bytes.{set_word, word_at-set_word_self, word_at-set_word_ne, length-set_word}
use amitools.MemCache.{MemoryCache, ok, end_addr, r32, w32}

-- The data have the size of the region.
unfoldable pub IsSound : MemoryCache → Type 0
IsSound c = length c.contents ≡ c.size_bytes

-- In a sound cache that is still a bytearray, a long written inside the region is written. It is read
-- back, the longs of the region that do not overlap it stay, and the cache stays sound.
pub r32-w32 :
    (c : MemoryCache) (addr value at : ℕ)
    → IsSound c
    → c.immutable ≡ false
    → c.start_addr ≤ addr
    → addr + 4 ≤ end_addr c
    → value < 2 ^ 32
    → (addr + 4 ≤ at) ⊎ (at + 4 ≤ addr)
    → (c' : MemoryCache) × (w32 addr value c ≡ ok c')
      × (r32 addr c' ≡ ok value)
      × (r32 at c' ≡ r32 at c)
      × IsSound c'
unfolding IsSound r32 w32
r32-w32 c addr value at h m k l v o =
    let off = addr - c.start_addr in
    let bytes = set_word c.contents off value in
    let e = length-set_word c.contents off value in
    (
      record c { contents = bytes },
      ground (arith, m),
      ground (arith, e, word_at-set_word_self c.contents off value),
      ground (arith, e, word_at-set_word_ne c.contents off value (at - c.start_addr)),
      ground (arith, e),
    )
