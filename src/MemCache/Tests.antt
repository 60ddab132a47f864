-- ===== src/MemCache/Tests.antt =====
-- Runs of `MemoryCache` on a region of 8 bytes.
use amitools.Prelude.{◌≡◌, ◌+◌, ◌-◌, inl, refl, [], ◌∷◌, length, arith}
use amitools.Prelude.Int.{negsuc}
use amitools.MemCache.{
  MemoryCache, ok, raised, type_error, value_error, new_cache, read_cache, r32, w32, w8, reads,
}
use amitools.MemCache.Blocks.{r_bstr, w_bstr, r_cstr, copy_block}
use amitools.MemCache.Access.{IsSound, r32-w32}
use amitools.MemCache.Strings.{r_bstr-w_bstr}

abbrev region : MemoryCache
region = new_cache 256 8

abbrev filled_region : MemoryCache
filled_region = record region { contents = 255 ∷ 2 ∷ 3 ∷ 0 ∷ 5 ∷ 6 ∷ 7 ∷ 8 ∷ [] }

region-IsSound : IsSound region
unfolding IsSound
region-IsSound = refl

r32-w32_example :
    (c : MemoryCache) × (w32 256 4660 region ≡ ok c)
    × (r32 256 c ≡ ok 4660)
    × (r32 260 c ≡ r32 260 region)
    × IsSound c
r32-w32_example =
    r32-w32 region 256 4660 260 region-IsSound refl (omega arith) (omega arith) (omega arith)
      (inl (omega arith))

r_bstr-w_bstr_example :
    (c : MemoryCache) × (w_bstr 261 (65 ∷ 66 ∷ 67 ∷ []) region ≡ ok c)
    × (r_bstr 261 c ≡ ok (65 ∷ 66 ∷ 67 ∷ []))
    × (length c.contents ≡ 8 + (261 + 1 + 3 - 264))
r_bstr-w_bstr_example =
    r_bstr-w_bstr region 261 (65 ∷ 66 ∷ 67 ∷ []) region-IsSound refl (omega arith) (omega arith)
      (omega arith) (omega arith) refl

-- After `read_cache` nothing can be written.
w8-read_cache : w8 256 1 (read_cache (1 ∷ 2 ∷ []) region) ≡ raised type_error
unfolding w8
w8-read_cache = refl

reads-run : reads 0 256 filled_region ≡ ok (negsuc 0)
unfolding reads
reads-run = refl

r_cstr-run : r_cstr 257 filled_region ≡ ok (2 ∷ 3 ∷ [])
unfolding r_cstr
r_cstr-run = refl

copy_block-run :
    copy_block 256 260 4 filled_region
    ≡ ok (record region { contents = 255 ∷ 2 ∷ 3 ∷ 0 ∷ 255 ∷ 2 ∷ 3 ∷ 0 ∷ [] })
unfolding copy_block
copy_block-run = refl

copy_block-outside : copy_block 256 261 4 region ≡ raised value_error
unfolding copy_block
copy_block-outside = refl
