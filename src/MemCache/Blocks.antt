-- ===== src/MemCache/Blocks.antt =====
-- Blocks and strings of `MemoryCache`. A string is a list of code points, and one beyond Latin-1 is
-- the `UnicodeEncodeError`, a `ValueError`. A slice that is assigned may have another length than the
-- one that it replaces, as in Python.
use amitools.Prelude.{
  ℕ, ◌+◌, Bool, true, not, List, [], ◌∷◌, ◌++◌, ◌==◌, ◌&&◌, ltb, if◌then◌else◌, length, get_or, set,
  take, drop, replicate,
}
use amitools.MemCache.{
  MemoryCache, CacheResult, ok, raised, value_error, type_error, index_error, checked,
}

abbrev pub slice : ℕ → ℕ → List ℕ → List ℕ
slice off size bytes = take size (drop off bytes)

abbrev pub splice : ℕ → ℕ → List ℕ → List ℕ → List ℕ
splice off size new bytes = take off bytes ++ (new ++ drop (off + size) bytes)

-- The assignment of a slice.
abbrev pub assign : ℕ → ℕ → List ℕ → MemoryCache → CacheResult MemoryCache
assign off size new c =
    if c.immutable
    then raised type_error
    else ok (record c { contents = splice off size new c.contents })

abbrev pub all_latin : List ℕ → Bool
all_latin [] = true
all_latin (x ∷ xs) = ltb x 256 && all_latin xs

unfoldable pub r_block : ℕ → ℕ → MemoryCache → CacheResult (List ℕ)
r_block addr size c = checked addr size c (λ off. ok (slice off size c.contents))

unfoldable pub w_block : ℕ → List ℕ → MemoryCache → CacheResult MemoryCache
w_block addr bytes c = checked addr (length bytes) c (λ off. assign off (length bytes) bytes c)

unfoldable pub clear_block : ℕ → ℕ → ℕ → MemoryCache → CacheResult MemoryCache
clear_block addr size value c = checked addr size c (λ off.
    if all_latin (replicate size value)
    then assign off size (replicate size value) c
    else raised value_error)

unfoldable pub copy_block : ℕ → ℕ → ℕ → MemoryCache → CacheResult MemoryCache
copy_block from_addr to_addr size c =
    checked from_addr size c
      (λ from. checked to_addr size c (λ to. assign to size (slice from size c.contents) c))

abbrev pub cons_ok : ℕ → CacheResult (List ℕ) → CacheResult (List ℕ)
cons_ok ch (ok res) = ok (ch ∷ res)
cons_ok ch (raised e) = raised e

-- The loop of `r_cstr` over the bytes from its address on.
abbrev pub cstr_from : List ℕ → CacheResult (List ℕ)
cstr_from [] = raised index_error
cstr_from (ch ∷ bytes) = if ch == 0 then ok [] else cons_ok ch (cstr_from bytes)

unfoldable pub r_cstr : ℕ → MemoryCache → CacheResult (List ℕ)
r_cstr addr c = checked addr 1 c (λ off. cstr_from (drop off c.contents))

unfoldable pub w_cstr : ℕ → List ℕ → MemoryCache → CacheResult MemoryCache
w_cstr addr string c =
    if all_latin string
    then (let bytes = string ++ 0 ∷ [] in
        checked addr (length bytes) c (λ off. assign off (length bytes) bytes c))
    else raised value_error

unfoldable pub r_bstr : ℕ → MemoryCache → CacheResult (List ℕ)
r_bstr addr c = checked addr 1 c (λ off.
    if ltb off (length c.contents)
    then ok (slice (off + 1) (get_or c.contents off 0) c.contents)
    else raised index_error)

-- The store of the length, at an index.
abbrev pub set_length : ℕ → ℕ → MemoryCache → CacheResult MemoryCache
set_length off size c =
    if c.immutable
    then raised type_error
    else if not (ltb off (length c.contents))
    then raised index_error
    else if ltb size 256
    then ok (record c { contents = set c.contents off size })
    else raised value_error

abbrev pub then_assign : ℕ → ℕ → List ℕ → CacheResult MemoryCache → CacheResult MemoryCache
then_assign off size new (ok c) = assign off size new c
then_assign off size new (raised e) = raised e

unfoldable pub w_bstr : ℕ → List ℕ → MemoryCache → CacheResult MemoryCache
w_bstr addr string c =
    if all_latin string
    then (let size = length string in
        checked addr size c (λ off. then_assign (off + 1) size string (set_length off size c)))
    else raised value_error
