-- ===== src/MemCache/Strings.antt =====
-- BCPL strings of `MemoryCache`.
use amitools.Prelude.{
  ℕ, zero, suc, ◌+◌, ◌-◌, ◌≤◌, ◌<◌, ◌≡◌, refl, ap, ◌∙◌, true, false, List, [], ◌∷◌, ◌++◌, length,
  arith, get_or, set, take, drop, length-append, length-take, length-drop, length-set,
}
use amitools.Prelude.Bytes.{get_or-set}
use amitools.Prelude.Strs.{take-append_length}
use amitools.MemCache.{MemoryCache, ok, check, end_addr}
use amitools.MemCache.Blocks.{r_bstr, w_bstr, all_latin, slice, splice}
use amitools.MemCache.Access.{IsSound}

get_or-take :
    (xs ys : List ℕ) (n i : ℕ)
    → i < n
    → i < length xs
    → get_or (take n xs ++ ys) i 0 ≡ get_or xs i 0
get_or-take xs ys zero i h k = absurd (omega arith)
get_or-take [] ys (suc n) i h k = absurd (omega arith)
get_or-take (x ∷ xs) ys (suc n) zero h k = refl
get_or-take (x ∷ xs) ys (suc n) (suc i) h k = get_or-take xs ys n i (omega arith) (omega arith)

drop-take : (xs ys : List ℕ) (i : ℕ) → i ≤ length xs → drop i (take i xs ++ ys) ≡ ys
drop-take xs ys zero h = refl
drop-take [] ys (suc i) h = absurd (omega arith)
drop-take (x ∷ xs) ys (suc i) h = drop-take xs ys i (omega arith)

-- The data that `w_bstr` leaves.
unfoldable with_bstr : ℕ → List ℕ → List ℕ → List ℕ
with_bstr off string bytes = splice (off + 1) (length string) string (set bytes off (length string))

with_bstr-length :
    (off : ℕ) (string bytes : List ℕ)
    → off < length bytes
    → get_or (with_bstr off string bytes) off 0 ≡ length string
unfolding with_bstr
with_bstr-length off string bytes h =
    let n = length string in
    let xs = set bytes off n in
    let rest = drop (off + 1 + n) xs in
    let e = length-set bytes off n in
    get_or-take xs (string ++ rest) (off + 1) off (omega arith) (omega (arith, e))
    ∙ ground (arith, get_or-set bytes off off n h)

slice-with_bstr :
    (off : ℕ) (string bytes : List ℕ)
    → off < length bytes
    → slice (off + 1) (length string) (with_bstr off string bytes) ≡ string
unfolding with_bstr
slice-with_bstr off string bytes h =
    let xs = set bytes off (length string) in
    let rest = drop (off + 1 + length string) xs in
    ap (take (length string)) (
      drop-take xs (string ++ rest) (off + 1) (omega (arith, length-set bytes off (length string))))
    ∙ take-append_length string rest

length-with_bstr :
    (off : ℕ) (string bytes : List ℕ)
    → off + length string ≤ length bytes
    → off < length bytes
    → length (with_bstr off string bytes) ≡ length bytes + (off + 1 + length string - length bytes)
unfolding with_bstr
length-with_bstr off string bytes h k =
    let n = length string in
    let xs = set bytes off n in
    let rest = drop (off + 1 + n) xs in
    omega (
      arith,
      length-append (take (off + 1) xs) (string ++ rest),
      length-append string rest,
      length-take (off + 1) xs,
      length-drop (off + 1 + n) xs,
      length-set bytes off n,
    )

w_bstr_eq :
    (c : MemoryCache) (addr : ℕ) (string : List ℕ)
    → c.immutable ≡ false
    → check addr (length string) c ≡ true
    → addr - c.start_addr < length c.contents
    → length string < 256
    → all_latin string ≡ true
    → w_bstr addr string c
      ≡ ok (record c { contents = with_bstr (addr - c.start_addr) string c.contents })
unfolding w_bstr with_bstr
w_bstr_eq c addr string m k w v a = ground (arith, m, k, a)

-- In a sound cache that is still a bytearray, `w_bstr` at an address inside the region succeeds on
-- every Latin-1 string of at most 255 characters whose bytes without the length fit into the region.
-- The string is read back; the data are longer by one byte when the string with its length ends one
-- byte behind the region, and else keep their size.
pub r_bstr-w_bstr :
    (c : MemoryCache) (addr : ℕ) (string : List ℕ)
    → IsSound c
    → c.immutable ≡ false
    → c.start_addr ≤ addr
    → addr + length string ≤ end_addr c
    → addr < end_addr c
    → length string < 256
    → all_latin string ≡ true
    → (c' : MemoryCache) × (w_bstr addr string c ≡ ok c')
      × (r_bstr addr c' ≡ ok string)
      × (length c'.contents ≡ c.size_bytes + (addr + 1 + length string - end_addr c))
unfolding IsSound r_bstr
r_bstr-w_bstr c addr string h m k l w v a =
    let off = addr - c.start_addr in
    let bytes = with_bstr off string c.contents in
    let e = length-with_bstr off string c.contents (omega arith) (omega arith) in
    (
      record c { contents = bytes },
      w_bstr_eq c addr string m (ground arith) (omega arith) v a,
      ground
          (arith, e, with_bstr-length off string c.contents, slice-with_bstr off string c.contents),
      omega (arith, e),
    )
