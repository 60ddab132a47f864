-- ===== src/Fs/Block/Longs.antt =====
-- The longwords of a block that has all of its data.
use amitools.Prelude.{
  ℕ, zero, suc, ◌+◌, ◌-◌, ◌*◌, ◌^◌, ◌≤◌, ◌<◌, ◌≡◌, ◌≢◌, refl, some, List, arith, length, ◌==◌,
  if◌then◌else◌,
}
use amitools.Prelude.Bytes.{
  word_at, set_word, word_at-set_word_self, word_at-set_word_ne, length-set_word,
}
use amitools.Prelude.Int.{pos, negsuc}
use amitools.Fs.Block.{offset, get_long, put_long, sum_longs, checksum, negate}

-- The data of a block of so many longs.
abbrev pub Full : ℕ → List ℕ → Type 0
Full longs bytes = length bytes ≡ longs * 4

abbrev pub long_at : List ℕ → ℕ → ℕ
long_at bytes i = word_at bytes (i * 4)

abbrev pub set_long : List ℕ → ℕ → ℕ → List ℕ
set_long bytes i v = set_word bytes (i * 4) v

module _ (longs : ℕ) (bytes : List ℕ) (full : Full longs bytes) where
  pub get_long_lem : (i : ℕ) → i < longs → get_long (pos i) longs bytes ≡ some (long_at bytes i)
  unfolding get_long offset
  get_long_lem i h = ground arith

  pub get_long_last : 0 < longs → get_long (negsuc 0) longs bytes ≡ some (long_at bytes (longs - 1))
  unfolding get_long offset
  get_long_last h = ground arith

  pub put_long_lem :
      (i v : ℕ)
      → i < longs
      → v < 2 ^ 32
      → put_long (pos i) v longs bytes ≡ some (set_long bytes i v)
  unfolding put_long offset
  put_long_lem i v h k = ground arith

  pub put_long_last :
      (v : ℕ)
      → 0 < longs
      → v < 2 ^ 32
      → put_long (negsuc 0) v longs bytes ≡ some (set_long bytes (longs - 1) v)
  unfolding put_long offset
  put_long_last v h k = ground arith

  pub Full-set_long : (i v : ℕ) → Full longs (set_long bytes i v)
  Full-set_long i v = rw (length-set_word bytes (i * 4) v) full

  pub long_at-set_long_self :
      (i v : ℕ) → i < longs → v < 2 ^ 32 → long_at (set_long bytes i v) i ≡ v
  long_at-set_long_self i v h k = word_at-set_word_self bytes (i * 4) v (omega arith) k

  pub long_at-set_long_ne :
      (i j v : ℕ) → i < longs → i ≢ j → long_at (set_long bytes i v) j ≡ long_at bytes j
  long_at-set_long_ne i j v h k =
      word_at-set_word_ne bytes (i * 4) v (j * 4) (omega arith) (omega arith)

-- The sum of `left` longs from `i` on, that at `skip` left out.
abbrev pub sum_of : List ℕ → ℕ → ℕ → ℕ → ℕ
sum_of bytes skip zero i = 0
sum_of bytes skip (suc left) i =
    (if i == skip then 0 else long_at bytes i) + sum_of bytes skip left (i + 1)

sum_longs_lem :
    (longs : ℕ) (bytes : List ℕ) (left i chksum skip : ℕ)
    → Full longs bytes
    → i + left ≤ longs
    → sum_longs left i chksum skip longs bytes ≡ some (chksum + sum_of bytes skip left i)
unfolding sum_longs
sum_longs_lem longs bytes zero i chksum skip full h = ground arith
sum_longs_lem longs bytes (suc left) i chksum skip full h = ground (
  arith,
  get_long_lem longs bytes full i,
  sum_longs_lem longs bytes left (i + 1) chksum skip full,
  sum_longs_lem longs bytes left (i + 1) (chksum + long_at bytes i) skip full,
)

pub checksum_lem :
    (longs : ℕ) (bytes : List ℕ) (skip : ℕ)
    → Full longs bytes
    → checksum skip longs bytes ≡ some (negate (sum_of bytes skip longs 0))
unfolding checksum
checksum_lem longs bytes skip full =
    rw (sum_longs_lem longs bytes longs 0 0 skip full (omega arith)) (ground arith)

-- A long that is left out may be anything.
pub sum_of-set_long :
    (longs : ℕ) (bytes : List ℕ) (skip v left i : ℕ)
    → Full longs bytes
    → skip < longs
    → sum_of (set_long bytes skip v) skip left i ≡ sum_of bytes skip left i
sum_of-set_long longs bytes skip v zero i full h = refl
sum_of-set_long longs bytes skip v (suc left) i full h = ground (
  arith,
  sum_of-set_long longs bytes skip v left (i + 1) full h,
  long_at-set_long_ne longs bytes full skip i v h,
)
