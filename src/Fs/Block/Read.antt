-- ===== src/Fs/Block/Read.antt =====
-- Reading a block, and what its checksum says.
use amitools.Prelude.{
  ℕ, zero, suc, ◌+◌, ◌-◌, ◌*◌, ◌^◌, ◌%◌, ◌≤◌, ◌<◌, ◌≡◌, ◌≢◌, ◌↔◌, ◌⊎◌, refl, ◌∙◌, none, some, List,
  arith, length, ◌==◌, ◌&&◌, ◌||◌, true,
}
use amitools.Prelude.Bytes.{IsBytes, word_at-lt}
use amitools.Fs.Block.{Block, negate, get_types, get_chksum, read_data, read}
use amitools.Fs.Block.Longs.{Full, long_at, get_long_lem, get_long_last, sum_of, checksum_lem}

-- The sum of `left` longs from `i` on.
abbrev pub sum_all : List ℕ → ℕ → ℕ → ℕ
sum_all bytes zero i = 0
sum_all bytes (suc left) i = long_at bytes i + sum_all bytes left (i + 1)

sum_all_past :
    (bytes : List ℕ) (skip left i : ℕ) → skip < i → sum_all bytes left i ≡ sum_of bytes skip left i
sum_all_past bytes skip zero i h = refl
sum_all_past bytes skip (suc left) i h = ground (arith, sum_all_past bytes skip left (i + 1))

sum_all_lem :
    (bytes : List ℕ) (skip left i : ℕ)
    → i ≤ skip
    → skip < i + left
    → sum_all bytes left i ≡ long_at bytes skip + sum_of bytes skip left i
sum_all_lem bytes skip zero i h k = absurd (omega arith)
sum_all_lem bytes skip (suc left) i h k =
    ground (arith, sum_all_lem bytes skip left (i + 1), sum_all_past bytes skip left (i + 1))

negate_iff : (s got : ℕ) → got < 2 ^ 32 → (got ≡ negate s) ↔ ((got + s) % 2 ^ 32 ≡ 0)
negate_iff s got h = (λ e. omega (arith, e), λ e. omega (arith, e))

-- What a block expects of its data.
abbrev pub TypesMatch : Block → List ℕ → Type 0
TypesMatch b bytes =
    ((b.is_type ≡ 0) ⊎ (long_at bytes 0 ≡ b.is_type))
    × ((b.is_sub_type ≡ 0) ⊎ (long_at bytes (b.block_longs - 1) ≡ b.is_sub_type))

-- The longs of a block add up to 0, modulo 2 ^ 32.
abbrev pub Balanced : Block → List ℕ → Type 0
Balanced b bytes = sum_all bytes b.block_longs 0 % 2 ^ 32 ≡ 0

abbrev typed : List ℕ → Block → Block
typed raw b = record b {
  bytes = some raw;
  type = long_at raw 0;
  sub_type = long_at raw (b.block_longs - 1);
  valid_types =
      (b.is_type == 0 || long_at raw 0 == b.is_type)
      && (b.is_sub_type == 0 || long_at raw (b.block_longs - 1) == b.is_sub_type);
}

abbrev pub sum_for : Block → List ℕ → ℕ
sum_for b raw = sum_of raw b.chk_loc b.block_longs 0

abbrev pub parsed : List ℕ → Block → Block
parsed raw b = record (typed raw b) {
  got_chksum = long_at raw b.chk_loc;
  calc_chksum = negate (sum_for b raw);
  valid_chksum = long_at raw b.chk_loc == negate (sum_for b raw);
  valid = (typed raw b).valid_types && long_at raw b.chk_loc == negate (sum_for b raw);
}

read_data_lem : (raw : List ℕ) (b : Block) → length raw ≡ b.block_bytes → read_data raw b ≡ some raw
unfolding read_data
read_data_lem raw b e = ground arith

module _ (raw : List ℕ) (b : Block) (full : Full b.block_longs raw)
    (h : b.chk_loc < b.block_longs) where
  get_types_lem : get_types raw (record b { bytes = some raw }) ≡ some (typed raw b)
  unfolding get_types
  get_types_lem =
      rw
        (
          get_long_lem b.block_longs raw full 0 (omega arith),
          get_long_last b.block_longs raw full (omega arith),
        )
        refl

  get_chksum_lem :
      (c : Block)
      → c.chk_loc ≡ b.chk_loc
      → c.block_longs ≡ b.block_longs
      → get_chksum raw c
        ≡ some (record c {
          got_chksum = long_at raw b.chk_loc;
          calc_chksum = negate (sum_for b raw);
          valid_chksum = long_at raw b.chk_loc == negate (sum_for b raw);
        })
  unfolding get_chksum
  get_chksum_lem c e f =
      rw
        (
          e,
          f,
          get_long_lem b.block_longs raw full b.chk_loc h,
          checksum_lem b.block_longs raw b.chk_loc full,
        )
        refl

  pub read_lem : b.bytes ≡ none → length raw ≡ b.block_bytes → read raw b ≡ some (parsed raw b)
  unfolding read
  read_lem e size =
      rw (e, read_data_lem raw b size, get_types_lem, get_chksum_lem (typed raw b) refl refl) refl

-- The parameters of a block of more than one long, whose checksum is no type that it checks.
pub record IsShaped (b : Block) : Type 0 where
  pub size : b.block_bytes ≡ b.block_longs * 4
  pub longs : 1 < b.block_longs
  pub types : (b.is_type < 2 ^ 32) × (b.is_sub_type < 2 ^ 32)
  pub inside : b.chk_loc < b.block_longs
  pub not_type : (b.is_type ≡ 0) ⊎ (b.chk_loc ≢ 0)
  pub not_sub_type : (b.is_sub_type ≡ 0) ⊎ (b.chk_loc ≢ b.block_longs - 1)

pub valid_lem :
    (b : Block) (raw : List ℕ)
    → TypesMatch b raw × (long_at raw b.chk_loc ≡ negate (sum_for b raw))
      ↔ ((parsed raw b).valid ≡ true)
valid_lem b raw = ground arith

-- For a block of a sound shape that holds no data yet, `read` of as many bytes as it has succeeds,
-- and finds it valid just if it has the types that are expected and its longs, the checksum among
-- them, add up to 0 modulo 2 ^ 32.
pub read-Balanced :
    (raw : List ℕ) (b : Block)
    → IsShaped b
    → b.bytes ≡ none
    → IsBytes raw
    → length raw ≡ b.block_bytes
    → (b' : Block) × (read raw b ≡ some b')
      × (b'.bytes ≡ some raw)
      × ((b'.valid ≡ true) ↔ (TypesMatch b raw × Balanced b raw))
read-Balanced raw b shaped e bs size =
    (parsed raw b, read_lem raw b (size ∙ shaped.size) shaped.inside e size, refl, iff)
  where
    total : sum_all raw b.block_longs 0 ≡ long_at raw b.chk_loc + sum_for b raw
    total = sum_all_lem raw b.chk_loc b.block_longs 0 (omega arith) (omega (arith, shaped.inside))

    balance : (long_at raw b.chk_loc ≡ negate (sum_for b raw)) ↔ Balanced b raw
    balance =
        rw total
          (negate_iff (sum_for b raw) (long_at raw b.chk_loc) (word_at-lt raw (b.chk_loc * 4) bs))

    iff : ((parsed raw b).valid ≡ true) ↔ (TypesMatch b raw × Balanced b raw)
    iff = (
      λ v. let (t, c) = (valid_lem b raw).1 v in (t, balance.0 c),
      λ t. (valid_lem b raw).0 (t.0, balance.1 t.1),
    )
