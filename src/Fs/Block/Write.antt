-- ===== src/Fs/Block/Write.antt =====
-- Writing a block, and reading it back.
use amitools.Prelude.{
  ℕ, ◌-◌, ◌≡◌, ◌≢◌, ◌⊎◌, refl, ◌∙◌, none, some, List, arith, ◌==◌, if◌then◌else◌, true, sym,
}
use amitools.Fs.Block.{Block, negate, put_types, put_chksum, read, create_data, write}
use amitools.Fs.Block.Longs.{
  Full, long_at, set_long, put_long_lem, put_long_last, Full-set_long, long_at-set_long_self,
  long_at-set_long_ne, checksum_lem, sum_of-set_long,
}
use amitools.Fs.Block.Read.{TypesMatch, IsShaped, sum_for, parsed, read_lem, valid_lem}

-- `_put_types` on the longs.
abbrev with_types : Block → List ℕ → List ℕ
with_types b bytes =
    let bytes' = (if b.is_type == 0 then bytes else set_long bytes 0 b.is_type) in
    if b.is_sub_type == 0 then bytes' else set_long bytes' (b.block_longs - 1) b.is_sub_type

module _ (b : Block) (shaped : IsShaped b) (bytes : List ℕ) (full : Full b.block_longs bytes) where
  abbrev first : List ℕ
  first = set_long bytes 0 b.is_type

  first-Full : Full b.block_longs first
  first-Full = Full-set_long b.block_longs bytes full 0 b.is_type

  put_types_lem : put_types b bytes ≡ some (with_types b bytes)
  unfolding put_types
  put_types_lem = ground (
    arith,
    put_long_lem b.block_longs bytes full 0 b.is_type,
    put_long_last b.block_longs bytes full b.is_sub_type,
    put_long_last b.block_longs first first-Full b.is_sub_type,
    shaped.longs,
    shaped.types,
  )

  Full-with_types : Full b.block_longs (with_types b bytes)
  Full-with_types = ground (
    arith,
    Full-set_long b.block_longs bytes full 0 b.is_type,
    Full-set_long b.block_longs bytes full (b.block_longs - 1) b.is_sub_type,
    Full-set_long b.block_longs first first-Full (b.block_longs - 1) b.is_sub_type,
  )

  with_types-TypesMatch : TypesMatch b (with_types b bytes)
  with_types-TypesMatch = ground (
    arith,
    long_at-set_long_self b.block_longs bytes full 0 b.is_type,
    long_at-set_long_self b.block_longs bytes full (b.block_longs - 1) b.is_sub_type,
    long_at-set_long_self b.block_longs first first-Full (b.block_longs - 1) b.is_sub_type,
    long_at-set_long_ne b.block_longs first first-Full (b.block_longs - 1) 0 b.is_sub_type,
    shaped.longs,
    shaped.types,
  )

  put_chksum_lem :
      put_chksum bytes b
      ≡ some (record b {
        bytes = some (set_long bytes b.chk_loc (negate (sum_for b bytes)));
        got_chksum = negate (sum_for b bytes);
        calc_chksum = negate (sum_for b bytes);
        valid_chksum = true;
      })
  unfolding put_chksum
  put_chksum_lem =
      rw
        (
          checksum_lem b.block_longs bytes b.chk_loc full,
          put_long_lem b.block_longs bytes full b.chk_loc (negate (sum_for b bytes)) shaped.inside
              (omega arith),
        )
        refl

  -- What is written has its checksum, its types and all of the other longs.
  abbrev put : List ℕ
  put = set_long bytes b.chk_loc (negate (sum_for b bytes))

  Full-put : Full b.block_longs put
  Full-put = Full-set_long b.block_longs bytes full b.chk_loc (negate (sum_for b bytes))

  put-chksum : long_at put b.chk_loc ≡ negate (sum_for b put)
  put-chksum = ground (
    arith,
    long_at-set_long_self b.block_longs bytes full b.chk_loc (negate (sum_for b bytes)),
    sum_of-set_long b.block_longs bytes b.chk_loc (negate (sum_for b bytes)) b.block_longs 0 full
        shaped.inside,
    shaped.inside,
  )

  put-TypesMatch : TypesMatch b bytes → TypesMatch b put
  put-TypesMatch m = ground (
    arith,
    long_at-set_long_ne b.block_longs bytes full b.chk_loc 0 (negate (sum_for b bytes))
        shaped.inside,
    long_at-set_long_ne b.block_longs bytes full b.chk_loc (b.block_longs - 1)
        (negate (sum_for b bytes)) shaped.inside,
    shaped.not_type,
    shaped.not_sub_type,
  )

-- The longs that writing a block may change.
abbrev pub IsManaged : Block → ℕ → Type 0
IsManaged b i =
    (i ≡ b.chk_loc) ⊎ ((i ≡ 0) × (b.is_type ≢ 0)) ⊎ ((i ≡ b.block_longs - 1) × (b.is_sub_type ≢ 0))

with_types_other :
    (b : Block) (shaped : IsShaped b) (bytes : List ℕ) (full : Full b.block_longs bytes) (i : ℕ)
    → ¬ IsManaged b i
    → long_at (with_types b bytes) i ≡ long_at bytes i
with_types_other b shaped bytes full i h = ground (
  arith,
  long_at-set_long_ne b.block_longs bytes full 0 i b.is_type,
  long_at-set_long_ne b.block_longs bytes full (b.block_longs - 1) i b.is_sub_type,
  long_at-set_long_ne b.block_longs (first b shaped bytes full) (first-Full b shaped bytes full)
      (b.block_longs - 1) i b.is_sub_type,
  shaped.longs,
)

-- The data that `write` starts from.
abbrev pub contents : Block → List ℕ
contents b = elim b.bytes [ none ↦ create_data b | some d ↦ d ]

-- Every long is one that writing manages, or stays.
with_types-put_other :
    (b : Block) (shaped : IsShaped b) (bytes : List ℕ) (full : Full b.block_longs bytes) (i : ℕ)
    → IsManaged b i
      ⊎ (long_at (put b shaped (with_types b bytes) (Full-with_types b shaped bytes full)) i
          ≡ long_at bytes i)
with_types-put_other b shaped bytes full i = ground (
  arith,
  with_types_other b shaped bytes full i,
  long_at-set_long_ne b.block_longs (with_types b bytes) (Full-with_types b shaped bytes full)
      b.chk_loc i (negate (sum_for b (with_types b bytes))) shaped.inside,
)

written : (b : Block) (shaped : IsShaped b) → Full b.block_longs (contents b) → List ℕ × Block
written b shaped full =
    let bytes = with_types b (contents b) in
    let sum = negate (sum_for b bytes) in
    let out = set_long bytes b.chk_loc sum in
    (out, record b { bytes = some out; got_chksum = sum; calc_chksum = sum; valid_chksum = true })

write_lem :
    (b : Block) (shaped : IsShaped b) (full : Full b.block_longs (contents b))
    → write b ≡ some (written b shaped full).1
unfolding write written
write_lem b shaped full =
    rw
      (
        put_types_lem b shaped (contents b) full,
        put_chksum_lem b shaped (with_types b (contents b))
            (Full-with_types b shaped (contents b) full),
      )
      refl

-- Writing a block of a sound shape, whose data have its size, succeeds. A new object of the same
-- kind that reads what was written finds it valid, and each long is one of the types or the
-- checksum, or is the one that the block held.
pub read-write :
    (b : Block) (i : ℕ)
    → IsShaped b
    → Full b.block_longs (contents b)
    → (b' c : Block) × (out : List ℕ) × (write b ≡ some b')
      × (b'.bytes ≡ some out)
      × (read out (record b { bytes = none }) ≡ some c)
      × (c.valid ≡ true)
      × (c.bytes ≡ some out)
      × (IsManaged b i ⊎ (long_at out i ≡ long_at (contents b) i))
unfolding written
read-write b i shaped full = (
  (written b shaped full).1,
  parsed out blank,
  out,
  write_lem b shaped full,
  refl,
  read_lem out blank out_full shaped.inside refl (out_full ∙ sym shaped.size),
  (valid_lem blank out).0 (
    put-TypesMatch b shaped typed_bytes typed_full
        (with_types-TypesMatch b shaped (contents b) full),
    put-chksum b shaped typed_bytes typed_full,
  ),
  refl,
  with_types-put_other b shaped (contents b) full i,
)
  where
    blank : Block
    blank = record b { bytes = none }

    typed_bytes : List ℕ
    typed_bytes = with_types b (contents b)

    typed_full : Full b.block_longs typed_bytes
    typed_full = Full-with_types b shaped (contents b) full

    out : List ℕ
    out = (written b shaped full).0

    out_full : Full b.block_longs out
    out_full = Full-put b shaped typed_bytes typed_full
