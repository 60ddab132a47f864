-- ===== src/Fs/Bitmap/Bits.antt =====
-- One bit of the bitmap: `get_bit`, `set_bit` and `clr_bit` on a set of free blocks.
use amitools.Prelude.{
  ℕ, ◌+◌, ◌-◌, ◌*◌, ◌/◌, ◌%◌, ◌^◌, ◌≤◌, ◌<◌, ◌≡◌, refl, ◌⊎◌, inl, inr, Bool, true, false, none,
  some, arith, length, Bool-cases, ◌==◌, if◌then◌else◌,
}
use Prim.Native.Nat.{bit_or}
use amitools.Prelude.Bits.{
  has_bit, and_not, pow_pos, bit_and-mask, has_bit-test, bit_or-mask, has_bit-add, has_bit-sub,
  add-pow-lt,
}
use amitools.Prelude.Bytes.{
  IsBytes, word_at, set_word, word_at-lt, length-set_word, set_word-IsBytes, word_at-set_word_self,
  word_at-set_word_ne,
}
use amitools.Prelude.Int.{ℤ, pos, ◌+ℤ◌, ◌-ℤ◌}
use amitools.Fs.Bitmap.{AdfsBitmap, bitmap_bits, bitmap_longs, get_bit, set_bit, clr_bit}

-- The data is a bytearray with a word for every 32 blocks, and the next search starts inside it.
pub record IsValid (m : AdfsBitmap) : Type 0 where
  pub bytes : IsBytes m.bitmap_data
  pub long_enough : bitmap_longs m * 4 ≤ length m.bitmap_data
  pub start : m.find_start_off * 32 < bitmap_bits m

-- The bit of the block at `place`, counted from the first block behind the reserved ones.
abbrev pub bit_at : AdfsBitmap → ℕ → Bool
bit_at m place = has_bit (word_at m.bitmap_data (place / 32 * 4)) (place % 32)

-- The volume's block `off`.
abbrev pub InVolume : ℕ → AdfsBitmap → Type 0
InVolume off m = (m.reserved ≤ off) × (off < m.num_blocks)

pub get_bit_lem :
    (off : ℕ) (m : AdfsBitmap)
    → IsValid m
    → InVolume off m
    → get_bit off m ≡ some (some (bit_at m (off - m.reserved)))
unfolding get_bit
get_bit_lem off m v h = ground (
  arith,
  has_bit-test (word_at m.bitmap_data ((off - m.reserved) / 32 * 4)) ((off - m.reserved) % 32),
)

pub get_bit_outside :
    (off : ℕ) (m : AdfsBitmap)
    → (off < m.reserved) ⊎ (m.num_blocks ≤ off)
    → get_bit off m ≡ some none
unfolding get_bit
get_bit_outside off m h = ground arith

-- A bitmap in which the word of `place` is another.
abbrev with_word : AdfsBitmap → ℕ → ℕ → AdfsBitmap
with_word m place v = record m { bitmap_data = set_word m.bitmap_data (place / 32 * 4) v }

bit_at-with_word :
    (m : AdfsBitmap) (place other v : ℕ) (b : Bool)
    → IsValid m
    → place < bitmap_bits m
    → v < 2 ^ 32
    → ((j : ℕ)
        → has_bit v j
          ≡ (if j == place % 32 then b else has_bit (word_at m.bitmap_data (place / 32 * 4)) j))
    → bit_at (with_word m place v) other ≡ (if other == place then b else bit_at m other)
bit_at-with_word m place other v b valid h w bits = elim (Bool-cases (other / 32 == place / 32)) [
  | inl e ↦
      let same : other / 32 ≡ place / 32 = ground arith in
      rw
        (
          same,
          word_at-set_word_self m.bitmap_data (place / 32 * 4) v (omega (arith, valid.long_enough))
              w,
          bits (other % 32),
        )
        (ground arith)
  | inr e ↦
      let apart : (place / 32 * 4 + 4 ≤ other / 32 * 4) ⊎ (other / 32 * 4 + 4 ≤ place / 32 * 4) =
        ground arith in
      rw
        (word_at-set_word_ne m.bitmap_data (place / 32 * 4) v (other / 32 * 4)
          (omega (arith, valid.long_enough)) apart)
        (ground arith)
]

-- The state after a bit of the volume has been given the value `free`.
pub record Changed (m m' : AdfsBitmap) (off : ℕ) (free : Bool) : Type 0 where
  pub valid : IsValid m'
  pub volume : (m'.reserved ≡ m.reserved) × (m'.num_blocks ≡ m.num_blocks)
  pub start : m'.find_start_off ≡ m.find_start_off
  pub bits :
      (place : ℕ) → bit_at m' place ≡ (if place == off - m.reserved then free else bit_at m place)
  pub used : m'.num_used ≡ (
      if bit_at m (off - m.reserved)
      then (if free then m.num_used else m.num_used +ℤ pos 1)
      else (if free then m.num_used -ℤ pos 1 else m.num_used))

with_word-IsValid :
    (m : AdfsBitmap) (place v : ℕ) (n : ℤ)
    → IsValid m
    → IsValid (record m {
      bitmap_data = set_word m.bitmap_data (place / 32 * 4) v;
      dirty = true;
      num_used = n;
    })
with_word-IsValid m place v n valid = record {
  bytes = set_word-IsBytes m.bitmap_data (place / 32 * 4) v valid.bytes;
  long_enough = omega (arith, valid.long_enough, length-set_word m.bitmap_data (place / 32 * 4) v);
  start = valid.start;
}

module _ (off : ℕ) (m : AdfsBitmap) (valid : IsValid m) (h : InVolume off m) where
  abbrev place : ℕ
  place = off - m.reserved

  abbrev val : ℕ
  val = word_at m.bitmap_data (place / 32 * 4)

  abbrev k : ℕ
  k = place % 32

  fits : place / 32 * 4 + 4 ≤ length m.bitmap_data
  fits = omega (arith, valid.long_enough)

  same : (free : Bool) → has_bit val k ≡ free → Changed m m off free
  same free e = record {
    valid = valid;
    volume = (refl, refl);
    start = refl;
    bits = λ other. ground (arith, e);
    used = ground (arith, e);
  }

  -- Marking a block as free sets its bit and no other, and takes it from the count of used blocks
  -- if it was used.
  pub set_bit-Changed :
      (m' : AdfsBitmap) × (set_bit off m ≡ some (none, m')) × Changed m m' off true
  unfolding set_bit
  set_bit-Changed = elim (Bool-cases (has_bit val k)) [
    | inl e ↦ (m, ground (arith, fits, bit_and-mask val k, pow_pos k), same true e)
    | inr e ↦
        let sum : bit_or val (2 ^ k) ≡ val + 2 ^ k = ground (arith, bit_or-mask val k) in
        let small : val + 2 ^ k < 2 ^ 32 =
          add-pow-lt 32 val k e (omega arith)
            (word_at-lt m.bitmap_data (place / 32 * 4) valid.bytes) in
        (
          record m {
            bitmap_data = set_word m.bitmap_data (place / 32 * 4) (val + 2 ^ k);
            dirty = true;
            num_used = m.num_used -ℤ pos 1;
          },
          ground (arith, fits, bit_and-mask val k, pow_pos k, sum, small),
          record {
            valid = with_word-IsValid m place (val + 2 ^ k) (m.num_used -ℤ pos 1) valid;
            volume = (refl, refl);
            start = refl;
            bits = λ other.
                bit_at-with_word m place other (val + 2 ^ k) true valid (omega arith) small
                  (λ j. has_bit-add val k j e);
            used = ground (arith, e);
          },
        )
  ]

  -- Marking a block as used clears its bit and no other, and adds it to the count of used blocks if
  -- it was free.
  pub clr_bit-Changed :
      (m' : AdfsBitmap) × (clr_bit off m ≡ some (none, m')) × Changed m m' off false
  unfolding clr_bit
  clr_bit-Changed = elim (Bool-cases (has_bit val k)) [
    | inr e ↦ (m, ground (arith, fits, bit_and-mask val k, pow_pos k), same false e)
    | inl e ↦
        let rest : and_not val (2 ^ k) ≡ val - 2 ^ k = ground (arith, bit_and-mask val k) in
        let small : val - 2 ^ k < 2 ^ 32 =
          omega (arith, word_at-lt m.bitmap_data (place / 32 * 4) valid.bytes) in
        (
          record m {
            bitmap_data = set_word m.bitmap_data (place / 32 * 4) (val - 2 ^ k);
            dirty = true;
            num_used = m.num_used +ℤ pos 1;
          },
          ground (arith, fits, bit_and-mask val k, pow_pos k, rest, small),
          record {
            valid = with_word-IsValid m place (val - 2 ^ k) (m.num_used +ℤ pos 1) valid;
            volume = (refl, refl);
            start = refl;
            bits = λ other.
                bit_at-with_word m place other (val - 2 ^ k) false valid (omega arith) small
                  (λ j. has_bit-sub val k j e);
            used = ground (arith, e);
          },
        )
  ]

-- After a block of the volume has been marked as free, it reads as free, and any other block reads
-- as before; the bitmap stays valid.
pub get_bit-set_bit :
    (off other : ℕ) (m : AdfsBitmap)
    → IsValid m
    → InVolume off m
    → InVolume other m
    → (m' : AdfsBitmap) × (set_bit off m ≡ some (none, m'))
      × IsValid m'
      × (get_bit other m' ≡ (if other == off then some (some true) else get_bit other m))
get_bit-set_bit off other m v h k =
    let (m', e, c) = set_bit-Changed off m v h in
    (
      m',
      e,
      c.valid,
      ground (
        arith,
        c.volume,
        c.bits (other - m.reserved),
        get_bit_lem other m' c.valid (ground (arith, c.volume)),
        get_bit_lem other m v k,
      ),
    )

-- After a block of the volume has been marked as used, it reads as used, and any other block reads
-- as before; the bitmap stays valid.
pub get_bit-clr_bit :
    (off other : ℕ) (m : AdfsBitmap)
    → IsValid m
    → InVolume off m
    → InVolume other m
    → (m' : AdfsBitmap) × (clr_bit off m ≡ some (none, m'))
      × IsValid m'
      × (get_bit other m' ≡ (if other == off then some (some false) else get_bit other m))
get_bit-clr_bit off other m v h k =
    let (m', e, c) = clr_bit-Changed off m v h in
    (
      m',
      e,
      c.valid,
      ground (
        arith,
        c.volume,
        c.bits (other - m.reserved),
        get_bit_lem other m' c.valid (ground (arith, c.volume)),
        get_bit_lem other m v k,
      ),
    )
