-- ===== src/Fs/Bitmap/Marking.antt =====
-- The loops over blocks: `get_num_free`, `get_num_used`, and the marking of a list of blocks.
use amitools.Prelude.{
  ℕ, zero, suc, ◌+◌, ◌-◌, ◌≤◌, ◌<◌, ◌≡◌, refl, ◌∙◌, ap, Bool, true, false, some, List, [], ◌∷◌,
  arith, length, not, if◌then◌else◌,
}
use amitools.Prelude.Int.{pos, ◌+ℤ◌, ◌-ℤ◌, int_laws}
use amitools.Fs.Bitmap.{
  AdfsBitmap, bitmap_bits, get_bit, clr_bits, dealloc_n, counts, count_bits, get_num_free,
  get_num_used,
}
use amitools.Fs.Bitmap.Bits.{
  IsValid, bit_at, InVolume, Changed, set_bit-Changed, clr_bit-Changed, get_bit_lem,
}
use amitools.Fs.Bitmap.Search.{free_from}
use amitools.Fs.Bitmap.Blocks.{contains, Blocks}

-- How many blocks of the volume are free.
abbrev pub free_count : AdfsBitmap → ℕ
free_count m = length (free_from m 0 (bitmap_bits m))

pub length-free_from-le : (m : AdfsBitmap) (place n : ℕ) → length (free_from m place n) ≤ n
unfolding free_from
length-free_from-le m place zero = omega arith
length-free_from-le m place (suc n) = ground (arith, length-free_from-le m (place + 1) n)

get_bit_at :
    (m : AdfsBitmap) (i : ℕ)
    → IsValid m
    → i < bitmap_bits m
    → get_bit (i + m.reserved) m ≡ some (some (bit_at m i))
get_bit_at m i v h =
    let e : i + m.reserved - m.reserved ≡ i = omega arith in
    rw e at (get_bit_lem (i + m.reserved) m v (omega arith, omega arith))

-- The loops of `get_num_free` and `get_num_used` count the free blocks, and the others.
count_bits_lem :
    (m : AdfsBitmap) (free : Bool) (left i num : ℕ)
    → IsValid m
    → i + left ≤ bitmap_bits m
    → count_bits free left i num m
      ≡ some
          (num + (if free then length (free_from m i left) else left - length (free_from m i left)))
unfolding count_bits free_from
count_bits_lem m free zero i num v h = ground arith
count_bits_lem m free (suc left) i num v h =
    let r = (if counts free (some (bit_at m i)) then num + 1 else num) in
    let shape : count_bits free (suc left) i num m ≡ count_bits free left (i + 1) r m =
      rw (get_bit_at m i v (omega arith), count_bits) in
    ground (
      arith,
      shape,
      length-free_from-le m (i + 1) left,
      count_bits_lem m free left (i + 1) r v (omega arith),
    )

-- What marking blocks as free or as used has done.
pub record Marked (m m' : AdfsBitmap) (blks : List ℕ) (free : Bool) : Type 0 where
  pub valid : IsValid m'
  pub volume : (m'.reserved ≡ m.reserved) × (m'.num_blocks ≡ m.num_blocks)
  pub bits :
      (place : ℕ)
      → bit_at m' place ≡ (if contains (m.reserved + place) blks then free else bit_at m place)
  pub used :
      m'.num_used
      ≡ (if free then m.num_used -ℤ pos (length blks) else m.num_used +ℤ pos (length blks))

Blocks-Changed :
    (m m' : AdfsBitmap) (off : ℕ) (free old : Bool) (blks : List ℕ)
    → Changed m m' off free
    → InVolume off m
    → contains off blks ≡ false
    → Blocks m old blks
    → Blocks m' old blks
Blocks-Changed m m' off free old [] c h n b = tt
Blocks-Changed m m' off free old (d ∷ blks) c h n b =
    ground (arith, c.volume, c.bits (d - m.reserved), Blocks-Changed m m' off free old blks c h)

Marked-trans :
    (m m₁ m₂ : AdfsBitmap) (b : ℕ) (blks : List ℕ) (free : Bool)
    → Changed m m₁ b free
    → InVolume b m
    → bit_at m (b - m.reserved) ≡ not free
    → Marked m₁ m₂ blks free
    → Marked m m₂ (b ∷ blks) free
Marked-trans m m₁ m₂ b blks free c h was r = record {
  valid = r.valid;
  volume = (r.volume.0 ∙ c.volume.0, r.volume.1 ∙ c.volume.1);
  bits = λ place. ground (arith, r.bits place, c.bits place, c.volume);
  used = used free was c.used r.used;
}
  where
    n : ℕ
    n = length blks

    used :
        (f : Bool)
        → bit_at m (b - m.reserved) ≡ not f
        → m₁.num_used ≡ (
            if bit_at m (b - m.reserved)
            then if f then m.num_used else m.num_used +ℤ pos 1
            else (if f then m.num_used -ℤ pos 1 else m.num_used))
        → m₂.num_used ≡ (if f then m₁.num_used -ℤ pos n else m₁.num_used +ℤ pos n)
        → m₂.num_used ≡ (if f then m.num_used -ℤ pos (suc n) else m.num_used +ℤ pos (suc n))
    used true e p q = rw (q, p, e) (omega int_laws)
    used false e p q = rw (q, p, e) (omega int_laws)

none-Marked : (m : AdfsBitmap) (free : Bool) → IsValid m → Marked m m [] free
none-Marked m free v = record {
  valid = v;
  volume = (refl, refl);
  bits = λ place. refl;
  used = none_used free;
}
  where
    none_used : (f : Bool) → m.num_used ≡ (if f then m.num_used -ℤ pos 0 else m.num_used +ℤ pos 0)
    none_used true = omega int_laws
    none_used false = omega int_laws

-- Marking free blocks, each listed once, as used marks those and no others, and raises the count
-- of used blocks by their number.
pub clr_bits-Marked :
    (blks : List ℕ) (m : AdfsBitmap)
    → IsValid m
    → Blocks m true blks
    → (m' : AdfsBitmap) × (clr_bits blks m ≡ some m') × Marked m m' blks false
unfolding clr_bits
clr_bits-Marked [] m v b = (m, refl, none-Marked m false v)
clr_bits-Marked (c ∷ blks) m v b =
    let (m₁, e₁, ch) = clr_bit-Changed c m v b.0 in
    let (m₂, e₂, r) =
      clr_bits-Marked blks m₁ ch.valid (Blocks-Changed m m₁ c false true blks ch b.0 b.2 b.3) in
    (m₂, rw (e₁, clr_bits) e₂, Marked-trans m m₁ m₂ c blks false ch b.0 b.1 r)

-- Giving back used blocks, each listed once, frees those and no others, and lowers the count of
-- used blocks by their number.
pub dealloc_n-Marked :
    (blks : List ℕ) (m : AdfsBitmap)
    → IsValid m
    → Blocks m false blks
    → (m' : AdfsBitmap) × (dealloc_n blks m ≡ some m') × Marked m m' blks true
unfolding dealloc_n
dealloc_n-Marked [] m v b = (m, refl, none-Marked m true v)
dealloc_n-Marked (c ∷ blks) m v b =
    let (m₁, e₁, ch) = set_bit-Changed c m v b.0 in
    let (m₂, e₂, r) =
      dealloc_n-Marked blks m₁ ch.valid (Blocks-Changed m m₁ c true false blks ch b.0 b.2 b.3) in
    (m₂, rw (e₁, dealloc_n) e₂, Marked-trans m m₁ m₂ c blks true ch b.0 b.1 r)

-- The two walks over the bitmap succeed; they count the free blocks of the volume and the others,
-- so that together they give its size.
pub get_num_free-get_num_used :
    (m : AdfsBitmap)
    → IsValid m
    → (n : ℕ) × (get_num_free m ≡ some n)
      × (get_num_used m ≡ some (bitmap_bits m - n))
      × (n ≤ bitmap_bits m)
unfolding get_num_free get_num_used
get_num_free-get_num_used m v = (
  free_count m,
  count_bits_lem m true (bitmap_bits m) 0 0 v (omega arith) ∙ ap some (omega arith),
  count_bits_lem m false (bitmap_bits m) 0 0 v (omega arith) ∙ ap some (omega arith),
  length-free_from-le m 0 (bitmap_bits m),
)

pub num_free : (m : AdfsBitmap) → IsValid m → get_num_free m ≡ some (free_count m)
unfolding get_num_free
num_free m v = count_bits_lem m true (bitmap_bits m) 0 0 v (omega arith) ∙ ap some (omega arith)
