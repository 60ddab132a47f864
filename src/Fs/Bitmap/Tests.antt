-- ===== src/Fs/Bitmap/Tests.antt =====
-- Runs of the bitmap, and each theorem at an input that meets its hypotheses.
use amitools.Prelude.{
  ℕ, ◌-◌, ◌≤◌, ◌<◌, ◌≡◌, refl, true, false, none, some, List, [], ◌∷◌, arith, length,
}
use amitools.Prelude.Bytes.{word_at, set_word}
use amitools.Prelude.Int.{pos}
use amitools.Fs.Bitmap.{
  AdfsBitmap, bitmap_bits, get_bit, set_bit, clr_bit, collect, scan_bits, scan_long, scan_longs,
  find_n_free, clr_bits, dealloc_n, alloc_n, count_bits, get_num_free, get_num_used,
}
use amitools.Fs.Bitmap.Bits.{IsValid, bit_at, get_bit-set_bit, get_bit-clr_bit}
use amitools.Fs.Bitmap.Blocks.{Blocks}
use amitools.Fs.Bitmap.Marking.{Marked, dealloc_n-Marked, get_num_free-get_num_used}
use amitools.Fs.Bitmap.Allocate.{alloc_n_succeeds, alloc_n_fails, dealloc_n-alloc_n}

-- 40 blocks behind 2 reserved ones; the blocks 2 to 5 and 34 to 37 are in use.
abbrev volume : AdfsBitmap
volume = record {
  reserved = 2;
  num_blocks = 42;
  bitmap_data = 255 ∷ 255 ∷ 255 ∷ 0xf0 ∷ 255 ∷ 255 ∷ 255 ∷ 0xf0 ∷ [];
  find_start_off = 1;
  dirty = false;
  num_used = pos 8;
}

volume-IsValid : IsValid volume
volume-IsValid = record { bytes = omega arith; long_enough = omega arith; start = omega arith }

alloc_n_wraps : (r : AdfsBitmap) × (alloc_n 5 volume ≡ some (some (38 ∷ 39 ∷ 40 ∷ 41 ∷ 6 ∷ []), r))
unfolding alloc_n find_n_free scan_longs scan_long scan_bits collect clr_bits clr_bit word_at
    set_word
alloc_n_wraps = (_, refl)

free_blocks : get_num_free volume ≡ some 32
unfolding get_num_free count_bits get_bit word_at
free_blocks = refl

set_bit-run :
    (m' : AdfsBitmap) × (set_bit 3 volume ≡ some (none, m'))
    × IsValid m'
    × (get_bit 6 m' ≡ get_bit 6 volume)
set_bit-run = get_bit-set_bit 3 6 volume volume-IsValid (omega arith) (omega arith)

get_bit-clr_bit-run :
    (m' : AdfsBitmap) × (clr_bit 7 volume ≡ some (none, m'))
    × IsValid m'
    × (get_bit 7 m' ≡ some (some false))
get_bit-clr_bit-run = get_bit-clr_bit 7 7 volume volume-IsValid (omega arith) (omega arith)

dealloc_n-Marked_example :
    (m' : AdfsBitmap) × (dealloc_n (5 ∷ 3 ∷ []) volume ≡ some m')
    × Marked volume m' (5 ∷ 3 ∷ []) true
unfolding word_at
dealloc_n-Marked_example =
    dealloc_n-Marked (5 ∷ 3 ∷ []) volume volume-IsValid
      ((omega arith, omega arith), refl, refl, ((omega arith, omega arith), refl, refl, tt))

get_num_free-get_num_used-run :
    (n : ℕ) × (get_num_free volume ≡ some n)
    × (get_num_used volume ≡ some (bitmap_bits volume - n))
    × (n ≤ bitmap_bits volume)
get_num_free-get_num_used-run = get_num_free-get_num_used volume volume-IsValid

alloc_n_succeeds_example :
    (blks : List ℕ) × (m' : AdfsBitmap) × (alloc_n 5 volume ≡ some (some blks, m'))
    × (length blks ≡ 5)
    × Blocks volume true blks
    × Marked volume m' blks false
alloc_n_succeeds_example =
    alloc_n_succeeds 5 32 volume (omega arith) volume-IsValid free_blocks (omega arith)

alloc_n_fails-run : alloc_n 33 volume ≡ some (none, volume)
alloc_n_fails-run = alloc_n_fails 33 32 volume volume-IsValid free_blocks (omega arith)

dealloc_n-alloc_n_example :
    (blks : List ℕ) × (m₁ : AdfsBitmap) × (m₂ : AdfsBitmap) × (alloc_n 5 volume
      ≡ some (some blks, m₁))
    × (dealloc_n blks m₁ ≡ some m₂)
    × ((place : ℕ) → place < bitmap_bits volume → bit_at m₂ place ≡ bit_at volume place)
    × (m₂.num_used ≡ volume.num_used)
dealloc_n-alloc_n_example =
    dealloc_n-alloc_n 5 32 volume (omega arith) volume-IsValid free_blocks (omega arith)
