-- ===== src/Fs/Bitmap/Allocate.antt =====
-- `alloc_n` and `dealloc_n`.
use amitools.Prelude.{
  ℕ, ◌+◌, ◌-◌, ◌≤◌, ◌<◌, ◌≡◌, true, false, none, some, List, [], ◌∷◌, arith, length, take,
  length-take,
}
use amitools.Prelude.Int.{int_laws}
use amitools.Fs.Bitmap.{
  AdfsBitmap, bitmap_bits, find_n_free, clr_bits, dealloc_n, alloc_n, get_num_free,
}
use amitools.Fs.Bitmap.Bits.{IsValid, bit_at}
use amitools.Fs.Bitmap.Search.{free_order, find_n_free_lem}
use amitools.Fs.Bitmap.Blocks.{contains, Blocks, Blocks-take, free_order-Blocks, length-free_order}
use amitools.Fs.Bitmap.Marking.{free_count, num_free, Marked, clr_bits-Marked, dealloc_n-Marked}

count_is : (m : AdfsBitmap) (n : ℕ) → IsValid m → get_num_free m ≡ some n → free_count m ≡ n
count_is m n v e = cc (num_free m v)

length-take_enough : (n : ℕ) (bs : List ℕ) → n ≤ length bs → length (take n bs) ≡ n
length-take_enough n bs h = omega (arith, length-take {0} n bs)

alloc_n-found :
    (num l : ℕ) (m m' : AdfsBitmap) (blks : List ℕ)
    → find_n_free num m ≡ some (some blks, record m { find_start_off = l })
    → clr_bits blks (record m { find_start_off = l }) ≡ some m'
    → alloc_n num m ≡ some (some blks, m')
unfolding alloc_n
alloc_n-found num l m m' blks e e' = rw (e, alloc_n) (rw e')

alloc_n-none :
    (num : ℕ) (m : AdfsBitmap) → find_n_free num m ≡ some (none, m) → alloc_n num m ≡ some (none, m)
unfolding alloc_n
alloc_n-none num m e = rw (e, alloc_n)

-- With the invariant, when at least one block is asked for and the volume has as many free ones,
-- `alloc_n` returns so many different blocks that were free, and marks these and no others as used.
pub alloc_n_succeeds :
    (num n : ℕ) (m : AdfsBitmap)
    → 0 < num
    → IsValid m
    → get_num_free m ≡ some n
    → num ≤ n
    → (blks : List ℕ) × (m' : AdfsBitmap) × (alloc_n num m ≡ some (some blks, m'))
      × (length blks ≡ num)
      × Blocks m true blks
      × Marked m m' blks false
alloc_n_succeeds num n m h v e k =
    let (l, found, room) = find_n_free_lem num m h v in
    let blks = take num (free_order m) in
    let enough : num ≤ length (free_order m) =
      omega (arith, length-free_order m v, count_is m n v e) in
    let m₁ = record m { find_start_off = l } in
    let v₁ : IsValid m₁ = record { bytes = v.bytes; long_enough = v.long_enough; start = room } in
    let free = Blocks-take m true num (free_order m) (free_order-Blocks m v) in
    let (m', e', r) = clr_bits-Marked blks m₁ v₁ (Blocks-moved m l blks free) in
    (
      blks,
      m',
      alloc_n-found num l m m' blks (ground (arith, found, enough)) e',
      length-take_enough num (free_order m) enough,
      free,
      record { valid = r.valid; volume = r.volume; bits = r.bits; used = r.used },
    )
  where
    Blocks-moved :
        (m : AdfsBitmap) (l : ℕ) (bs : List ℕ)
        → Blocks m true bs
        → Blocks (record m { find_start_off = l }) true bs
    Blocks-moved m l [] b = tt
    Blocks-moved m l (c ∷ bs) b = (b.0, b.1, b.2, Blocks-moved m l bs b.3)

-- Where the volume has fewer free blocks, `alloc_n` returns `None` and changes nothing.
pub alloc_n_fails :
    (num n : ℕ) (m : AdfsBitmap)
    → IsValid m
    → get_num_free m ≡ some n
    → n < num
    → alloc_n num m ≡ some (none, m)
alloc_n_fails num n m v e k =
    let (l, found, room) = find_n_free_lem num m (omega arith) v in
    let short : length (free_order m) < num =
      omega (arith, length-free_order m v, count_is m n v e) in
    alloc_n-none num m (ground (arith, found, short))

abbrev AllIn : List ℕ → List ℕ → Type 0
AllIn [] all = Unit
AllIn (b ∷ bs) all = (contains b all ≡ true) × AllIn bs all

AllIn-cons : (c : ℕ) (bs all : List ℕ) → AllIn bs all → AllIn bs (c ∷ all)
AllIn-cons c [] all h = tt
AllIn-cons c (b ∷ bs) all h = (ground (arith, h.0), AllIn-cons c bs all h.1)

AllIn-refl : (bs : List ℕ) → AllIn bs bs
AllIn-refl [] = tt
AllIn-refl (b ∷ bs) = (ground arith, AllIn-cons b bs bs (AllIn-refl bs))

Blocks-Marked :
    (m m' : AdfsBitmap) (all bs : List ℕ)
    → Marked m m' all false
    → AllIn bs all
    → Blocks m true bs
    → Blocks m' false bs
Blocks-Marked m m' all [] r i b = tt
Blocks-Marked m m' all (c ∷ bs) r i b =
    ground (arith, r.volume, r.bits (c - m.reserved), Blocks-Marked m m' all bs r)

-- Giving back what was just allocated makes every block as free as before, and restores the count
-- of used blocks.
pub dealloc_n-alloc_n :
    (num n : ℕ) (m : AdfsBitmap)
    → 0 < num
    → IsValid m
    → get_num_free m ≡ some n
    → num ≤ n
    → (blks : List ℕ) × (m₁ : AdfsBitmap) × (m₂ : AdfsBitmap) × (alloc_n num m
        ≡ some (some blks, m₁))
      × (dealloc_n blks m₁ ≡ some m₂)
      × ((place : ℕ) → place < bitmap_bits m → bit_at m₂ place ≡ bit_at m place)
      × (m₂.num_used ≡ m.num_used)
dealloc_n-alloc_n num n m h v e k =
    let (blks, m₁, e₁, len, free, r₁) = alloc_n_succeeds num n m h v e k in
    let (m₂, e₂, r₂) =
      dealloc_n-Marked blks m₁ r₁.valid (Blocks-Marked m m₁ blks blks r₁ (AllIn-refl blks) free) in
    (
      blks,
      m₁,
      m₂,
      e₁,
      e₂,
      λ place small. back m₁ m₂ blks place free r₁ r₂,
      rw (r₂.used, r₁.used) (omega int_laws),
    )
  where
    back :
        (m₁ m₂ : AdfsBitmap) (blks : List ℕ) (place : ℕ)
        → Blocks m true blks
        → Marked m m₁ blks false
        → Marked m₁ m₂ blks true
        → bit_at m₂ place ≡ bit_at m place
    back m₁ m₂ blks place b r₁ r₂ =
        ground (arith, r₁.volume, r₁.bits place, r₂.bits place, was blks place b)
      where
        was :
            (bs : List ℕ) (place : ℕ)
            → Blocks m true bs
            → contains (m.reserved + place) bs ≡ true
            → bit_at m place ≡ true
        was [] place b i = cc
        was (c ∷ bs) place b i = ground (arith, was bs place b.3)
