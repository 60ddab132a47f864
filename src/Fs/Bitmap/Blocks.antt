-- ===== src/Fs/Bitmap/Blocks.antt =====
-- The list of free blocks that a search goes through: blocks of the volume, all of them, each once.
use amitools.Prelude.{
  ℕ, zero, suc, ◌+◌, ◌-◌, ◌*◌, ◌≤◌, ◌<◌, ◌≡◌, refl, ap, inl, inr, Bool, true, false, List, [], ◌∷◌,
  ◌++◌, arith, length, take, Bool-cases, ◌==◌, ◌||◌, length-append,
}
use amitools.Fs.Bitmap.{AdfsBitmap, bitmap_bits}
use amitools.Fs.Bitmap.Bits.{IsValid, bit_at, InVolume}
use amitools.Fs.Bitmap.Search.{free_from, free_from-add, free_order}

-- `b in blks`
abbrev pub contains : ℕ → List ℕ → Bool
contains b [] = false
contains b (c ∷ cs) = b == c || contains b cs

-- Blocks of the volume that have the bit `free`, each listed once.
abbrev pub Blocks : AdfsBitmap → Bool → List ℕ → Type 0
Blocks m free [] = Unit
Blocks m free (b ∷ bs) =
    InVolume b m × (bit_at m (b - m.reserved) ≡ free) × (contains b bs ≡ false) × Blocks m free bs

abbrev pub Between : ℕ → ℕ → List ℕ → Type 0
Between lo hi [] = Unit
Between lo hi (b ∷ bs) = (lo ≤ b) × (b < hi) × Between lo hi bs

Between-mono : (lo lo' hi : ℕ) (bs : List ℕ) → lo ≤ lo' → Between lo' hi bs → Between lo hi bs
Between-mono lo lo' hi [] h k = tt
Between-mono lo lo' hi (b ∷ bs) h k = (omega arith, k.1, Between-mono lo lo' hi bs h k.2)

contains-Between : (b lo hi : ℕ) (bs : List ℕ) → Between lo hi bs → b < lo → contains b bs ≡ false
contains-Between b lo hi [] h k = refl
contains-Between b lo hi (c ∷ cs) h k = ground (arith, contains-Between b lo hi cs h.2 k)

contains-Between_above :
    (b lo hi : ℕ) (bs : List ℕ) → Between lo hi bs → hi ≤ b → contains b bs ≡ false
contains-Between_above b lo hi [] h k = refl
contains-Between_above b lo hi (c ∷ cs) h k =
    ground (arith, contains-Between_above b lo hi cs h.2 k)

free_from-Between :
    (m : AdfsBitmap) (place n : ℕ)
    → Between (m.reserved + place) (m.reserved + place + n) (free_from m place n)
unfolding free_from
free_from-Between m place zero = tt
free_from-Between m place (suc n) =
    let e : m.reserved + place + suc n ≡ m.reserved + (place + 1) + n = omega arith in
    rw e (
      ground (
        arith,
        Between-mono (m.reserved + place) (m.reserved + (place + 1)) (m.reserved + (place + 1) + n)
            (free_from m (place + 1) n) (omega arith) (free_from-Between m (place + 1) n),
      ))

free_from-Blocks :
    (m : AdfsBitmap) (place n : ℕ) → place + n ≤ bitmap_bits m → Blocks m true (free_from m place n)
unfolding free_from
free_from-Blocks m place zero h = tt
free_from-Blocks m place (suc n) h =
    let e : m.reserved + place - m.reserved ≡ place = omega arith in
    elim (Bool-cases (bit_at m place)) [
      | inl b ↦ rw b (
        (omega arith, omega arith),
        rw e b,
        contains-Between (m.reserved + place) (m.reserved + (place + 1))
            (m.reserved + (place + 1) + n) (free_from m (place + 1) n)
            (free_from-Between m (place + 1) n) (omega arith),
        free_from-Blocks m (place + 1) n (omega arith),
      )
      | inr b ↦ rw b (free_from-Blocks m (place + 1) n (omega arith))
    ]

contains-append :
    (b : ℕ) (bs cs : List ℕ) → contains b (bs ++ cs) ≡ (contains b bs || contains b cs)
contains-append b [] cs = refl
contains-append b (c ∷ bs) cs = ground (arith, contains-append b bs cs)

Blocks-append :
    (m : AdfsBitmap) (free : Bool) (lo hi lo' : ℕ) (bs cs : List ℕ)
    → Blocks m free bs
    → Blocks m free cs
    → Between lo' hi bs
    → Between lo lo' cs
    → Blocks m free (bs ++ cs)
Blocks-append m free lo hi lo' [] cs p q a b = q
Blocks-append m free lo hi lo' (d ∷ bs) cs p q a b = ground (
  arith,
  contains-append d bs cs,
  contains-Between_above d lo lo' cs b,
  Blocks-append m free lo hi lo' bs cs,
)

contains-take : (b n : ℕ) (bs : List ℕ) → contains b bs ≡ false → contains b (take n bs) ≡ false
contains-take b zero bs h = refl
contains-take b (suc n) [] h = refl
contains-take b (suc n) (c ∷ bs) h = ground (arith, contains-take b n bs)

pub Blocks-take :
    (m : AdfsBitmap) (free : Bool) (n : ℕ) (bs : List ℕ)
    → Blocks m free bs
    → Blocks m free (take n bs)
Blocks-take m free zero bs h = tt
Blocks-take m free (suc n) [] h = tt
Blocks-take m free (suc n) (b ∷ bs) h =
    (h.0, h.1, contains-take b n bs h.2, Blocks-take m free n bs h.3)

-- The search lists free blocks of the volume, each once.
pub free_order-Blocks : (m : AdfsBitmap) → IsValid m → Blocks m true (free_order m)
unfolding free_order
free_order-Blocks m v =
    let s = m.find_start_off * 32 in
    Blocks-append m true (m.reserved + 0) (m.reserved + s + (bitmap_bits m - s)) (m.reserved + s)
      (free_from m s (bitmap_bits m - s)) (free_from m 0 s)
      (free_from-Blocks m s (bitmap_bits m - s) (omega (arith, v.start)))
      (free_from-Blocks m 0 s (omega (arith, v.start))) (free_from-Between m s (bitmap_bits m - s))
      (let e : m.reserved + 0 + s ≡ m.reserved + s = omega arith in
        rw e at (free_from-Between m 0 s))

-- It lists all of them.
pub length-free_order :
    (m : AdfsBitmap) → IsValid m → length (free_order m) ≡ length (free_from m 0 (bitmap_bits m))
unfolding free_order
length-free_order m v =
    let s = m.find_start_off * 32 in
    let e : bitmap_bits m ≡ s + (bitmap_bits m - s) = omega (arith, v.start) in
    let z : 0 + s ≡ s = omega arith in
    rw (ap (λ n. free_from m 0 n) e, free_from-add, z)
      (omega (
        arith,
        length-append {0} (free_from m s (bitmap_bits m - s)) (free_from m 0 s),
        length-append {0} (free_from m 0 s) (free_from m s (bitmap_bits m - s)),
      ))
