-- ===== src/Fs/Bitmap/Search.antt =====
-- `find_n_free` against the list of all free blocks, in the order of the search.
use amitools.Prelude.{
  ℕ, zero, suc, ◌+◌, ◌-◌, ◌*◌, ◌/◌, ◌%◌, ◌≤◌, ◌<◌, ◌≡◌, refl, ap, ap₂, Bool, true, false, Option,
  none, some, List, [], ◌∷◌, ◌++◌, arith, length, take, leb, ◌==◌, if◌then◌else◌, length-append,
}
use mathlib.Core.List.{append-nil, append_assoc}
use amitools.Prelude.Bits.{has_bit-test, has_bit-zero}
use amitools.Prelude.Bytes.{word_at}
use amitools.Fs.Bitmap.{
  AdfsBitmap, bitmap_bits, bitmap_longs, bitmap_last_long_bits, Collected, enough, more, collect,
  scan_bits, scan_long, next_long, scan_longs, find_n_free,
}
use amitools.Fs.Bitmap.Bits.{IsValid, bit_at}

-- The free blocks among `n` places from `place` on.
unfoldable pub free_from : AdfsBitmap → ℕ → ℕ → List ℕ
free_from m place zero = []
free_from m place (suc n) =
    let rest = free_from m (place + 1) n in
    if bit_at m place then (m.reserved + place) ∷ rest else rest

pub free_from-add :
    (m : AdfsBitmap) (place n k : ℕ)
    → free_from m place (n + k) ≡ free_from m place n ++ free_from m (place + n) k
unfolding free_from
free_from-add m place zero k =
    ap₂ (free_from m) (let e : place ≡ place + 0 = omega arith in e) (omega arith)
free_from-add m place (suc n) k =
    let e : suc n + k ≡ suc (n + k) = omega arith in
    let e' : place + suc n ≡ place + 1 + n = omega arith in
    rw (e, e') (ground (arith, free_from-add m (place + 1) n k))

-- Take from a list of free blocks, one by one.
collect_all : ℕ → List ℕ → List ℕ → Collected
collect_all num [] result = more result
collect_all num (b ∷ bs) result = elim (collect num b result) [
  | enough r ↦ enough r
  | more r ↦ collect_all num bs r
]

collect_all_nil : (num : ℕ) (result : List ℕ) → collect_all num [] result ≡ more result
unfolding collect_all
collect_all_nil num result = refl

collect_all-append :
    (num : ℕ) (bs cs result : List ℕ)
    → collect_all num (bs ++ cs) result
      ≡ (elim (collect_all num bs result) [ enough r ↦ enough r | more r ↦ collect_all num cs r ])
unfolding collect_all collect
collect_all-append num [] cs result = refl
collect_all-append num (b ∷ bs) cs result =
    ground (arith, collect_all-append num bs cs (result ++ b ∷ []))

-- With `d + 1` blocks missing the search ends with so many of the list, or with all of a shorter
-- list.
collect_all_lem :
    (num d : ℕ) (bs result : List ℕ)
    → length result + suc d ≡ num
    → collect_all num bs result ≡ (
        if leb (suc d) (length bs) then enough (result ++ take (suc d) bs) else more (result ++ bs))
unfolding collect_all collect
collect_all_lem num d [] result h = ground (arith, append-nil result)
collect_all_lem num zero (b ∷ bs) result h = ground (arith, length-append result (b ∷ []))
collect_all_lem num (suc d) (b ∷ bs) result h = ground (
  arith,
  length-append result (b ∷ []),
  collect_all_lem num d bs (result ++ b ∷ []),
  append_assoc result (b ∷ []) bs,
  append_assoc result (b ∷ []) (take (suc d) bs),
)

module _ (num : ℕ) (m : AdfsBitmap) where
  -- The inner loop collects the free blocks of one word.
  scan_bits_lem :
      (long_off left bit : ℕ) (result : List ℕ)
      → bit + left ≤ 32
      → scan_bits num
          (word_at m.bitmap_data (long_off * 4))
          (m.reserved + long_off * 32)
          left
          bit
          result
        ≡ collect_all num (free_from m (long_off * 32 + bit) left) result
  unfolding scan_bits collect_all free_from collect
  scan_bits_lem long_off zero bit result h = refl
  scan_bits_lem long_off (suc left) bit result h =
      let blk : m.reserved + (long_off * 32 + bit) ≡ m.reserved + long_off * 32 + bit =
        omega arith in
      let long : (long_off * 32 + bit) / 32 ≡ long_off = omega arith in
      let low : (long_off * 32 + bit) % 32 ≡ bit = omega arith in
      let next : long_off * 32 + bit + 1 ≡ long_off * 32 + (bit + 1) = omega arith in
      let ih = λ (r : List ℕ). scan_bits_lem long_off left (bit + 1) r (omega arith) in
      rw (blk, long, low, next)
        (ground (
          arith,
          has_bit-test (word_at m.bitmap_data (long_off * 4)) bit,
          ih result,
          ih (result ++ (m.reserved + long_off * 32 + bit) ∷ []),
        ))

-- How many bits of a word stand for blocks.
abbrev width : AdfsBitmap → ℕ → ℕ
width m long_off = if long_off == bitmap_longs m - 1 then bitmap_last_long_bits m else 32

free_from-no_bits :
    (m : AdfsBitmap) (long_off bit left : ℕ)
    → word_at m.bitmap_data (long_off * 4) ≡ 0
    → bit + left ≤ 32
    → free_from m (long_off * 32 + bit) left ≡ []
unfolding free_from
free_from-no_bits m long_off bit zero e h = refl
free_from-no_bits m long_off bit (suc left) e h =
    let long : (long_off * 32 + bit) / 32 ≡ long_off = omega arith in
    let next : long_off * 32 + bit + 1 ≡ long_off * 32 + (bit + 1) = omega arith in
    rw (long, next, e, has_bit-zero ((long_off * 32 + bit) % 32))
      (free_from-no_bits m long_off (bit + 1) left e (omega arith))

-- One round collects the free blocks of its word.
scan_long_lem :
    (num : ℕ) (m : AdfsBitmap) (long_off : ℕ) (result : List ℕ)
    → IsValid m
    → long_off < bitmap_longs m
    → scan_long num m long_off result
      ≡ some (collect_all num (free_from m (long_off * 32) (width m long_off)) result)
unfolding scan_long
scan_long_lem num m long_off result v h =
    let start : long_off * 32 + 0 ≡ long_off * 32 = omega arith in
    let lanes : 0 + width m long_off ≤ 32 = ground arith in
    let found = scan_bits_lem num m long_off (width m long_off) 0 result lanes in
    let nothing = free_from-no_bits m long_off 0 (width m long_off) in
    ground (
      arith,
      v.long_enough,
      lanes,
      rw start at found,
      λ (e : word_at m.bitmap_data (long_off * 4) ≡ 0). rw start at (nothing e lanes),
      collect_all_nil num result,
    )

-- The free blocks in the order of the search.
visit : AdfsBitmap → ℕ → ℕ → List ℕ
visit m zero long_off = []
visit m (suc rounds) long_off =
    free_from m (long_off * 32) (width m long_off) ++ visit m rounds (next_long m long_off)

-- How a search that collects so much ends.
abbrev Finds : AdfsBitmap → Collected → Option (Option (List ℕ × ℕ)) → Type 0
Finds m (enough r) o = (l : ℕ) × (o ≡ some (some (r, l))) × (l * 32 < bitmap_bits m)
Finds m (more r) o = o ≡ some none

scan_longs-Finds :
    (num : ℕ) (m : AdfsBitmap) (rounds long_off : ℕ) (result : List ℕ)
    → IsValid m
    → long_off < bitmap_longs m
    → Finds m
        (collect_all num (visit m rounds long_off) result)
        (scan_longs num m rounds long_off result)
unfolding scan_longs visit collect_all
scan_longs-Finds num m zero long_off result v h = refl
scan_longs-Finds num m (suc rounds) long_off result v h =
    rw
      (
        scan_long_lem num m long_off result v h,
        scan_longs,
        collect_all-append num (free_from m (long_off * 32) (width m long_off))
            (visit m rounds (next_long m long_off)) result,
      )
      (go (collect_all num (free_from m (long_off * 32) (width m long_off)) result)
        (λ r. scan_longs-Finds num m rounds (next_long m long_off) r v (ground arith)))
  where
    go :
        (c : Collected)
        → ((r : List ℕ)
            → Finds m
                (collect_all num (visit m rounds (next_long m long_off)) r)
                (scan_longs num m rounds (next_long m long_off) r))
        → Finds m
            (elim c [
              | enough r ↦ enough r
              | more r ↦ collect_all num (visit m rounds (next_long m long_off)) r
            ])
            (elim c [
              | enough r ↦ some (some (r, long_off))
              | more r ↦ scan_longs num m rounds (next_long m long_off) r
            ])
    go (enough r) ih = (long_off, refl, ground arith)
    go (more r) ih = ih r

visit-wrap :
    (m : AdfsBitmap) (a rounds long_off : ℕ)
    → long_off + suc a ≡ bitmap_longs m
    → visit m (suc a + rounds) long_off
      ≡ free_from m (long_off * 32) (bitmap_bits m - long_off * 32) ++ visit m rounds 0
unfolding visit
visit-wrap m zero rounds long_off h =
    let e : 1 + rounds ≡ suc rounds = omega arith in
    let w : width m long_off ≡ bitmap_bits m - long_off * 32 = ground arith in
    let n : next_long m long_off ≡ 0 = ground arith in rw (e, w, n)
visit-wrap m (suc a) rounds long_off h =
    let e : suc (suc a) + rounds ≡ suc (suc a + rounds) = omega arith in
    let w : width m long_off ≡ 32 = ground arith in
    let n : next_long m long_off ≡ long_off + 1 = ground arith in
    let all : bitmap_bits m - long_off * 32 ≡ 32 + (bitmap_bits m - (long_off + 1) * 32) =
      omega arith in
    let p : (long_off + 1) * 32 ≡ long_off * 32 + 32 = omega arith in
    rw (e, w, n, all, free_from-add, visit-wrap m a rounds (long_off + 1) (omega arith), p)
      (simp append_assoc)

visit-straight :
    (m : AdfsBitmap) (a long_off : ℕ)
    → long_off + a < bitmap_longs m
    → visit m a long_off ≡ free_from m (long_off * 32) (a * 32)
unfolding visit free_from
visit-straight m zero long_off h = refl
visit-straight m (suc a) long_off h =
    let w : width m long_off ≡ 32 = ground arith in
    let n : next_long m long_off ≡ long_off + 1 = ground arith in
    let all : suc a * 32 ≡ 32 + a * 32 = omega arith in
    let p : (long_off + 1) * 32 ≡ long_off * 32 + 32 = omega arith in
    rw (w, n, all, free_from-add, visit-straight m a (long_off + 1) (omega arith), p)

-- All free blocks in the order of the search: from the word where the last search ended, then those
-- before it.
unfoldable pub free_order : AdfsBitmap → List ℕ
free_order m =
    let start = m.find_start_off * 32 in
    free_from m start (bitmap_bits m - start) ++ free_from m 0 start

visit-free_order :
    (m : AdfsBitmap) → IsValid m → visit m (bitmap_longs m) m.find_start_off ≡ free_order m
unfolding free_order
visit-free_order m v =
    let s = m.find_start_off in
    let a = bitmap_longs m - suc s in
    let e : bitmap_longs m ≡ suc a + s = omega (arith, v.start) in
    rw (ap (λ n. visit m n s) e, visit-wrap m a s s (omega (arith, v.start)))
      (rw (visit-straight m s 0 (omega (arith, v.start))))

finish :
    (num : ℕ) (m : AdfsBitmap) (b : Bool) (rs all : List ℕ)
    → IsValid m
    → Finds m
        (if b then enough rs else more all)
        (scan_longs num m (bitmap_longs m) m.find_start_off [])
    → (l : ℕ) × (find_n_free num m
        ≡ some (if b then (some rs, record m { find_start_off = l }) else (none, m)))
      × (l * 32 < bitmap_bits m)
unfolding find_n_free
finish num m true rs all v (l, e, h) = (l, rw (e, find_n_free), h)
finish num m false rs all v e = (m.find_start_off, rw (e, find_n_free), v.start)

-- What a search for some blocks returns: the first of the free blocks in the order of the search,
-- or `None` where there are too few.
pub find_n_free_lem :
    (num : ℕ) (m : AdfsBitmap)
    → 0 < num
    → IsValid m
    → (l : ℕ) × (find_n_free num m
        ≡ some (
            if leb num (length (free_order m))
            then (some (take num (free_order m)), record m { find_start_off = l })
            else (none, m)))
      × (l * 32 < bitmap_bits m)
find_n_free_lem zero m h v = absurd (omega arith)
find_n_free_lem (suc d) m h v =
    finish (suc d) m (leb (suc d) (length (free_order m))) (take (suc d) (free_order m))
      (free_order m) v
      (rw (visit-free_order m v, collect_all_lem (suc d) d (free_order m) [] (omega arith)) at
        (scan_longs-Finds (suc d) m (bitmap_longs m) m.find_start_off [] v
          (omega (arith, v.start))))
