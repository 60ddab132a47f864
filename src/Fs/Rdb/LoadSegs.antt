-- ===== src/Fs/Rdb/LoadSegs.antt =====
-- The LoadSeg blocks of a file system, from its data to the device and back.
use amitools.Prelude.{
  ℕ, zero, suc, ◌+◌, ◌*◌, ◌/◌, ◌≤◌, ◌<◌, ◌≡◌, ◌≢◌, refl, sym, ap, ap₂, ◌∙◌, true, false, some, List,
  [], ◌∷◌, ◌++◌, map, leb, length, length-take, length-drop, take, drop, take-all, Bool-cases, inl,
  inr, arith,
}
use mathlib.Core.List.{append-nil}
use amitools.Fs.Rdb.{no_blk, LoadSeg, Stored, load_seg, Device, put, is_in}
use amitools.Fs.Rdb.Blocks.{are_fresh}
use amitools.Fs.Rdb.FileSystems.{lseg, next_of, make_lsegs, write_lsegs, join_bytes, read_lsegs}

abbrev pub blk_of : LoadSeg → ℕ
blk_of l = l.blk_num

-- Each block points at the next one, the last at none.
abbrev pub IsLinked : ℕ → List LoadSeg → Type 0
IsLinked start [] = start ≡ no_blk
IsLinked start (l ∷ ls) = (start ≡ l.blk_num) × IsLinked l.next ls

-- What `make_lsegs` has made of the data.
pub record IsMade (lseg_size : ℕ) (blks bytes : List ℕ) (ls : List LoadSeg) : Type 0 where
  pub makes : make_lsegs lseg_size blks bytes ≡ some ls
  pub keeps : join_bytes ls ≡ take (length bytes / 4 * 4) bytes
  pub blocks : map blk_of ls ≡ blks
  pub links : IsLinked (next_of blks) ls

take-none : (k : ℕ) → take {A = ℕ} k [] ≡ []
take-none zero = refl
take-none (suc k) = refl

take-add : (n k m : ℕ) (xs : List ℕ) → n + k ≡ m → take n xs ++ take k (drop n xs) ≡ take m xs
take-add zero k m xs h = ap (λ j. take j xs) (omega (arith, h))
take-add (suc n) k m [] h = ground (arith, take-none k, take-none m)
take-add (suc n) k zero (x ∷ xs) h = absurd (omega (arith, h))
take-add (suc n) k (suc m) (x ∷ xs) h = ap (λ ys. x ∷ ys) (take-add n k m xs (omega (arith, h)))

join-first :
    (q n : ℕ) (bytes : List ℕ)
    → n ≡ 4 * q
    → take (length (take n bytes) / 4 * 4) (take n bytes)
        ++ take (length (drop n bytes) / 4 * 4) (drop n bytes)
      ≡ take (length bytes / 4 * 4) bytes
join-first q n bytes e = elim (Bool-cases (leb n (length bytes))) [
  | inl h ↦
      let size : length (take n bytes) ≡ n = ground (arith, h, length-take n bytes) in
      let first : take (length (take n bytes) / 4 * 4) (take n bytes) ≡ take n bytes =
        ap (λ k. take k (take n bytes)) (omega (arith, size, e))
        ∙ take-all n (take n bytes) (omega (arith, size)) in
      ap (λ ys. ys ++ take (length (drop n bytes) / 4 * 4) (drop n bytes)) first
      ∙ take-add n (length (drop n bytes) / 4 * 4) (length bytes / 4 * 4) bytes
          (ground (arith, h, e, length-drop n bytes))
  | inr h ↦
      let short : length bytes ≤ n = ground (arith, h) in
      let none_left : length (drop n bytes) / 4 * 4 ≡ 0 =
        omega (arith, length-drop n bytes, short) in
      ap₂ (λ ys zs. ys ++ zs) (ap (λ ys. take (length ys / 4 * 4) ys) (take-all n bytes short))
        (ap (λ k. take k (drop n bytes)) none_left)
      ∙ append-nil (take (length bytes / 4 * 4) bytes)
]

IsMade-first :
    (q n b : ℕ) (blks bytes : List ℕ)
    → n ≡ 4 * q
    → 0 < length bytes
    → ((ls : List LoadSeg) × IsMade n blks (drop n bytes) ls)
    → (ls : List LoadSeg) × IsMade n (b ∷ blks) bytes ls
unfolding make_lsegs
IsMade-first q n b blks bytes e p (ls, m) = (
  lseg b (next_of blks) (take n bytes) ∷ ls,
  record {
    makes = ground (arith, p, m.makes);
    keeps =
        ap (λ ys. take (length (take n bytes) / 4 * 4) (take n bytes) ++ ys) m.keeps
        ∙ join-first q n bytes e;
    blocks = ap (λ bs. b ∷ bs) m.blocks;
    links = (refl, m.links);
  },
)

IsMade-none :
    (n : ℕ) (bytes : List ℕ) → length bytes ≤ 0 → (ls : List LoadSeg) × IsMade n [] bytes ls
unfolding make_lsegs
IsMade-none n [] h =
    ([], record { makes = refl; keeps = sym (take-none (0 / 4 * 4)); blocks = refl; links = refl })
IsMade-none n (x ∷ bytes) h = absurd (omega arith)

pub make_lsegs-IsMade :
    (q n : ℕ) (blks bytes : List ℕ)
    → n ≡ 4 * q
    → length bytes ≤ length blks * n
    → length blks * n < length bytes + n
    → (ls : List LoadSeg) × IsMade n blks bytes ls
make_lsegs-IsMade q n [] bytes e h k = IsMade-none n bytes (grind (arith, h))
make_lsegs-IsMade q n (b ∷ blks) bytes e h k =
    let left = length-drop n bytes in
    let split : suc (length blks) * n ≡ length blks * n + n = grind arith in
    IsMade-first q n b blks bytes e (omega (arith, h, k, split)) (
      make_lsegs-IsMade q n blks (drop n bytes) e (omega (arith, h, k, left, split))
        (omega (arith, h, k, left, split)))

-- The blocks stand on the device, each behind the one that points at it.
abbrev pub IsChain : Device → ℕ → List LoadSeg → Type 0
IsChain d start [] = start ≡ no_blk
IsChain d start (l ∷ ls) =
    (start ≡ l.blk_num) × (l.blk_num ≢ no_blk) × (d l.blk_num ≡ load_seg l) × IsChain d l.next ls

-- A device that differs in used blocks only.
pub agree-IsChain :
    (start max : ℕ) (used : List ℕ) (d d' : Device) (ls : List LoadSeg)
    → ((x : ℕ) → is_in x used ≡ false → d' x ≡ d x)
    → are_fresh max used (map blk_of ls) ≡ true
    → IsChain d start ls
    → IsChain d' start ls
agree-IsChain start max used d d' [] f h c = c
agree-IsChain start max used d d' (l ∷ ls) f h (e, n, at, c) = (
  e,
  n,
  f l.blk_num (ground (arith, h)) ∙ at,
  agree-IsChain l.next max used d d' ls f (ground (arith, h)) c,
)

pub write_lsegs-other :
    (x : ℕ) (d : Device) (ls : List LoadSeg)
    → is_in x (map blk_of ls) ≡ false
    → write_lsegs ls d x ≡ d x
write_lsegs-other x d [] h = refl
write_lsegs-other x d (l ∷ ls) h =
    write_lsegs-other x (put l.blk_num (load_seg l) d) ls (ground (arith, h)) ∙ ground (arith, h)

pub put_self : (x : ℕ) (b : Stored) (d : Device) → put x b d x ≡ b
put_self x b d = ground arith

pub write_lsegs-IsChain :
    (start max : ℕ) (used : List ℕ) (d : Device) (ls : List LoadSeg)
    → max ≤ no_blk
    → are_fresh max used (map blk_of ls) ≡ true
    → IsLinked start ls
    → IsChain (write_lsegs ls d) start ls
write_lsegs-IsChain start max used d [] m h e = e
write_lsegs-IsChain start max used d (l ∷ ls) m h (e, k) = (
  e,
  (λ n. ground (arith, m, h, n)),
  write_lsegs-other l.blk_num (put l.blk_num (load_seg l) d) ls (ground (arith, h))
      ∙ put_self l.blk_num (load_seg l) d,
  write_lsegs-IsChain l.next max used (put l.blk_num (load_seg l) d) ls m (ground (arith, h)) k,
)

pub read_lsegs-IsChain :
    (fuel start : ℕ) (d : Device) (ls : List LoadSeg)
    → length ls < fuel
    → IsChain d start ls
    → read_lsegs fuel start d ≡ some ls
unfolding read_lsegs
read_lsegs-IsChain zero start d ls h c = absurd (omega arith)
read_lsegs-IsChain (suc fuel) start d [] h c = ground (arith, c)
read_lsegs-IsChain (suc fuel) start d (l ∷ ls) h (e, n, at, c) =
    let rest = read_lsegs-IsChain fuel l.next d ls (omega arith) c in ground (arith, e, n, at, rest)
