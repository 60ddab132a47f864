-- ===== src/Fs/Geometry.antt =====
-- The geometry of a disk: `DiskGeometry` of amitools/fs/blkdev/DiskGeometry.py. The options are a
-- dict of strings there; here they are a record of the numbers in them, each missing or given. What
-- `ImageFile.get_image_size` and `ByteSize.parse_byte_size_str` give for them is part of that record.
pub mod Guess
pub mod Exact
pub mod Best
pub mod Detect
mod Tests
use amitools.Prelude.{
  ℕ, zero, suc, ◌+◌, ◌-◌, ◌*◌, ◌/◌, ◌%◌, Bool, true, false, Option, none, some, List, [], ◌∷◌, ◌==◌,
  ltb, leb, ◌&&◌, ◌||◌, not, if◌then◌else◌,
}

pub record DiskGeometry : Type 0 where
  pub cyls : ℕ
  pub heads : ℕ
  pub secs : ℕ
  pub block_bytes : ℕ

-- `image_size` is the size of the image that "from" names, and `size` that of "size", which is
-- `some none` for a string that is no size.
pub record Options : Type 0 where
  pub bs : Option ℕ
  pub chs : Option (List ℕ)
  pub c : Option ℕ
  pub cylinders : Option ℕ
  pub h : Option ℕ
  pub heads : Option ℕ
  pub s : Option ℕ
  pub sectors : Option ℕ
  pub algo : Option ℕ
  pub image_size : Option ℕ
  pub size : Option (Option ℕ)

pub data GeoResult : Type 0 where
  value_error answer_false : GeoResult
  answer : Option ℕ → DiskGeometry → GeoResult

pub get_num_blocks : DiskGeometry → ℕ
get_num_blocks g = g.cyls * g.heads * g.secs

pub get_num_bytes : DiskGeometry → ℕ
unfolding get_num_blocks
get_num_bytes g = get_num_blocks g * g.block_bytes

-- `none` is the `ValueError`.
unfoldable update_block_size : Options → DiskGeometry → Option DiskGeometry
update_block_size o g = elim o.bs [
  | none ↦ some g
  | some bs ↦
      if not (bs % 512 == 0) || ltb bs 512 then none else some (record g { block_bytes = bs })
]

abbrev second_or : Option ℕ → Option ℕ → Option ℕ
second_or a none = a
second_or a (some b) = some b

pub record Chs : Type 0 where
  pub c : Option ℕ
  pub h : Option ℕ
  pub s : Option ℕ

unfoldable parse_chs : Options → Chs
parse_chs o = elim o.chs [
  | some (c ∷ h ∷ s ∷ []) ↦ record { c = some c; h = some h; s = some s }
  | some _ ↦ record { c = none; h = none; s = none }
  | none ↦ record {
    c = second_or o.c o.cylinders;
    h = second_or o.h o.heads;
    s = second_or o.s o.sectors;
  }
]

-- `x or d`: neither None nor 0.
abbrev pub or_default : Option ℕ → ℕ → ℕ
or_default (some (suc n)) d = suc n
or_default _ d = d

abbrev is_given : Option ℕ → Bool
is_given (some (suc n)) = true
is_given _ = false

abbrev or_else : Option ℕ → Option ℕ → Option ℕ
or_else a b = if is_given a then a else b

-- "chs is fully specified"
unfoldable set_chs : Chs → DiskGeometry → Option DiskGeometry
set_chs v g =
    if is_given v.c && (is_given v.h && is_given v.s)
    then some
        (record g { cyls = or_default v.c 0; heads = or_default v.h 0; secs = or_default v.s 0 })
    else none

-- "keep approx values or match"
abbrev pub keep : ℕ → Bool → ℕ → ℕ → ℕ → DiskGeometry → Option ℕ × DiskGeometry
keep size approx cyls heads secs g =
    let geo_size = cyls * secs * heads * g.block_bytes in
    if approx || geo_size == size
    then (some geo_size, record g { cyls = cyls; heads = heads; secs = secs })
    else (none, g)

unfoldable pub heads_for : ℕ → ℕ
heads_for mb =
    if leb mb (504 * 1024)
    then 16
    else if leb mb (1008 * 1024)
    then 32
    else if leb mb (2016 * 1024)
    then 64
    else if leb mb (4032 * 1024)
    then 128
    else 256

unfoldable pub guess_for_size1 :
    ℕ → Bool → Option ℕ → Option ℕ → DiskGeometry → Option ℕ × DiskGeometry
unfolding heads_for
guess_for_size1 size approx secs heads g =
    let secs' = or_default secs 63 in
    let heads' = or_default heads (heads_for (size / 1024)) in
    keep size approx (size / g.block_bytes / (secs' * heads')) heads' secs' g

-- "keep cyls low": the loop, on fuel; the cylinders that it starts with are enough.
unfoldable pub halve : ℕ → ℕ → ℕ → ℕ × ℕ
halve zero cyls heads = (cyls, heads)
halve (suc fuel) cyls heads = elim (leb cyls 65535) [
  | true ↦ (cyls, heads)
  | false ↦ halve fuel (cyls / 2) (heads * 2)
]

unfoldable pub guess_for_size2 :
    ℕ → Bool → Option ℕ → Option ℕ → DiskGeometry → Option ℕ × DiskGeometry
unfolding halve
guess_for_size2 size approx secs heads g =
    let heads' = or_default heads 1 in
    let secs' = or_default secs 32 in
    let cyls = size / g.block_bytes / (secs' * heads') in
    let low = halve cyls cyls heads' in keep size approx low.0 low.1 secs' g

pub data Algo : Type 0 where
  first second : Algo

unfoldable pub run_algo :
    Algo → ℕ → Bool → Option ℕ → Option ℕ → DiskGeometry → Option ℕ × DiskGeometry
unfolding guess_for_size1 guess_for_size2
run_algo first size approx secs heads g = guess_for_size1 size approx secs heads g
run_algo second size approx secs heads g = guess_for_size2 size approx secs heads g

-- The least difference so far, and its algorithm.
abbrev pub Best : Type 0
Best = ℕ × Option Algo

-- A turn of "find min diff to real size", with `abs` on numbers.
abbrev pub nearer : ℕ → Algo → Option ℕ → Best → Best
nearer size a found best =
    let n = or_default found 0 in
    let delta = size - n + (n - size) in
    if is_given found && ltb delta best.0 then (delta, some a) else best

unfoldable guess_approx : ℕ → Option ℕ → Option ℕ → DiskGeometry → Option ℕ × DiskGeometry
unfolding run_algo
guess_approx size secs heads g =
    let (s1, g1) = run_algo first size true secs heads g in
    let (s2, g2) = run_algo second size true secs heads g1 in
    let best = nearer size second s2 (nearer size first s1 (size, none)) in
    elim best.1 [ none ↦ (none, g2) | some a ↦ run_algo a size true secs heads g2 ]

abbrev is_size : ℕ → Option ℕ → Bool
is_size size none = false
is_size size (some n) = n == size

guess_exact : ℕ → Option ℕ → Option ℕ → DiskGeometry → Option ℕ × DiskGeometry
unfolding run_algo
guess_exact size secs heads g =
    let (s1, g1) = run_algo first size true secs heads g in
    let (s2, g2) = run_algo second size true secs heads g1 in
    if is_size size s1
    then (some size, g1)
    else if is_size size s2
    then (some size, g2)
    else (none, g2)

abbrev is_algo : ℕ → Option ℕ → Bool
is_algo n none = false
is_algo n (some a) = a == n

unfoldable pub guess_for_size :
    ℕ → Bool → Option ℕ → Option ℕ → Option ℕ → DiskGeometry → Option ℕ × DiskGeometry
unfolding run_algo guess_approx guess_exact
guess_for_size size approx algo secs heads g =
    if is_algo 1 algo
    then run_algo first size approx secs heads g
    else if is_algo 2 algo
    then run_algo second size approx secs heads g
    else if approx
    then guess_approx size secs heads g
    else guess_exact size secs heads g

abbrev answered : Option ℕ × DiskGeometry → GeoResult
answered r = answer r.0 r.1

abbrev detect_opts : Option Options → Chs
unfolding parse_chs
detect_opts none = record { c = none; h = none; s = none }
detect_opts (some o) = parse_chs o

abbrev algo_of : Option Options → Option ℕ
algo_of none = none
algo_of (some o) = o.algo

abbrev update_bs : Option Options → DiskGeometry → Option DiskGeometry
unfolding update_block_size
update_bs none g = some g
update_bs (some o) g = update_block_size o g

-- `detect` with the block size of the options.
unfoldable pub detect_size : ℕ → Option Options → DiskGeometry → GeoResult
unfolding set_chs guess_for_size get_num_bytes detect_opts
detect_size byte_size o g =
    let v = detect_opts o in
    elim (set_chs v g) [
      | some g' ↦
          let size = get_num_bytes g' in
          if size == byte_size then answer (some size) g' else answer none g'
      | none ↦ answered (guess_for_size byte_size true (algo_of o) v.s v.h g)
    ]

unfoldable pub detect : ℕ → Option Options → DiskGeometry → GeoResult
unfolding update_bs detect_size
detect byte_size o g = elim (update_bs o g) [
  | none ↦ value_error
  | some g' ↦ detect_size byte_size o g'
]

-- The size that `setup` guesses for; `none` is none given or a string that is none.
abbrev size_of : Options → Option ℕ
size_of o = elim o.image_size [ some n ↦ some n | none ↦ elim o.size [ none ↦ none | some n ↦ n ] ]

-- `setup` with the block size of the options.
unfoldable setup_size : Options → Chs → DiskGeometry → GeoResult
unfolding set_chs guess_for_size get_num_bytes
setup_size o v g = elim (set_chs v g) [
  | some g' ↦ answer (some (get_num_bytes g')) g'
  | none ↦ elim (size_of o) [
    | none ↦ answer none g
    | some n ↦ answered (guess_for_size n true o.algo v.s v.h g)
  ]
]

-- What the options do not give is taken from the arguments.
unfoldable filled : Chs → Option ℕ → Option ℕ → Option ℕ → Chs
filled v cyls heads sectors = record {
  c = or_else v.c cyls;
  h = or_else v.h heads;
  s = or_else v.s sectors;
}

unfoldable pub setup : Option Options → Option ℕ → Option ℕ → Option ℕ → DiskGeometry → GeoResult
unfolding parse_chs filled update_block_size setup_size
setup none cyls heads sectors g = answer_false
setup (some o) cyls heads sectors g = elim (update_block_size o g) [
  | none ↦ value_error
  | some g' ↦ setup_size o (filled (parse_chs o) cyls heads sectors) g'
]
