-- ===== src/Prelude/Bytes.antt =====
-- A Python bytearray as a list of numbers, and the `struct` formats that the program uses on it:
-- `">I"` is a big-endian 32-bit word, and `">H"` one of 16 bits.
use Prim.Native.Nat.{ℕ, zero, suc, ◌+◌, ◌*◌, ◌/◌, ◌%◌, ◌^◌, ◌≤◌, ◌<◌}
use mathlib.Core.Path.{◌≡◌}
use mathlib.Core.Logic.{◌⊎◌}
use mathlib.Core.Bool.{◌&&◌}
use mathlib.Core.List.{List, [], ◌∷◌}
use mathlib.Core.Option.{Option, none, some}
use native.Mathlib.Omega.{arith}
use amitools.Prelude.Tests.{ltb, leb, ◌==◌, if◌then◌else◌}
use amitools.Prelude.Lists.{length, get_or, set, length-set}

-- Every element is a byte.
abbrev pub IsBytes : List ℕ → Type 0
IsBytes [] = Unit
IsBytes (b ∷ bs) = (b < 256) × IsBytes bs

pub get_or-IsBytes : (bs : List ℕ) (i : ℕ) → IsBytes bs → get_or bs i 0 < 256
get_or-IsBytes [] i h = omega arith
get_or-IsBytes (b ∷ bs) zero h = h.0
get_or-IsBytes (b ∷ bs) (suc i) h = get_or-IsBytes bs i h.1

pub set-IsBytes : (bs : List ℕ) (i v : ℕ) → IsBytes bs → v < 256 → IsBytes (set bs i v)
set-IsBytes [] i v h k = tt
set-IsBytes (b ∷ bs) zero v h k = (k, h.1)
set-IsBytes (b ∷ bs) (suc i) v h k = (h.0, set-IsBytes bs i v h.1 k)

pub get_or-set :
    (bs : List ℕ) (i j v : ℕ)
    → i < length bs
    → get_or (set bs i v) j 0 ≡ (if i == j then v else get_or bs j 0)
get_or-set [] i j v h = absurd (omega arith)
get_or-set (b ∷ bs) zero zero v h = ground arith
get_or-set (b ∷ bs) zero (suc j) v h = ground arith
get_or-set (b ∷ bs) (suc i) zero v h = ground arith
get_or-set (b ∷ bs) (suc i) (suc j) v h = ground (arith, get_or-set bs i j v)

-- The word at a byte offset, wherever that lies.
unfoldable pub word_at : List ℕ → ℕ → ℕ
word_at bs off =
    get_or bs off 0 * 2 ^ 24
    + get_or bs (off + 1) 0 * 2 ^ 16
    + get_or bs (off + 2) 0 * 2 ^ 8
    + get_or bs (off + 3) 0

unfoldable pub set_word : List ℕ → ℕ → ℕ → List ℕ
set_word bs off v =
    set
      (set (set (set bs off (v / 2 ^ 24 % 256)) (off + 1) (v / 2 ^ 16 % 256)) (off + 2)
        (v / 2 ^ 8 % 256))
      (off + 3) (v % 256)

-- `struct.unpack_from(">I", bs, off)[0]`; `none` is `struct.error`.
abbrev pub unpack_u32 : List ℕ → ℕ → Option ℕ
unpack_u32 bs off = if leb (off + 4) (length bs) then some (word_at bs off) else none

-- `struct.pack_into(">I", bs, off, v)`, likewise.
abbrev pub pack_u32 : List ℕ → ℕ → ℕ → Option (List ℕ)
pack_u32 bs off v =
    if leb (off + 4) (length bs) && ltb v (2 ^ 32) then some (set_word bs off v) else none

pub length-set_word : (bs : List ℕ) (off v : ℕ) → length (set_word bs off v) ≡ length bs
unfolding set_word
length-set_word bs off v = simp length-set

pub set_word-IsBytes : (bs : List ℕ) (off v : ℕ) → IsBytes bs → IsBytes (set_word bs off v)
unfolding set_word
set_word-IsBytes bs off v h =
    set-IsBytes _ _ _
      (set-IsBytes _ _ _ (set-IsBytes _ _ _ (set-IsBytes _ _ _ h (omega arith)) (omega arith))
        (omega arith))
      (omega arith)

pub word_at-lt : (bs : List ℕ) (off : ℕ) → IsBytes bs → word_at bs off < 2 ^ 32
unfolding word_at
word_at-lt bs off h = omega (
  arith,
  get_or-IsBytes bs off h,
  get_or-IsBytes bs (off + 1) h,
  get_or-IsBytes bs (off + 2) h,
  get_or-IsBytes bs (off + 3) h,
)

get_or-set_word :
    (bs : List ℕ) (off v j : ℕ)
    → off + 4 ≤ length bs
    → get_or (set_word bs off v) j 0 ≡ (
        if j == off
        then v / 2 ^ 24 % 256
        else if j == off + 1
        then v / 2 ^ 16 % 256
        else if j == off + 2
        then v / 2 ^ 8 % 256
        else if j == off + 3
        then v % 256
        else get_or bs j 0)
unfolding set_word
get_or-set_word bs off v j h =
    let b0 = set bs off (v / 2 ^ 24 % 256) in
    let b1 = set b0 (off + 1) (v / 2 ^ 16 % 256) in
    let b2 = set b1 (off + 2) (v / 2 ^ 8 % 256) in
    ground (
      arith,
      get_or-set bs off j (v / 2 ^ 24 % 256),
      get_or-set b0 (off + 1) j (v / 2 ^ 16 % 256),
      get_or-set b1 (off + 2) j (v / 2 ^ 8 % 256),
      get_or-set b2 (off + 3) j (v % 256),
      length-set bs off (v / 2 ^ 24 % 256),
      length-set b0 (off + 1) (v / 2 ^ 16 % 256),
      length-set b1 (off + 2) (v / 2 ^ 8 % 256),
    )

-- A word that is written is read back.
pub word_at-set_word_self :
    (bs : List ℕ) (off v : ℕ)
    → off + 4 ≤ length bs
    → v < 2 ^ 32
    → word_at (set_word bs off v) off ≡ v
unfolding word_at
word_at-set_word_self bs off v h k = ground (
  arith,
  get_or-set_word bs off v off,
  get_or-set_word bs off v (off + 1),
  get_or-set_word bs off v (off + 2),
  get_or-set_word bs off v (off + 3),
)

-- A word that does not overlap it stays.
pub word_at-set_word_ne :
    (bs : List ℕ) (off v at : ℕ)
    → off + 4 ≤ length bs
    → (off + 4 ≤ at) ⊎ (at + 4 ≤ off)
    → word_at (set_word bs off v) at ≡ word_at bs at
unfolding word_at
word_at-set_word_ne bs off v at h k = ground (
  arith,
  get_or-set_word bs off v at,
  get_or-set_word bs off v (at + 1),
  get_or-set_word bs off v (at + 2),
  get_or-set_word bs off v (at + 3),
)
