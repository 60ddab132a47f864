-- ===== src/KickRom.antt =====
-- Kickstart ROMs: `KickRomAccess` of amitools/rom/kickrom.py, with `RomAccess` of romaccess.py that
-- it extends. The data of a ROM is a list of bytes; `none` is the `ValueError` of a ROM that is not
-- writable or the `struct.error` of an access outside of the data.
pub mod Sum
pub mod Verify
mod Tests
use amitools.Prelude.{
  ℕ, zero, suc, ◌+◌, ◌-◌, ◌*◌, ◌/◌, ◌%◌, ◌^◌, Bool, true, false, not, Option, none, some, List, [],
  ◌∷◌, ◌++◌, ◌==◌, ◌&&◌, ◌||◌, ltb, leb, if◌then◌else◌, ◌>>=◌, length, drop, get_or, set,
}
use amitools.Prelude.Bytes.{word_at, unpack_u32, pack_u32}
use Prim.Native.Nat.{bit_xor}

pub record RomAccess : Type 0 where
  pub rom_data : List ℕ
  pub writable : Bool

abbrev pub size_of : RomAccess → ℕ
size_of r = length r.rom_data

abbrev pub kib_of : RomAccess → ℕ
kib_of r = size_of r / 1024

abbrev make_writable : RomAccess → RomAccess
make_writable r = record r { writable = true }

abbrev pub read_long : ℕ → RomAccess → Option ℕ
read_long off r = unpack_u32 r.rom_data off

abbrev pub stored : RomAccess → Option (List ℕ) → Option RomAccess
stored r none = none
stored r (some bytes) = some (record r { rom_data = bytes })

unfoldable pub write_long : ℕ → ℕ → RomAccess → Option RomAccess
write_long off val r = if r.writable then stored r (pack_u32 r.rom_data off val) else none

abbrev read_word : ℕ → RomAccess → Option ℕ
read_word off r =
    if leb (off + 2) (size_of r)
    then some (get_or r.rom_data off 0 * 256 + get_or r.rom_data (off + 1) 0)
    else none

abbrev write_word : ℕ → ℕ → RomAccess → Option RomAccess
write_word off val r =
    if r.writable && (leb (off + 2) (size_of r) && ltb val 65536)
    then some (record r { rom_data = set (set r.rom_data off (val / 256)) (off + 1) (val % 256) })
    else none

abbrev read_byte : ℕ → RomAccess → Option ℕ
read_byte off r = if ltb off (size_of r) then some (get_or r.rom_data off 0) else none

-- The offset `size - k`: a negative one counts from the end, as `struct` has it.
abbrev pub from_end : ℕ → RomAccess → Option ℕ
from_end k r =
    let size = size_of r in
    if leb k size
    then some (size - k)
    else if leb (k - size) size
    then some (size + size - k)
    else none

abbrev pub max_u32 : ℕ
max_u32 = 4294967295

-- A turn of the loop of `calc_check_sum`: the sum with its carry added at the end.
unfoldable pub add_long : ℕ → ℕ → ℕ
add_long chk_sum val = let sum = chk_sum + val in if ltb max_u32 sum then sum % 2 ^ 32 + 1 else sum

abbrev pub is_off : ℕ → Option ℕ → Bool
is_off off none = false
is_off off (some o) = off == o

-- The loop from an offset on; its longs all lie in the data.
unfoldable pub carry_sum : ℕ → ℕ → Option ℕ → List ℕ → ℕ → ℕ
unfolding add_long
carry_sum zero off skip_off bytes chk_sum = chk_sum
carry_sum (suc n) off skip_off bytes chk_sum =
    let val = word_at bytes off in
    carry_sum n (off + 4) skip_off bytes (add_long chk_sum (if is_off off skip_off then 0 else val))

unfoldable pub calc_check_sum : Option ℕ → RomAccess → ℕ
unfolding carry_sum
calc_check_sum skip_off r = max_u32 - carry_sum (size_of r / 4) 0 skip_off r.rom_data 0

unfoldable pub verify_check_sum : RomAccess → Bool
unfolding calc_check_sum
verify_check_sum r = calc_check_sum none r == 0

abbrev read_check_sum : RomAccess → Option ℕ
read_check_sum r = from_end 24 r >>= λ off. read_long off r

-- No long of the loop stands at a negative offset.
abbrev pub sum_off : RomAccess → Option ℕ
sum_off r = if leb 24 (size_of r) then some (size_of r - 24) else none

unfoldable pub recalc_check_sum : RomAccess → ℕ
unfolding calc_check_sum
recalc_check_sum r = calc_check_sum (sum_off r) r

abbrev pub paired : ℕ → Option RomAccess → Option (ℕ × RomAccess)
paired cs none = none
paired cs (some r) = some (cs, r)

unfoldable pub write_check_sum : RomAccess → Option (ℕ × RomAccess)
unfolding recalc_check_sum write_long
write_check_sum r =
    let cs = recalc_check_sum r in from_end 24 r >>= λ off. paired cs (write_long off cs r)

abbrev romhdr_256k : ℕ
romhdr_256k = 286347001

abbrev romhdr_512k : ℕ
romhdr_512k = 286543609

abbrev romhdr_ext : ℕ
romhdr_ext = 286543609

check_header : RomAccess → Option Bool
check_header r =
    let kib = kib_of r in
    read_long 0 r >>= λ val. some (
      if kib == 512
      then val == romhdr_512k
      else if kib == 256
      then val == romhdr_256k || val == romhdr_ext
      else if kib == 1536 || kib == 3584
      then val == romhdr_ext
      else false)

check_kickety_split : RomAccess → Option Bool
check_kickety_split r =
    if kib_of r == 512
    then (read_long 262144 r >>= λ val. some (val == romhdr_256k))
    else some false

-- The loop of `check_footer` over the words that are left.
footer_from : ℕ → ℕ → ℕ → RomAccess → Option Bool
footer_from zero off num r = some true
footer_from (suc n) off num r =
    let rest = footer_from n (off + 2) (num + 1) r in
    read_word off r >>= λ val. if val == num then rest else some false

check_footer : RomAccess → Option Bool
unfolding footer_from
check_footer r = from_end 14 r >>= λ off. footer_from 7 off 25 r

check_size : RomAccess → Bool
check_size r = size_of r % 1024 == 0 && (kib_of r == 256 || kib_of r == 512)

abbrev read_rom_size_field : RomAccess → Option ℕ
read_rom_size_field r = from_end 20 r >>= λ off. read_long off r

abbrev check_rom_size_field : RomAccess → Option Bool
check_rom_size_field r = read_rom_size_field r >>= λ val. some (val == size_of r)

abbrev check_magic_reset : RomAccess → Option Bool
check_magic_reset r = read_word 208 r >>= λ val. some (val == 20080)

pub data Detected : Type 0 where
  ok size_check header_check footer_check rom_size_field check_sum : Detected

-- The first test that fails; a test that raises ends the method.
detect_kick_rom : RomAccess → Option Detected
unfolding check_size check_header check_footer verify_check_sum
detect_kick_rom r =
    if not (check_size r)
    then some size_check
    else (check_header r >>= λ header.
        if not header
        then some header_check
        else (check_footer r >>= λ footer.
            if not footer
            then some footer_check
            else (check_rom_size_field r >>= λ field.
                if not field
                then some rom_size_field
                else if verify_check_sum r
                then some ok
                else some check_sum)))

abbrev is_ok : Detected → Bool
is_ok ok = true
is_ok _ = false

is_kick_rom : RomAccess → Option Bool
unfolding detect_kick_rom
is_kick_rom r = detect_kick_rom r >>= λ d. some (is_ok d)

write_rom_size_field : RomAccess → Option RomAccess
unfolding write_long
write_rom_size_field r = from_end 20 r >>= λ off. write_long off (size_of r) r

-- The loop of `write_footer`.
write_footer_from : ℕ → ℕ → ℕ → RomAccess → Option RomAccess
write_footer_from zero off num r = some r
write_footer_from (suc n) off num r =
    write_word off num r >>= λ r'. write_footer_from n (off + 2) (num + 1) r'

write_footer : RomAccess → Option RomAccess
unfolding write_footer_from
write_footer r = from_end 16 r >>= λ off. write_footer_from 8 off 24 r

write_header : ℕ → Bool → RomAccess → Option RomAccess
unfolding write_long
write_header jump_addr kickety_split r =
    let offset = if kickety_split then 262144 else 0 in
    let hdr = if kickety_split || kib_of r == 256 then romhdr_256k else romhdr_512k in
    write_long offset hdr r >>= λ r'. write_long (offset + 4) jump_addr r'

write_ext_header : ℕ → ℕ × ℕ → RomAccess → Option RomAccess
unfolding write_header
write_ext_header jump_addr rom_rev r = write_header jump_addr false r >>= λ r₁.
    write_word 8 0 r₁ >>= λ r₂.
    write_word 10 65535 r₂ >>= λ r₃. write_word 12 rom_rev.0 r₃ >>= λ r₄. write_word 14 rom_rev.1 r₄

write_ext_footer : RomAccess → Option RomAccess
unfolding write_footer write_rom_size_field write_check_sum
write_ext_footer r = write_footer r >>= λ r₁.
    write_rom_size_field r₁ >>= λ r₂. write_check_sum r₂ >>= λ result. some result.1

-- The `">HH"` of `struct` at an offset.
abbrev read_words : ℕ → RomAccess → Option (ℕ × ℕ)
read_words off r = read_word off r >>= λ ver. read_word (off + 2) r >>= λ rev. some (ver, rev)

abbrev read_rom_ver_rev : RomAccess → Option (ℕ × ℕ)
read_rom_ver_rev r = read_words 12 r

abbrev read_exec_ver_rev : RomAccess → Option (ℕ × ℕ)
read_exec_ver_rev r = read_words 16 r

-- Data that is not writable raises here too, in `struct`.
write_rom_ver_rev : ℕ × ℕ → RomAccess → Option RomAccess
write_rom_ver_rev rom_rev r =
    if ltb rom_rev.1 65536 && leb 16 (size_of r)
    then (write_word 12 rom_rev.0 r >>= λ r'. write_word 14 rom_rev.1 r')
    else none

abbrev read_boot_pc : RomAccess → Option ℕ
read_boot_pc r = read_long 4 r

get_base_addr : RomAccess → Option ℕ
get_base_addr r = read_boot_pc r >>= λ pc. some (pc - pc % 65536)

-- `_decode`: a byte at a time, with the place of the next byte of the key.
unfoldable pub decode_from : ℕ → List ℕ → List ℕ → List ℕ
decode_from i key [] = []
decode_from i key (b ∷ bytes) =
    bit_xor b (get_or key (i % length key) 0) ∷ decode_from (suc i) key bytes

-- `none` is the `ZeroDivisionError` of an empty key.
decode : List ℕ → List ℕ → Option (List ℕ)
unfolding decode_from
decode img rom_key =
    if length rom_key == 0 && not (length img == 0) then none else some (decode_from 0 rom_key img)
