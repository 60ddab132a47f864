-- ===== src/KickRom/Tests.antt =====
-- Runs of `KickRomAccess` on small ROMs.
use amitools.Prelude.{ℕ, zero, suc, ◌≡◌, refl, true, false, none, some, [], ◌∷◌, arith, replicate}
use amitools.Prelude.Bytes.{IsBytes, word_at}
use amitools.KickRom.{
  RomAccess, write_check_sum, verify_check_sum, recalc_check_sum, detect_kick_rom, size_check,
  decode,
}
use amitools.KickRom.Verify.{verify_check_sum-write_check_sum}

zeros-IsBytes : (n : ℕ) → IsBytes (replicate n 0)
zeros-IsBytes zero = tt
zeros-IsBytes (suc n) = (omega arith, zeros-IsBytes n)

abbrev small_rom : RomAccess
small_rom = record {
  rom_data = 1 ∷ 2 ∷ 3 ∷ 4 ∷ 255 ∷ 255 ∷ 255 ∷ 255 ∷ replicate 24 0;
  writable = true;
}

small_rom-IsBytes : IsBytes small_rom.rom_data
small_rom-IsBytes = (
  omega arith,
  (
    omega arith,
    (
      omega arith,
      (omega arith, (omega arith, (omega arith, (omega arith, (omega arith, zeros-IsBytes 24))))),
    ),
  ),
)

verify_check_sum-write_check_sum_example :
    (cs : ℕ) × (r : RomAccess) × (write_check_sum small_rom ≡ some (cs, r))
    × (verify_check_sum r ≡ true)
verify_check_sum-write_check_sum_example =
    verify_check_sum-write_check_sum small_rom refl small_rom-IsBytes (omega arith) refl

-- The sum of two longs has a carry.
recalc-run : recalc_check_sum small_rom ≡ 4278058235
unfolding recalc_check_sum word_at
recalc-run = refl

verify-run : verify_check_sum small_rom ≡ false
unfolding verify_check_sum word_at
verify-run = refl

write_check_sum-read_only : write_check_sum (record small_rom { writable = false }) ≡ none
unfolding write_check_sum
write_check_sum-read_only = refl

detect-run : detect_kick_rom small_rom ≡ some size_check
unfolding detect_kick_rom
detect-run = refl

decode-run : decode (65 ∷ 66 ∷ 67 ∷ []) (1 ∷ 2 ∷ []) ≡ some (64 ∷ 64 ∷ 66 ∷ [])
unfolding decode
decode-run = refl
