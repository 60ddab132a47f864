-- ===== src/KickRom/Verify.antt =====
-- `write_check_sum` and `verify_check_sum`.
use amitools.Prelude.{
  ℕ, ◌+◌, ◌-◌, ◌*◌, ◌/◌, ◌%◌, ◌≤◌, ◌<◌, ◌≡◌, inl, inr, refl, true, false, none, some, List, ◌==◌,
  arith, length, Bool-cases,
}
use mathlib.Core.Path.{subst}
use amitools.Prelude.Bytes.{IsBytes, set_word, length-set_word, set_word-IsBytes}
use amitools.KickRom.{
  RomAccess, size_of, max_u32, carry_sum, calc_check_sum, recalc_check_sum, verify_check_sum,
  write_check_sum, write_long,
}
use amitools.KickRom.Sum.{IsFolded, total, carry_sum-IsFolded, total-set_word}

-- What is missing to the largest sum, added, gives the largest sum.
complement-IsFolded : (f t f' : ℕ) → IsFolded f t → IsFolded f' (max_u32 - f + t) → f' ≡ max_u32
unfolding IsFolded
complement-IsFolded f t f' (h, (q, e), z) (k, (p, d), w) = elim (Bool-cases (f' == 0)) [
  | inl x ↦ let s = w (ground arith) in omega (arith, s)
  | inr x ↦ let s = nonzero f' x in omega (arith, s)
]
  where
    nonzero : (n : ℕ) → (n == 0) ≡ false → 0 < n
    nonzero n x = ground arith

-- The data with the complement of its sum stored where that sum has skipped a long.
sum-complement :
    (n j o : ℕ) (bytes : List ℕ)
    → IsBytes bytes
    → o ≡ 4 * j
    → j < n
    → o + 4 ≤ length bytes
    → let cs = max_u32 - carry_sum n 0 (some o) bytes 0 in
      carry_sum n 0 none (set_word bytes o cs) 0 ≡ max_u32
sum-complement n j o bytes h e k w =
    let s = carry_sum n 0 (some o) bytes 0 in
    let cs = max_u32 - s in
    let bytes' = set_word bytes o cs in
    let f = carry_sum-IsFolded n 0 (some o) bytes 0 h (omega arith) in
    let f' = carry_sum-IsFolded n 0 none bytes' 0 (set_word-IsBytes bytes o cs h) (omega arith) in
    let t = total-set_word n 0 j o cs bytes (omega arith) k w (omega arith) in
    complement-IsFolded s (0 + total n 0 (some o) bytes) (carry_sum n 0 none bytes' 0) f
      (subst (IsFolded (carry_sum n 0 none bytes' 0)) (moved _ _ _ t) f')
  where
    moved : (a b c : ℕ) → a ≡ b + c → 0 + a ≡ b + (0 + c)
    moved a b c t = omega arith

recalc-sum :
    (r : RomAccess)
    → 24 ≤ size_of r
    → recalc_check_sum r
      ≡ max_u32 - carry_sum (size_of r / 4) 0 (some (size_of r - 24)) r.rom_data 0
unfolding recalc_check_sum calc_check_sum
recalc-sum r k = ground arith

write_check_sum_eq :
    (r : RomAccess) (cs : ℕ)
    → r.writable ≡ true
    → 24 ≤ size_of r
    → recalc_check_sum r ≡ cs
    → cs ≤ max_u32
    → write_check_sum r ≡ some (cs, record r { rom_data = set_word r.rom_data (size_of r - 24) cs })
unfolding write_check_sum write_long
write_check_sum_eq r cs w k e l = ground (arith, w, e)

verify-sum :
    (r : RomAccess) (n : ℕ)
    → size_of r ≡ n
    → carry_sum (n / 4) 0 none r.rom_data 0 ≡ max_u32
    → verify_check_sum r ≡ true
unfolding verify_check_sum calc_check_sum
verify-sum r n e s = rw e (rw s refl)

-- In a writable ROM of at least 24 bytes whose size is a multiple of 4, `write_check_sum` succeeds, and
-- the ROM it leaves passes `verify_check_sum`.
pub verify_check_sum-write_check_sum :
    (r : RomAccess)
    → r.writable ≡ true
    → IsBytes r.rom_data
    → 24 ≤ size_of r
    → size_of r % 4 ≡ 0
    → (cs : ℕ) × (r' : RomAccess) × (write_check_sum r ≡ some (cs, r'))
      × (verify_check_sum r' ≡ true)
verify_check_sum-write_check_sum r w h k e =
    let bytes = r.rom_data in
    let n = size_of r / 4 in
    let o = size_of r - 24 in
    let cs = max_u32 - carry_sum n 0 (some o) bytes 0 in
    let sum = sum-complement n (n - 6) o bytes h (omega arith) (omega arith) (omega arith) in
    (
      cs,
      record r { rom_data = set_word bytes o cs },
      write_check_sum_eq r cs w k (recalc-sum r k) (omega arith),
      verify-sum (record r { rom_data = set_word bytes o cs }) (size_of r)
          (length-set_word bytes o cs) sum,
    )
