-- ===== src/Fs/Rdb/Flags.antt =====
-- What the flags that are given to `add_filesystem` make of the header of a file system.
use amitools.Prelude.{◌≡◌, refl, ◌∙◌, Bool, true, false, some, List, [], ◌∷◌, ◌&&◌, arith}
use amitools.Fs.Rdb.{fits_long, FsHeader}
use amitools.Fs.Rdb.FileSystems.{
  DevFlag, flag_type, flag_task, flag_lock, flag_handler, flag_stack_size, flag_priority,
  flag_startup, flag_seg_list_blk, flag_global_vec, invalid_flag, set_flag, set_flags, header_fits,
}

-- Flags that are valid, fit and do not name the first block of the data.
abbrev pub is_plain : DevFlag → Bool
is_plain (flag_type v) = fits_long v
is_plain (flag_task v) = fits_long v
is_plain (flag_lock v) = fits_long v
is_plain (flag_handler v) = fits_long v
is_plain (flag_stack_size v) = fits_long v
is_plain (flag_priority v) = fits_long v
is_plain (flag_startup v) = fits_long v
is_plain (flag_seg_list_blk v) = false
is_plain (flag_global_vec v) = fits_long v
is_plain invalid_flag = false

abbrev pub are_plain : List DevFlag → Bool
are_plain [] = true
are_plain (k ∷ flags) = is_plain k && are_plain flags

-- What such flags make of a header.
pub record IsFlagged (flags : List DevFlag) (h h' : FsHeader) : Type 0 where
  pub sets : set_flags flags h ≡ some h'
  pub first : h'.seg_list_blk ≡ h.seg_list_blk
  pub fitting : header_fits h' ≡ true

set_flag-IsFlagged :
    (k : DevFlag) (h : FsHeader)
    → is_plain k ≡ true
    → header_fits h ≡ true
    → (h' : FsHeader) × (set_flag k h ≡ some h')
      × (h'.seg_list_blk ≡ h.seg_list_blk)
      × (header_fits h' ≡ true)
set_flag-IsFlagged (flag_type v) h p f =
    (record h { node_type = v }, refl, refl, ground (arith, p, f))
set_flag-IsFlagged (flag_task v) h p f = (record h { task = v }, refl, refl, ground (arith, p, f))
set_flag-IsFlagged (flag_lock v) h p f = (record h { lock = v }, refl, refl, ground (arith, p, f))
set_flag-IsFlagged (flag_handler v) h p f =
    (record h { handler = v }, refl, refl, ground (arith, p, f))
set_flag-IsFlagged (flag_stack_size v) h p f =
    (record h { stack_size = v }, refl, refl, ground (arith, p, f))
set_flag-IsFlagged (flag_priority v) h p f =
    (record h { priority = v }, refl, refl, ground (arith, p, f))
set_flag-IsFlagged (flag_startup v) h p f =
    (record h { startup = v }, refl, refl, ground (arith, p, f))
set_flag-IsFlagged (flag_seg_list_blk v) h p f = cc
set_flag-IsFlagged (flag_global_vec v) h p f =
    (record h { global_vec = v }, refl, refl, ground (arith, p, f))
set_flag-IsFlagged invalid_flag h p f = cc

pub set_flags-IsFlagged :
    (flags : List DevFlag) (h : FsHeader)
    → are_plain flags ≡ true
    → header_fits h ≡ true
    → (h' : FsHeader) × IsFlagged flags h h'
set_flags-IsFlagged [] h p f = (h, record { sets = refl; first = refl; fitting = f })
set_flags-IsFlagged (k ∷ flags) h p f =
    let plain : is_plain k ≡ true = ground (arith, p) in
    let rest : are_plain flags ≡ true = ground (arith, p) in
    let (h₁, e, i, g) = set_flag-IsFlagged k h plain f in
    let (h', m) = set_flags-IsFlagged flags h₁ rest g in
    let sets = m.sets in
    (h', record { sets = ground (arith, e, sets); first = m.first ∙ i; fitting = m.fitting })
