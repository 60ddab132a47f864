-- ===== src/Fs/Block/Tests.antt =====
-- A block of eight longs, and each theorem at an input that meets its hypotheses.
use amitools.Prelude.{
  length, ℕ, ◌≡◌, ◌↔◌, ◌⊎◌, inr, refl, true, false, none, some, List, [], ◌∷◌, arith,
}
use amitools.Fs.Block.{Block, read, write, create_data}
use amitools.Fs.Block.Strings.{get_cstr, put_cstr, length-put_cstr, get_cstr-put_cstr}
use amitools.Fs.Block.Longs.{Full, long_at}
use amitools.Fs.Block.Read.{IsShaped, TypesMatch, Balanced, read-Balanced}
use amitools.Fs.Block.Write.{IsManaged, contents, read-write}

-- A root block, not read yet.
abbrev root : Block
root = record {
  block_longs = 8;
  block_bytes = 32;
  is_type = 2;
  is_sub_type = 1;
  chk_loc = 5;
  bytes = none;
  type = 0;
  sub_type = 0;
  valid_types = false;
  got_chksum = 0;
  calc_chksum = 0;
  valid_chksum = false;
  valid = false;
}

abbrev raw : List ℕ
raw =
    0 ∷ 0 ∷ 0 ∷ 2 ∷ 0 ∷ 0 ∷ 0 ∷ 0 ∷ 0 ∷ 0 ∷ 0 ∷ 0 ∷ 0 ∷ 0 ∷ 0 ∷ 0 ∷ 0 ∷ 0 ∷ 0 ∷ 0 ∷ 255 ∷ 255 ∷ 255
    ∷ 253 ∷ 0 ∷ 0 ∷ 0 ∷ 0 ∷ 0 ∷ 0 ∷ 0 ∷ 1 ∷ []

root-IsShaped : IsShaped root
root-IsShaped = record {
  size = refl;
  longs = omega arith;
  types = omega arith;
  inside = omega arith;
  not_type = inr (omega arith);
  not_sub_type = inr (omega arith);
}

read-Balanced-run :
    (b' : Block) × (read raw root ≡ some b')
    × (b'.bytes ≡ some raw)
    × ((b'.valid ≡ true) ↔ (TypesMatch root raw × Balanced root raw))
read-Balanced-run = read-Balanced raw root root-IsShaped refl (omega arith) refl

root-Full : Full 8 (contents root)
unfolding create_data
root-Full = refl

read-write_example :
    (b' c : Block) × (out : List ℕ) × (write root ≡ some b')
    × (b'.bytes ≡ some out)
    × (read out (record root { bytes = none }) ≡ some c)
    × (c.valid ≡ true)
    × (c.bytes ≡ some out)
    × (IsManaged root 3 ⊎ (long_at out 3 ≡ long_at (contents root) 3))
read-write_example = read-write root 3 root-IsShaped root-Full

abbrev zeros : List ℕ
zeros = 0 ∷ 0 ∷ 0 ∷ 0 ∷ 0 ∷ 0 ∷ 0 ∷ 0 ∷ []

length-put_cstr_example : length (put_cstr 1 2 (65 ∷ 66 ∷ 67 ∷ []) zeros) ≡ 9
length-put_cstr_example = length-put_cstr 1 2 (65 ∷ 66 ∷ 67 ∷ []) zeros (omega arith) (omega arith)

get_cstr-put_cstr_example : get_cstr 1 4 (put_cstr 1 4 (65 ∷ 66 ∷ []) zeros) ≡ some (65 ∷ 66 ∷ [])
get_cstr-put_cstr_example =
    get_cstr-put_cstr 1 4 (65 ∷ 66 ∷ []) zeros (omega arith) (omega arith) (omega arith) (inr refl)
