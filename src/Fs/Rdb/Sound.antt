-- ===== src/Fs/Rdb/Sound.antt =====
-- When the partitions of a disk are sound, and how appending one keeps them so.
use amitools.Prelude.{
  ℕ, suc, ◌*◌, ◌≤◌, ◌<◌, ◌≡◌, ◌≢◌, refl, sym, ap, ap₂, ◌∙◌, Bool, true, false, List, [], ◌∷◌, ◌++◌,
  ◌==◌, leb, ◌&&◌, length, arith,
}
use mathlib.Core.Path.{subst}
use amitools.Fs.Rdb.{
  fits_long, no_blk, PartBlock, Partition, Stored, rdsk, part, Device, put, RDisk, is_in, all_apart,
}
use amitools.Fs.Rdb.Edit.{
  DosEnvKey, key_low_cyl, key_high_cyl, key_surfaces, key_blk_per_trk, key_dos_type, key_boot_pri,
  key_block_size, key_sec_per_blk, other_key, adjust_dos_env, set_last_next, partition,
}
use amitools.Fs.Rdb.Made.{is_whole, are_whole, made_behind, made_append, are_whole-link}
use amitools.Fs.Rdb.Remove.{all_parts, open_parts}
use amitools.Fs.Rdb.Ranges.{are_disjoint, are_inside, has_sound_parts}
use amitools.Fs.Rdb.Parts.{
  part_blks, are_distinct, IsPartChain, read_parts-IsPartChain, agree-IsPartChain, link-IsPartChain,
  part_blks-link, is_in-append, are_distinct-append, are_disjoint-link, are_inside-link,
}

abbrev pub all_in : List ℕ → List ℕ → Bool
all_in used [] = true
all_in used (b ∷ bs) = is_in b used && all_in used bs

-- The partitions are sound and their numbers fit their blocks. These, which differ from each other and
-- from that of the RDB, are used, and the device has them in a chain from the start that the RDisk has in
-- its RDB.
pub record IsLaidOut (r : RDisk) : Type 0 where
  pub parts_sound : has_sound_parts r ≡ true
  pub limit : r.max_blks ≤ no_blk
  pub geometry : r.rdb.cyl_blks ≡ r.rdb.secs * r.rdb.heads
  pub distinct : are_distinct (r.rdb_blk ∷ part_blks r.parts) ≡ true
  pub used : all_in r.used_blks (r.rdb_blk ∷ part_blks r.parts) ≡ true
  pub chain : IsPartChain r.rawblk r.rdb.cyl_blks r.rdb.part_list 0 r.parts
  pub whole : are_whole r.parts ≡ true

-- And the device has that RDB in its block.
pub record IsSound (r : RDisk) : Type 0 where
  pub laid_out : IsLaidOut r
  pub stored : r.rawblk r.rdb_blk ≡ rdsk r.rdb

-- Then `open` finds the partitions that the RDisk has.
pub open_parts-IsSound :
    (r : RDisk)
    → IsSound r
    → open_parts (suc (length r.parts)) r.rdb_blk r.rawblk ≡ all_parts r.parts
unfolding open_parts
open_parts-IsSound r s =
    let reads =
      read_parts-IsPartChain (suc (length r.parts)) r.rdb.cyl_blks r.rdb.part_list 0 r.rawblk
        r.parts (omega arith) s.laid_out.chain in
    let at = s.stored in ground (arith, at, reads)

-- No name of a cylinder is among them.
abbrev pub keeps_cyls : List DosEnvKey → Bool
keeps_cyls [] = true
keeps_cyls (key_low_cyl v ∷ more) = false
keeps_cyls (key_high_cyl v ∷ more) = false
keeps_cyls (key_surfaces v ∷ more) = keeps_cyls more
keeps_cyls (key_blk_per_trk v ∷ more) = keeps_cyls more
keeps_cyls (key_dos_type v ∷ more) = keeps_cyls more
keeps_cyls (key_boot_pri v ∷ more) = keeps_cyls more
keeps_cyls (key_block_size v ∷ more) = keeps_cyls more
keeps_cyls (key_sec_per_blk v ∷ more) = keeps_cyls more
keeps_cyls (other_key ∷ more) = keeps_cyls more

-- The fields that no other name sets.
abbrev pub fixed : PartBlock → ℕ × ℕ × ℕ
fixed b = (b.low_cyl, b.high_cyl, b.next)

pub adjust-fixed :
    (more : List DosEnvKey) (b : PartBlock)
    → keeps_cyls more ≡ true
    → fixed (adjust_dos_env more b) ≡ fixed b
adjust-fixed [] b h = refl
adjust-fixed (key_low_cyl v ∷ more) b h = ground (arith, h)
adjust-fixed (key_high_cyl v ∷ more) b h = ground (arith, h)
adjust-fixed (key_surfaces v ∷ more) b h = adjust-fixed more (record b { surfaces = v }) h
adjust-fixed (key_blk_per_trk v ∷ more) b h = adjust-fixed more (record b { blk_per_trk = v }) h
adjust-fixed (key_dos_type v ∷ more) b h = adjust-fixed more (record b { dos_type = v }) h
adjust-fixed (key_boot_pri v ∷ more) b h = adjust-fixed more (record b { boot_pri = v }) h
adjust-fixed (key_block_size v ∷ more) b h = adjust-fixed more (record b { block_size = v }) h
adjust-fixed (key_sec_per_blk v ∷ more) b h = adjust-fixed more (record b { sec_per_blk = v }) h
adjust-fixed (other_key ∷ more) b h = adjust-fixed more b h

pub all_in-append :
    (b : ℕ) (used bs : List ℕ) → all_in used bs ≡ true → all_in (used ++ b ∷ []) bs ≡ true
all_in-append b used [] h = refl
all_in-append b used (x ∷ bs) h = ground (arith, h, all_in-append b used bs, is_in-append x b used)

all_in-snoc :
    (b : ℕ) (used bs : List ℕ)
    → all_in used bs ≡ true
    → is_in b used ≡ true
    → all_in used (bs ++ b ∷ []) ≡ true
all_in-snoc b used [] h k = ground (arith, k)
all_in-snoc b used (x ∷ bs) h k = ground (arith, h, k, all_in-snoc b used bs)

pub not_in-used :
    (b : ℕ) (used bs : List ℕ) → all_in used bs ≡ true → is_in b used ≡ false → is_in b bs ≡ false
not_in-used b used [] h k = refl
not_in-used b used (x ∷ bs) h k = ground (arith, h, k, not_in-used b used bs, is_in-same b x used)
  where
    is_in-same :
        (b x : ℕ) (used : List ℕ) → is_in b used ≡ false → is_in x used ≡ true → (b == x) ≡ false
    is_in-same b x [] h k = ground (arith, k)
    is_in-same b x (u ∷ used) h k = ground (arith, h, k, is_in-same b x used)

pub behind-parts :
    (b : ℕ) (new : Partition) (ps : List Partition) (r : RDisk)
    → r.parts ≡ ps
    → (made_behind b ps r).parts ++ new ∷ [] ≡ set_last_next b ps ++ new ∷ []
behind-parts b new [] r e = ap (λ qs. qs ++ new ∷ []) e
behind-parts b new (p ∷ ps) r e = refl

behind-IsPartChain :
    (cyl_blks : ℕ) (new : Partition) (ps : List Partition) (r : RDisk)
    → new.num ≡ length ps
    → new.cyl_blks ≡ cyl_blks
    → new.part_blk.next ≡ no_blk
    → new.blk_num ≢ no_blk
    → r.rawblk new.blk_num ≡ part new.part_blk
    → is_in new.blk_num (part_blks ps) ≡ false
    → are_distinct (part_blks ps) ≡ true
    → IsPartChain r.rawblk cyl_blks r.rdb.part_list 0 ps
    → IsPartChain
        (made_behind new.blk_num ps r).rawblk
        cyl_blks
        (made_behind new.blk_num ps r).rdb.part_list
        0
        (set_last_next new.blk_num ps ++ new ∷ [])
behind-IsPartChain cb new [] r h₁ h₂ h₃ h₄ h₅ h₆ h₇ c = (refl, h₁, h₂, h₄, h₅, h₃)
behind-IsPartChain cb new (p ∷ ps) r h₁ h₂ h₃ h₄ h₅ h₆ h₇ c =
    link-IsPartChain cb r.rdb.part_list 0 r.rawblk p new ps (omega (arith, h₁)) h₂ h₃ h₄ h₅ h₆ h₇ c

pub put-other : (x y : ℕ) (s : Stored) (d : Device) → (x == y) ≡ false → put y s d x ≡ d x
put-other x y s d h = ground (arith, h)

pub is_in-other :
    (x y : ℕ) (bs : List ℕ) → is_in x bs ≡ true → is_in y bs ≡ false → (x == y) ≡ false
is_in-other x y [] h k = ground (arith, h)
is_in-other x y (b ∷ bs) h k = ground (arith, h, k, is_in-other x y bs)

-- What linking a partition leaves alone.
abbrev pub layout : RDisk → (ℕ × ℕ × List ℕ) × (ℕ × ℕ) × (ℕ × ℕ × ℕ)
layout r = (
  (r.rdb_blk, r.max_blks, r.used_blks),
  (r.rdb.lo_cyl, r.rdb.hi_cyl),
  (r.rdb.cyl_blks, r.rdb.secs, r.rdb.heads),
)

behind-layout : (b : ℕ) (ps : List Partition) (r : RDisk) → layout (made_behind b ps r) ≡ layout r
behind-layout b [] r = refl
behind-layout b (p ∷ ps) r = refl

pub layout-IsLaidOut :
    (r r' : RDisk) (ps : List Partition)
    → leb r.rdb.lo_cyl r.rdb.hi_cyl ≡ true
    → r.max_blks ≤ no_blk
    → r.rdb.cyl_blks ≡ r.rdb.secs * r.rdb.heads
    → layout r' ≡ layout r
    → r'.parts ≡ ps
    → are_inside (r.rdb.lo_cyl, r.rdb.hi_cyl) ps ≡ true
    → are_disjoint ps ≡ true
    → are_distinct (r.rdb_blk ∷ part_blks ps) ≡ true
    → all_in r.used_blks (r.rdb_blk ∷ part_blks ps) ≡ true
    → IsPartChain r'.rawblk r.rdb.cyl_blks r'.rdb.part_list 0 ps
    → are_whole ps ≡ true
    → IsLaidOut r'
unfolding has_sound_parts
layout-IsLaidOut r r' ps range limit geometry l e inside disjoint distinct used chain whole =
    let lo : r'.rdb.lo_cyl ≡ r.rdb.lo_cyl = ap (λ x. x.1.0) l in
    let hi : r'.rdb.hi_cyl ≡ r.rdb.hi_cyl = ap (λ x. x.1.1) l in
    let blk : r'.rdb_blk ≡ r.rdb_blk = ap (λ x. x.0.0) l in
    let cb : r'.rdb.cyl_blks ≡ r.rdb.cyl_blks = ap (λ x. x.2.0) l in
    record {
      parts_sound =
          ap₂ (λ a b. leb a b && (are_inside (a, b) r'.parts && are_disjoint r'.parts)) lo hi
          ∙ (ap
                (λ qs.
                  leb r.rdb.lo_cyl r.rdb.hi_cyl
                  && (are_inside (r.rdb.lo_cyl, r.rdb.hi_cyl) qs && are_disjoint qs))
                e
              ∙ ground (arith, range, inside, disjoint));
      limit = omega (arith, ap (λ x. x.0.1) l, limit);
      geometry = cb ∙ (geometry ∙ sym (ap (λ x. x.2.1 * x.2.2) l));
      distinct = ap₂ (λ x qs. are_distinct (x ∷ part_blks qs)) blk e ∙ distinct;
      used =
          ap₂ (λ u x. all_in u (x ∷ part_blks r'.parts)) (ap (λ x. x.0.2) l) blk
          ∙ (ap (λ qs. all_in r.used_blks (r.rdb_blk ∷ part_blks qs)) e ∙ used);
      chain =
          subst (λ c. IsPartChain r'.rawblk c r'.rdb.part_list 0 r'.parts) (sym cb)
            (subst (λ qs. IsPartChain r'.rawblk r.rdb.cyl_blks r'.rdb.part_list 0 qs) (sym e)
              chain);
      whole = ap are_whole e ∙ whole;
    }

-- `made_append` on a sound disk, in a used block that is no other's.
module _ (b : ℕ) (pb : PartBlock) (r : RDisk) (s : IsLaidOut r) (end : pb.next ≡ no_blk)
    (low : b < r.max_blks) (in_use : is_in b r.used_blks ≡ true)
    (not_in_all : is_in b (r.rdb_blk ∷ part_blks r.parts) ≡ false)
    (fitting : is_whole pb ≡ true) where
  abbrev new_part : Partition
  new_part = partition b (length r.parts) (r.rdb.secs * r.rdb.heads) pb

  abbrev appended : List Partition
  appended = set_last_next b r.parts ++ new_part ∷ []

  appended-chain :
      IsPartChain
        (made_behind b r.parts (record r { rawblk = put b (part pb) r.rawblk })).rawblk
        r.rdb.cyl_blks
        (made_behind b r.parts (record r { rawblk = put b (part pb) r.rawblk })).rdb.part_list
        0
        appended
  appended-chain =
      behind-IsPartChain r.rdb.cyl_blks new_part r.parts
        (record r { rawblk = put b (part pb) r.rawblk }) refl (sym s.geometry) end
        (λ e. omega (arith, e, low, s.limit)) (ground arith) (ground (arith, not_in_all))
        (ground (arith, s.distinct))
        (agree-IsPartChain r.rdb.cyl_blks r.rdb.part_list 0 r.rawblk (put b (part pb) r.rawblk)
          r.parts
          (λ x h.
            put-other x b (part pb) r.rawblk
              (is_in-other x b (part_blks r.parts) h (ground (arith, not_in_all))))
          s.chain)

  appended-distinct : are_distinct (r.rdb_blk ∷ part_blks appended) ≡ true
  appended-distinct =
      ap (λ bs. are_distinct (r.rdb_blk ∷ bs)) (part_blks-link b new_part r.parts)
      ∙ are_distinct-append b (r.rdb_blk ∷ part_blks r.parts) s.distinct not_in_all

  appended-used : all_in r.used_blks (r.rdb_blk ∷ part_blks appended) ≡ true
  appended-used =
      ap (λ bs. all_in r.used_blks (r.rdb_blk ∷ bs)) (part_blks-link b new_part r.parts)
      ∙ all_in-snoc b r.used_blks (r.rdb_blk ∷ part_blks r.parts) s.used in_use

  pub b-fits : fits_long b ≡ true
  b-fits = let limit = s.limit in ground (arith, low, limit)

  made_append-parts : (made_append b pb r).parts ≡ appended
  unfolding made_append
  made_append-parts =
      behind-parts b new_part r.parts (record r { rawblk = put b (part pb) r.rawblk }) refl

  pub made_append-IsLaidOut :
      pb.low_cyl ≤ pb.high_cyl
      → (leb r.rdb.lo_cyl pb.low_cyl && leb pb.high_cyl r.rdb.hi_cyl) ≡ true
      → all_apart pb.low_cyl pb.high_cyl r.parts ≡ true
      → IsLaidOut (made_append b pb r)
  unfolding made_append has_sound_parts
  made_append-IsLaidOut h inside free =
      let d = put b (part pb) r.rawblk in
      let r₁ = made_behind b r.parts (record r { rawblk = d }) in
      let parts_sound = s.parts_sound in
      layout-IsLaidOut r (made_append b pb r) appended (ground (arith, parts_sound)) s.limit
        s.geometry (behind-layout b r.parts (record r { rawblk = d })) made_append-parts
        (are_inside-link (r.rdb.lo_cyl, r.rdb.hi_cyl) b new_part r.parts
          (ground (arith, parts_sound)) inside)
        (are_disjoint-link b new_part r.parts (ground (arith, parts_sound)) h free)
        appended-distinct appended-used
        (agree-IsPartChain r.rdb.cyl_blks r₁.rdb.part_list 0 r₁.rawblk (made_append b pb r).rawblk
          appended
          (λ x k. put-other x r₁.rdb_blk (rdsk r₁.rdb) r₁.rawblk (
            ap (λ y. x == y) (ap (λ t. t.0.0) (behind-layout b r.parts (record r { rawblk = d })))
            ∙ is_in-other x r.rdb_blk (part_blks appended) k (ground (arith, appended-distinct))))
          appended-chain)
        (are_whole-link b new_part r.parts s.whole b-fits b-fits fitting)

pub made_append-stored :
    (b : ℕ) (pb : PartBlock) (r : RDisk)
    → (made_append b pb r).rawblk (made_append b pb r).rdb_blk ≡ rdsk (made_append b pb r).rdb
unfolding made_append
made_append-stored b pb r = ground arith
