-- ===== src/Fs/Rdb/Made.antt =====
-- What writing partitions comes to when their blocks fit: nothing is raised.
use amitools.Prelude.{
  ℕ, zero, suc, ◌<◌, ◌≡◌, refl, ap, ◌∙◌, Bool, true, false, List, [], ◌∷◌, ◌++◌, ◌*◌, leb, ◌&&◌,
  length, length-take, take-all, arith,
}
use amitools.Fs.Rdb.{fits_long, PartBlock, Partition, part, Device, put, RDisk, write_rdb}
use amitools.Fs.Rdb.Edit.{
  done, env_fits, cut, pack, write_block, set_last_next, write_last, link_behind, partition,
  append_partition, set_part, write_part, and_then, written,
}
use amitools.Fs.Rdb.Remove.{relabel, remove_at, blk_at, unlink_partition}

-- The numbers of a block fit their longs.
abbrev pub has_fitting : PartBlock → Bool
has_fitting b = (fits_long b.next && (fits_long b.flags && fits_long b.dev_flags)) && env_fits b

-- Such a block, whose name is not cut.
abbrev pub is_whole : PartBlock → Bool
is_whole b = has_fitting b && leb (length b.drv_name) 31

abbrev pub are_whole : List Partition → Bool
are_whole [] = true
are_whole (p ∷ ps) = (fits_long p.blk_num && is_whole p.part_blk) && are_whole ps

&&-left : (a b : Bool) → (a && b) ≡ true → a ≡ true
&&-left true b h = refl
&&-left false b h = h

&&-right : (a b : Bool) → (a && b) ≡ true → b ≡ true
&&-right true b h = h
&&-right false b h = cc

pub pack-cut :
    (b : PartBlock) → has_fitting b ≡ true → length b.drv_name < 256 → pack b ≡ done (cut b)
pack-cut b h k = ground (arith, h, k)

pub cut-whole : (b : PartBlock) → leb (length b.drv_name) 31 ≡ true → cut b ≡ b
cut-whole b h = ap (λ n. record b { drv_name = n }) (take-all 31 b.drv_name (ground (arith, h)))

pack-whole : (b : PartBlock) → is_whole b ≡ true → pack b ≡ done b
pack-whole b h =
    pack-cut b (ground (arith, h)) (ground (arith, h)) ∙ ap done (cut-whole b (ground (arith, h)))

pub is_whole-cut : (b : PartBlock) → has_fitting b ≡ true → is_whole (cut b) ≡ true
is_whole-cut b h = ground (arith, h, length-take 31 b.drv_name)

pub write_block-whole :
    (p : Partition) (d : Device)
    → is_whole p.part_blk ≡ true
    → write_block p d ≡ done (put p.blk_num (part p.part_blk) d)
write_block-whole p d h = rw (pack-whole p.part_blk h) refl

-- The device, and the states, when nothing is raised.
abbrev pub made_last : List Partition → Device → Device
made_last [] d = d
made_last (p ∷ []) d = put p.blk_num (part p.part_blk) d
made_last (p ∷ q ∷ ps) d = made_last (q ∷ ps) d

abbrev pub made_part : ℕ → List Partition → Device → Device
made_part pid [] d = d
made_part zero (p ∷ ps) d = put p.blk_num (part p.part_blk) d
made_part (suc pid) (p ∷ ps) d = made_part pid ps d

abbrev pub made_behind : ℕ → List Partition → RDisk → RDisk
made_behind b [] r = record r { rdb = record r.rdb { part_list = b } }
made_behind b (p ∷ ps) r =
    let parts = set_last_next b (p ∷ ps) in
    record r { parts = parts; rawblk = made_last parts r.rawblk }

unfoldable pub made_append : ℕ → PartBlock → RDisk → RDisk
made_append b pb r =
    let r₁ = record r { rawblk = put b (part pb) r.rawblk } in
    let linked = write_rdb (made_behind b r.parts r₁) in
    let p = partition b (length r.parts) (r.rdb.secs * r.rdb.heads) pb in
    record linked { parts = linked.parts ++ p ∷ [] }

abbrev pub made_unlink : ℕ → ℕ → RDisk → RDisk
made_unlink zero next r = record r { rdb = record r.rdb { part_list = next } }
made_unlink (suc prev) next r =
    let parts = set_part prev (λ b. record b { next = next }) r.parts in
    record r { parts = parts; rawblk = made_part prev parts r.rawblk }

is_whole-next :
    (b : ℕ) (pb : PartBlock)
    → fits_long b ≡ true
    → is_whole pb ≡ true
    → is_whole (record pb { next = b }) ≡ true
is_whole-next b pb f h = ground (arith, f, h)

pub first-whole :
    (p : Partition) (ps : List Partition) → are_whole (p ∷ ps) ≡ true → is_whole p.part_blk ≡ true
first-whole p ps h =
    &&-right (fits_long p.blk_num) (is_whole p.part_blk) (&&-left _ (are_whole ps) h)

pub rest-whole :
    (p : Partition) (ps : List Partition) → are_whole (p ∷ ps) ≡ true → are_whole ps ≡ true
rest-whole p ps h = &&-right (fits_long p.blk_num && is_whole p.part_blk) (are_whole ps) h

write_last-whole :
    (b : ℕ) (ps : List Partition) (d : Device)
    → fits_long b ≡ true
    → are_whole ps ≡ true
    → write_last (set_last_next b ps) d ≡ done (made_last (set_last_next b ps) d)
write_last-whole b [] d f h = refl
write_last-whole b (p ∷ []) d f h =
    write_block-whole (record p { part_blk = record p.part_blk { next = b } }) d
      (is_whole-next b p.part_blk f (first-whole p [] h))
write_last-whole b (p ∷ q ∷ []) d f h = write_last-whole b (q ∷ []) d f (rest-whole p (q ∷ []) h)
write_last-whole b (p ∷ q ∷ o ∷ ps) d f h =
    write_last-whole b (q ∷ o ∷ ps) d f (rest-whole p (q ∷ o ∷ ps) h)

write_part-whole :
    (i next : ℕ) (ps : List Partition) (d : Device)
    → fits_long next ≡ true
    → are_whole ps ≡ true
    → let qs = set_part i (λ b. record b { next = next }) ps in
      write_part i qs d ≡ done (made_part i qs d)
write_part-whole i next [] d f h = refl
write_part-whole zero next (p ∷ ps) d f h =
    write_block-whole (record p { part_blk = record p.part_blk { next = next } }) d
      (is_whole-next next p.part_blk f (first-whole p ps h))
write_part-whole (suc i) next (p ∷ ps) d f h = write_part-whole i next ps d f (rest-whole p ps h)

link_behind-whole :
    (b : ℕ) (ps : List Partition) (r : RDisk)
    → fits_long b ≡ true
    → are_whole ps ≡ true
    → link_behind b ps r ≡ (done tt, made_behind b ps r)
link_behind-whole b [] r f h = refl
link_behind-whole b (p ∷ ps) r f h =
    let parts = set_last_next b (p ∷ ps) in
    ap (λ w. written w (record r { parts = parts })) (write_last-whole b (p ∷ ps) r.rawblk f h)

pub append_partition-whole :
    (b : ℕ) (pb : PartBlock) (r : RDisk)
    → fits_long b ≡ true
    → are_whole r.parts ≡ true
    → append_partition b pb r ≡ (done b, made_append b pb r)
unfolding append_partition made_append
append_partition-whole b pb r f h =
    let p = partition b (length r.parts) (r.rdb.secs * r.rdb.heads) pb in
    ap
      (λ l.
        and_then (and_then l (λ u linked. (done tt, write_rdb linked)))
          (λ (u : Unit {0}) (linked : RDisk).
            (done b, record linked { parts = linked.parts ++ p ∷ [] })))
      (link_behind-whole b r.parts (record r { rawblk = put b (part pb) r.rawblk }) f h)

pub unlink_partition-whole :
    (pid next : ℕ) (r : RDisk)
    → fits_long next ≡ true
    → are_whole r.parts ≡ true
    → unlink_partition pid next r ≡ (done tt, made_unlink pid next r)
unlink_partition-whole zero next r f h = refl
unlink_partition-whole (suc prev) next r f h =
    let parts = set_part prev (λ b. record b { next = next }) r.parts in
    ap (λ w. written w (record r { parts = parts }))
      (write_part-whole prev next r.parts r.rawblk f h)

-- The operations keep this.
pub are_whole-link :
    (b : ℕ) (new : Partition) (ps : List Partition)
    → are_whole ps ≡ true
    → fits_long b ≡ true
    → fits_long new.blk_num ≡ true
    → is_whole new.part_blk ≡ true
    → are_whole (set_last_next b ps ++ new ∷ []) ≡ true
are_whole-link b new [] h f g k = ground (arith, g, k)
are_whole-link b new (p ∷ []) h f g k = ground (arith, h, f, g, k)
are_whole-link b new (p ∷ q ∷ ps) h f g k =
    ground (arith, h, f, g, k, are_whole-link b new (q ∷ ps))

pub relabel-whole : (m : ℕ) (ps : List Partition) → are_whole (relabel m ps) ≡ are_whole ps
relabel-whole m [] = refl
relabel-whole m (p ∷ ps) = ground (arith, relabel-whole (suc m) ps)

pub set_part-whole :
    (i next : ℕ) (ps : List Partition)
    → are_whole ps ≡ true
    → fits_long next ≡ true
    → are_whole (set_part i (λ b. record b { next = next }) ps) ≡ true
set_part-whole i next [] h f = refl
set_part-whole zero next (p ∷ ps) h f = ground (arith, h, f)
set_part-whole (suc i) next (p ∷ ps) h f = ground (arith, h, f, set_part-whole i next ps)

pub remove_at-whole :
    (i : ℕ) (ps : List Partition) → are_whole ps ≡ true → are_whole (remove_at i ps) ≡ true
remove_at-whole i [] h = refl
remove_at-whole zero (p ∷ ps) h = ground (arith, h)
remove_at-whole (suc i) (p ∷ ps) h = ground (arith, h, remove_at-whole i ps)

pub blk_at-fits :
    (i : ℕ) (ps : List Partition) → are_whole ps ≡ true → fits_long (blk_at i ps) ≡ true
blk_at-fits i [] h = refl
blk_at-fits zero (p ∷ ps) h = ground (arith, h)
blk_at-fits (suc i) (p ∷ ps) h = ground (arith, h, blk_at-fits i ps)
