-- ===== src/Fs/Rdb/FileSystems.antt =====
-- The file systems of an RDisk: `add_filesystem`, `delete_filesystem`, and FileSystem of
-- amitools/fs/rdb/FileSystem.py with its LoadSeg blocks. The data of a file system is a list of bytes.
use amitools.Prelude.{
  ℕ, zero, suc, ◌+◌, ◌-◌, ◌*◌, ◌/◌, Bool, true, false, not, Option, none, some, List, [], ◌∷◌, ◌++◌,
  map, ◌==◌, leb, ◌&&◌, if◌then◌else◌, length, take, drop,
}
use amitools.Fs.Rdb.{
  fits_long, no_blk, FsHeader, LoadSeg, FileSystem, fs_header, load_seg, Device, put, RDisk,
  write_rdb, has_free_rdb_blocks, alloc_rdb_blocks, next_rdb_block, update_hi_blk,
}
use amitools.Fs.Rdb.Edit.{
  Outcome, done, value_error, type_error, index_error, struct_error, and_then,
}
use amitools.Fs.Rdb.Remove.{remove_blk, remove_at}

abbrev pub get_blk_nums : FileSystem → List ℕ
get_blk_nums f = f.blk_num ∷ map (λ (ls : LoadSeg). ls.blk_num) f.lsegs

-- The number of blocks for so many bytes. The division of floats that Python makes here is exact enough
-- below 2 ^ 53.
unfoldable pub get_total_blocks : ℕ → ℕ → ℕ
get_total_blocks block_bytes size = (size + (block_bytes - 20) - 1) / (block_bytes - 20) + 1

abbrev pub next_of : List ℕ → ℕ
next_of [] = no_blk
next_of (b ∷ bs) = b

abbrev pub lseg : ℕ → ℕ → List ℕ → LoadSeg
lseg blk_num next bytes = record { blk_num = blk_num; next = next; bytes = bytes }

-- The LoadSeg blocks for the data; `none` is the IndexError when the blocks run out.
unfoldable pub make_lsegs : ℕ → List ℕ → List ℕ → Option (List LoadSeg)
make_lsegs lseg_size [] bytes = if length bytes == 0 then some [] else none
make_lsegs lseg_size (b ∷ blks) bytes =
    let rest = make_lsegs lseg_size blks (drop lseg_size bytes) in
    if length bytes == 0 then some [] else (elim rest [
      | none ↦ none
      | some ls ↦ some (lseg b (next_of blks) (take lseg_size bytes) ∷ ls)
    ])

abbrev pub header : ℕ → ℕ → ℕ → FsHeader
header version dos_type seg_list_blk = record {
  next = no_blk;
  version = version;
  dos_type = dos_type;
  node_type = 0;
  task = 0;
  lock = 0;
  handler = 0;
  stack_size = 0;
  priority = 0;
  startup = 0;
  seg_list_blk = seg_list_blk;
  global_vec = no_blk;
}

-- What `dev_flags` gives, a name and a number; `invalid_flag` is a name that is none of these, or a text
-- that is no number. Numbers below 0, which no block can hold, are left out.
pub data DevFlag : Type 0 where
  flag_type flag_task flag_lock flag_handler flag_stack_size : ℕ → DevFlag
  flag_priority flag_startup flag_seg_list_blk flag_global_vec : ℕ → DevFlag
  invalid_flag : DevFlag

-- `FSHeaderBlock.set_flag`; `none` is the ValueError.
abbrev pub set_flag : DevFlag → FsHeader → Option FsHeader
set_flag (flag_type v) h = some (record h { node_type = v })
set_flag (flag_task v) h = some (record h { task = v })
set_flag (flag_lock v) h = some (record h { lock = v })
set_flag (flag_handler v) h = some (record h { handler = v })
set_flag (flag_stack_size v) h = some (record h { stack_size = v })
set_flag (flag_priority v) h = some (record h { priority = v })
set_flag (flag_startup v) h = some (record h { startup = v })
set_flag (flag_seg_list_blk v) h = some (record h { seg_list_blk = v })
set_flag (flag_global_vec v) h = some (record h { global_vec = v })
set_flag invalid_flag h = none

-- "add custom flags"
abbrev pub set_flags : List DevFlag → FsHeader → Option FsHeader
set_flags [] h = some h
set_flags (k ∷ flags) h = elim (set_flag k h) [ none ↦ none | some h' ↦ set_flags flags h' ]

-- `FSHeaderBlock.write`: whether the numbers fit their longs; a struct.error otherwise.
abbrev pub node_fits : FsHeader → Bool
node_fits h =
    (fits_long h.node_type && (fits_long h.task && (fits_long h.lock && fits_long h.handler)))
    && ((fits_long h.stack_size && (fits_long h.priority && fits_long h.startup))
        && (fits_long h.seg_list_blk && fits_long h.global_vec))

abbrev pub header_fits : FsHeader → Bool
header_fits h = (fits_long h.next && (fits_long h.version && fits_long h.dos_type)) && node_fits h

abbrev pub file_system : ℕ → ℕ → FsHeader → List LoadSeg → FileSystem
file_system blk_num num fshd lsegs = record {
  blk_num = blk_num;
  num = num;
  fshd = fshd;
  lsegs = lsegs;
}

-- `FileSystem.create`; no `dev_flags` are none of them.
unfoldable pub create_fs : ℕ → ℕ → ℕ → List ℕ → List ℕ → ℕ → ℕ → List DevFlag → Outcome FileSystem
create_fs block_bytes blk_num num [] bytes version dos_type dev_flags = index_error
create_fs block_bytes blk_num num (b ∷ blks) bytes version dos_type dev_flags =
    elim (set_flags dev_flags (header version dos_type b)) [
      | none ↦ value_error
      | some fshd ↦ elim (make_lsegs (block_bytes - 20) (b ∷ blks) bytes) [
        | none ↦ index_error
        | some ls ↦ done (file_system blk_num num fshd ls)
      ]
    ]

abbrev pub write_lsegs : List LoadSeg → Device → Device
write_lsegs [] d = d
write_lsegs (l ∷ ls) d = write_lsegs ls (put l.blk_num (load_seg l) d)

-- `FileSystem.write`, for a header that fits. The next blocks in the LoadSeg blocks are numbers of blocks
-- of the disk, or none, which fit.
abbrev pub write_fs : FileSystem → Device → Device
write_fs f d = write_lsegs f.lsegs (put f.blk_num (fs_header f.fshd) d)

-- The header of the last file system points at `b`.
abbrev pub set_last_fs : ℕ → List FileSystem → List FileSystem
set_last_fs b [] = []
set_last_fs b (f ∷ []) = record f { fshd = record f.fshd { next = b } } ∷ []
set_last_fs b (f ∷ g ∷ fs) = f ∷ set_last_fs b (g ∷ fs)

-- `last_fs.write(only_fshd=True)`
abbrev pub write_last_header : List FileSystem → Device → Device
write_last_header [] d = d
write_last_header (f ∷ []) d = put f.blk_num (fs_header f.fshd) d
write_last_header (f ∷ g ∷ fs) d = write_last_header (g ∷ fs) d

-- `last_fs.write()`
abbrev pub write_last_fs : List FileSystem → Device → Device
write_last_fs [] d = d
write_last_fs (f ∷ []) d = write_fs f d
write_last_fs (f ∷ g ∷ fs) d = write_last_fs (g ∷ fs) d

-- "link fs block" and "update rdb".
abbrev pub link_fs : ℕ → RDisk → RDisk
link_fs b r = write_rdb (elim r.fs [
  | [] ↦ record r { rdb = record r.rdb { fs_list = b } }
  | f ∷ fs ↦
      let linked = set_last_fs b (f ∷ fs) in
      record r { fs = linked; rawblk = write_last_header linked r.rawblk }
])

unfoldable pub append_fs : FileSystem → RDisk → RDisk
append_fs f r =
    let linked = link_fs f.blk_num (record r { rawblk = write_fs f r.rawblk }) in
    record linked { fs = linked.fs ++ f ∷ [] }

abbrev pub tail_of : List ℕ → List ℕ
tail_of [] = []
tail_of (b ∷ bs) = bs

-- Writes the file system and links it.
unfoldable pub write_new_fs : FileSystem → RDisk → Outcome Bool × RDisk
unfolding append_fs
write_new_fs f r =
    if not (header_fits f.fshd) then (struct_error, r) else (done true, append_fs f r)

-- `blk_num` is None only if no block is free, and then there are too few.
unfoldable pub add_filesystem : List ℕ → ℕ → ℕ → List DevFlag → RDisk → Outcome Bool × RDisk
unfolding write_new_fs
add_filesystem bytes dos_type version dev_flags r =
    let num_blks = get_total_blocks r.block_bytes (length bytes) in
    if not (has_free_rdb_blocks num_blks r)
    then (done false, r)
    else (elim (alloc_rdb_blocks num_blks r) [
      | none ↦ (type_error, r)
      | some blks ↦
          let r₁ = update_hi_blk (record r { used_blks = r.used_blks ++ blks }) in
          elim (next_rdb_block r) [
            | none ↦ (type_error, r₁)
            | some b ↦
                and_then
                  (
                    create_fs r.block_bytes b (length r.fs) (tail_of blks) bytes version dos_type
                        dev_flags,
                    r₁,
                  )
                  write_new_fs
          ]
    ])

abbrev pub remove_blks : List ℕ → List ℕ → Option (List ℕ)
remove_blks [] used = some used
remove_blks (b ∷ bs) used = elim (remove_blk b used) [
  | none ↦ none
  | some used' ↦ remove_blks bs used'
]

abbrev pub fs_blk_at : ℕ → List FileSystem → ℕ
fs_blk_at i [] = no_blk
fs_blk_at zero (f ∷ fs) = f.blk_num
fs_blk_at (suc i) (f ∷ fs) = fs_blk_at i fs

abbrev blks_at : ℕ → List FileSystem → List ℕ
blks_at i [] = []
blks_at zero (f ∷ fs) = get_blk_nums f
blks_at (suc i) (f ∷ fs) = blks_at i fs

abbrev relabel_fs : ℕ → List FileSystem → List FileSystem
relabel_fs num [] = []
relabel_fs num (f ∷ fs) = record f { num = num } ∷ relabel_fs (suc num) fs

-- "unlink": the first is unlinked in the RDB, any other in the last file system.
abbrev unlink_fs : ℕ → ℕ → RDisk → RDisk
unlink_fs zero next r = record r { rdb = record r.rdb { fs_list = next } }
unlink_fs (suc i) next r =
    let fs = set_last_fs next r.fs in record r { fs = fs; rawblk = write_last_fs fs r.rawblk }

unfoldable pub delete_filesystem : ℕ → RDisk → Outcome Bool × RDisk
delete_filesystem fid r =
    let r₁ = unlink_fs fid (fs_blk_at (suc fid) r.fs) r in
    if leb (length r.fs) fid
    then (done false, r)
    else (elim (remove_blks (blks_at fid r.fs) r.used_blks) [
      | none ↦ (value_error, r₁)
      | some used ↦
          let r₂ = write_rdb (update_hi_blk (record r₁ { used_blks = used })) in
          (done true, record r₂ { fs = relabel_fs 0 (remove_at fid r₂.fs) })
    ])

-- `LoadSegBlock.get_data`: the size of a block counts its longs, rounded down.
abbrev pub get_bytes : LoadSeg → List ℕ
get_bytes l = take (length l.bytes / 4 * 4) l.bytes

abbrev pub join_bytes : List LoadSeg → List ℕ
join_bytes [] = []
join_bytes (l ∷ ls) = get_bytes l ++ join_bytes ls

-- `FileSystem.read` for the LoadSeg blocks, on fuel; `none` is a block that is not valid, or no end.
unfoldable pub read_lsegs : ℕ → ℕ → Device → Option (List LoadSeg)
read_lsegs zero blk d = none
read_lsegs (suc fuel) blk d = elim (blk == no_blk) [
  | true ↦ some []
  | false ↦ elim (d blk) [
    | load_seg l ↦ elim (read_lsegs fuel l.next d) [
      | none ↦ none
      | some ls ↦ some (lseg blk l.next l.bytes ∷ ls)
    ]
    | _ ↦ none
  ]
]

-- The data that `FileSystem.read` finds.
unfoldable pub read_fs : ℕ → ℕ → Device → Option (List ℕ)
read_fs fuel blk d = elim (d blk) [
  | fs_header h ↦ elim (read_lsegs fuel h.seg_list_blk d) [
    | none ↦ none
    | some ls ↦ some (join_bytes ls)
  ]
  | _ ↦ none
]
