-- ===== src/Alloc.antt =====
-- The allocator of the emulated RAM: class `MemoryAlloc` of amitools/vamos/mem/alloc.py.
-- The doubly linked free list is the list of its chunks. A position in it is a zipper: the chunks
-- behind the `prev` pointer, nearest first, and those behind `next`.
pub mod Weigh
pub mod Valid
pub mod Take
pub mod Request
pub mod Place
pub mod Release
pub mod Canonical
pub mod Free
mod Tests
use amitools.Prelude.{
  ℕ, ◌+◌, ◌-◌, ◌*◌, ◌/◌, ◌%◌, Bool, Option, none, some, List, [], ◌∷◌, ◌++◌, Dict, lookup, insert,
  erase, ltb, leb, ◌&&◌, ◌==◌, if◌then◌else◌,
}

-- `class MemoryChunk`, its links aside.
pub record MemoryChunk : Type 0 where
  pub addr : ℕ
  pub size : ℕ

-- A chunk of the list with what its `prev` and `next` pointers reach.
pub record Position : Type 0 where
  pub before : List MemoryChunk
  pub chunk : MemoryChunk
  pub after : List MemoryChunk

-- The calls that the allocator makes on the emulator's memory, `self.mem`.
pub data MemCall : Type 0 where
  clear_block : ℕ → ℕ → ℕ → MemCall
  w_cstr w_bstr : ℕ → List ℕ → MemCall

-- `class MemoryAlloc`. `calls` are those that it has made on `self.mem`, in order.
pub record MemoryAlloc : Type 0 where
  pub addr : ℕ
  pub size : ℕ
  pub addrs : Dict ℕ
  pub free_bytes : ℕ
  pub free_list : List MemoryChunk
  pub free_entries : ℕ
  pub calls : List MemCall

-- What ends a call early: the exceptions of the source.
pub data Error : Type 0 where
  no_memory not_aligned invalid_free size_mismatch : Error

pub data Result (A : Type 0) : Type 0 where
  ok : A → Result A
  err : Error → Result A

-- `MemoryAlloc.__init__`; `ram_kib` is what `mem.get_ram_size_kib()` returns.
pub init : ℕ → ℕ → ℕ → MemoryAlloc
init ram_kib addr size =
    let size' = (if size == 0 then ram_kib * 1024 - addr else size) in
    let start : ℕ = (if addr == 0 then 4 else addr) in
    let bytes : ℕ = (if addr == 0 then size' - 4 else size') in
    record {
      addr = start;
      size = bytes;
      addrs = [];
      free_bytes = bytes;
      free_list = record { addr = start; size = bytes } ∷ [];
      free_entries = 1;
      calls = [];
    }

-- `(size + 3) & ~3`
abbrev pub align : ℕ → ℕ
align size = (size + 3) / 4 * 4

-- The list that a walk along `prev` and one along `next` make up.
abbrev pub rewind : List MemoryChunk → List MemoryChunk → List MemoryChunk
rewind [] after = after
rewind (c ∷ before) after = rewind before (c ∷ after)

-- The `while` loop of `_find_best_chunk`, at the chunks `after`: the first chunk with
-- `does_fit(size) >= 0`, and the bytes left in it.
pub find_from : ℕ → List MemoryChunk → List MemoryChunk → Option (Position × ℕ)
find_from size before [] = none
find_from size before (c ∷ after) =
    let rest = find_from size (c ∷ before) after in
    if ltb c.size size
    then rest
    else some (record { before = before; chunk = c; after = after }, c.size - size)

pub find_best_chunk : ℕ → MemoryAlloc → Option (Position × ℕ)
unfolding find_from
find_best_chunk size m = find_from size [] m.free_list

pub remove_chunk : Position → MemoryAlloc → MemoryAlloc
remove_chunk p m = record m {
  free_list = rewind p.before p.after;
  free_entries = m.free_entries - 1;
}

pub replace_chunk : Position → MemoryChunk → MemoryAlloc → MemoryAlloc
replace_chunk old new m = record m { free_list = rewind old.before (new ∷ old.after) }

-- The `while` loop of `_insert_chunk`: `last` is the head of `before`, and `cur` that of `after`.
pub insert_from : MemoryChunk → List MemoryChunk → List MemoryChunk → Position
insert_from new before [] = record { before = before; chunk = new; after = [] }
insert_from new before (cur ∷ after) =
    let rest = insert_from new (cur ∷ before) after in
    if ltb new.addr cur.addr
    then record { before = before; chunk = new; after = cur ∷ after }
    else rest

-- `_insert_chunk`, with the place that the chunk has got.
pub insert_chunk : MemoryChunk → MemoryAlloc → Position × MemoryAlloc
unfolding insert_from
insert_chunk new m =
    let p = insert_from new [] m.free_list in
    (
      p,
      record m {
        free_list = rewind p.before (p.chunk ∷ p.after);
        free_entries = m.free_entries + 1;
      },
    )

-- The chunk that `_merge_chunk` makes of two neighbours, where they touch.
pub merge_chunk : MemoryChunk → MemoryChunk → Option MemoryChunk
merge_chunk a b =
    if a.addr + a.size == b.addr
    then some (record { addr = a.addr; size = a.size + b.size })
    else none

-- `new_chunk = self._merge_chunk(prev, chunk)` in `free_mem`.
pub merge_prev : Position × MemoryAlloc → Position × MemoryAlloc
unfolding merge_chunk
merge_prev (p, m) = elim p.before [
  | [] ↦ (p, m)
  | prev ∷ before ↦ elim (merge_chunk prev p.chunk) [
    | none ↦ (p, m)
    | some c ↦ (
      record { before = before; chunk = c; after = p.after },
      record m { free_list = rewind before (c ∷ p.after); free_entries = m.free_entries - 1 },
    )
  ]
]

-- `new_chunk = self._merge_chunk(chunk, next)` in `free_mem`.
pub merge_next : Position × MemoryAlloc → MemoryAlloc
unfolding merge_chunk
merge_next (p, m) = elim p.after [
  | [] ↦ m
  | next ∷ after ↦ elim (merge_chunk p.chunk next) [
    | none ↦ m
    | some c ↦ record m {
      free_list = rewind p.before (c ∷ after);
      free_entries = m.free_entries - 1;
    }
  ]
]

-- The part of `alloc_mem` behind the search.
pub take_chunk : ℕ → Position → ℕ → MemoryAlloc → Result ℕ × MemoryAlloc
unfolding remove_chunk replace_chunk
take_chunk size p left m =
    let addr = p.chunk.addr in
    let m₁ =
      (if left == 0
        then remove_chunk p m
        else replace_chunk p (record { addr = addr + size; size = left }) m) in
    let m₂ = record m₁ {
      addrs = insert addr size m₁.addrs;
      free_bytes = m₁.free_bytes - size;
      calls = m₁.calls ++ clear_block addr size 0 ∷ [];
    } in
    (if addr % 4 == 0 then ok addr else err not_aligned, m₂)

pub alloc_mem : ℕ → Bool → MemoryAlloc → Result ℕ × MemoryAlloc
alloc_mem size except_on_fail m =
    let size' = align size in
    elim (find_best_chunk size' m) [
      | none ↦ (if except_on_fail then err no_memory else ok 0, m)
      | some (p, left) ↦ take_chunk size' p left m
    ]

-- The part of `free_mem` behind the checks.
pub release : ℕ → ℕ → MemoryAlloc → MemoryAlloc
release addr size m =
    let m₁ = record m { addrs = erase addr m.addrs } in
    let m₂ = merge_next (merge_prev (insert_chunk (record { addr = addr; size = size }) m₁)) in
    record m₂ { free_bytes = m₂.free_bytes + size }

pub free_mem : ℕ → ℕ → MemoryAlloc → Result (Unit {0}) × MemoryAlloc
free_mem addr size m = elim (lookup addr m.addrs) [
  | none ↦ (err invalid_free, m)
  | some real_size ↦
      (if align size == real_size
        then (ok tt, release addr real_size m)
        else (err size_mismatch, m))
]

pub get_range_by_addr : ℕ → MemoryAlloc → Option ℕ
get_range_by_addr addr m = lookup addr m.addrs

pub is_all_free : MemoryAlloc → Bool
is_all_free m = m.size == m.free_bytes

-- The loop of `available`, which adds up the chunks.
pub sum_sizes : ℕ → List MemoryChunk → ℕ
sum_sizes free [] = free
sum_sizes free (c ∷ cs) = sum_sizes (free + c.size) cs

pub available : MemoryAlloc → ℕ
unfolding sum_sizes
available m = sum_sizes 0 m.free_list

-- The loop of `largest_chunk`.
pub max_size : ℕ → List MemoryChunk → ℕ
max_size largest [] = largest
max_size largest (c ∷ cs) = max_size (if ltb largest c.size then c.size else largest) cs

pub largest_chunk : MemoryAlloc → ℕ
unfolding max_size
largest_chunk m = max_size 0 m.free_list

pub is_valid_address : ℕ → MemoryAlloc → Bool
is_valid_address addr m = leb m.addr addr && ltb addr (m.addr + m.size)
