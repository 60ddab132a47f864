-- ===== src/Alloc/Take.antt =====
-- `alloc_mem`: the search, the invariant, and what a successful call does.
use amitools.Prelude.{
  ℕ, ◌+◌, ◌-◌, ◌%◌, ◌<◌, ◌≡◌, refl, ap, ◌++◌, none, some, List, [], ◌∷◌, arith, lookup, insert,
  length,
}
use amitools.Alloc.{
  MemoryChunk, Position, MemoryAlloc, ok, clear_block, rewind, find_from, find_best_chunk,
  take_chunk,
}
use amitools.Alloc.Weigh.{inside, weigh, free_cover, free_total, weigh-rewind, weigh_dict-insert}
use amitools.Alloc.Valid.{
  Behind, Ahead, IsOrdered, AlignedChunks, IsValid, IsOrdered-rewind, IsOrdered-rewind_remove,
  Behind-mono, AlignedChunks-rewind, length-rewind, GoodAllocs-insert, lookup-alloc_cover,
}

-- The walk stands between `before` and `after`.
abbrev Seam : ℕ → List MemoryChunk → List MemoryChunk → ℕ → Type 0
Seam start before [] end = Unit
Seam start before (c ∷ after) end =
    Behind start before c.addr × (0 < c.size) × Ahead (c.addr + c.size) after end

-- What the search returns is a place of the list with a chunk of `size + left` bytes.
pub record Found (m : MemoryAlloc) (size : ℕ) (p : Position) (left : ℕ) : Type 0 where
  pub list : rewind p.before (p.chunk ∷ p.after) ≡ m.free_list
  pub fits : size + left ≡ p.chunk.size
  pub behind : Behind m.addr p.before p.chunk.addr
  pub pos : 0 < p.chunk.size
  pub ahead : Ahead (p.chunk.addr + p.chunk.size) p.after (m.addr + m.size)
  pub aligned : AlignedChunks p.before × (p.chunk.addr % 4 ≡ 0) × AlignedChunks p.after

find_from-Found :
    (m : MemoryAlloc) (size : ℕ) (before after : List MemoryChunk) (p : Position) (left : ℕ)
    → find_from size before after ≡ some (p, left)
    → rewind before after ≡ m.free_list
    → Seam m.addr before after (m.addr + m.size)
    → AlignedChunks before
    → AlignedChunks after
    → Found m size p left
unfolding find_from
find_from-Found m size before [] p left e l s b a = cc
find_from-Found m size before (c ∷ []) p left e l s b a = ground arith
find_from-Found m size before (c ∷ d ∷ after) p left e l s b a =
    ground (arith, find_from-Found m size (c ∷ before) (d ∷ after) p left)

pub find_best_chunk-Found :
    (m : MemoryAlloc) (size : ℕ) (p : Position) (left : ℕ)
    → IsValid m
    → find_best_chunk size m ≡ some (p, left)
    → Found m size p left
unfolding find_best_chunk
find_best_chunk-Found m size p left v e =
    find_from-Found m size [] m.free_list p left e refl (seam m.free_list v.ordered) tt v.aligned
  where
    seam :
        (cs : List MemoryChunk)
        → IsOrdered m.addr cs (m.addr + m.size)
        → Seam m.addr [] cs (m.addr + m.size)
    seam [] o = tt
    seam (c ∷ cs) o = o

-- What a successful call has done: the block was free, and it is now the allocation at `a`.
pub record Allocated (m m' : MemoryAlloc) (a size : ℕ) : Type 0 where
  pub aligned : a % 4 ≡ 0
  pub fresh : lookup a m.addrs ≡ none
  pub table : m'.addrs ≡ insert a size m.addrs
  pub block : (x : ℕ) → free_cover x m'.free_list + inside x a size ≡ free_cover x m.free_list
  pub cleared : m'.calls ≡ m.calls ++ clear_block a size 0 ∷ []
  pub pool : (m'.addr ≡ m.addr) × (m'.size ≡ m.size)

module _ (m : MemoryAlloc) (size : ℕ) (p : Position) (left : ℕ) (v : IsValid m)
    (f : Found m size p left) (some_bytes : 0 < size) where
  weigh_free :
      (w : MemoryChunk → ℕ) → weigh w p.before + (w p.chunk + weigh w p.after) ≡ weigh w m.free_list
  weigh_free w = rw (← f.list) (omega (arith, weigh-rewind w p.before (p.chunk ∷ p.after)))

  weigh_taken :
      (w : MemoryChunk → ℕ)
      → w p.chunk
        ≡ w (record { addr = p.chunk.addr; size = size })
          + w (record { addr = p.chunk.addr + size; size = left })
      → (left ≡ 0 → w (record { addr = p.chunk.addr + size; size = left }) ≡ 0)
      → weigh w (take_chunk size p left m).1.free_list
          + w (record { addr = p.chunk.addr; size = size })
        ≡ weigh w m.free_list
  unfolding take_chunk
  weigh_taken w h z = ground (
    arith,
    weigh_free w,
    weigh-rewind w p.before p.after,
    weigh-rewind w p.before (record { addr = p.chunk.addr + size; size = left } ∷ p.after),
  )

  fresh_key : lookup p.chunk.addr m.addrs ≡ none
  fresh_key = lookup-alloc_cover p.chunk.addr m.addrs v.allocs (
      ground
        (arith, v.covered p.chunk.addr, weigh_free (λ c. inside p.chunk.addr c.addr c.size), f.pos))

  pub take_chunk-Allocated :
      ((take_chunk size p left m).0 ≡ ok p.chunk.addr)
      × Allocated m (take_chunk size p left m).1 p.chunk.addr size
  unfolding take_chunk
  take_chunk-Allocated = (
    ground (arith, f.aligned),
    record {
      aligned = f.aligned.1;
      fresh = fresh_key;
      table = ground arith;
      block =
          λ x. weigh_taken (λ c. inside x c.addr c.size) (ground (arith, f.fits)) (ground arith);
      cleared = ground arith;
      pool = ground arith;
    },
  )

  take_chunk-IsOrdered :
      let m' = (take_chunk size p left m).1 in IsOrdered m'.addr m'.free_list (m'.addr + m'.size)
  unfolding take_chunk
  take_chunk-IsOrdered = ground (
    arith,
    f.behind,
    f.fits,
    f.pos,
    f.ahead,
    IsOrdered-rewind_remove m.addr (m.addr + m.size) p.before p.chunk p.after,
    IsOrdered-rewind m.addr (m.addr + m.size) p.before
        (record { addr = p.chunk.addr + size; size = left }) p.after,
    Behind-mono m.addr p.before p.chunk.addr (p.chunk.addr + size),
  )

  take_chunk-aligned : size % 4 ≡ 0 → AlignedChunks (take_chunk size p left m).1.free_list
  unfolding take_chunk
  take_chunk-aligned h = ground (
    arith,
    f.aligned,
    AlignedChunks-rewind p.before p.after,
    AlignedChunks-rewind p.before (record { addr = p.chunk.addr + size; size = left } ∷ p.after),
  )

  take_chunk-entries :
      let m' = (take_chunk size p left m).1 in m'.free_entries ≡ length m'.free_list
  unfolding take_chunk
  take_chunk-entries = ground (
    arith,
    v.entries,
    ap (λ l. length l) f.list,
    length-rewind p.before (p.chunk ∷ p.after),
    length-rewind p.before p.after,
    length-rewind p.before (record { addr = p.chunk.addr + size; size = left } ∷ p.after),
  )

  pub free_total-take_chunk :
      free_total (take_chunk size p left m).1.free_list + size ≡ free_total m.free_list
  free_total-take_chunk = weigh_taken (λ c. c.size) (omega (arith, f.fits)) (λ e. e)

  pub free_bytes-take_chunk : (take_chunk size p left m).1.free_bytes ≡ m.free_bytes - size
  unfolding take_chunk
  free_bytes-take_chunk = ground arith

  pub take_chunk-IsValid : size % 4 ≡ 0 → IsValid (take_chunk size p left m).1
  take_chunk-IsValid h =
      let a = take_chunk-Allocated.1 in
      record {
        covered = λ x.
            rw (a.table, a.pool.0, a.pool.1)
              (omega (
                arith,
                v.covered x,
                a.block x,
                weigh_dict-insert (inside x) p.chunk.addr size m.addrs fresh_key,
              ));
        ordered = take_chunk-IsOrdered;
        aligned = take_chunk-aligned h;
        allocs =
            rw a.table
              (GoodAllocs-insert p.chunk.addr size m.addrs a.aligned some_bytes fresh_key v.allocs);
        counted = omega (arith, free_bytes-take_chunk, free_total-take_chunk, v.counted);
        entries = take_chunk-entries;
        conserved =
            rw (a.table, a.pool.1)
              (omega (
                arith,
                free_total-take_chunk,
                v.conserved,
                weigh_dict-insert (λ _ s. s) p.chunk.addr size m.addrs fresh_key,
              ));
      }
