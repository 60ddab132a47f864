-- ===== src/Alloc/Request.antt =====
-- `alloc_mem` as its callers see it: when it succeeds, what it returns, and the two counts that
-- `available` and `largest_chunk` walk the free list for.
use amitools.Prelude.{
  ℕ, ◌+◌, ◌%◌, ◌≤◌, ◌<◌, ◌≡◌, ◌≢◌, ◌*◌, ◌⊎◌, refl, inl, inr, Bool, none, some, List, [], ◌∷◌, arith,
  Option-cases, if◌then◌else◌, ltb,
}
use amitools.Alloc.{
  MemoryChunk, Position, MemoryAlloc, Result, ok, err, no_memory, align, find_from, find_best_chunk,
  take_chunk, alloc_mem, init, sum_sizes, available, max_size, largest_chunk,
}
use amitools.Alloc.Weigh.{free_total}
use amitools.Alloc.Valid.{IsValid, Behind-le, Ahead-le}
use amitools.Alloc.Take.{
  Found, Allocated, find_best_chunk-Found, take_chunk-Allocated, take_chunk-IsValid,
  free_bytes-take_chunk, free_total-take_chunk,
}

-- The pool that a new allocator starts with is one free chunk.
pub init-IsValid :
    (ram_kib addr size : ℕ)
    → addr % 4 ≡ 0
    → addr + 4 < ram_kib * 1024
    → (size ≡ 0) ⊎ (4 < size)
    → IsValid (init ram_kib addr size)
unfolding init
init-IsValid ram_kib addr size h r k = record {
  covered = λ x. ground arith;
  ordered = ground arith;
  aligned = ground arith;
  allocs = tt;
  counted = ground arith;
  entries = ground arith;
  conserved = ground arith;
}

sum_sizes-eq-free_total : (n : ℕ) (cs : List MemoryChunk) → sum_sizes n cs ≡ n + free_total cs
unfolding sum_sizes
sum_sizes-eq-free_total n [] = omega arith
sum_sizes-eq-free_total n (c ∷ cs) = omega (arith, sum_sizes-eq-free_total (n + c.size) cs)

-- In a valid pool the running count of free bytes is what a walk over the free list adds up.
pub available-eq-free_bytes : (m : MemoryAlloc) → IsValid m → available m ≡ m.free_bytes
unfolding available
available-eq-free_bytes m v = omega (arith, sum_sizes-eq-free_total 0 m.free_list, v.counted)

max_size-ge : (n : ℕ) (cs : List MemoryChunk) → n ≤ max_size n cs
unfolding max_size
max_size-ge n [] = omega arith
max_size-ge n (c ∷ cs) = ground (arith, max_size-ge (if ltb n c.size then c.size else n) cs)

find_from-none :
    (size n : ℕ) (before after : List MemoryChunk)
    → max_size n after < size
    → find_from size before after ≡ none
unfolding find_from max_size
find_from-none size n before [] h = refl
find_from-none size n before (c ∷ after) h = ground (
  arith,
  max_size-ge (if ltb n c.size then c.size else n) after,
  find_from-none size (if ltb n c.size then c.size else n) (c ∷ before) after,
)

find_from-some :
    (size n : ℕ) (before after : List MemoryChunk)
    → n < size
    → size ≤ max_size n after
    → find_from size before after ≢ none
unfolding find_from max_size
find_from-some size n before [] h k = absurd (omega arith)
find_from-some size n before (c ∷ after) h k =
    ground (arith, find_from-some size (if ltb n c.size then c.size else n) (c ∷ before) after)

module _ (size : ℕ) (except_on_fail : Bool) (m : MemoryAlloc) where
  alloc_mem-found :
      (p : Position) (left : ℕ)
      → find_best_chunk (align size) m ≡ some (p, left)
      → alloc_mem size except_on_fail m ≡ take_chunk (align size) p left m
  unfolding alloc_mem
  alloc_mem-found p left e = rw (e, alloc_mem)

  -- A request that no chunk can hold changes nothing: it raises, or returns 0 where the caller asks
  -- for no exception.
  pub alloc_mem_out_of_memory :
      largest_chunk m < align size
      → alloc_mem size except_on_fail m ≡ (if except_on_fail then err no_memory else ok 0, m)
  unfolding alloc_mem find_best_chunk largest_chunk
  alloc_mem_out_of_memory h = rw (find_from-none (align size) 0 [] m.free_list h, alloc_mem)

  found : 0 < size → align size ≤ largest_chunk m → find_best_chunk (align size) m ≢ none
  unfolding find_best_chunk largest_chunk
  found p h = find_from-some (align size) 0 [] m.free_list (omega arith) h

  -- What a successful request has done, at the address `a` that it returns.
  pub record Served (r : Result ℕ) (m' : MemoryAlloc) (a : ℕ) : Type 0 where
    pub result : r ≡ ok a
    pub done : Allocated m m' a (align size)
    pub above : m.addr ≤ a
    pub below : a + align size ≤ m.addr + m.size
    pub counted : m'.free_bytes + align size ≡ m.free_bytes

  take_chunk-Served :
      (p : Position) (left : ℕ)
      → 0 < size
      → IsValid m
      → Found m (align size) p left
      → let (r, m') = take_chunk (align size) p left m in Served r m' p.chunk.addr
  take_chunk-Served p left some_bytes v f =
      let (res, done) = take_chunk-Allocated m (align size) p left v f (omega arith) in
      let lo = Behind-le m.addr p.before p.chunk.addr f.behind in
      let hi = Ahead-le (p.chunk.addr + p.chunk.size) p.after (m.addr + m.size) f.ahead in
      record {
        result = res;
        done = done;
        above = lo;
        below = omega (arith, f.fits);
        counted = omega (
          arith,
          free_bytes-take_chunk m (align size) p left v f (omega arith),
          free_total-take_chunk m (align size) p left v f (omega arith),
          v.counted,
        );
      }

  -- A request for at least one byte succeeds where the largest chunk can hold it, rounded up to
  -- four bytes: the result is aligned and lies in the pool, its bytes were free and are now that
  -- allocation's and no longer free, they are cleared, and the count of free bytes falls by them.
  pub alloc_mem_succeeds :
      0 < size
      → IsValid m
      → align size ≤ largest_chunk m
      → let (r, m') = alloc_mem size except_on_fail m in (a : ℕ) × Served r m' a
  alloc_mem_succeeds some_bytes v h = elim (Option-cases (find_best_chunk (align size) m)) [
    | inl e ↦ absurd (found some_bytes h e)
    | inr ((p, left), e) ↦ (
      p.chunk.addr,
      rw (alloc_mem-found p left e)
          (take_chunk-Served p left some_bytes v (find_best_chunk-Found m (align size) p left v e)),
    )
  ]

  -- Every request for at least one byte keeps the invariant, whether it succeeds or not.
  pub alloc_mem-IsValid : 0 < size → IsValid m → IsValid (alloc_mem size except_on_fail m).1
  unfolding alloc_mem
  alloc_mem-IsValid some_bytes v = elim (Option-cases (find_best_chunk (align size) m)) [
    | inl e ↦ rw (e, alloc_mem) v
    | inr ((p, left), e) ↦ rw (alloc_mem-found p left e) (
        take_chunk-IsValid m (align size) p left v (find_best_chunk-Found m (align size) p left v e)
          (omega arith) (omega arith))
  ]

-- With the invariant and a chunk in the free list, a request for 0 bytes is granted at the address of
-- the first chunk, but takes nothing from the free list: if the next request is one that this chunk can
-- hold, it is granted at the same address.
pub alloc_mem-zero :
    (size : ℕ) (except_on_fail : Bool) (m : MemoryAlloc) (c : MemoryChunk) (cs : List MemoryChunk)
    → IsValid m
    → m.free_list ≡ c ∷ cs
    → align size ≤ c.size
    → let (r, m') = alloc_mem 0 except_on_fail m in
      (r ≡ ok c.addr) × ((alloc_mem size except_on_fail m').0 ≡ ok c.addr)
unfolding alloc_mem find_best_chunk find_from take_chunk
alloc_mem-zero size except_on_fail m c cs v e fits =
    ground (arith, e, rw e at v.ordered, rw e at v.aligned)
