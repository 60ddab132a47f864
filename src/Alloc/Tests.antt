-- ===== src/Alloc/Tests.antt =====
-- Runs of the allocator, and each theorem at an input that meets its hypotheses.
use amitools.Prelude.{ℕ, ◌≡◌, refl, inl, true, [], ◌∷◌, arith}
use amitools.Alloc.{
  MemoryAlloc, ok, err, no_memory, invalid_free, size_mismatch, init, find_from, find_best_chunk,
  take_chunk, alloc_mem, free_mem, release, insert_from, insert_chunk, merge_chunk, merge_prev,
  merge_next, available, largest_chunk, max_size, is_all_free,
}
use amitools.Alloc.Valid.{IsValid}
use amitools.Alloc.Request.{
  Served, init-IsValid, available-eq-free_bytes, alloc_mem_out_of_memory, alloc_mem_succeeds,
  alloc_mem-IsValid, alloc_mem-zero,
}
use amitools.Alloc.Free.{
  Released, free_list_unique, free_mem-IsValid, free_mem_succeeds, free_mem_rejects, free_mem_twice,
  free_mem-alloc_mem, all_freed,
}

-- A pool of 64 bytes with one allocation of 8 bytes between two chunks.
abbrev pool : MemoryAlloc
pool = record {
  addr = 16;
  size = 64;
  addrs = (32, 8) ∷ [];
  free_bytes = 56;
  free_list = record { addr = 16; size = 16 } ∷ record { addr = 40; size = 40 } ∷ [];
  free_entries = 2;
  calls = [];
}

abbrev empty_pool : MemoryAlloc
empty_pool = record pool {
  addrs = [];
  free_bytes = 64;
  free_list = record { addr = 16; size = 64 } ∷ [];
  free_entries = 1;
}

pool-IsValid : IsValid pool
pool-IsValid = record {
  covered = λ x. ground arith;
  ordered = omega arith;
  aligned = omega arith;
  allocs = (refl, omega arith, refl, tt);
  counted = refl;
  entries = refl;
  conserved = refl;
}

empty_pool-IsValid : IsValid empty_pool
empty_pool-IsValid = record {
  covered = λ x. ground arith;
  ordered = omega arith;
  aligned = omega arith;
  allocs = tt;
  counted = refl;
  entries = refl;
  conserved = refl;
}

alloc_mem_first_fit : (alloc_mem 18 true pool).0 ≡ ok 40
unfolding alloc_mem find_best_chunk find_from take_chunk
alloc_mem_first_fit = refl

free_mem_merges : (free_mem 32 6 pool).1.free_list ≡ empty_pool.free_list
unfolding free_mem release insert_chunk insert_from merge_prev merge_next merge_chunk
free_mem_merges = refl

init-IsValid_example : IsValid (init 64 4096 0)
init-IsValid_example = init-IsValid 64 4096 0 refl (omega arith) (inl refl)

available-eq-free_bytes_example : available pool ≡ 56
available-eq-free_bytes_example = available-eq-free_bytes pool pool-IsValid

alloc_mem_out_of_memory-run : alloc_mem 41 true pool ≡ (err no_memory, pool)
unfolding largest_chunk max_size
alloc_mem_out_of_memory-run = alloc_mem_out_of_memory 41 true pool (omega arith)

alloc_mem_succeeds_example :
    let (r, m') = alloc_mem 18 true pool in (a : ℕ) × Served 18 true pool r m' a
unfolding largest_chunk max_size
alloc_mem_succeeds_example =
    alloc_mem_succeeds 18 true pool (omega arith) pool-IsValid (omega arith)

alloc_mem-IsValid_example : IsValid (alloc_mem 16 true pool).1
alloc_mem-IsValid_example = alloc_mem-IsValid 16 true pool (omega arith) pool-IsValid

alloc_mem-zero_example :
    let (r, m') = alloc_mem 0 true pool in (r ≡ ok 16) × ((alloc_mem 12 true m').0 ≡ ok 16)
alloc_mem-zero_example =
    alloc_mem-zero 12 true pool (record { addr = 16; size = 16 })
      (record { addr = 40; size = 40 } ∷ []) pool-IsValid refl (omega arith)

free_mem-IsValid_example : IsValid (free_mem 32 8 pool).1
free_mem-IsValid_example = free_mem-IsValid 32 8 pool pool-IsValid

free_mem_succeeds_example : let (r, m') = free_mem 32 6 pool in (r ≡ ok tt) × Released pool m' 32 8
free_mem_succeeds_example = free_mem_succeeds 32 6 8 pool pool-IsValid refl refl

free_mem_rejects-run : free_mem 32 12 pool ≡ (err size_mismatch, pool)
free_mem_rejects-run = free_mem_rejects 32 12 pool cc

free_mem_twice-run : let m' = (free_mem 32 8 pool).1 in free_mem 32 8 m' ≡ (err invalid_free, m')
free_mem_twice-run = free_mem_twice 32 8 8 pool pool-IsValid refl refl

free_mem-alloc_mem_example :
    let (r, m₁) = alloc_mem 18 true pool in
    (a : ℕ) × (r ≡ ok a)
    × (let (r', m₂) = free_mem a 18 m₁ in
        (r' ≡ ok tt)
        × (m₂.free_list ≡ pool.free_list)
        × (m₂.addrs ≡ pool.addrs)
        × (m₂.free_bytes ≡ pool.free_bytes))
unfolding largest_chunk max_size
free_mem-alloc_mem_example =
    free_mem-alloc_mem 18 true pool (omega arith) pool-IsValid (omega arith)

all_freed-run :
    (empty_pool.free_list ≡ record { addr = 16; size = 64 } ∷ []) × (is_all_free empty_pool ≡ true)
all_freed-run = all_freed empty_pool empty_pool-IsValid (omega arith) refl

free_list_unique_example : empty_pool.free_list ≡ (record { addr = 16; size = 64 } ∷ [])
free_list_unique_example =
    free_list_unique empty_pool empty_pool empty_pool-IsValid empty_pool-IsValid refl refl
      (λ x. refl)
