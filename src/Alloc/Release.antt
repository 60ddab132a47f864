-- ===== src/Alloc/Release.antt =====
-- `free_mem`: the invariant, the errors, and that it takes back what `alloc_mem` did.
use amitools.Prelude.{
  ℕ, ◌+◌, ◌-◌, ◌%◌, ◌≤◌, ◌<◌, ◌≡◌, refl, some, List, [], ◌∷◌, arith, lookup, erase, length,
}
use amitools.Alloc.{
  MemoryChunk, Position, MemoryAlloc, rewind, insert_from, insert_chunk, merge_prev, merge_next,
  release,
}
use amitools.Alloc.Weigh.{
  inside, inside-add, weigh, free_cover, alloc_cover, weigh-one, weigh_dict-erase,
}
use amitools.Alloc.Valid.{IsOrdered, AlignedChunks, IsValid, GoodAllocs-erase, lookup-GoodAllocs}
use amitools.Alloc.Place.{
  Seam, Apart, Apart-free_cover, insert_from-Placed, Seated, merge_prev-Seated, Settled,
  merge_next-Settled, Additive, weigh-insert_from, weigh-merge_prev, weigh-merge_next,
}

module _ (start end : ℕ) (new : MemoryChunk) (m : MemoryAlloc) where
  abbrev inserted : Position × MemoryAlloc
  inserted = insert_chunk new m

  abbrev merged : Position × MemoryAlloc
  merged = merge_prev inserted

  merged-Seated :
      0 < new.size
      → new.addr % 4 ≡ 0
      → start ≤ new.addr
      → new.addr + new.size ≤ end
      → IsOrdered start m.free_list end
      → AlignedChunks m.free_list
      → Apart new m.free_list
      → m.free_entries ≡ length m.free_list
      → Seated start end merged.0 merged.1
  unfolding insert_chunk
  merged-Seated pos al lo hi o a apart e =
      let p = insert_from new [] m.free_list in
      let pl =
        insert_from-Placed start end new pos hi m.free_list [] m.free_list refl lo
          (seam m.free_list o) apart tt a in
      merge_prev-Seated start end p.before p.chunk p.after inserted.1 refl (rw pl.same pl.behind)
        (rw pl.same pos) (rw pl.same pl.ahead) (pl.aligned.0, rw pl.same al, pl.aligned.1)
        (omega (
          arith,
          weigh-one (rewind p.before (p.chunk ∷ p.after)),
          weigh-one m.free_list,
          weigh-insert_from (λ _. 1) new [] m.free_list,
        ))
    where
      seam : (cs : List MemoryChunk) → IsOrdered start cs end → Seam start [] cs end
      seam [] o = tt
      seam (c ∷ cs) o = o

  weigh-merged :
      (w : MemoryChunk → ℕ)
      → Additive w
      → Seated start end merged.0 merged.1
      → weigh w (merge_next merged).free_list ≡ weigh w m.free_list + w new
  unfolding insert_chunk
  weigh-merged w add s =
      let p = insert_from new [] m.free_list in
      let q = merged.0 in
      omega (
        arith,
        weigh-merge_next w q.before q.chunk q.after merged.1 add s.list,
        weigh-merge_prev w p.before p.chunk p.after inserted.1 add refl,
        weigh-insert_from w new [] m.free_list,
      )

module _ (addr size : ℕ) (m : MemoryAlloc) where
  -- `release` leaves the rest of the allocator alone.
  pub record Rest (m' : MemoryAlloc) : Type 0 where
    pub table : m'.addrs ≡ erase addr m.addrs
    pub bytes : m'.free_bytes ≡ m.free_bytes + size
    pub pool : (m'.addr ≡ m.addr) × (m'.size ≡ m.size) × (m'.calls ≡ m.calls)

  pub release-Rest : Rest (release addr size m)
  unfolding release insert_chunk merge_prev merge_next
  release-Rest = ground arith

  module _ (v : IsValid m) (allocated : lookup addr m.addrs ≡ some size) where
    abbrev pub block : MemoryChunk
    block = record { addr = addr; size = size }

    abbrev without : MemoryAlloc
    without = record m { addrs = erase addr m.addrs }

    pub alloc_ok : (addr % 4 ≡ 0) × (0 < size)
    alloc_ok = lookup-GoodAllocs addr size m.addrs v.allocs allocated

    -- The bytes of an allocation are in the pool, and none of them is free.
    held :
        (x : ℕ)
        → free_cover x m.free_list + (alloc_cover x (erase addr m.addrs) + inside x addr size)
          ≡ inside x m.addr m.size
    held x = omega (arith, v.covered x, weigh_dict-erase (inside x) addr size m.addrs allocated)

    in_pool : (m.addr ≤ addr) × (addr + size ≤ m.addr + m.size)
    in_pool = ground (arith, held addr, held (addr + size - 1), alloc_ok)

    block-Apart : Apart block m.free_list
    block-Apart =
        Apart-free_cover block m.addr m.free_list (m.addr + m.size) alloc_ok.1
          (λ x. ground (arith, held x)) v.ordered

    seated :
        let (p, m') = merged m.addr (m.addr + m.size) block without in
        Seated m.addr (m.addr + m.size) p m'
    seated =
        merged-Seated m.addr (m.addr + m.size) block without alloc_ok.1 alloc_ok.0 in_pool.0
          in_pool.1 v.ordered v.aligned block-Apart v.entries

    pub weigh-release :
        (w : MemoryChunk → ℕ)
        → Additive w
        → weigh w (release addr size m).free_list ≡ weigh w m.free_list + w block
    unfolding release
    weigh-release w add = weigh-merged m.addr (m.addr + m.size) block without w add seated

    release-Settled : Settled m.addr (m.addr + m.size) (release addr size m)
    unfolding release
    release-Settled =
        let (q, m') = merged m.addr (m.addr + m.size) block without in
        let s = merge_next-Settled m.addr (m.addr + m.size) q.before q.chunk q.after m' seated in
        record { ordered = s.ordered; aligned = s.aligned; entries = s.entries }

    pub release-IsValid : IsValid (release addr size m)
    release-IsValid =
        let r = release-Rest in
        let s = release-Settled in
        record {
          covered = λ x.
              rw (r.table, r.pool.0, r.pool.1)
                (omega (arith, held x, weigh-release (λ c. inside x c.addr c.size) (inside-add x)));
          ordered = rw (r.pool.0, r.pool.1) s.ordered;
          aligned = s.aligned;
          allocs = rw r.table (GoodAllocs-erase addr m.addrs v.allocs);
          counted = omega (arith, r.bytes, v.counted, weigh-release (λ c. c.size) (λ a s t. refl));
          entries = s.entries;
          conserved =
              rw (r.table, r.pool.1)
                (omega (
                  arith,
                  v.conserved,
                  weigh-release (λ c. c.size) (λ a s t. refl),
                  weigh_dict-erase (λ _ s. s) addr size m.addrs allocated,
                ));
        }
