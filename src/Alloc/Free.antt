-- ===== src/Alloc/Free.antt =====
-- `free_mem` as its callers see it, and how it undoes `alloc_mem`.
use amitools.Prelude.{
  ℕ, ◌+◌, ◌≤◌, ◌<◌, ◌≡◌, ◌≢◌, refl, ap, ◌∙◌, Bool, true, Bool-cases, Option-cases, inl, inr, Dict,
  none, some, [], ◌∷◌, arith, lookup, erase, ◌==◌, ==_iff, if◌then◌else◌, erase-insert,
  lookup-insert,
}
use amitools.Alloc.{
  MemoryAlloc, ok, err, invalid_free, size_mismatch, align, release, free_mem, alloc_mem,
  largest_chunk, is_all_free,
}
use amitools.Alloc.Weigh.{inside, inside-add, free_cover, alloc_total, alloc_cover}
use amitools.Alloc.Valid.{IsValid, GoodAllocs}
use amitools.Alloc.Request.{alloc_mem_succeeds, alloc_mem-IsValid}
use amitools.Alloc.Release.{Rest, release-Rest, release-IsValid, weigh-release}
use amitools.Alloc.Canonical.{IsOrdered-unique}

-- The three ways in which `free_mem` ends, by the table of allocations.
free_mem-unknown :
    (addr size : ℕ) (m : MemoryAlloc)
    → lookup addr m.addrs ≡ none
    → free_mem addr size m ≡ (err invalid_free, m)
unfolding free_mem
free_mem-unknown addr size m e = rw (e, free_mem)

free_mem-known :
    (addr size real : ℕ) (m : MemoryAlloc)
    → lookup addr m.addrs ≡ some real
    → free_mem addr size m
      ≡ (if align size == real then (ok tt, release addr real m) else (err size_mismatch, m))
unfolding free_mem
free_mem-known addr size real m e = rw (e, free_mem)

-- In a valid pool the free list is determined by which bytes are free.
pub free_list_unique :
    (m m' : MemoryAlloc)
    → IsValid m
    → IsValid m'
    → m'.addr ≡ m.addr
    → m'.size ≡ m.size
    → ((x : ℕ) → free_cover x m'.free_list ≡ free_cover x m.free_list)
    → m'.free_list ≡ m.free_list
free_list_unique m m' v v' ea es h =
    IsOrdered-unique m.addr m'.free_list m.free_list (m.addr + m.size) (rw (ea, es) at v'.ordered)
      v.ordered h

lookup-erase_self : (a : ℕ) (d : Dict ℕ) → GoodAllocs d → lookup a (erase a d) ≡ none
lookup-erase_self a [] g = refl
lookup-erase_self a (e ∷ d) g = ground (arith, lookup-erase_self a d)

-- Freeing keeps the invariant, whatever address and size it is given.
pub free_mem-IsValid :
    (addr size : ℕ) (m : MemoryAlloc) → IsValid m → IsValid (free_mem addr size m).1
free_mem-IsValid addr size m v = elim (Option-cases (lookup addr m.addrs)) [
  | inl e ↦ rw (free_mem-unknown addr size m e) v
  | inr (real, e) ↦ rw (free_mem-known addr size real m e) (elim (Bool-cases (align size == real)) [
    | inl t ↦ rw t (release-IsValid addr real m v e)
    | inr t ↦ rw t v
  ])
]

-- What freeing an allocation of `real` bytes at `addr` has done.
pub record Released (m m' : MemoryAlloc) (addr real : ℕ) : Type 0 where
  pub block : (x : ℕ) → free_cover x m'.free_list ≡ free_cover x m.free_list + inside x addr real
  pub counted : m'.free_bytes ≡ m.free_bytes + real
  pub table : m'.addrs ≡ erase addr m.addrs
  pub gone : lookup addr m'.addrs ≡ none
  pub pool : (m'.addr ≡ m.addr) × (m'.size ≡ m.size) × (m'.calls ≡ m.calls)

-- Freeing an allocation with its size, rounded up to four bytes, succeeds: exactly its bytes
-- become free, the count of free bytes rises by them, and it is no longer in the table.
pub free_mem_succeeds :
    (addr size real : ℕ) (m : MemoryAlloc)
    → IsValid m
    → lookup addr m.addrs ≡ some real
    → align size ≡ real
    → let (r, m') = free_mem addr size m in (r ≡ ok tt) × Released m m' addr real
free_mem_succeeds addr size real m v e fit =
    rw (free_mem-known addr size real m e, (==_iff (align size) real).1 fit)
      (
        refl,
        record {
          block = λ x. weigh-release addr real m v e (λ c. inside x c.addr c.size) (inside-add x);
          counted = rest.bytes;
          table = rest.table;
          gone = rw rest.table (lookup-erase_self addr m.addrs v.allocs);
          pool = rest.pool;
        },
      )
  where
    rest : Rest addr real m (release addr real m)
    rest = release-Rest addr real m

-- Freeing an address that is not allocated raises, and so does freeing with a size that does not
-- round up to the allocation's; both leave the allocator as it was.
pub free_mem_rejects :
    (addr size : ℕ) (m : MemoryAlloc)
    → lookup addr m.addrs ≢ some (align size)
    → free_mem addr size m
      ≡ (elim (lookup addr m.addrs) [ none ↦ err invalid_free | some _ ↦ err size_mismatch ], m)
free_mem_rejects addr size m h = elim (Option-cases (lookup addr m.addrs)) [
  | inl e ↦ rw (free_mem-unknown addr size m e, e)
  | inr (real, e) ↦ rw (free_mem-known addr size real m e, e) (ground (arith, e))
]

-- Freeing the same allocation twice raises the second time and changes nothing more.
pub free_mem_twice :
    (addr size real : ℕ) (m : MemoryAlloc)
    → IsValid m
    → lookup addr m.addrs ≡ some real
    → align size ≡ real
    → let m' = (free_mem addr size m).1 in free_mem addr size m' ≡ (err invalid_free, m')
free_mem_twice addr size real m v e fit =
    free_mem-unknown addr size (free_mem addr size m).1
      (free_mem_succeeds addr size real m v e fit).1.gone

-- With the invariant, a request for at least one byte that the largest chunk can hold succeeds, and
-- freeing what it has returned succeeds too and restores the free list, the table of allocations and the
-- count of free bytes.
pub free_mem-alloc_mem :
    (size : ℕ) (except_on_fail : Bool) (m : MemoryAlloc)
    → 0 < size
    → IsValid m
    → align size ≤ largest_chunk m
    → let (r, m₁) = alloc_mem size except_on_fail m in
      (a : ℕ) × (r ≡ ok a)
      × (let (r', m₂) = free_mem a size m₁ in
          (r' ≡ ok tt)
          × (m₂.free_list ≡ m.free_list)
          × (m₂.addrs ≡ m.addrs)
          × (m₂.free_bytes ≡ m.free_bytes))
free_mem-alloc_mem size except_on_fail m some_bytes v fits =
    let (a, s) = alloc_mem_succeeds size except_on_fail m some_bytes v fits in
    let m₁ = (alloc_mem size except_on_fail m).1 in
    let v₁ = alloc_mem-IsValid size except_on_fail m some_bytes v in
    let e : lookup a m₁.addrs ≡ some (align size) =
      rw (s.done.table, lookup-insert a a (align size) m.addrs, (==_iff a a).1 refl) in
    let (ok_free, r) = free_mem_succeeds a size (align size) m₁ v₁ e refl in
    let m₂ = (free_mem a size m₁).1 in
    let v₂ = free_mem-IsValid a size m₁ v₁ in
    (
      a,
      s.result,
      (
        ok_free,
        free_list_unique m m₂ v v₂ (r.pool.0 ∙ s.done.pool.0) (r.pool.1 ∙ s.done.pool.1)
            (λ x. omega (arith, r.block x, s.done.block x)),
        rw (r.table, s.done.table) (erase-insert a (align size) m.addrs s.done.fresh),
        omega (arith, r.counted, s.counted),
      ),
    )

-- When every allocation has been freed, the pool is one chunk again and counts as all free.
pub all_freed :
    (m : MemoryAlloc)
    → IsValid m
    → 0 < m.size
    → m.addrs ≡ []
    → (m.free_list ≡ record { addr = m.addr; size = m.size } ∷ []) × (is_all_free m ≡ true)
unfolding is_all_free
all_freed m v p e = (
  IsOrdered-unique m.addr m.free_list (record { addr = m.addr; size = m.size } ∷ [])
      (m.addr + m.size) v.ordered (omega arith)
      (λ x. omega (arith, v.covered x, ap (alloc_cover x) e)),
  (==_iff m.size m.free_bytes).1 (omega (arith, v.conserved, v.counted, ap alloc_total e)),
)
