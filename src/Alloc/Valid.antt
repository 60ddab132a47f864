-- ===== src/Alloc/Valid.antt =====
-- The invariant of the allocator.
use amitools.Prelude.{
  ℕ, ◌+◌, ◌%◌, ◌≤◌, ◌<◌, ◌≡◌, refl, none, some, List, [], ◌∷◌, arith, Dict, lookup, insert, erase,
  length, lookup-insert, lookup-erase,
}
use amitools.Alloc.{MemoryChunk, MemoryAlloc, rewind}
use amitools.Alloc.Weigh.{inside, free_cover, alloc_cover, free_total, alloc_total}

-- Chunks in the order of `prev`: each ends before the one that follows it, with a gap, and the
-- last begins at `start` or behind it.
abbrev pub Behind : ℕ → List MemoryChunk → ℕ → Type 0
Behind start [] e = start ≤ e
Behind start (c ∷ cs) e = (c.addr + c.size < e) × (0 < c.size) × Behind start cs c.addr

-- Chunks in the order of `next`, likewise, up to `end`.
abbrev pub Ahead : ℕ → List MemoryChunk → ℕ → Type 0
Ahead e [] end = e ≤ end
Ahead e (c ∷ cs) end = (e < c.addr) × (0 < c.size) × Ahead (c.addr + c.size) cs end

-- A whole free list between two addresses: sorted, no chunk empty, and no two of them touching.
abbrev pub IsOrdered : ℕ → List MemoryChunk → ℕ → Type 0
IsOrdered start [] end = start ≤ end
IsOrdered start (c ∷ cs) end = (start ≤ c.addr) × (0 < c.size) × Ahead (c.addr + c.size) cs end

abbrev pub AlignedChunks : List MemoryChunk → Type 0
AlignedChunks [] = Unit
AlignedChunks (c ∷ cs) = (c.addr % 4 ≡ 0) × AlignedChunks cs

-- Every allocation has an aligned address and a size above 0, and no address is listed twice.
abbrev pub GoodAllocs : Dict ℕ → Type 0
GoodAllocs [] = Unit
GoodAllocs ((a, s) ∷ d) = (a % 4 ≡ 0) × (0 < s) × (lookup a d ≡ none) × GoodAllocs d

pub record IsValid (m : MemoryAlloc) : Type 0 where
  pub covered : (x : ℕ) → free_cover x m.free_list + alloc_cover x m.addrs ≡ inside x m.addr m.size
  pub ordered : IsOrdered m.addr m.free_list (m.addr + m.size)
  pub aligned : AlignedChunks m.free_list
  pub allocs : GoodAllocs m.addrs
  pub counted : m.free_bytes ≡ free_total m.free_list
  pub entries : m.free_entries ≡ length m.free_list
  pub conserved : free_total m.free_list + alloc_total m.addrs ≡ m.size

pub Ahead-mono :
    (d e : ℕ) (cs : List MemoryChunk) (end : ℕ) → d ≤ e → Ahead e cs end → Ahead d cs end
Ahead-mono d e [] end h a = omega arith
Ahead-mono d e (c ∷ cs) end h a = (omega arith, a.1, a.2)

pub Behind-mono :
    (start : ℕ) (cs : List MemoryChunk) (e f : ℕ) → e ≤ f → Behind start cs e → Behind start cs f
Behind-mono start [] e f h b = omega arith
Behind-mono start (c ∷ cs) e f h b = (omega arith, b.1, b.2)

pub Behind-le : (start : ℕ) (cs : List MemoryChunk) (e : ℕ) → Behind start cs e → start ≤ e
Behind-le start [] e b = b
Behind-le start (c ∷ cs) e b = omega (arith, Behind-le start cs c.addr b.2)

pub Ahead-le : (e : ℕ) (cs : List MemoryChunk) (end : ℕ) → Ahead e cs end → e ≤ end
Ahead-le e [] end a = a
Ahead-le e (c ∷ cs) end a = omega (arith, Ahead-le (c.addr + c.size) cs end a.2)

-- A list that is put together round a chunk.
pub IsOrdered-rewind :
    (start end : ℕ) (before : List MemoryChunk) (c : MemoryChunk) (after : List MemoryChunk)
    → Behind start before c.addr
    → 0 < c.size
    → Ahead (c.addr + c.size) after end
    → IsOrdered start (rewind before (c ∷ after)) end
IsOrdered-rewind start end [] c after b p a = (b, p, a)
IsOrdered-rewind start end (d ∷ before) c after b p a =
    IsOrdered-rewind start end before d (c ∷ after) b.2 b.1 (b.0, p, a)

-- A list from which a chunk is taken.
pub IsOrdered-rewind_remove :
    (start end : ℕ) (before : List MemoryChunk) (c : MemoryChunk) (after : List MemoryChunk)
    → Behind start before c.addr
    → 0 < c.size
    → Ahead (c.addr + c.size) after end
    → IsOrdered start (rewind before after) end
IsOrdered-rewind_remove start end [] c [] b p a = omega arith
IsOrdered-rewind_remove start end [] c (d ∷ after) b p a = (omega arith, a.1, a.2)
IsOrdered-rewind_remove start end (d ∷ before) c after b p a =
    IsOrdered-rewind start end before d after b.2 b.1
      (Ahead-mono (d.addr + d.size) (c.addr + c.size) after end (omega arith) a)

pub AlignedChunks-rewind :
    (before after : List MemoryChunk)
    → AlignedChunks before
    → AlignedChunks after
    → AlignedChunks (rewind before after)
AlignedChunks-rewind [] after b a = a
AlignedChunks-rewind (c ∷ before) after b a = AlignedChunks-rewind before (c ∷ after) b.1 (b.0, a)

pub length-rewind :
    (before after : List MemoryChunk) → length (rewind before after) ≡ length before + length after
length-rewind [] after = omega arith
length-rewind (c ∷ before) after = omega (arith, length-rewind before (c ∷ after))

pub GoodAllocs-insert :
    (a s : ℕ) (d : Dict ℕ)
    → a % 4 ≡ 0
    → 0 < s
    → lookup a d ≡ none
    → GoodAllocs d
    → GoodAllocs (insert a s d)
GoodAllocs-insert a s [] p q h g = (p, q, refl, tt)
GoodAllocs-insert a s (e ∷ d) p q h g =
    ground (arith, GoodAllocs-insert a s d p q, lookup-insert a e.0 s d)

pub GoodAllocs-erase : (a : ℕ) (d : Dict ℕ) → GoodAllocs d → GoodAllocs (erase a d)
GoodAllocs-erase a [] g = tt
GoodAllocs-erase a (e ∷ d) g = ground (arith, GoodAllocs-erase a d, lookup-erase a e.0 d)

-- In a good table the allocation at an address has an aligned address and is not empty.
pub lookup-GoodAllocs :
    (a s : ℕ) (d : Dict ℕ) → GoodAllocs d → lookup a d ≡ some s → (a % 4 ≡ 0) × (0 < s)
lookup-GoodAllocs a s [] g h = ground arith
lookup-GoodAllocs a s (e ∷ d) g h = ground (arith, lookup-GoodAllocs a s d g.3)

-- An address that no allocation holds is no key of the table.
pub lookup-alloc_cover :
    (a : ℕ) (d : Dict ℕ) → GoodAllocs d → alloc_cover a d ≡ 0 → lookup a d ≡ none
lookup-alloc_cover a [] g h = refl
lookup-alloc_cover a (e ∷ d) g h = ground (arith, lookup-alloc_cover a d g.3)
