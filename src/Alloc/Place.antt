-- ===== src/Alloc/Place.antt =====
-- The free list inside `free_mem`: the place that `_insert_chunk` finds, and the two calls of
-- `_merge_chunk`.
use amitools.Prelude.{ℕ, ◌+◌, ◌%◌, ◌≤◌, ◌<◌, ◌≡◌, refl, ◌∙◌, ap, ◌⊎◌, List, [], ◌∷◌, arith, length}
use amitools.Alloc.{MemoryChunk, Position, MemoryAlloc, rewind, insert_from, merge_prev, merge_next}
use amitools.Alloc.Weigh.{inside, weigh, free_cover, weigh-rewind}
use amitools.Alloc.Valid.{
  Behind, Ahead, IsOrdered, AlignedChunks, IsOrdered-rewind, AlignedChunks-rewind, length-rewind,
}

-- As `Behind` and `Ahead`, where the nearest chunk may touch the address.
abbrev pub BehindOrAt : ℕ → List MemoryChunk → ℕ → Type 0
BehindOrAt start [] e = start ≤ e
BehindOrAt start (c ∷ cs) e = (c.addr + c.size ≤ e) × (0 < c.size) × Behind start cs c.addr

abbrev pub AheadOrAt : ℕ → List MemoryChunk → ℕ → Type 0
AheadOrAt e [] end = e ≤ end
AheadOrAt e (c ∷ cs) end = (e ≤ c.addr) × (0 < c.size) × Ahead (c.addr + c.size) cs end

abbrev pub Seam : ℕ → List MemoryChunk → List MemoryChunk → ℕ → Type 0
Seam start before [] end = Unit
Seam start before (c ∷ after) end =
    Behind start before c.addr × (0 < c.size) × Ahead (c.addr + c.size) after end

-- Where a chunk that overlaps none of the list is put in.
pub record Placed (start end : ℕ) (new : MemoryChunk) (cs : List MemoryChunk) (p : Position)
    : Type 0 where
  pub same : p.chunk ≡ new
  pub list : rewind p.before p.after ≡ cs
  pub behind : BehindOrAt start p.before new.addr
  pub ahead : AheadOrAt (new.addr + new.size) p.after end
  pub aligned : AlignedChunks p.before × AlignedChunks p.after

-- A block that shares no byte with any chunk.
abbrev pub Apart : MemoryChunk → List MemoryChunk → Type 0
Apart new [] = Unit
Apart new (c ∷ cs) = ((c.addr + c.size ≤ new.addr) ⊎ (new.addr + new.size ≤ c.addr)) × Apart new cs

pub Apart-free_cover :
    (new : MemoryChunk) (start : ℕ) (cs : List MemoryChunk) (end : ℕ)
    → 0 < new.size
    → ((x : ℕ) → free_cover x cs + inside x new.addr new.size ≤ 1)
    → IsOrdered start cs end
    → Apart new cs
Apart-free_cover new start [] end p h o = tt
Apart-free_cover new start (c ∷ []) end p h o = ground (arith, h new.addr, h c.addr)
Apart-free_cover new start (c ∷ d ∷ cs) end p h o = (
  ground (arith, h new.addr, h c.addr),
  Apart-free_cover new (c.addr + c.size) (d ∷ cs) end p (λ x. ground (arith, h x)) (ground arith),
)

module _ (start end : ℕ) (new : MemoryChunk) (pos : 0 < new.size)
    (room : new.addr + new.size ≤ end) where
  pub insert_from-Placed :
      (cs before after : List MemoryChunk)
      → rewind before after ≡ cs
      → BehindOrAt start before new.addr
      → Seam start before after end
      → Apart new after
      → AlignedChunks before
      → AlignedChunks after
      → Placed start end new cs (insert_from new before after)
  unfolding insert_from
  insert_from-Placed cs before [] e b s apart h k = ground arith
  insert_from-Placed cs before (c ∷ []) e b s apart h k = ground arith
  insert_from-Placed cs before (c ∷ d ∷ after) e b s apart h k =
      ground (arith, insert_from-Placed cs (c ∷ before) (d ∷ after))

-- A chunk stands at its place in the list, and no chunk that precedes it touches it.
pub record Seated (start end : ℕ) (p : Position) (m : MemoryAlloc) : Type 0 where
  pub list : m.free_list ≡ rewind p.before (p.chunk ∷ p.after)
  pub behind : Behind start p.before p.chunk.addr
  pub pos : 0 < p.chunk.size
  pub ahead : AheadOrAt (p.chunk.addr + p.chunk.size) p.after end
  pub aligned : AlignedChunks p.before × (p.chunk.addr % 4 ≡ 0) × AlignedChunks p.after
  pub entries : m.free_entries ≡ length m.free_list

module _ (start end : ℕ) where
  pub merge_prev-Seated :
      (before : List MemoryChunk) (c : MemoryChunk) (after : List MemoryChunk) (m : MemoryAlloc)
      → m.free_list ≡ rewind before (c ∷ after)
      → BehindOrAt start before c.addr
      → 0 < c.size
      → AheadOrAt (c.addr + c.size) after end
      → AlignedChunks before × (c.addr % 4 ≡ 0) × AlignedChunks after
      → m.free_entries ≡ length m.free_list
      → let (q, m') = merge_prev (record { before = before; chunk = c; after = after }, m) in
        Seated start end q m'
  unfolding merge_prev
  merge_prev-Seated [] c after m e b p a al n = ground arith
  merge_prev-Seated (d ∷ before) c after m e b p a al n = ground (
    arith,
    ap (λ l. length l) e,
    length-rewind before (d ∷ c ∷ after),
    length-rewind before (record { addr = d.addr; size = d.size + c.size } ∷ after),
  )

  -- After both merges the list is ordered, with a gap between each two chunks.
  pub record Settled (m : MemoryAlloc) : Type 0 where
    pub ordered : IsOrdered start m.free_list end
    pub aligned : AlignedChunks m.free_list
    pub entries : m.free_entries ≡ length m.free_list

  pub merge_next-Settled :
      (before : List MemoryChunk) (c : MemoryChunk) (after : List MemoryChunk) (m : MemoryAlloc)
      → Seated start end (record { before = before; chunk = c; after = after }) m
      → Settled (merge_next (record { before = before; chunk = c; after = after }, m))
  unfolding merge_next
  merge_next-Settled before c [] m s = record {
    ordered = rw s.list (IsOrdered-rewind start end before c [] s.behind s.pos s.ahead);
    aligned = rw s.list (AlignedChunks-rewind before (c ∷ []) s.aligned.0 (s.aligned.1, tt));
    entries = s.entries;
  }
  merge_next-Settled before c (d ∷ after) m s = record {
    ordered = ground (
      arith,
      s.behind,
      s.list,
      s.pos,
      s.ahead,
      IsOrdered-rewind start end before c (d ∷ after),
      IsOrdered-rewind start end before (record { addr = c.addr; size = c.size + d.size }) after,
    );
    aligned = ground (
      arith,
      s.aligned,
      s.list,
      AlignedChunks-rewind before (c ∷ d ∷ after),
      AlignedChunks-rewind before (record { addr = c.addr; size = c.size + d.size } ∷ after),
    );
    entries = ground (
      arith,
      s.entries,
      ap (λ l. length l) s.list,
      length-rewind before (c ∷ d ∷ after),
      length-rewind before (record { addr = c.addr; size = c.size + d.size } ∷ after),
    );
  }

module _ (w : MemoryChunk → ℕ) where
  abbrev pub Additive : Type 0
  Additive =
      (a s t : ℕ)
      → w (record { addr = a; size = s + t })
        ≡ w (record { addr = a; size = s }) + w (record { addr = a + s; size = t })

  pub weigh-insert_from :
      (new : MemoryChunk) (before after : List MemoryChunk)
      → let p = insert_from new before after in
        weigh w (rewind p.before (p.chunk ∷ p.after)) ≡ weigh w before + (w new + weigh w after)
  unfolding insert_from
  weigh-insert_from new before [] = weigh-rewind w before (new ∷ [])
  weigh-insert_from new before (c ∷ after) =
      ground
        (arith, weigh-insert_from new (c ∷ before) after, weigh-rewind w before (new ∷ c ∷ after))

  -- Two chunks that touch weigh what the chunk made of them weighs.
  weigh-merge_chunk :
      (a b : MemoryChunk)
      → Additive
      → a.addr + a.size ≡ b.addr
      → w (record { addr = a.addr; size = a.size + b.size }) ≡ w a + w b
  weigh-merge_chunk a b add e =
      add a.addr a.size b.size ∙ ap (λ (t : ℕ). w a + w (record { addr = t; size = b.size })) e

  pub weigh-merge_prev :
      (before : List MemoryChunk) (c : MemoryChunk) (after : List MemoryChunk) (m : MemoryAlloc)
      → Additive
      → m.free_list ≡ rewind before (c ∷ after)
      → weigh w (merge_prev (record { before = before; chunk = c; after = after }, m)).1.free_list
        ≡ weigh w m.free_list
  unfolding merge_prev
  weigh-merge_prev [] c after m add e = refl
  weigh-merge_prev (b ∷ before) c after m add e = ground (
    arith,
    weigh-merge_chunk b c add,
    ap (weigh w) e,
    weigh-rewind w before (b ∷ c ∷ after),
    weigh-rewind w before (record { addr = b.addr; size = b.size + c.size } ∷ after),
  )

  pub weigh-merge_next :
      (before : List MemoryChunk) (c : MemoryChunk) (after : List MemoryChunk) (m : MemoryAlloc)
      → Additive
      → m.free_list ≡ rewind before (c ∷ after)
      → weigh w (merge_next (record { before = before; chunk = c; after = after }, m)).free_list
        ≡ weigh w m.free_list
  unfolding merge_next
  weigh-merge_next before c [] m add e = refl
  weigh-merge_next before c (d ∷ after) m add e = ground (
    arith,
    weigh-merge_chunk c d add,
    ap (weigh w) e,
    weigh-rewind w before (c ∷ d ∷ after),
    weigh-rewind w before (record { addr = c.addr; size = c.size + d.size } ∷ after),
  )
