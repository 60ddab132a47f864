-- ===== src/Alloc/Canonical.antt =====
-- The free list is determined by the set of free bytes: merging leaves one list for each set.
use amitools.Prelude.{ℕ, ◌+◌, ◌≤◌, ◌<◌, ◌≡◌, refl, ap₂, List, [], ◌∷◌, arith}
use amitools.Alloc.{MemoryChunk}
use amitools.Alloc.Weigh.{free_cover}
use amitools.Alloc.Valid.{Ahead, IsOrdered}

free_cover-Ahead :
    (x e : ℕ) (cs : List MemoryChunk) (end : ℕ) → x ≤ e → Ahead e cs end → free_cover x cs ≡ 0
free_cover-Ahead x e [] end h a = refl
free_cover-Ahead x e (c ∷ cs) end h a = ground (arith, free_cover-Ahead x (c.addr + c.size) cs end)

-- Two chunks at the head of lists that hold the same bytes are one.
head_unique :
    (c d : MemoryChunk) (cs ds : List MemoryChunk) (end : ℕ)
    → 0 < c.size
    → 0 < d.size
    → Ahead (c.addr + c.size) cs end
    → Ahead (d.addr + d.size) ds end
    → ((x : ℕ) → free_cover x (c ∷ cs) ≡ free_cover x (d ∷ ds))
    → c ≡ d
head_unique c d cs ds end p q a b h = ground (
  arith,
  h c.addr,
  h d.addr,
  h (c.addr + c.size),
  h (d.addr + d.size),
  free_cover-Ahead c.addr (c.addr + c.size) cs end,
  free_cover-Ahead d.addr (d.addr + d.size) ds end,
  free_cover-Ahead c.addr (d.addr + d.size) ds end,
  free_cover-Ahead d.addr (c.addr + c.size) cs end,
  free_cover-Ahead (c.addr + c.size) (c.addr + c.size) cs end,
  free_cover-Ahead (d.addr + d.size) (d.addr + d.size) ds end,
  free_cover-Ahead (c.addr + c.size) (d.addr + d.size) ds end,
  free_cover-Ahead (d.addr + d.size) (c.addr + c.size) cs end,
)

Ahead-unique :
    (e : ℕ) (cs ds : List MemoryChunk) (end : ℕ)
    → Ahead e cs end
    → Ahead e ds end
    → ((x : ℕ) → free_cover x cs ≡ free_cover x ds)
    → cs ≡ ds
Ahead-unique e [] [] end a b h = refl
Ahead-unique e [] (d ∷ ds) end a b h = absurd (ground (arith, h d.addr))
Ahead-unique e (c ∷ cs) [] end a b h = absurd (ground (arith, h c.addr))
Ahead-unique e (c ∷ cs) (d ∷ ds) end a b h =
    let same = head_unique c d cs ds end a.1 b.1 a.2 b.2 h in
    ap₂ ◌∷◌ same
      (Ahead-unique (c.addr + c.size) cs ds end a.2 (rw same b.2) (λ x. ground (arith, h x, same)))

-- Two ordered lists in one pool that hold the same bytes are equal.
pub IsOrdered-unique :
    (start : ℕ) (cs ds : List MemoryChunk) (end : ℕ)
    → IsOrdered start cs end
    → IsOrdered start ds end
    → ((x : ℕ) → free_cover x cs ≡ free_cover x ds)
    → cs ≡ ds
IsOrdered-unique start [] [] end a b h = refl
IsOrdered-unique start [] (d ∷ ds) end a b h = absurd (ground (arith, h d.addr))
IsOrdered-unique start (c ∷ cs) [] end a b h = absurd (ground (arith, h c.addr))
IsOrdered-unique start (c ∷ cs) (d ∷ ds) end a b h =
    let same = head_unique c d cs ds end a.1 b.1 a.2 b.2 h in
    ap₂ ◌∷◌ same
      (Ahead-unique (c.addr + c.size) cs ds end a.2 (rw same b.2) (λ x. ground (arith, h x, same)))
