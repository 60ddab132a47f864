-- ===== src/Alloc/Weigh.antt =====
-- Sums over the free list and over the table of allocations: how many of them hold an address, and
-- how many bytes they have.
use amitools.Prelude.{
  ℕ, ◌+◌, ◌≡◌, refl, length, ◌&&◌, none, some, List, [], ◌∷◌, arith, Dict, lookup, insert, erase,
  ltb, leb, if◌then◌else◌,
}
use amitools.Alloc.{MemoryChunk, rewind}

-- 1 for an address in the block of `size` bytes at `addr`, else 0.
abbrev pub inside : ℕ → ℕ → ℕ → ℕ
inside x addr size = if leb addr x && ltb x (addr + size) then 1 else 0

-- The sum of a weight over chunks.
abbrev pub weigh : (MemoryChunk → ℕ) → List MemoryChunk → ℕ
weigh w [] = 0
weigh w (c ∷ cs) = w c + weigh w cs

-- The sum of a weight over allocations.
abbrev pub weigh_dict : (ℕ → ℕ → ℕ) → Dict ℕ → ℕ
weigh_dict w [] = 0
weigh_dict w ((a, s) ∷ d) = w a s + weigh_dict w d

-- How many chunks, and how many allocations, hold the byte at `x`.
abbrev pub free_cover : ℕ → List MemoryChunk → ℕ
free_cover x = weigh (λ c. inside x c.addr c.size)

abbrev pub alloc_cover : ℕ → Dict ℕ → ℕ
alloc_cover x = weigh_dict (inside x)

-- How many bytes they have together.
abbrev pub free_total : List MemoryChunk → ℕ
free_total = weigh (λ c. c.size)

abbrev pub alloc_total : Dict ℕ → ℕ
alloc_total = weigh_dict (λ _ s. s)

pub weigh-rewind :
    (w : MemoryChunk → ℕ) (before after : List MemoryChunk)
    → weigh w (rewind before after) ≡ weigh w before + weigh w after
weigh-rewind w [] after = omega arith
weigh-rewind w (c ∷ before) after = omega (arith, weigh-rewind w before (c ∷ after))

pub weigh_dict-insert :
    (w : ℕ → ℕ → ℕ) (a s : ℕ) (d : Dict ℕ)
    → lookup a d ≡ none
    → weigh_dict w (insert a s d) ≡ weigh_dict w d + w a s
weigh_dict-insert w a s [] h = omega arith
weigh_dict-insert w a s (e ∷ d) h = ground (arith, weigh_dict-insert w a s d)

pub weigh_dict-erase :
    (w : ℕ → ℕ → ℕ) (a s : ℕ) (d : Dict ℕ)
    → lookup a d ≡ some s
    → weigh_dict w (erase a d) + w a s ≡ weigh_dict w d
weigh_dict-erase w a s [] h = ground arith
weigh_dict-erase w a s (e ∷ d) h = ground (arith, weigh_dict-erase w a s d)

-- Two blocks that touch hold what their union holds.
pub inside-add : (x a s t : ℕ) → inside x a (s + t) ≡ inside x a s + inside x (a + s) t
inside-add x a s t = ground arith

pub weigh-one : (cs : List MemoryChunk) → weigh (λ _. 1) cs ≡ length cs
weigh-one [] = refl
weigh-one (c ∷ cs) = omega (arith, weigh-one cs)
