-- ===== src/ExecList/Walk.antt =====
-- Iterating over a list, and taking nodes off its ends.
use amitools.Prelude.{
  ◌⊎◌, false, inl, inr, length, ℕ, zero, suc, ◌+◌, ◌<◌, ◌≡◌, ◌≢◌, refl, none, some, List, [], ◌∷◌,
  ◌++◌, arith, true,
}
use mathlib.Core.Bool.{true≢false}
use mathlib.Core.List.{append-nil}
use amitools.ExecList.{
  Mem, succ, pred, tail_node, remove, take_off, rem_head, rem_tail, walk, to_list, count, len,
}
use amitools.ExecList.Chain.{Chain, Nodes, IsList, Chain-split}
use amitools.ExecList.Middle.{Nodes-split, remove-IsList}

-- The pointer that leaves a node of the list, or its header, is not 0.
pub next_ne :
    (m : Mem) (l p : ℕ) (xs : List ℕ) (q : ℕ) → 0 < q → Nodes l xs → Chain m p xs q → m p ≢ 0
next_ne m l p [] q i n c = ground (arith, c)
next_ne m l p (x ∷ xs) q i n c = ground (arith, c, n)

walk-Chain :
    (fuel : ℕ) (m : Mem) (l p : ℕ) (xs : List ℕ) (q : ℕ)
    → 0 < q
    → m q ≡ 0
    → Nodes l xs
    → Chain m p xs q
    → length xs < fuel
    → walk fuel (m p) m ≡ some xs
unfolding walk
walk-Chain zero m l p xs q i e n c h = elim h [ ]
walk-Chain (suc fuel) m l p [] q i e n c h = rw (c.0, walk) (rw e refl)
walk-Chain (suc fuel) m l p (x ∷ xs) q i e n c h = ground (
  arith,
  c,
  next_ne m l x xs q i n.2 c.2,
  walk-Chain fuel m l x xs q i e n.2 c.2 (omega (arith, h)),
)

-- With more fuel than nodes, the iteration over a well-formed list yields exactly its nodes, in
-- their order.
pub to_list-IsList :
    (fuel l : ℕ) (xs : List ℕ) (m : Mem)
    → IsList m l xs
    → length xs < fuel
    → to_list fuel l m ≡ some xs
unfolding to_list
to_list-IsList fuel l xs m v h =
    walk-Chain fuel m l l xs (tail_node l) (omega arith) v.ending v.nodes v.chain h

count-Chain :
    (fuel n : ℕ) (m : Mem) (l p : ℕ) (xs : List ℕ) (q : ℕ)
    → 0 < q
    → m q ≡ 0
    → Nodes l xs
    → Chain m p xs q
    → length xs < fuel
    → count fuel n (m p) m ≡ some (n + length xs)
unfolding count
count-Chain zero n m l p xs q i e k c h = elim h [ ]
count-Chain (suc fuel) n m l p [] q i e k c h = rw (c.0, count) (rw e (ground arith))
count-Chain (suc fuel) n m l p (x ∷ xs) q i e k c h = ground (
  arith,
  c,
  next_ne m l x xs q i k.2 c.2,
  count-Chain fuel (n + 1) m l x xs q i e k.2 c.2 (omega (arith, h)),
)

-- With more fuel than nodes, `len(list)` of a well-formed list is the number of its nodes.
pub len-IsList :
    (fuel l : ℕ) (xs : List ℕ) (m : Mem)
    → IsList m l xs
    → length xs < fuel
    → len fuel l m ≡ some (length xs)
unfolding len
len-IsList fuel l xs m v h =
    let e : 0 + length xs ≡ length xs = omega arith in
    rw e at (count-Chain fuel 0 m l l xs (tail_node l) (omega arith) v.ending v.nodes v.chain h)

take_off-some :
    (n node : ℕ) (m m' : Mem)
    → n ≡ node
    → node ≢ 0
    → remove node true m ≡ some m'
    → take_off n m ≡ some (some node, m')
take_off-some n node m m' i h e = rw (i, e) (ground arith)

cleared : {P : Type 0} → (true ≡ false) ⊎ P → P
cleared (inl e) = absurd (true≢false e)
cleared (inr p) = p

-- `rem_head` of a well-formed list that has nodes takes its first one off and returns it, its
-- pointers set to 0.
pub rem_head-IsList :
    (l x : ℕ) (xs : List ℕ) (m : Mem)
    → IsList m l (x ∷ xs)
    → (m' : Mem) × (rem_head l m ≡ some (some x, m'))
      × IsList m' l xs
      × (succ m' x ≡ 0)
      × (pred m' x ≡ 0)
unfolding rem_head
rem_head-IsList l x xs m v =
    let (m', e, w, z) = remove-IsList m l [] x xs true v in
    let (a, b) = cleared z in
    (m', take_off-some (m l) x m m' v.chain.0 (omega (arith, v.nodes)) e, w, a, b)

-- `rem_tail` of a well-formed list that has nodes takes its last one off and returns it, its
-- pointers set to 0.
pub rem_tail-IsList :
    (l : ℕ) (xs : List ℕ) (x : ℕ) (m : Mem)
    → IsList m l (xs ++ x ∷ [])
    → (m' : Mem) × (rem_tail l m ≡ some (some x, m'))
      × IsList m' l xs
      × (succ m' x ≡ 0)
      × (pred m' x ≡ 0)
unfolding rem_tail
rem_tail-IsList l xs x m v =
    let (m', e, w, z) = remove-IsList m l xs x [] true v in
    let (a, b) = cleared z in
    let (c, d) = Chain-split m l xs x [] (tail_node l) v.chain in
    (
      m',
      take_off-some (m (l + 8)) x m m' (ground (arith, d))
          (omega (arith, (Nodes-split l xs (x ∷ []) v.nodes).1.0.0)) e,
      rw append-nil at w,
      a,
      b,
    )

-- On an empty, well-formed list both raise the `ValueError` of `remove`.
pub rem-empty : (l : ℕ) (m : Mem) → IsList m l [] → (rem_head l m ≡ none) × (rem_tail l m ≡ none)
unfolding rem_head rem_tail remove
rem-empty l m v = (ground (arith, v.chain, v.ending), ground (arith, v.chain, v.ending, v.header))
