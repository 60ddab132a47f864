-- ===== src/ExecList/Ends.antt =====
-- The operations at the two ends of a list.
use amitools.Prelude.{ℕ, ◌+◌, ◌<◌, ◌≡◌, ◌⊎◌, List, [], ◌∷◌, ◌++◌, arith}
use amitools.ExecList.{Mem, write, tail_node, new_list, add_head, add_tail}
use amitools.ExecList.Chain.{
  Chain, Apart, AllApart, Off, Nodes, IsList, CanAdd, NotIn, Chain-write, NotIn-AllApart,
  NotIn-Nodes, Chain-append, last, Chain-last, Inner-NotIn, Inner-last, SameInner, SameInner-refl,
  SameInner-write, Chain-relink, last-Off, last-Apart,
}

pub new_list-IsList : (l : ℕ) (m : Mem) → 0 < l → IsList (new_list l m) l []
unfolding new_list
new_list-IsList l m h = record {
  header = h;
  chain = ground arith;
  ending = ground arith;
  nodes = tt;
}

-- A node that overlaps neither a well-formed list nor its nodes, added at the head, comes before
-- the others.
pub add_head-IsList :
    (l node : ℕ) (xs : List ℕ) (m : Mem)
    → IsList m l xs
    → CanAdd l node xs
    → IsList (add_head l node m) l (node ∷ xs)
unfolding add_head
add_head-IsList l node [] m v h = record {
  header = v.header;
  chain = ground (arith, v.chain, v.ending, v.header);
  ending = ground (arith, v.chain, v.ending, v.header);
  nodes = (h.0, tt, tt);
}
add_head-IsList l node (x ∷ xs) m v h = record {
  header = v.header;
  chain = ground (arith, v.chain, v.ending, v.header, v.nodes, h, rest);
  ending = ground (arith, v.chain, v.ending, v.header, v.nodes);
  nodes = (h.0, h.1, v.nodes);
}
  where
    q : ℕ
    q = tail_node l

    m₁ : Mem
    m₁ = write m (node + 4) l

    m₂ : Mem
    m₂ = write m₁ node (m l)

    m₃ : Mem
    m₃ = write m₂ l node

    apart : NotIn node xs × NotIn (node + 4) xs
    apart = NotIn-AllApart node xs h.1.1

    rest : Chain (add_head l node m) x xs (tail_node l)
    rest =
        Chain-write m₃ (m l + 4) node x xs q (ground (arith, v.chain))
          (ground (arith, v.chain, v.nodes)) (rw v.chain.0 (NotIn-AllApart x xs v.nodes.1).1)
          (Chain-write m₂ l node x xs q (ground (arith, v.nodes)) (omega arith)
            (NotIn-Nodes l xs v.nodes.2).0
            (Chain-write m₁ node (m l) x xs q (ground (arith, h)) (ground (arith, h)) apart.0 (
              Chain-write m (node + 4) l x xs q (ground (arith, h)) (ground (arith, h)) apart.1
                v.chain.2)))

AllApart-append : (a b : ℕ) (xs : List ℕ) → AllApart a xs → Apart a b → AllApart a (xs ++ b ∷ [])
AllApart-append a b [] h k = (k, tt)
AllApart-append a b (x ∷ xs) h k = (h.0, AllApart-append a b xs h.1 k)

Nodes-append : (l a : ℕ) (xs : List ℕ) → Nodes l xs → CanAdd l a xs → Nodes l (xs ++ a ∷ [])
Nodes-append l a [] h k = (k.0, tt, tt)
Nodes-append l a (x ∷ xs) h k =
    (h.0, AllApart-append x a xs h.1 (omega (arith, k)), Nodes-append l a xs h.2 (k.0, k.1.1))

-- A node that overlaps neither a well-formed list nor its nodes, added at the tail, comes behind
-- the others.
pub add_tail-IsList :
    (l node : ℕ) (xs : List ℕ) (m : Mem)
    → IsList m l xs
    → CanAdd l node xs
    → IsList (add_tail l node m) l (xs ++ node ∷ [])
unfolding add_tail
add_tail-IsList l node xs m v h = record {
  header = v.header;
  chain =
      Chain-append m' l xs node [] (tail_node l)
        (Chain-relink m m' l xs (tail_node l) node v.chain same (ground (arith, is_last))
          (ground (arith, is_last, last_apart, h)))
        (ground (arith, h, is_last, last_apart), ground (arith, h, is_last, last_off));
  ending = ground (arith, v.ending, v.header, h, is_last, last_off);
  nodes = Nodes-append l node xs v.nodes h;
}
  where
    m' : Mem
    m' = add_tail l node m

    end : (m (last l xs) ≡ tail_node l) × (m (tail_node l + 4) ≡ last l xs)
    end = Chain-last m l xs (tail_node l) v.chain

    off : NotIn l xs × NotIn (l + 4) xs × NotIn (l + 8) xs
    off = NotIn-Nodes l xs v.nodes

    apart : NotIn node xs × NotIn (node + 4) xs
    apart = NotIn-AllApart node xs h.1

    tp : ℕ
    tp = m (l + 8)

    is_last : tp ≡ last l xs
    is_last = let e : l + 8 ≡ tail_node l + 4 = omega arith in rw e end.1

    same : SameInner m m' l xs
    same =
        SameInner-write m (write m₂ (node + 4) tp) tp node l xs
          (rw is_last (Inner-last l l xs off.0 v.nodes))
          (SameInner-write m m₂ (node + 4) tp l xs
            (Inner-NotIn (node + 4) l xs (ground (arith, h)) apart.1)
            (SameInner-write m m₁ (l + 4 + 4) node l xs
              (let e : l + 4 + 4 ≡ l + 8 = omega arith in
                rw e (Inner-NotIn (l + 8) l xs (omega arith) off.2))
              (SameInner-write m m node (l + 4) l xs
                (Inner-NotIn node l xs (ground (arith, h)) apart.0) (SameInner-refl m l xs))))
      where
        m₁ : Mem
        m₁ = write m node (l + 4)

        m₂ : Mem
        m₂ = write m₁ (l + 4 + 4) node

    last_off : (last l xs ≡ l) ⊎ Off l (last l xs)
    last_off = last-Off l l xs v.nodes

    last_apart : (last l xs ≡ l) ⊎ Apart node (last l xs)
    last_apart = last-Apart node l xs h.1
