-- ===== src/ExecList/Insert.antt =====
-- `insert` puts a node behind any node of a list.
use amitools.Prelude.{
  ℕ, ◌+◌, ◌≤◌, ◌<◌, ◌≡◌, ◌≢◌, ◌⊎◌, inl, inr, refl, some, List, [], ◌∷◌, ◌++◌, arith,
}
use mathlib.Core.List.{append-nil, append_assoc}
use amitools.ExecList.{Mem, succ, set_succ, set_pred, tail_node, insert}
use amitools.ExecList.Chain.{
  Chain, Apart, AllApart, Off, Nodes, IsList, CanAdd, NotIn, Chain-write, NotIn-AllApart,
  NotIn-Nodes, Chain-append, Chain-split, last, Chain-last, Inner, Inner-NotIn, Inner-last,
  SameInner, SameInner-refl, SameInner-write, Chain-relink, last-Off, last-Apart,
}
use amitools.ExecList.Middle.{
  Cross, Nodes-split, Nodes-join, Cross-head, Cross-last, AllApart-append,
}

Cross-cons : (xs : List ℕ) (y : ℕ) (ys : List ℕ) → AllApart y xs → Cross xs ys → Cross xs (y ∷ ys)
Cross-cons [] y ys h c = tt
Cross-cons (x ∷ xs) y ys h c = ((omega (arith, h), c.0), Cross-cons xs y ys h.1 c.1)

module _ (m : Mem) (l : ℕ) (xs : List ℕ) (node : ℕ) where
  abbrev before : ℕ
  before = last l xs

  -- `node` between `before` and `s`
  abbrev pub linked : ℕ → Mem
  linked s = set_succ before node (set_pred s node (set_pred node before (set_succ node s m)))

  module _ (ys : List ℕ) (v : IsList m l (xs ++ ys)) (h : CanAdd l node (xs ++ ys)) where
    parts : Nodes l xs × Nodes l ys × Cross xs ys
    parts = Nodes-split l xs ys v.nodes

    apart : AllApart node xs × AllApart node ys
    apart = AllApart-append node xs ys h.1

    before-Off : (before ≡ l) ⊎ Off l before
    before-Off = last-Off l l xs parts.0

    before-Apart : (before ≡ l) ⊎ Apart node before
    before-Apart = last-Apart node l xs apart.0

    same_before : (s : ℕ) → Inner (s + 4) l xs → SameInner m (linked s) l xs
    same_before s i =
        SameInner-write m (set_pred s node m₂) before node l xs
          (Inner-last l l xs (NotIn-Nodes l xs parts.0).0 parts.0)
          (SameInner-write m m₂ (s + 4) node l xs i (
            SameInner-write m m₁ (node + 4) before l xs
              (Inner-NotIn (node + 4) l xs (ground (arith, h)) (NotIn-AllApart node xs apart.0).1)
              (SameInner-write m m node s l xs
                (Inner-NotIn node l xs (ground (arith, h)) (NotIn-AllApart node xs apart.0).0)
                (SameInner-refl m l xs))))
      where
        m₁ : Mem
        m₁ = set_succ node s m

        m₂ : Mem
        m₂ = set_pred node before m₁

    nodes : Nodes l (xs ++ node ∷ ys)
    nodes =
        Nodes-join l xs (node ∷ ys) parts.0 (h.0, apart.1, parts.1)
          (Cross-cons xs node ys apart.0 parts.2)

  linked_end : IsList m l xs → CanAdd l node xs → IsList (linked (tail_node l)) l (xs ++ node ∷ [])
  linked_end v h = record {
    header = v.header;
    chain =
        Chain-append m' l xs node [] (tail_node l)
          (Chain-relink m m' l xs (tail_node l) node v.chain
            (same_before [] w k (tail_node l) inner) (ground arith)
            (ground (arith, before-Off [] w k, before-Apart [] w k, h)))
          (ground (arith, before-Apart [] w k, h), ground (arith, before-Off [] w k));
    ending = ground (arith, v.ending, v.header, before-Off [] w k, h);
    nodes = nodes [] w k;
  }
    where
      w : IsList m l (xs ++ [])
      w = rw append-nil v

      k : CanAdd l node (xs ++ [])
      k = rw append-nil h

      m' : Mem
      m' = linked (tail_node l)

      inner : Inner (tail_node l + 4) l xs
      inner =
          let e : tail_node l + 4 ≡ l + 8 = omega arith in
          rw e (Inner-NotIn (l + 8) l xs (omega arith) (NotIn-Nodes l xs (parts [] w k).0).2)

  linked_node :
      (y : ℕ) (ys : List ℕ)
      → IsList m l (xs ++ y ∷ ys)
      → CanAdd l node (xs ++ y ∷ ys)
      → IsList (linked y) l (xs ++ node ∷ y ∷ ys)
  linked_node y ys v h = record {
    header = v.header;
    chain =
        Chain-append m' l xs node (y ∷ ys) (tail_node l)
          (Chain-relink m m' l xs y node links.0 (same_before (y ∷ ys) v h y inner) (ground arith)
            (ground (arith, off, near, h, aside)))
          (ground (arith, near, h, aside), ground (arith, off, aside, around), after);
    ending = ground (arith, v.ending, v.header, off, h, all);
    nodes = nodes (y ∷ ys) v h;
  }
    where
      m' : Mem
      m' = linked y

      all : Nodes l xs × Nodes l (y ∷ ys) × Cross xs (y ∷ ys)
      all = parts (y ∷ ys) v h

      off : (before ≡ l) ⊎ Off l before
      off = before-Off (y ∷ ys) v h

      near : (before ≡ l) ⊎ Apart node before
      near = before-Apart (y ∷ ys) v h

      aside : AllApart node (y ∷ ys)
      aside = (apart (y ∷ ys) v h).1

      around : (before ≡ l) ⊎ AllApart before (y ∷ ys)
      around = Cross-last l xs (y ∷ ys) all.2

      links : Chain m l xs y × Chain m y ys (tail_node l)
      links = Chain-split m l xs y ys (tail_node l) v.chain

      inner : Inner (y + 4) l xs
      inner =
          Inner-NotIn (y + 4) l xs (ground (arith, all))
            (NotIn-AllApart y xs (Cross-head xs y ys all.2)).1

      outside : NotIn before ys
      outside = elim around [
        | inl e ↦ rw e (NotIn-Nodes l ys all.1.2).0
        | inr a ↦ (NotIn-AllApart before ys a.1).0
      ]

      after : Chain m' y ys (tail_node l)
      after =
          Chain-write (set_pred y node m₂) before node y ys q (ground (arith, off, all, around))
            (λ e. before_end (omega (arith, e))) outside
            (Chain-write m₂ (y + 4) node y ys q (omega arith) (ground (arith, all))
              (NotIn-AllApart y ys all.1.1).1
              (Chain-write m₁ (node + 4) before y ys q (ground (arith, aside)) (ground (arith, h))
                (NotIn-AllApart node ys aside.1).1
                (Chain-write m node y y ys q (ground (arith, aside)) (ground (arith, h))
                  (NotIn-AllApart node ys aside.1).0 links.1)))
        where
          q : ℕ
          q = tail_node l

          m₁ : Mem
          m₁ = set_succ node y m

          m₂ : Mem
          m₂ = set_pred node before m₁

          before_end : before ≢ l + 8
          before_end = ground (arith, off)

insert_behind_lem :
    (l node p : ℕ) (m : Mem)
    → p ≢ l
    → succ m p ≢ 0
    → insert l node (some p) m
      ≡ set_succ p node (set_pred (succ m p) node (set_pred node p (set_succ node (succ m p) m)))
unfolding insert
insert_behind_lem l node p m h k = ground arith

-- The node before the insertion is the last of a part of the list.
pub insert-last :
    (m : Mem) (l : ℕ) (xs ys : List ℕ) (node : ℕ)
    → last l xs ≢ l
    → IsList m l (xs ++ ys)
    → CanAdd l node (xs ++ ys)
    → IsList (insert l node (some (last l xs)) m) l (xs ++ node ∷ ys)
insert-last m l xs [] node i v h =
    let w : IsList m l xs = rw append-nil at v in
    let k : CanAdd l node xs = rw append-nil at h in
    let (a, b) = Chain-last m l xs (tail_node l) w.chain in
    rw (insert_behind_lem l node (last l xs) m i (omega (arith, a, w.header)), a)
      (linked_end m l xs node w k)
insert-last m l xs (y ∷ ys) node i v h =
    let (c, d) = Chain-split m l xs y ys (tail_node l) v.chain in
    let (a, b) = Chain-last m l xs y c in
    let positive : 0 < y = (Nodes-split l xs (y ∷ ys) v.nodes).1.0.0 in
    rw (insert_behind_lem l node (last l xs) m i (omega (arith, a, positive)), a)
      (linked_node m l xs node y ys v h)

pub last-append : (p : ℕ) (xs : List ℕ) (x : ℕ) → last p (xs ++ x ∷ []) ≡ x
last-append p [] x = refl
last-append p (y ∷ ys) x = last-append y ys x

-- A node that overlaps neither a well-formed list nor its nodes, inserted behind one of these,
-- stands between that and the next one.
pub insert-IsList :
    (m : Mem) (l : ℕ) (xs : List ℕ) (p : ℕ) (ys : List ℕ) (node : ℕ)
    → IsList m l (xs ++ p ∷ ys)
    → CanAdd l node (xs ++ p ∷ ys)
    → IsList (insert l node (some p) m) l (xs ++ p ∷ node ∷ ys)
insert-IsList m l xs p ys node v h =
    let e : last l (xs ++ p ∷ []) ≡ p = last-append l xs p in
    let off : 0 < p × ((p + 8 ≤ l) ⊎ (l + 12 ≤ p)) = (Nodes-split l xs (p ∷ ys) v.nodes).1.0 in
    rw append_assoc at (
      rw e at (
        insert-last m l (xs ++ p ∷ []) ys node (rw e (omega (arith, off))) (rw append_assoc v)
          (rw append_assoc h)))
