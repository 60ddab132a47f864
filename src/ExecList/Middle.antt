-- ===== src/ExecList/Middle.antt =====
-- `remove` takes any node out of its list.
use amitools.Prelude.{
  ℕ, ◌+◌, ◌≡◌, ◌≢◌, ◌⊎◌, inl, inr, refl, Bool, true, false, some, List, [], ◌∷◌, ◌++◌, arith,
  if◌then◌else◌,
}
use mathlib.Core.List.{append-nil}
use amitools.ExecList.{Mem, write, succ, pred, set_succ, set_pred, tail_node, remove}
use amitools.ExecList.Chain.{
  Chain, AllApart, Off, Nodes, IsList, NotIn, Chain-write, NotIn-AllApart, NotIn-Nodes,
  Chain-append, Chain-split, last, Chain-last, Inner, Inner-NotIn, Inner-last, SameInner,
  SameInner-refl, SameInner-write, Chain-relink, last-Off,
}

-- No node of the one list overlaps one of the other.
abbrev pub Cross : List ℕ → List ℕ → Type 0
Cross [] ys = Unit
Cross (x ∷ xs) ys = AllApart x ys × Cross xs ys

pub AllApart-append :
    (a : ℕ) (xs ys : List ℕ) → AllApart a (xs ++ ys) → AllApart a xs × AllApart a ys
AllApart-append a [] ys h = (tt, h)
AllApart-append a (x ∷ xs) ys h = let (p, q) = AllApart-append a xs ys h.1 in ((h.0, p), q)

AllApart-join : (a : ℕ) (xs ys : List ℕ) → AllApart a xs → AllApart a ys → AllApart a (xs ++ ys)
AllApart-join a [] ys p q = q
AllApart-join a (x ∷ xs) ys p q = (p.0, AllApart-join a xs ys p.1 q)

pub Nodes-split :
    (l : ℕ) (xs ys : List ℕ) → Nodes l (xs ++ ys) → Nodes l xs × Nodes l ys × Cross xs ys
Nodes-split l [] ys h = (tt, h, tt)
Nodes-split l (x ∷ xs) ys h =
    let (p, q, r) = Nodes-split l xs ys h.2 in
    let (a, b) = AllApart-append x xs ys h.1 in ((h.0, a, p), q, (b, r))

pub Nodes-join :
    (l : ℕ) (xs ys : List ℕ) → Nodes l xs → Nodes l ys → Cross xs ys → Nodes l (xs ++ ys)
Nodes-join l [] ys p q r = q
Nodes-join l (x ∷ xs) ys p q r = (p.0, AllApart-join x xs ys p.1 r.0, Nodes-join l xs ys p.2 q r.1)

pub Cross-tail : (xs : List ℕ) (y : ℕ) (ys : List ℕ) → Cross xs (y ∷ ys) → Cross xs ys
Cross-tail [] y ys c = tt
Cross-tail (x ∷ xs) y ys c = (c.0.1, Cross-tail xs y ys c.1)

pub Cross-head : (xs : List ℕ) (y : ℕ) (ys : List ℕ) → Cross xs (y ∷ ys) → AllApart y xs
Cross-head [] y ys c = tt
Cross-head (x ∷ xs) y ys c = (omega (arith, c.0.0), Cross-head xs y ys c.1)

pub Cross-last : (p : ℕ) (xs ys : List ℕ) → Cross xs ys → (last p xs ≡ p) ⊎ AllApart (last p xs) ys
Cross-last p [] ys c = inl refl
Cross-last p (x ∷ xs) ys c = inr (elim (Cross-last x xs ys c.1) [ inl e ↦ rw e c.0 | inr a ↦ a ])

-- A write beside the pointers of a list.
pub IsList-write :
    (m : Mem) (l : ℕ) (xs : List ℕ) (a v : ℕ)
    → a ≢ l
    → a ≢ tail_node l
    → a ≢ tail_node l + 4
    → NotIn a xs
    → IsList m l xs
    → IsList (write m a v) l xs
IsList-write m l xs a v h i j n s = record {
  header = s.header;
  chain = Chain-write m a v l xs (tail_node l) h j n s.chain;
  ending = ground (arith, s.ending);
  nodes = s.nodes;
}

module _ (m : Mem) (l : ℕ) (xs : List ℕ) (x : ℕ) where
  abbrev before : ℕ
  before = last l xs

  -- `succ.pred.ref = pred; pred.succ.ref = succ`
  abbrev unlinked : ℕ → Mem
  unlinked s = write (write m (s + 4) before) before s

  module _ (ys : List ℕ) (v : IsList m l (xs ++ x ∷ ys)) where
    nodes : Nodes l xs × Nodes l (x ∷ ys) × Cross xs (x ∷ ys)
    nodes = Nodes-split l xs (x ∷ ys) v.nodes

    links : Chain m l xs x × Chain m x ys (tail_node l)
    links = Chain-split m l xs x ys (tail_node l) v.chain

    before-Off : (before ≡ l) ⊎ Off l before
    before-Off = last-Off l l xs nodes.0

    same_before : (s : ℕ) → Inner (s + 4) l xs → SameInner m (unlinked s) l xs
    same_before s h =
        SameInner-write m (write m (s + 4) before) before s l xs
          (Inner-last l l xs (NotIn-Nodes l xs nodes.0).0 nodes.0)
          (SameInner-write m m (s + 4) before l xs h (SameInner-refl m l xs))

  unlinked_end : IsList m l (xs ++ x ∷ []) → IsList (unlinked (tail_node l)) l xs
  unlinked_end v = record {
    header = v.header;
    chain =
        Chain-relink m (unlinked (tail_node l)) l xs x (tail_node l) (links [] v).0
          (same_before [] v (tail_node l) inner) (ground arith) (ground (arith, before-Off [] v));
    ending = ground (arith, v.ending, v.header, before-Off [] v);
    nodes = (nodes [] v).0;
  }
    where
      inner : Inner (tail_node l + 4) l xs
      inner =
          let e : tail_node l + 4 ≡ l + 8 = omega arith in
          rw e (Inner-NotIn (l + 8) l xs (omega arith) (NotIn-Nodes l xs (nodes [] v).0).2)

  unlinked_node :
      (y : ℕ) (ys : List ℕ) → IsList m l (xs ++ x ∷ y ∷ ys) → IsList (unlinked y) l (xs ++ y ∷ ys)
  unlinked_node y ys v = record {
    header = v.header;
    chain =
        Chain-append (unlinked y) l xs y ys (tail_node l)
          (Chain-relink m (unlinked y) l xs x y (links (y ∷ ys) v).0
            (same_before (y ∷ ys) v y inner) (ground arith) (ground (arith, before_y)))
          after;
    ending = ground (arith, v.ending, v.header, before-Off (y ∷ ys) v, parts);
    nodes = Nodes-join l xs (y ∷ ys) parts.0 parts.1.2 cross;
  }
    where
      parts : Nodes l xs × Nodes l (x ∷ y ∷ ys) × Cross xs (x ∷ y ∷ ys)
      parts = nodes (y ∷ ys) v

      cross : Cross xs (y ∷ ys)
      cross = Cross-tail xs x (y ∷ ys) parts.2

      inner : Inner (y + 4) l xs
      inner =
          Inner-NotIn (y + 4) l xs (ground (arith, parts))
            (NotIn-AllApart y xs (Cross-head xs y ys cross)).1

      apart : (before ≡ l) ⊎ AllApart before (y ∷ ys)
      apart = Cross-last l xs (y ∷ ys) cross

      outside : NotIn before ys
      outside = elim apart [
        | inl e ↦ rw e (NotIn-Nodes l ys parts.1.2.2).0
        | inr a ↦ (NotIn-AllApart before ys a.1).0
      ]

      before_y : before ≢ y + 4
      before_y = ground (arith, before-Off (y ∷ ys) v, parts, apart)

      before_ne : before ≢ y
      before_ne = ground (arith, before-Off (y ∷ ys) v, parts, apart)

      before_end : before ≢ l + 8
      before_end = ground (arith, before-Off (y ∷ ys) v)

      after : Chain (unlinked y) y ys (tail_node l)
      after =
          Chain-write (write m (y + 4) before) before y y ys (tail_node l) before_ne
            (λ e. before_end (omega (arith, e))) outside
            (Chain-write m (y + 4) before y ys (tail_node l) (omega arith) (ground (arith, parts))
              (NotIn-AllApart y ys parts.1.2.1).1 (links (y ∷ ys) v).1.2)

-- What `remove` leaves, clearing aside.
unlink :
    (m : Mem) (l : ℕ) (xs : List ℕ) (x : ℕ) (ys : List ℕ)
    → IsList m l (xs ++ x ∷ ys)
    → (succ m x ≢ 0)
      × (pred m x ≢ 0)
      × IsList (set_succ (pred m x) (succ m x) (set_pred (succ m x) (pred m x) m)) l (xs ++ ys)
unlink m l xs x [] v =
    let (c, d) = links m l xs x [] v in
    let (p, q) = Chain-last m l xs x c in
    (
      ground (arith, d, v.header),
      ground (arith, q, v.header, before-Off m l xs x [] v),
      rw (append-nil, d.0, q) (unlinked_end m l xs x v),
    )
unlink m l xs x (y ∷ ys) v =
    let (c, d) = links m l xs x (y ∷ ys) v in
    let (p, q) = Chain-last m l xs x c in
    (
      ground (arith, d, (nodes m l xs x (y ∷ ys) v).1.2),
      ground (arith, q, v.header, before-Off m l xs x (y ∷ ys) v),
      rw (d.0, q) (unlinked_node m l xs x y ys v),
    )

-- A node of the list does not touch the header or another node.
NotIn-node :
    (l : ℕ) (xs : List ℕ) (x : ℕ) (ys : List ℕ)
    → Nodes l (xs ++ x ∷ ys)
    → Off l x × NotIn x (xs ++ ys) × NotIn (x + 4) (xs ++ ys)
NotIn-node l xs x ys h =
    let (p, q, r) = Nodes-split l xs (x ∷ ys) h in
    let (a, b) = NotIn-AllApart x (xs ++ ys) (AllApart-join x xs ys (Cross-head xs x ys r) q.1) in
    (q.0, a, b)

remove-some :
    (x : ℕ) (clear : Bool) (m : Mem)
    → succ m x ≢ 0
    → pred m x ≢ 0
    → remove x clear m
      ≡ some (
          let m' = set_succ (pred m x) (succ m x) (set_pred (succ m x) (pred m x) m) in
          if clear then set_pred x 0 (set_succ x 0 m') else m')
unfolding remove
remove-some x clear m h k = ground arith

-- Removing a node of a well-formed list succeeds and takes it out of the list, and nothing else:
-- the list keeps its other nodes in their order. If asked to, `remove` also sets the pointers of
-- the node to 0.
pub remove-IsList :
    (m : Mem) (l : ℕ) (xs : List ℕ) (x : ℕ) (ys : List ℕ) (clear : Bool)
    → IsList m l (xs ++ x ∷ ys)
    → (m' : Mem) × (remove x clear m ≡ some m')
      × IsList m' l (xs ++ ys)
      × ((clear ≡ false) ⊎ ((succ m' x ≡ 0) × (pred m' x ≡ 0)))
remove-IsList m l xs x ys false v =
    let (h, k, w) = unlink m l xs x ys v in (_, remove-some x false m h k, w, inl refl)
remove-IsList m l xs x ys true v =
    let (h, k, w) = unlink m l xs x ys v in
    let (o, a, b) = NotIn-node l xs x ys v.nodes in
    let m' = set_succ (pred m x) (succ m x) (set_pred (succ m x) (pred m x) m) in
    (
      _,
      remove-some x true m h k,
      IsList-write (set_succ x 0 m') l (xs ++ ys) (x + 4) 0 (ground (arith, o)) (ground (arith, o))
          (ground (arith, o)) b
          (IsList-write m' l (xs ++ ys) x 0 (ground (arith, o)) (ground (arith, o))
            (ground (arith, o)) a w),
      inr (ground arith, ground arith),
    )
