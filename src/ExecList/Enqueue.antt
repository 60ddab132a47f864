-- ===== src/ExecList/Enqueue.antt =====
-- `enqueue` keeps a list in the order of its priorities.
use amitools.Prelude.{
  Bool-cases, length, ℕ, zero, suc, ◌+◌, ◌<◌, ◌≡◌, ◌≢◌, inl, inr, refl, sym, ap, ◌∙◌, Option, none,
  some, List, [], ◌∷◌, ◌++◌, arith, if◌then◌else◌,
}
use amitools.Prelude.Int.{ℤ, ◌≤ℤ◌, ltb_ℤ}
use mathlib.Core.List.Perm
use mathlib.Core.List.{Perm, append-nil, append_assoc}
use amitools.ExecList.{
  Mem, succ, tail_node, node_pri, add_head, add_tail, insert, enqueue_from, enqueue,
}
use amitools.ExecList.Chain.{IsList, CanAdd, NotIn, Chain-split, Chain-last, last, last-Off}
use amitools.ExecList.Ends.{add_head-IsList, add_tail-IsList}
use amitools.ExecList.Middle.{Nodes-split}
use amitools.ExecList.Insert.{insert-last, last-append}
use amitools.ExecList.Walk.{next_ne}

-- `node` before the first of `xs` that has a lower priority.
abbrev pub put : (ℕ → ℤ) → ℕ → List ℕ → List ℕ
put pri node [] = node ∷ []
put pri node (x ∷ xs) = if ltb_ℤ (pri x) (pri node) then node ∷ x ∷ xs else x ∷ put pri node xs

-- The node that the loop remembers when it has passed `xs`.
abbrev pred_of : ℕ → List ℕ → Option ℕ
pred_of l [] = none
pred_of l (x ∷ xs) = some (last x xs)

pred_of-append : (l : ℕ) (xs : List ℕ) (y : ℕ) → pred_of l (xs ++ y ∷ []) ≡ some y
pred_of-append l [] y = refl
pred_of-append l (x ∷ xs) y = rw (last-append x xs y)

insert-pred_of :
    (m : Mem) (l : ℕ) (xs ys : List ℕ) (node : ℕ)
    → IsList m l (xs ++ ys)
    → CanAdd l node (xs ++ ys)
    → IsList (insert l node (pred_of l xs) m) l (xs ++ node ∷ ys)
unfolding insert
insert-pred_of m l [] ys node v h = add_head-IsList l node ys m v h
insert-pred_of m l (x ∷ xs) ys node v h =
    insert-last m l (x ∷ xs) ys node
      (ground (arith, last-Off l x xs (Nodes-split l (x ∷ xs) ys v.nodes).0.2, v.nodes)) v h

module _ (pri : ℕ → ℤ) (fuel l node : ℕ) (p : Option ℕ) (m : Mem) where
  at_end :
      (ln : ℕ)
      → succ m ln ≡ 0
      → enqueue_from pri (suc fuel) l node p ln m ≡ some (add_tail l node m)
  unfolding enqueue_from
  at_end ln e = rw (e, enqueue_from) refl

  at_node :
      (ln : ℕ)
      → succ m ln ≢ 0
      → enqueue_from pri (suc fuel) l node p ln m ≡ (
          if ltb_ℤ (pri ln) (pri node)
          then some (insert l node p m)
          else enqueue_from pri fuel l node (some ln) (succ m ln) m)
  unfolding enqueue_from
  at_node ln h = ground arith

-- A long that is no pointer of the list, nor of the nodes `xs`.
abbrev pub Spared : ℕ → List ℕ → ℕ → Type 0
Spared l xs a = (a ≢ l) × (a ≢ l + 4) × (a ≢ l + 8) × NotIn a xs

Spared-last : (l : ℕ) (xs : List ℕ) (a : ℕ) → a ≢ l → NotIn a xs → a ≢ last l xs
Spared-last l [] a h n = h
Spared-last l (x ∷ xs) a h n = Spared-last x xs a n.0 n.2

NotIn-append : (a : ℕ) (xs ys : List ℕ) → NotIn a (xs ++ ys) → NotIn a xs × NotIn a ys
NotIn-append a [] ys h = (tt, h)
NotIn-append a (x ∷ xs) ys h = let (i, j) = NotIn-append a xs ys h.2 in ((h.0, h.1, i), j)

add_tail-Spared :
    (m : Mem) (l node : ℕ) (xs : List ℕ) (a : ℕ)
    → m (l + 8) ≡ last l xs
    → Spared l xs a
    → a ≢ node
    → a ≢ node + 4
    → add_tail l node m a ≡ m a
unfolding add_tail
add_tail-Spared m l node xs a e h i j =
    let k : a ≢ m (l + 8) = λ q. Spared-last l xs a h.0 h.3 (q ∙ e) in ground (arith, h, i, j, k)

insert-Spared :
    (m : Mem) (l node y : ℕ) (xs : List ℕ) (a : ℕ)
    → m (last l xs) ≡ y
    → m (l + 8) ≢ a
    → Spared l xs a
    → a ≢ y + 4
    → a ≢ node
    → a ≢ node + 4
    → insert l node (pred_of l xs) m a ≡ m a
unfolding insert add_head add_tail
insert-Spared m l node y [] a e t h k i j = ground (arith, e, h, k, i, j)
insert-Spared m l node y (x ∷ xs) a e t h k i j =
    let p = Spared-last x xs a h.3.0 h.3.2 in ground (arith, e, t, h, k, i, j, p)

tail_pred : (m : Mem) (l p : ℕ) → m (tail_node l + 4) ≡ p → m (l + 8) ≡ p
tail_pred m l p e = ap m (omega arith) ∙ e

enqueue_from-IsList :
    (pri : ℕ → ℤ) (fuel l node : ℕ) (xs ys : List ℕ) (m : Mem)
    → IsList m l (xs ++ ys)
    → CanAdd l node (xs ++ ys)
    → length ys < fuel
    → (m' : Mem) × (enqueue_from pri fuel l node (pred_of l xs) (m (last l xs)) m ≡ some m')
      × IsList m' l (xs ++ put pri node ys)
      × ((a : ℕ) → Spared l (node ∷ xs ++ ys) a → m' a ≡ m a)
enqueue_from-IsList pri zero l node xs ys m v h k = elim k [ ]
enqueue_from-IsList pri (suc fuel) l node xs [] m v h k =
    let w : IsList m l xs = rw append-nil at v in
    let a : CanAdd l node xs = rw append-nil at h in
    let (b, c) = Chain-last m l xs (tail_node l) w.chain in
    (
      add_tail l node m,
      rw b (at_end pri fuel l node (pred_of l xs) m (tail_node l) w.ending),
      add_tail-IsList l node xs m w a,
      λ x s.
          add_tail-Spared m l node xs x (tail_pred m l (last l xs) c)
            (s.0, s.1, s.2, (NotIn-append x xs [] s.3.2).0) s.3.0 s.3.1,
    )
enqueue_from-IsList pri (suc fuel) l node xs (y ∷ ys) m v h k =
    let (c, d) = Chain-split m l xs y ys (tail_node l) v.chain in
    let (a, b) = Chain-last m l xs y c in
    let n = (Nodes-split l xs (y ∷ ys) v.nodes).1.2 in
    let e =
      at_node pri fuel l node (pred_of l xs) m y
        (next_ne m l y ys (tail_node l) (omega arith) n d) in
    let ends =
      tail_pred m l (last l (xs ++ y ∷ ys))
        (Chain-last m l (xs ++ y ∷ ys) (tail_node l) v.chain).1 in
    elim (Bool-cases (ltb_ℤ (pri y) (pri node))) [
      | inl i ↦ (
        insert l node (pred_of l xs) m,
        rw (a, e, i) refl,
        rw i (insert-pred_of m l xs (y ∷ ys) node v h),
        λ x s.
            let (u, w) = NotIn-append x xs (y ∷ ys) s.3.2 in
            let t : m (l + 8) ≢ x = λ q. Spared-last l (xs ++ y ∷ ys) x s.0 s.3.2 (sym q ∙ ends) in
            insert-Spared m l node y xs x a t (s.0, s.1, s.2, u) w.1 s.3.0 s.3.1,
      )
      | inr i ↦
          let (m', f, w, g) =
            enqueue_from-IsList pri fuel l node (xs ++ y ∷ []) ys m (rw append_assoc v)
              (rw append_assoc h) (omega (arith, k)) in
          (
            m',
            rw (a, e, i) (rw (pred_of-append, last-append) at f),
            rw i (rw append_assoc at w),
            λ x s. g x (rw (← append_assoc xs (y ∷ []) ys) at s),
          )
    ]

-- With more fuel than nodes, `enqueue` ends on a well-formed list, puts a node that overlaps neither the
-- list nor its nodes before the first one of a lower priority, and leaves alone what is no pointer of
-- the list or of these nodes.
pub enqueue-IsList :
    (fuel l node : ℕ) (xs : List ℕ) (m : Mem)
    → IsList m l xs
    → CanAdd l node xs
    → length xs < fuel
    → (m' : Mem) × (enqueue fuel l node m ≡ some m')
      × IsList m' l (put (node_pri m) node xs)
      × ((a : ℕ) → Spared l (node ∷ xs) a → m' a ≡ m a)
unfolding enqueue
enqueue-IsList fuel l node xs m v h k = enqueue_from-IsList (node_pri m) fuel l node [] xs m v h k

-- No node of `xs` has a priority above `p`.
abbrev pub NoneAbove : (ℕ → ℤ) → ℤ → List ℕ → Type 0
NoneAbove pri p [] = Unit
NoneAbove pri p (x ∷ xs) = (pri x ≤ℤ p) × NoneAbove pri p xs

-- No node stands behind one of a lower priority.
abbrev pub IsSorted : (ℕ → ℤ) → List ℕ → Type 0
IsSorted pri [] = Unit
IsSorted pri (x ∷ xs) = NoneAbove pri (pri x) xs × IsSorted pri xs

-- The longs with the priorities of the nodes are no pointers of the list or of the nodes `all`.
abbrev pub PrisSpared : ℕ → List ℕ → List ℕ → Type 0
PrisSpared l all [] = Unit
PrisSpared l all (x ∷ xs) = Spared l all (x + 8) × PrisSpared l all xs

-- Two readings of the priorities that agree on the nodes.
abbrev Agree : (ℕ → ℤ) → (ℕ → ℤ) → List ℕ → Type 0
Agree pri pri' [] = Unit
Agree pri pri' (x ∷ xs) = (pri x ≡ pri' x) × Agree pri pri' xs
