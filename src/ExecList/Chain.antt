-- ===== src/ExecList/Chain.antt =====
-- What a chain of nodes in memory is, and which writes leave it alone.
use amitools.Prelude.{
  ℕ, ◌+◌, ◌≤◌, ◌<◌, ◌≡◌, ◌≢◌, ◌⊎◌, inl, inr, ◌∙◌, refl, sym, List, [], ◌∷◌, ◌++◌, arith,
}
use amitools.ExecList.{Mem, write, tail_node}

-- `p` and `q` with the nodes `xs` between them, linked both ways.
abbrev pub Chain : Mem → ℕ → List ℕ → ℕ → Type 0
Chain m p [] q = (m p ≡ q) × (m (q + 4) ≡ p)
Chain m p (x ∷ xs) q = (m p ≡ x) × (m (x + 4) ≡ p) × Chain m x xs q

-- Two nodes that do not overlap.
abbrev pub Apart : ℕ → ℕ → Type 0
Apart a b = (a + 8 ≤ b) ⊎ (b + 8 ≤ a)

abbrev pub AllApart : ℕ → List ℕ → Type 0
AllApart a [] = Unit
AllApart a (x ∷ xs) = Apart a x × AllApart a xs

-- A node that does not overlap the list's header.
abbrev pub Off : ℕ → ℕ → Type 0
Off l a = (0 < a) × ((a + 8 ≤ l) ⊎ (l + 12 ≤ a))

-- The nodes overlap neither the header nor one another.
abbrev pub Nodes : ℕ → List ℕ → Type 0
Nodes l [] = Unit
Nodes l (x ∷ xs) = Off l x × AllApart x xs × Nodes l xs

-- The list at `l` has the nodes `xs`, in this order.
pub record IsList (m : Mem) (l : ℕ) (xs : List ℕ) : Type 0 where
  pub header : 0 < l
  pub chain : Chain m l xs (tail_node l)
  pub ending : m (tail_node l) ≡ 0
  pub nodes : Nodes l xs

-- A node that may be added to a list.
abbrev pub CanAdd : ℕ → ℕ → List ℕ → Type 0
CanAdd l a xs = Off l a × AllApart a xs

-- No node of the chain has a pointer at `a`.
abbrev pub NotIn : ℕ → List ℕ → Type 0
NotIn a [] = Unit
NotIn a (x ∷ xs) = (a ≢ x) × (a ≢ x + 4) × NotIn a xs

pub Chain-write :
    (m : Mem) (a v p : ℕ) (xs : List ℕ) (q : ℕ)
    → a ≢ p
    → a ≢ q + 4
    → NotIn a xs
    → Chain m p xs q
    → Chain (write m a v) p xs q
Chain-write m a v p [] q h k n c = ground arith
Chain-write m a v p (x ∷ xs) q h k n c = ground (arith, Chain-write m a v x xs q)

pub NotIn-AllApart : (a : ℕ) (xs : List ℕ) → AllApart a xs → NotIn a xs × NotIn (a + 4) xs
NotIn-AllApart a [] h = (tt, tt)
NotIn-AllApart a (x ∷ xs) h = ground (arith, NotIn-AllApart a xs)

pub NotIn-Nodes :
    (l : ℕ) (xs : List ℕ) → Nodes l xs → NotIn l xs × NotIn (l + 4) xs × NotIn (l + 8) xs
NotIn-Nodes l [] h = (tt, tt, tt)
NotIn-Nodes l (x ∷ xs) h = ground (arith, NotIn-Nodes l xs)

-- A chain can be cut at a node, and put together there.
pub Chain-append :
    (m : Mem) (p : ℕ) (xs : List ℕ) (y : ℕ) (ys : List ℕ) (q : ℕ)
    → Chain m p xs y
    → Chain m y ys q
    → Chain m p (xs ++ y ∷ ys) q
Chain-append m p [] y ys q c d = (c.0, c.1, d)
Chain-append m p (x ∷ xs) y ys q c d = (c.0, c.1, Chain-append m x xs y ys q c.2 d)

pub Chain-split :
    (m : Mem) (p : ℕ) (xs : List ℕ) (y : ℕ) (ys : List ℕ) (q : ℕ)
    → Chain m p (xs ++ y ∷ ys) q
    → Chain m p xs y × Chain m y ys q
Chain-split m p [] y ys q c = ((c.0, c.1), c.2)
Chain-split m p (x ∷ xs) y ys q c = let (a, b) = Chain-split m x xs y ys q c.2 in ((c.0, c.1, a), b)

-- The node before the end of a chain.
abbrev pub last : ℕ → List ℕ → ℕ
last p [] = p
last p (x ∷ xs) = last x xs

pub Chain-last :
    (m : Mem) (p : ℕ) (xs : List ℕ) (q : ℕ)
    → Chain m p xs q
    → (m (last p xs) ≡ q) × (m (q + 4) ≡ last p xs)
Chain-last m p [] q c = c
Chain-last m p (x ∷ xs) q c = Chain-last m x xs q c.2

-- The chain has no pointer at `a`, the two at its end aside.
abbrev pub Inner : ℕ → ℕ → List ℕ → Type 0
Inner a p [] = Unit
Inner a p (x ∷ xs) = (a ≢ p) × (a ≢ x + 4) × Inner a x xs

pub Inner-NotIn : (a p : ℕ) (xs : List ℕ) → a ≢ p → NotIn a xs → Inner a p xs
Inner-NotIn a p [] h n = tt
Inner-NotIn a p (x ∷ xs) h n = (h, n.1, Inner-NotIn a x xs n.0 n.2)

last-ne : (a p : ℕ) (xs : List ℕ) → a ≢ p → NotIn a xs → a ≢ last p xs
last-ne a p [] h n = h
last-ne a p (x ∷ xs) h n = last-ne a x xs n.0 n.2

-- The pointer that leaves the last node is none of the inner ones.
pub Inner-last : (l p : ℕ) (xs : List ℕ) → NotIn p xs → Nodes l xs → Inner (last p xs) p xs
Inner-last l p [] n h = tt
Inner-last l p (x ∷ xs) n h =
    let a = NotIn-AllApart x xs h.1 in
    (
      λ e. last-ne p x xs n.0 n.2 (sym e),
      λ e. last-ne (x + 4) x xs (omega arith) a.1 (sym e),
      Inner-last l x xs a.0 h.2,
    )

-- Two memories that agree on the inner pointers of a chain.
abbrev pub SameInner : Mem → Mem → ℕ → List ℕ → Type 0
SameInner m m' p [] = Unit
SameInner m m' p (x ∷ xs) = (m' p ≡ m p) × (m' (x + 4) ≡ m (x + 4)) × SameInner m m' x xs

pub SameInner-refl : (m : Mem) (p : ℕ) (xs : List ℕ) → SameInner m m p xs
SameInner-refl m p [] = tt
SameInner-refl m p (x ∷ xs) = (refl, refl, SameInner-refl m x xs)

pub SameInner-write :
    (m m' : Mem) (a v p : ℕ) (xs : List ℕ)
    → Inner a p xs
    → SameInner m m' p xs
    → SameInner m (write m' a v) p xs
SameInner-write m m' a v p [] h s = tt
SameInner-write m m' a v p (x ∷ xs) h s = ground (arith, SameInner-write m m' a v x xs)

-- A chain whose end is linked to another node.
pub Chain-relink :
    (m m' : Mem) (p : ℕ) (xs : List ℕ) (q r : ℕ)
    → Chain m p xs q
    → SameInner m m' p xs
    → m' (last p xs) ≡ r
    → m' (r + 4) ≡ last p xs
    → Chain m' p xs r
Chain-relink m m' p [] q r c s e f = (e, f)
Chain-relink m m' p (x ∷ xs) q r c s e f =
    (s.0 ∙ c.0, s.1 ∙ c.1, Chain-relink m m' x xs q r c.2 s.2 e f)

-- The last node is the start of the chain, or one of its nodes.
pub last-Off : (l p : ℕ) (xs : List ℕ) → Nodes l xs → (last p xs ≡ p) ⊎ Off l (last p xs)
last-Off l p [] h = inl refl
last-Off l p (x ∷ xs) h = inr (elim (last-Off l x xs h.2) [ inl e ↦ rw e h.0 | inr o ↦ o ])

pub last-Apart : (a p : ℕ) (xs : List ℕ) → AllApart a xs → (last p xs ≡ p) ⊎ Apart a (last p xs)
last-Apart a p [] h = inl refl
last-Apart a p (x ∷ xs) h = inr (elim (last-Apart a x xs h.1) [ inl e ↦ rw e h.0 | inr o ↦ o ])
