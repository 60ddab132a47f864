-- ===== src/AmiPath/Join.antt =====
-- `join`: a path that is not absolute is joined below the prefix of the first one.
use amitools.Prelude.{
  ℕ, zero, suc, ◌≡◌, ◌⊎◌, inl, inr, refl, sym, Option-cases, Bool-cases, Bool, true, false, not,
  none, some, List, [], ◌∷◌, ◌++◌, take, arith,
}
use amitools.Prelude.Strs.{
  colon, slash, find, rfind, but_last, starts_with, find-append, find-but_last, find-take_prefix,
}
use amitools.AmiPath.{
  AmiPath, PathResult, ok, ami_path_error, is_absolute, is_empty, is_cwd, is_none, is_parent_local,
  is_prefix_local, prefix, postfix, strip_trailing, strip_leading, build, parent, parent_postfix,
  join, join_parent, join_local,
}
use amitools.AmiPath.Prefix.{HasPrefix, NoPrefix, NoPrefix_lem, prefix-cases, build-HasPrefix}

-- Strings with no colon behind their first character.
but_last-relative : (s : List ℕ) → is_absolute s ≡ false → is_absolute (but_last s) ≡ false
but_last-relative [] h = refl
but_last-relative (x ∷ []) h = refl
but_last-relative (x ∷ y ∷ s) h = ground (arith, find-but_last colon (y ∷ s))

take-relative : (i : ℕ) (s : List ℕ) → is_absolute s ≡ false → is_absolute (take i s) ≡ false
take-relative zero s h = refl
take-relative (suc i) [] h = refl
take-relative (suc i) (x ∷ s) h = ground (arith, find-take_prefix colon i s)

strip_trailing-relative :
    (s : List ℕ) → is_absolute s ≡ false → is_absolute (strip_trailing s) ≡ false
strip_trailing-relative s h = ground (arith, but_last-relative s)

find-strip_trailing : (s : List ℕ) → find colon s ≡ none → find colon (strip_trailing s) ≡ none
find-strip_trailing s h = ground (arith, find-but_last colon s)

find-strip_leading : (s : List ℕ) → find colon s ≡ none → find colon (strip_leading s) ≡ none
find-strip_leading [] h = refl
find-strip_leading (x ∷ s) h = ground arith

append-relative :
    (s t : List ℕ)
    → is_empty s ≡ false
    → is_absolute s ≡ false
    → find colon t ≡ none
    → is_absolute (s ++ t) ≡ false
append-relative [] t e h k = ground arith
append-relative (x ∷ s) t e h k = ground (arith, find-append colon s t)

find-slash_cons : (t : List ℕ) → find colon t ≡ none → find colon (slash ∷ t) ≡ none
find-slash_cons t h = ground arith

pub join_local-relative :
    (s t : List ℕ)
    → is_absolute s ≡ false
    → find colon t ≡ none
    → is_absolute (join_local s t) ≡ false
unfolding join_local
join_local-relative s t h k =
    ground (arith, append-relative s t, append-relative s (slash ∷ t), find-slash_cons t)

join_parent-relative :
    (s t : List ℕ)
    → is_absolute s ≡ false
    → find colon t ≡ none
    → is_absolute (join_parent s t) ≡ false
unfolding join_parent
join_parent-relative [] t h k = ground arith
join_parent-relative (x ∷ s) t h k =
    ground (arith, append-relative (x ∷ s) (slash ∷ t), find-slash_cons t)

parent_postfix-relative :
    (s up : List ℕ) → is_absolute s ≡ false → parent_postfix s ≡ some up → is_absolute up ≡ false
unfolding parent_postfix
parent_postfix-relative s up h k = elim (Option-cases (rfind slash s)) [
  | inl e ↦ ground (arith, e)
  | inr (i, e) ↦ ground (arith, e, take-relative i s)
]

local-no_colon :
    (o : AmiPath) → is_absolute o ≡ false → is_prefix_local o ≡ false → find colon o ≡ none
local-no_colon [] h k = refl
local-no_colon (x ∷ o) h k = ground arith

parent_local-not_prefix : (o : AmiPath) → is_parent_local o ≡ true → is_prefix_local o ≡ false
parent_local-not_prefix [] h = refl
parent_local-not_prefix (x ∷ o) h = ground arith

pub build-keeps :
    (p : AmiPath) (post : List ℕ)
    → (NoPrefix p → is_absolute post ≡ false)
    → prefix (build (prefix p) post) ≡ prefix p
unfolding HasPrefix NoPrefix
build-keeps p post h = elim (prefix-cases p) [
  | inl n ↦ rw n.1 (NoPrefix_lem post (h n)).1
  | inr (pre, rest, w) ↦ rw w.2 (build-HasPrefix pre post w.0 w.1).2
]

-- The postfix of a relative path is relative.
pub postfix-relative : (p : AmiPath) → NoPrefix p → is_absolute (postfix false true p) ≡ false
unfolding NoPrefix postfix
postfix-relative p n = rw n.2 (strip_trailing-relative p n.0)

postfix-no_colon :
    (skip : Bool) (o : AmiPath)
    → is_absolute o ≡ false
    → find colon o ≡ none
    → find colon (postfix skip true o) ≡ none
unfolding NoPrefix postfix
postfix-no_colon false o h k = rw (NoPrefix_lem o h).2 (find-strip_trailing o k)
postfix-no_colon true o h k =
    rw (NoPrefix_lem o h).2 (find-strip_leading (strip_trailing o) (find-strip_trailing o k))

pub starts_with-nonempty : (c : ℕ) (o : List ℕ) → starts_with c o ≡ true → is_empty o ≡ false
starts_with-nonempty c [] h = sym h
starts_with-nonempty c (x ∷ o) h = refl

prefix_local-not_parent : (o : AmiPath) → is_prefix_local o ≡ true → is_parent_local o ≡ false
prefix_local-not_parent [] h = refl
prefix_local-not_parent (x ∷ o) h = ground arith

parent-some :
    (p my : AmiPath)
    → parent p ≡ some my
    → (up : List ℕ) × (parent_postfix (postfix false true p) ≡ some up) × (my ≡ build (prefix p) up)
unfolding parent
parent-some p my e = elim (Option-cases (parent_postfix (postfix false true p))) [
  | inl f ↦ ground (arith, e, f)
  | inr (up, f) ↦ (up, f, ground (arith, e, f))
]

parent-relative :
    (p my : AmiPath) → NoPrefix p → parent p ≡ some my → is_absolute (postfix false true my) ≡ false
unfolding NoPrefix
parent-relative p my n e =
    let (up, f, g) = parent-some p my e in
    let r = parent_postfix-relative (postfix false true p) up (postfix-relative p n) f in
    let g' = (rw n.1 at g) in postfix-relative my (NoPrefix_lem my (rw g' r))

-- How a path joined below the first one comes out.
IsBelow : AmiPath → AmiPath → PathResult → Type 0
IsBelow p o res =
    ((r : AmiPath) × (res ≡ ok r) × (prefix r ≡ prefix p))
    ⊎ ((res ≡ ami_path_error)
        × (is_parent_local o ≡ true)
        × ((is_parent_local p ≡ true) ⊎ (parent p ≡ none)))

unfoldable joined_parent : AmiPath → AmiPath → AmiPath → AmiPath
joined_parent p my o = build (prefix p) (join_parent (postfix false true my) (postfix true true o))

unfoldable joined_prefix : AmiPath → AmiPath → AmiPath
joined_prefix p o = build (prefix p) (postfix (not (is_none (prefix p))) true o)

unfoldable joined_local : AmiPath → AmiPath → AmiPath
joined_local p o = build (prefix p) (join_local (postfix false true p) (postfix false true o))

join-parent_local :
    (p o : AmiPath) → is_absolute o ≡ false → is_parent_local o ≡ true → IsBelow p o (join p o)
unfolding IsBelow join joined_parent
join-parent_local p o h k =
    let w = local-no_colon o h (parent_local-not_prefix o k) in
    elim (Bool-cases (is_parent_local p)) [
      | inl e ↦ inr (ground (arith, starts_with-nonempty slash o k), k, inl e)
      | inr e ↦ elim (Option-cases (parent p)) [
        | inl f ↦ inr (ground (arith, starts_with-nonempty slash o k, f), k, inr f)
        | inr (my, f) ↦ inl (
          joined_parent p my o,
          ground (arith, starts_with-nonempty slash o k, f),
          build-keeps p (join_parent (postfix false true my) (postfix true true o)) (λ n.
              join_parent-relative _ _ (parent-relative p my n f) (postfix-no_colon true o h w)),
        )
      ]
    ]

prefix_kept :
    (p o : AmiPath)
    → is_absolute o ≡ false
    → NoPrefix p
    → is_absolute (postfix (not (is_none (prefix p))) true o) ≡ false
unfolding NoPrefix
prefix_kept p o h n = rw n.1 (postfix-relative o (NoPrefix_lem o h))

join-prefix_local :
    (p o : AmiPath) → is_absolute o ≡ false → is_prefix_local o ≡ true → IsBelow p o (join p o)
unfolding IsBelow join joined_prefix
join-prefix_local p o h k = inl (
  joined_prefix p o,
  ground (arith, starts_with-nonempty colon o k, prefix_local-not_parent o k),
  build-keeps p (postfix (not (is_none (prefix p))) true o) (λ n. prefix_kept p o h n),
)

join-local :
    (p o : AmiPath)
    → is_absolute o ≡ false
    → is_cwd o ≡ false
    → is_parent_local o ≡ false
    → is_prefix_local o ≡ false
    → IsBelow p o (join p o)
unfolding IsBelow join joined_local
join-local p o h e k w = inl (
  joined_local p o,
  ground (arith, e, k, w),
  build-keeps p (join_local (postfix false true p) (postfix false true o)) (λ n.
      join_local-relative _ _ (postfix-relative p n)
        (postfix-no_colon false o h (local-no_colon o h w))),
)

join-cwd : (p o : AmiPath) → is_cwd o ≡ true → IsBelow p o (join p o)
unfolding IsBelow join
join-cwd p o e = inl (p, ground (arith, e), refl)

-- A path that is not absolute, joined to any path, gives one with the prefix of that path, or with
-- none when that has none. It fails only when it is relative to the parent and the path before it is
-- so too or has no parent.
pub join-keeps_prefix :
    (p o : AmiPath)
    → is_absolute o ≡ false
    → ((r : AmiPath) × (join p o ≡ ok r) × (prefix r ≡ prefix p))
      ⊎ ((join p o ≡ ami_path_error)
          × (is_parent_local o ≡ true)
          × ((is_parent_local p ≡ true) ⊎ (parent p ≡ none)))
unfolding IsBelow
join-keeps_prefix p o h = elim (Bool-cases (is_cwd o)) [
  | inl e ↦ join-cwd p o e
  | inr e ↦ elim (Bool-cases (is_parent_local o)) [
    | inl k ↦ join-parent_local p o h k
    | inr k ↦ elim (Bool-cases (is_prefix_local o)) [
      | inl w ↦ join-prefix_local p o h w
      | inr w ↦ join-local p o h e k w
    ]
  ]
]
