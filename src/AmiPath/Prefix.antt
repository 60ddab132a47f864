-- ===== src/AmiPath/Prefix.antt =====
-- `prefix`, `postfix` and `build`: a path is taken apart at its first colon and put together again.
use amitools.Prelude.{
  ℕ, zero, suc, ◌≡◌, ◌⊎◌, inl, inr, refl, sym, ap, ◌∙◌, Option-cases, false, none, some, List, [],
  ◌∷◌, ◌++◌, take, drop, arith,
}
use amitools.Prelude.Strs.{
  colon, find, find-append_self, find-take, find-take-absent, take-append_length,
  drop-append_length,
}
use amitools.AmiPath.{AmiPath, is_absolute, is_empty, prefix, skip_prefix, postfix, build}

-- A path with a prefix, and one with none.
unfoldable pub HasPrefix : List ℕ → List ℕ → AmiPath → Type 0
HasPrefix pre rest p =
    (is_empty pre ≡ false)
    × (find colon pre ≡ none)
    × (prefix p ≡ some pre)
    × (skip_prefix p ≡ rest)
    × (p ≡ pre ++ colon ∷ rest)

unfoldable pub NoPrefix : AmiPath → Type 0
NoPrefix p = (is_absolute p ≡ false) × (prefix p ≡ none) × (skip_prefix p ≡ p)

take-nonempty :
    (i : ℕ) (p : List ℕ) → find colon p ≡ some (suc i) → is_empty (take (suc i) p) ≡ false
take-nonempty i [] h = ground arith
take-nonempty i (x ∷ p) h = refl

prefix-find : (p : AmiPath) (i : ℕ) → find colon p ≡ some (suc i) → prefix p ≡ some (take (suc i) p)
unfolding prefix
prefix-find p i h = ground (arith, h)

skip_prefix-find :
    (p : AmiPath) (i : ℕ) → find colon p ≡ some (suc i) → skip_prefix p ≡ drop (suc (suc i)) p
unfolding skip_prefix
skip_prefix-find p i h = ground (arith, h)

find-HasPrefix :
    (p : AmiPath) (i : ℕ)
    → find colon p ≡ some (suc i)
    → HasPrefix (take (suc i) p) (drop (suc (suc i)) p) p
unfolding HasPrefix
find-HasPrefix p i h = (
  take-nonempty i p h,
  find-take-absent colon p (suc i) h,
  prefix-find p i h,
  skip_prefix-find p i h,
  sym (find-take colon p (suc i) h),
)

pub NoPrefix_lem : (p : AmiPath) → is_absolute p ≡ false → NoPrefix p
unfolding NoPrefix prefix skip_prefix
NoPrefix_lem p h = ground arith

pub prefix-cases : (p : AmiPath) → NoPrefix p ⊎ ((pre rest : List ℕ) × HasPrefix pre rest p)
prefix-cases p = elim (Option-cases (find colon p)) [
  | inl h ↦ inl (NoPrefix_lem p (ground arith))
  | inr (zero, h) ↦ inl (NoPrefix_lem p (ground arith))
  | inr (suc i, h) ↦ inr (_, _, find-HasPrefix p i h)
]

-- The path that `build` makes has the prefix it was given.
pub build-HasPrefix :
    (pre post : List ℕ)
    → is_empty pre ≡ false
    → find colon pre ≡ none
    → HasPrefix pre post (build (some pre) post)
unfolding HasPrefix
build-HasPrefix [] post h k = ground arith
build-HasPrefix (x ∷ pre) post h k =
    let e = find-append_self colon (x ∷ pre) post k in
    (
      refl,
      k,
      prefix-find _ _ e ∙ ap some (take-append_length (x ∷ pre) (colon ∷ post)),
      skip_prefix-find _ _ e ∙ drop-append_length colon (x ∷ pre) post,
      refl,
    )

NoPrefix-build : (p : AmiPath) → NoPrefix p → build (prefix p) (skip_prefix p) ≡ p
unfolding NoPrefix
NoPrefix-build p h = rw (h.1, h.2) refl

HasPrefix-build :
    (p : AmiPath) (pre rest : List ℕ) → HasPrefix pre rest p → build (prefix p) (skip_prefix p) ≡ p
unfolding HasPrefix
HasPrefix-build p pre rest (h, k, e, f, g) = rw (e, f) (sym g)

-- The prefix of any path and its postfix, taken with the leading and the trailing character kept,
-- build the path again.
pub build-prefix-postfix : (p : AmiPath) → build (prefix p) (postfix false false p) ≡ p
unfolding postfix skip_prefix
build-prefix-postfix p = elim (prefix-cases p) [
  | inl h ↦ NoPrefix-build p h
  | inr (pre, rest, h) ↦ HasPrefix-build p pre rest h
]
