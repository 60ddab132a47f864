-- ===== src/AmiPath/Syntax.antt =====
-- `is_syntax_valid` against a description of the syntax that names no position.
use amitools.Prelude.{
  ℕ, suc, ◌≡◌, ◌⊎◌, ◌↔◌, inl, inr, refl, sym, Option-cases, true, false, not, none, some, List, [],
  ◌∷◌, ◌++◌, length, take, drop, arith,
}
use amitools.Prelude.Strs.{
  colon, slash, find, starts_with, find-append_self, find-take, find-take-absent,
  drop-append_length,
}
use amitools.AmiPath.{
  AmiPath, is_none, is_special, is_syntax_valid, has_double_slash, slash_first, slash_behind,
}

-- Behind a prefix: no second colon, no slash in front and no two in a row.
abbrev IsRest : List ℕ → Type 0
IsRest rest =
    (find colon rest ≡ none) × (starts_with slash rest ≡ false) × (has_double_slash rest ≡ false)

-- The path is relative and without two slashes in a row, or a prefix with neither a colon nor a
-- slash, a colon and the rest.
unfoldable pub IsWellFormed : AmiPath → Type 0
IsWellFormed s =
    ((find colon s ≡ none) × (has_double_slash s ≡ false))
    ⊎ ((pre rest : List ℕ) × (s ≡ pre ++ colon ∷ rest)
        × (find colon pre ≡ none)
        × (find slash pre ≡ none)
        × IsRest rest)

find-ahead :
    (pre rest : List ℕ)
    → slash_first (find slash (pre ++ colon ∷ rest)) (some (length pre))
      ≡ not (is_none (find slash pre))
find-ahead [] rest = ground arith
find-ahead (x ∷ pre) rest = ground (arith, find-ahead pre rest)

find-behind :
    (pre rest : List ℕ)
    → find slash pre ≡ none
    → slash_behind (some (length pre)) (find slash (pre ++ colon ∷ rest)) ≡ starts_with slash rest
find-behind [] [] h = ground arith
find-behind [] (y ∷ rest) h = ground arith
find-behind (x ∷ pre) rest h = ground (arith, find-behind pre rest)

has_double_slash-append :
    (pre rest : List ℕ)
    → find slash pre ≡ none
    → has_double_slash (pre ++ colon ∷ rest) ≡ has_double_slash rest
has_double_slash-append [] rest h = ground arith
has_double_slash-append (x ∷ pre) rest h = ground (arith, has_double_slash-append pre rest)

special-double : (s : List ℕ) → is_special s ≡ true → has_double_slash s ≡ false
special-double [] h = refl
special-double (x ∷ []) h = ground arith
special-double (x ∷ y ∷ s) h = ground arith

special-parts :
    (pre rest : List ℕ) → is_special (pre ++ colon ∷ rest) ≡ true → (pre ≡ []) × (rest ≡ [])
special-parts [] [] h = (refl, refl)
special-parts [] (y ∷ rest) h = ground arith
special-parts (x ∷ []) rest h = ground arith
special-parts (x ∷ y ∷ pre) rest h = ground arith

-- The tests of the code, on a path with a colon.
valid-parts :
    (pre rest : List ℕ)
    → find colon pre ≡ none
    → is_syntax_valid (pre ++ colon ∷ rest) ≡ true
    → (find slash pre ≡ none) × IsRest rest
unfolding is_syntax_valid
valid-parts pre rest h k = ground (
  arith,
  special-parts pre rest,
  find-append_self colon pre rest h,
  find-ahead pre rest,
  find-behind pre rest,
  has_double_slash-append pre rest,
  drop-append_length colon pre rest,
)

parts-valid :
    (pre rest : List ℕ)
    → find colon pre ≡ none
    → find slash pre ≡ none
    → IsRest rest
    → is_syntax_valid (pre ++ colon ∷ rest) ≡ true
unfolding is_syntax_valid
parts-valid pre rest h k w = ground (
  arith,
  find-append_self colon pre rest h,
  find-ahead pre rest,
  find-behind pre rest,
  has_double_slash-append pre rest,
  drop-append_length colon pre rest,
)

relative-valid :
    (s : List ℕ) → find colon s ≡ none → (is_syntax_valid s ≡ true) ↔ (has_double_slash s ≡ false)
unfolding is_syntax_valid
relative-valid s h = ground (arith, special-double s)

valid-IsWellFormed : (s : AmiPath) → is_syntax_valid s ≡ true → IsWellFormed s
unfolding IsWellFormed
valid-IsWellFormed s k = elim (Option-cases (find colon s)) [
  | inl h ↦ inl (h, (relative-valid s h).0 k)
  | inr (i, h) ↦
      let e = find-take colon s i h in
      let h' = find-take-absent colon s i h in
      let w = valid-parts (take i s) (drop (suc i) s) h' (rw e k) in
      inr (take i s, drop (suc i) s, sym e, h', w.0, w.1)
]

IsWellFormed-valid : (s : AmiPath) → IsWellFormed s → is_syntax_valid s ≡ true
unfolding IsWellFormed
IsWellFormed-valid s (inl (h, k)) = (relative-valid s h).1 k
IsWellFormed-valid s (inr (pre, rest, e, h, k, w)) = rw e (parts-valid pre rest h k w)

-- A path passes `is_syntax_valid` just when it is well formed: without a colon and without two slashes
-- in a row, or a prefix with neither colon nor slash, a colon, and a rest with no second colon, no
-- slash in front and no two slashes in a row.
pub is_syntax_valid_iff : (s : AmiPath) → (is_syntax_valid s ≡ true) ↔ IsWellFormed s
is_syntax_valid_iff s = (valid-IsWellFormed s, IsWellFormed-valid s)
