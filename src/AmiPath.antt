-- ===== src/AmiPath.antt =====
-- Amiga paths: `AmiPath` of amitools/vamos/path/amipath.py. A path is its string `pstr`, the one
-- field of the class. A Python `None` is `none`, and `AmiPathError` a value of its own.
pub mod Prefix
pub mod Syntax
pub mod Names
pub mod Join
mod Tests
use amitools.Prelude.{
  ℕ, zero, suc, ◌-◌, Bool, true, false, not, Option, none, some, List, [], ◌∷◌, ◌++◌, ◌==◌, ltb,
  ◌&&◌, ◌||◌, if◌then◌else◌, length, take, drop,
}
use amitools.Prelude.Strs.{
  colon, slash, find, rfind, starts_with, ends_with, but_last, split, joined, last_of, later,
}

abbrev pub AmiPath : Type 0
AmiPath = List ℕ

pub data PathResult : Type 0 where
  ok : AmiPath → PathResult
  ami_path_error : PathResult

abbrev pub is_none {ℓ} : {A : Type ℓ} → Option A → Bool
is_none none = true
is_none (some a) = false

abbrev pub is_empty : List ℕ → Bool
is_empty [] = true
is_empty (x ∷ xs) = false

abbrev pub is_cwd : AmiPath → Bool
is_cwd p = is_empty p

-- `pos > 0`
abbrev pub is_positive : Option ℕ → Bool
is_positive (some (suc i)) = true
is_positive _ = false

abbrev pub is_local : AmiPath → Bool
is_local p = not (is_positive (find colon p))

abbrev pub is_absolute : AmiPath → Bool
is_absolute p = is_positive (find colon p)

abbrev pub is_parent_local : AmiPath → Bool
is_parent_local p = starts_with slash p

abbrev pub is_prefix_local : AmiPath → Bool
is_prefix_local p = starts_with colon p

abbrev pub is_name_only : AmiPath → Bool
is_name_only p = not (is_empty p) && (is_none (find slash p) && is_none (find colon p))

abbrev pub ends_with_name : AmiPath → Bool
ends_with_name p = not (is_empty p) && not (ends_with slash p || ends_with colon p)

-- `prefix()`
unfoldable pub prefix : AmiPath → Option (List ℕ)
prefix p = elim (find colon p) [ none ↦ none | some i ↦ if i == 0 then none else some (take i p) ]

-- "skip prefix"
unfoldable pub skip_prefix : AmiPath → List ℕ
skip_prefix p = elim (find colon p) [ none ↦ p | some i ↦ if i == 0 then p else drop (suc i) p ]

-- "strip trailing slash if any"
abbrev pub strip_trailing : List ℕ → List ℕ
strip_trailing p = if ltb 1 (length p) && ends_with slash p then but_last p else p

-- "strip parent local"
abbrev pub strip_leading : List ℕ → List ℕ
strip_leading [] = []
strip_leading (x ∷ xs) = if x == slash || x == colon then xs else x ∷ xs

-- `postfix(skip_leading, False, skip_trailing)`
unfoldable pub postfix : Bool → Bool → AmiPath → List ℕ
postfix skip_leading skip_trailing p =
    let rest = skip_prefix p in
    let rest' = if skip_trailing then strip_trailing rest else rest in
    if skip_leading then strip_leading rest' else rest'

-- `build`, and `rebuild`, which calls it.
abbrev pub build : Option (List ℕ) → List ℕ → AmiPath
build none post = post
build (some pre) post = pre ++ colon ∷ post

-- `s.find("//") != -1`
abbrev pub has_double_slash : List ℕ → Bool
has_double_slash [] = false
has_double_slash (x ∷ xs) = (x == slash && starts_with slash xs) || has_double_slash xs

-- `slash_pos > -1 and slash_pos < colon_pos`
abbrev slash_first : Option ℕ → Option ℕ → Bool
slash_first (some i) (some j) = ltb i j
slash_first _ _ = false

-- `colon_pos > -1 and colon_pos + 1 == slash_pos`
abbrev slash_behind : Option ℕ → Option ℕ → Bool
slash_behind (some j) (some i) = suc j == i
slash_behind _ _ = false

-- `self.pstr.find(":", colon_pos + 1) != -1`
abbrev second_colon : Option ℕ → List ℕ → Bool
second_colon none s = false
second_colon (some j) s = not (is_none (find colon (drop (suc j) s)))

abbrev pub is_special : List ℕ → Bool
is_special [] = true
is_special (x ∷ xs) = (x == colon || x == slash) && is_empty xs

unfoldable pub is_syntax_valid : AmiPath → Bool
is_syntax_valid s =
    let colon_pos = find colon s in
    let slash_pos = find slash s in
    if is_special s
    then true
    else if has_double_slash s
    then false
    else if slash_first slash_pos colon_pos
    then false
    else if slash_behind colon_pos slash_pos
    then false
    else not (second_colon colon_pos s)

-- `none` is the `AttributeError` of the missing method `is_prefix_valid`.
abbrev is_valid : AmiPath → Option Bool
unfolding is_syntax_valid
is_valid p = if is_syntax_valid p then if is_absolute p then none else some true else some false

-- `p in ("/", ":")`
abbrev pub is_mark : List ℕ → Bool
is_mark [] = false
is_mark (x ∷ xs) = (x == slash || x == colon) && is_empty xs

-- The postfix of the parent, from the one of the path.
unfoldable pub parent_postfix : List ℕ → Option (List ℕ)
parent_postfix p = elim (rfind slash p) [
  | none ↦ elim (find colon p) [
    | none ↦ if is_empty p then none else some []
    | some i ↦ if i == 0 then some (colon ∷ []) else if suc i == length p then none else some []
  ]
  | some i ↦ if i == 0 then some (slash ∷ []) else some (take i p)
]

unfoldable pub parent : AmiPath → Option AmiPath
parent p =
    let post = postfix false true p in
    if is_mark post
    then none
    else (elim (parent_postfix post) [ none ↦ none | some up ↦ some (build (prefix p) up) ])

-- `names(with_special_name)`
unfoldable pub names_of : List ℕ → List (List ℕ)
names_of [] = []
names_of (x ∷ xs) =
    if x == slash || x == colon
    then (x ∷ []) ∷ (if is_empty xs then [] else split slash xs)
    else split slash (x ∷ xs)

unfoldable pub names : Bool → AmiPath → List (List ℕ)
names with_special_name p = names_of (postfix (not with_special_name) true p)

unfoldable pub filename : AmiPath → Option (List ℕ)
filename p = last_of (names false p)

-- `dirname` of the list of names.
abbrev dirname_of : List (List ℕ) → Option (List ℕ)
dirname_of [] = none
dirname_of (n ∷ ns) =
    if is_mark n
    then some (n ++ joined slash (but_last ns))
    else if ltb 0 (length ns)
    then some (joined slash (but_last (n ∷ ns)))
    else none

abbrev pub dirname : AmiPath → Option (List ℕ)
dirname p = dirname_of (names true p)

abbrev absdirname : AmiPath → Option (List ℕ)
absdirname p = elim (prefix p) [
  | none ↦ dirname p
  | some pre ↦ elim (dirname p) [
    | none ↦ some (pre ++ colon ∷ [])
    | some dir ↦ if is_empty dir then some (pre ++ colon ∷ []) else some (pre ++ colon ∷ dir)
  ]
]

-- The postfix that `join` makes of that of the parent and of a path relative to it.
unfoldable pub join_parent : List ℕ → List ℕ → List ℕ
join_parent [] o_post = o_post
join_parent (x ∷ xs) o_post =
    if x == colon && is_empty xs
    then colon ∷ o_post
    else if is_empty o_post
    then x ∷ xs
    else (x ∷ xs) ++ slash ∷ o_post

-- The same of its own postfix and of a local path.
unfoldable pub join_local : List ℕ → List ℕ → List ℕ
join_local my_post o_post =
    if is_empty my_post
    then o_post
    else if is_mark my_post
    then my_post ++ o_post
    else my_post ++ slash ∷ o_post

unfoldable pub join : AmiPath → AmiPath → PathResult
join p o =
    if is_cwd o
    then ok p
    else if is_absolute o
    then ok o
    else if is_parent_local o
    then if is_parent_local p then ami_path_error else (elim (parent p) [
      | none ↦ ami_path_error
      | some my ↦ ok (build (prefix p) (join_parent (postfix false true my) (postfix true true o)))
    ])
    else if is_prefix_local o
    then ok (build (prefix p) (postfix (not (is_none (prefix p))) true o))
    else ok (build (prefix p) (join_local (postfix false true p) (postfix false true o)))
