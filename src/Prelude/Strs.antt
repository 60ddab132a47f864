-- ===== src/Prelude/Strs.antt =====
-- Python strings as lists of code points, with the methods of `str` that the program calls. A
-- position is an option: `none` is the -1 of `find` and `rfind`.
use Prim.Native.Nat.{ℕ, zero, suc, ◌<◌}
use mathlib.Core.Path.{◌≡◌, refl}
use mathlib.Core.Bool.{Bool, false}
use mathlib.Core.List.{List, [], ◌∷◌, ◌++◌}
use mathlib.Core.Option.{Option, none, some}
use native.Mathlib.Omega.{arith}
use amitools.Prelude.Tests.{◌==◌, if◌then◌else◌}
use amitools.Prelude.Lists.{length, take, drop}

abbrev pub colon : ℕ
colon = 58

abbrev pub slash : ℕ
slash = 47

abbrev pub later : Option ℕ → Option ℕ
later none = none
later (some i) = some (suc i)

abbrev pub find : ℕ → List ℕ → Option ℕ
find c [] = none
find c (x ∷ xs) = if x == c then some 0 else later (find c xs)

abbrev pub rfind : ℕ → List ℕ → Option ℕ
rfind c [] = none
rfind c (x ∷ xs) = elim (rfind c xs) [
  | some i ↦ some (suc i)
  | none ↦ if x == c then some 0 else none
]

abbrev pub starts_with : ℕ → List ℕ → Bool
starts_with c [] = false
starts_with c (x ∷ xs) = x == c

abbrev pub ends_with : ℕ → List ℕ → Bool
ends_with c [] = false
ends_with c (x ∷ []) = x == c
ends_with c (x ∷ xs) = ends_with c xs

-- `s[:-1]`
abbrev pub but_last {ℓ} : {A : Type ℓ} → List A → List A
but_last [] = []
but_last (x ∷ []) = []
but_last (x ∷ y ∷ xs) = x ∷ but_last (y ∷ xs)

abbrev pub cons_head : ℕ → List (List ℕ) → List (List ℕ)
cons_head x [] = (x ∷ []) ∷ []
cons_head x (s ∷ ss) = (x ∷ s) ∷ ss

abbrev pub split : ℕ → List ℕ → List (List ℕ)
split c [] = [] ∷ []
split c (x ∷ xs) = if x == c then [] ∷ split c xs else cons_head x (split c xs)

-- `c.join(ss)` of a character.
abbrev pub joined : ℕ → List (List ℕ) → List ℕ
joined c [] = []
joined c (s ∷ []) = s
joined c (s ∷ ss) = s ++ c ∷ joined c ss

-- `ss[-1]`, where there is one.
abbrev pub last_of : List (List ℕ) → Option (List ℕ)
last_of [] = none
last_of (s ∷ []) = some s
last_of (s ∷ ss) = last_of ss

pub find-append :
    (c : ℕ) (s t : List ℕ) → find c s ≡ none → find c t ≡ none → find c (s ++ t) ≡ none
find-append c [] t h k = k
find-append c (x ∷ s) t h k = ground (arith, find-append c s t)

pub find-append_self :
    (c : ℕ) (s t : List ℕ) → find c s ≡ none → find c (s ++ c ∷ t) ≡ some (length s)
find-append_self c [] t h = ground arith
find-append_self c (x ∷ s) t h = ground (arith, find-append_self c s t)

pub rfind-append_self :
    (c : ℕ) (s t : List ℕ) → rfind c t ≡ none → rfind c (s ++ c ∷ t) ≡ some (length s)
rfind-append_self c [] t h = ground arith
rfind-append_self c (x ∷ s) t h = ground (arith, rfind-append_self c s t)

pub rfind-absent : (c : ℕ) (s : List ℕ) → find c s ≡ none → rfind c s ≡ none
rfind-absent c [] h = refl
rfind-absent c (x ∷ s) h = ground (arith, rfind-absent c s)

-- What is in front of the character and behind it.
pub find-take :
    (c : ℕ) (s : List ℕ) (i : ℕ) → find c s ≡ some i → take i s ++ c ∷ drop (suc i) s ≡ s
find-take c [] i h = ground arith
find-take c (x ∷ s) zero h = ground arith
find-take c (x ∷ s) (suc i) h = ground (arith, find-take c s i)

pub find-take-absent : (c : ℕ) (s : List ℕ) (i : ℕ) → find c s ≡ some i → find c (take i s) ≡ none
find-take-absent c [] i h = ground arith
find-take-absent c (x ∷ s) zero h = refl
find-take-absent c (x ∷ s) (suc i) h = ground (arith, find-take-absent c s i)

pub find-but_last : (c : ℕ) (s : List ℕ) → find c s ≡ none → find c (but_last s) ≡ none
find-but_last c [] h = refl
find-but_last c (x ∷ []) h = refl
find-but_last c (x ∷ y ∷ s) h = ground (arith, find-but_last c (y ∷ s))

pub find-take_prefix : (c i : ℕ) (s : List ℕ) → find c s ≡ none → find c (take i s) ≡ none
find-take_prefix c zero s h = refl
find-take_prefix c (suc i) [] h = refl
find-take_prefix c (suc i) (x ∷ s) h = ground (arith, find-take_prefix c i s)

pub take-append_length : (s t : List ℕ) → take (length s) (s ++ t) ≡ s
take-append_length [] t = refl
take-append_length (x ∷ s) t = rw (take-append_length s t)

pub drop-append_length : (c : ℕ) (s t : List ℕ) → drop (suc (length s)) (s ++ c ∷ t) ≡ t
drop-append_length c [] t = refl
drop-append_length c (x ∷ s) t = drop-append_length c s t

-- Splitting and joining.
pub split-absent : (c : ℕ) (s : List ℕ) → find c s ≡ none → split c s ≡ s ∷ []
split-absent c [] h = refl
split-absent c (x ∷ s) h = ground (arith, split-absent c s)

pub length-split : (c : ℕ) (s : List ℕ) → 0 < length (split c s)
length-split c [] = omega arith
length-split c (x ∷ s) = ground (arith, length-split c s)

joined-cons_head :
    (c x : ℕ) (ss : List (List ℕ)) → 0 < length ss → joined c (cons_head x ss) ≡ x ∷ joined c ss
joined-cons_head c x [] h = ground arith
joined-cons_head c x (s ∷ []) h = refl
joined-cons_head c x (s ∷ t ∷ ss) h = refl

joined-nil : (c : ℕ) (ss : List (List ℕ)) → 0 < length ss → joined c ([] ∷ ss) ≡ c ∷ joined c ss
joined-nil c [] h = ground arith
joined-nil c (s ∷ ss) h = refl

pub joined-split : (c : ℕ) (s : List ℕ) → joined c (split c s) ≡ s
joined-split c [] = refl
joined-split c (x ∷ s) = ground (
  arith,
  length-split c s,
  joined-split c s,
  joined-cons_head c x (split c s),
  joined-nil c (split c s),
)

last_of-cons_head :
    (x : ℕ) (ss : List (List ℕ)) → 1 < length ss → last_of (cons_head x ss) ≡ last_of ss
last_of-cons_head x [] h = ground arith
last_of-cons_head x (s ∷ []) h = ground arith
last_of-cons_head x (s ∷ t ∷ ss) h = refl

pub last_of-cons : (s : List ℕ) (ss : List (List ℕ)) → 0 < length ss → last_of (s ∷ ss) ≡ last_of ss
last_of-cons s [] h = ground arith
last_of-cons s (t ∷ ss) h = refl

length-split_append : (c : ℕ) (s t : List ℕ) → 1 < length (split c (s ++ c ∷ t))
length-split_append c [] t = ground (arith, length-split c t)
length-split_append c (x ∷ s) t =
    ground (arith, length-split_append c s t, length-split c (s ++ c ∷ t))

pub last_of-split :
    (c : ℕ) (s t : List ℕ) → find c t ≡ none → last_of (split c (s ++ c ∷ t)) ≡ some t
last_of-split c [] t h = ground (arith, split-absent c t)
last_of-split c (x ∷ s) t h = ground (
  arith,
  last_of-split c s t,
  length-split_append c s t,
  last_of-cons_head x (split c (s ++ c ∷ t)),
  last_of-cons [] (split c (s ++ c ∷ t)),
)
