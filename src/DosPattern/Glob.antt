-- ===== src/DosPattern/Glob.antt =====
-- What a simple pattern means: one of characters, `p_single` and `p_any`.
use amitools.Prelude.{
  ℕ, zero, suc, ◌≡◌, refl, Bool, true, false, not, some, List, [], ◌∷◌, ◌==◌, ◌&&◌, ◌||◌,
  if◌then◌else◌, get_elem?, arith,
}
use amitools.DosPattern.{p_any, p_single}
use amitools.DosPattern.Parse.{is_end}
use amitools.DosPattern.Match.{is_block}

-- Some suffix of the string, itself included, passes.
abbrev pub any_suffix : (List ℕ → Bool) → List ℕ → Bool
any_suffix f [] = f []
any_suffix f (x ∷ xs) = f (x ∷ xs) || any_suffix f xs

-- What a simple pattern means.
unfoldable pub glob : (ℕ → ℕ) → List ℕ → List ℕ → Bool
glob tr [] s = is_end s
glob tr (t ∷ ts) [] = t == p_any && glob tr ts []
glob tr (t ∷ ts) (x ∷ xs) =
    if t == p_any
    then any_suffix (glob tr ts) (x ∷ xs)
    else (t == p_single || t == tr x) && glob tr ts xs

-- No token of another kind, and no NUL, which the matcher takes for the end.
abbrev pub is_simple : ℕ → Bool
is_simple c = not (is_block c) && not (c == 0)

abbrev pub all_simple : List ℕ → Bool
all_simple [] = true
all_simple (c ∷ cs) = is_simple c && all_simple cs

pub glob-any : (tr : ℕ → ℕ) (ts s : List ℕ) → glob tr (p_any ∷ ts) s ≡ any_suffix (glob tr ts) s
unfolding glob
glob-any tr ts [] = refl
glob-any tr ts (x ∷ s) = refl

pub glob-one :
    (tr : ℕ → ℕ) (c x : ℕ) (ts s : List ℕ)
    → (c == p_any) ≡ false
    → glob tr (c ∷ ts) (x ∷ s) ≡ ((c == p_single || c == tr x) && glob tr ts s)
unfolding glob
glob-one tr c x ts s h = ground (arith, h)

pub glob-none :
    (tr : ℕ → ℕ) (c : ℕ) (ts : List ℕ) → (c == p_any) ≡ false → glob tr (c ∷ ts) [] ≡ false
unfolding glob
glob-none tr c ts h = ground (arith, h)

pub all_simple-get_elem? :
    (cs : List ℕ) (i c : ℕ) → all_simple cs ≡ true → get_elem? cs i ≡ some c → is_simple c ≡ true
all_simple-get_elem? [] i c h e = ground arith
all_simple-get_elem? (d ∷ cs) zero c h e = ground (arith, h, e)
all_simple-get_elem? (d ∷ cs) (suc i) c h e = ground (arith, h, all_simple-get_elem? cs i c)
