-- ===== src/DosPattern/Items.antt =====
-- From the source to the answer: patterns that are written with characters, `?` and `#?`.
use amitools.Prelude.{
  ℕ, zero, suc, ◌≤◌, ◌<◌, ◌≡◌, refl, sym, ap, ap₂, ◌∙◌, Bool, true, false, not, List, [], ◌∷◌, ◌++◌,
  ◌==◌, ◌&&◌, ◌||◌, length, arith,
}
use mathlib.Core.List.{append-nil, append_assoc}
use amitools.DosPattern.{p_any, p_single, Pattern}
use amitools.DosPattern.Parse.{
  Parsing, ParseResult, next, type_error, parsed, raises_type_error, parse_step, parse_char,
  parse_loop, pattern_parse, tr_of, is_end,
}
use amitools.DosPattern.Match.{result, pattern_match}
use amitools.DosPattern.Glob.{any_suffix, glob, is_simple, all_simple, glob-any}
use amitools.DosPattern.Search.{match_fuel, pattern_match-glob}

pub data Item : Type 0 where
  any single : Item
  char : ℕ → Item

-- How a pattern is written.
abbrev pub source : List Item → List ℕ
source [] = []
source (any ∷ is) = 35 ∷ 63 ∷ source is
source (single ∷ is) = 63 ∷ source is
source (char c ∷ is) = c ∷ source is

abbrev tokens : (ℕ → ℕ) → List Item → List ℕ
tokens tr [] = []
tokens tr (any ∷ is) = p_any ∷ tokens tr is
tokens tr (single ∷ is) = p_single ∷ tokens tr is
tokens tr (char c ∷ is) = tr c ∷ tokens tr is

-- Which strings it stands for.
abbrev pub stands_for : (ℕ → ℕ) → List Item → List ℕ → Bool
stands_for tr [] s = is_end s
stands_for tr (any ∷ is) s = any_suffix (stands_for tr is) s
stands_for tr (single ∷ is) [] = false
stands_for tr (single ∷ is) (x ∷ s) = stands_for tr is s
stands_for tr (char c ∷ is) [] = false
stands_for tr (char c ∷ is) (x ∷ s) = tr c == tr x && stands_for tr is s

-- A character that stands for itself in a source, and whose lower case is no token.
abbrev pub is_plain : (ℕ → ℕ) → ℕ → Bool
is_plain tr c =
    not (
      c == 35
      || (c == 126
          || (c == 63
              || (c == 40
                  || (c == 124 || (c == 41 || (c == 91 || (c == 42 || (c == 37 || c == 39)))))))))
    && (is_simple (tr c) && not (tr c == p_any || tr c == p_single))

abbrev pub all_plain : (ℕ → ℕ) → List Item → Bool
all_plain tr [] = true
all_plain tr (char c ∷ is) = is_plain tr c && all_plain tr is
all_plain tr (_ ∷ is) = all_plain tr is

abbrev pub is_wild : List Item → Bool
is_wild [] = false
is_wild (char c ∷ is) = is_wild is
is_wild (_ ∷ is) = true

abbrev parsing : List ℕ → List ℕ → Bool → Parsing
parsing rest dst wild = record { rest = rest; dst = dst; blocks = []; has_wild = wild }

tokens-simple :
    (tr : ℕ → ℕ) (is : List Item) → all_plain tr is ≡ true → all_simple (tokens tr is) ≡ true
tokens-simple tr [] h = refl
tokens-simple tr (any ∷ is) h = ground (arith, tokens-simple tr is)
tokens-simple tr (single ∷ is) h = ground (arith, tokens-simple tr is)
tokens-simple tr (char c ∷ is) h = ground (arith, tokens-simple tr is)

plain-rest :
    (tr : ℕ → ℕ) (c : ℕ) (is : List Item)
    → all_plain tr (char c ∷ is) ≡ true
    → all_plain tr is ≡ true
plain-rest tr c is h = ground (arith, h)

plain-first :
    (tr : ℕ → ℕ) (c : ℕ) (is : List Item) → all_plain tr (char c ∷ is) ≡ true → is_plain tr c ≡ true
plain-first tr c is h = ground (arith, h)

any_suffix_ext :
    (f g : List ℕ → Bool)
    → ((s : List ℕ) → f s ≡ g s)
    → (s : List ℕ) → any_suffix f s ≡ any_suffix g s
any_suffix_ext f g h [] = h []
any_suffix_ext f g h (x ∷ s) = ap₂ ◌||◌ (h (x ∷ s)) (any_suffix_ext f g h s)

glob-tokens :
    (tr : ℕ → ℕ) (is : List Item)
    → all_plain tr is ≡ true
    → (s : List ℕ) → glob tr (tokens tr is) s ≡ stands_for tr is s
unfolding glob
glob-tokens tr [] h s = refl
glob-tokens tr (any ∷ is) h s =
    glob-any tr (tokens tr is) s ∙ any_suffix_ext _ _ (glob-tokens tr is h) s
glob-tokens tr (single ∷ is) h [] = refl
glob-tokens tr (single ∷ is) h (x ∷ s) = glob-tokens tr is h s
glob-tokens tr (char c ∷ is) h [] = ground (arith, h)
glob-tokens tr (char c ∷ is) h (x ∷ s) =
    ground (arith, h, glob-tokens tr is (plain-rest tr c is h) s)

step-any :
    (tr : ℕ → ℕ) (star : Bool) (rest dst : List ℕ) (w : Bool)
    → parse_step tr star (parsing (35 ∷ 63 ∷ rest) dst w)
      ≡ next (parsing rest (dst ++ p_any ∷ []) true)
unfolding parse_step
step-any tr star rest dst w = refl

step-single :
    (tr : ℕ → ℕ) (star : Bool) (rest dst : List ℕ) (w : Bool)
    → parse_step tr star (parsing (63 ∷ rest) dst w)
      ≡ next (parsing rest (dst ++ p_single ∷ []) true)
unfolding parse_step
step-single tr star rest dst w = refl

step-char :
    (tr : ℕ → ℕ) (star : Bool) (c : ℕ) (rest dst : List ℕ) (w : Bool)
    → is_plain tr c ≡ true
    → parse_step tr star (parsing (c ∷ rest) dst w) ≡ next (parsing rest (dst ++ tr c ∷ []) w)
unfolding parse_step parse_char
step-char tr star c rest dst w h = ground (arith, h)

abbrev pattern_of : List ℕ → Bool → List ℕ → Bool → Pattern
pattern_of src_str ic pat w = record {
  src_str = src_str;
  pat_str = pat;
  ignore_case = ic;
  has_wildcard = w;
}

-- The pattern that a source of items is made into.
abbrev made : (ℕ → ℕ) → List ℕ → Bool → List ℕ → Bool → List Item → ParseResult
made tr src_str ic dst w is = parsed (pattern_of src_str ic (dst ++ tokens tr is) (w || is_wild is))

loop-step :
    (fuel : ℕ) (tr : ℕ → ℕ) (star : Bool) (src_str : List ℕ) (ic : Bool) (p p' : Parsing)
    → parse_step tr star p ≡ next p'
    → parse_loop (suc fuel) tr star src_str ic p ≡ parse_loop fuel tr star src_str ic p'
unfolding parse_loop
loop-step fuel tr star src_str ic p p' e = ground (arith, e)

loop-end :
    (fuel : ℕ) (tr : ℕ → ℕ) (star : Bool) (src_str : List ℕ) (ic : Bool) (dst : List ℕ) (w : Bool)
    → parse_loop (suc fuel) tr star src_str ic (parsing [] dst w)
      ≡ parsed (pattern_of src_str ic dst w)
unfolding parse_loop parse_step
loop-end fuel tr star src_str ic dst w = refl

same_pattern :
    (src_str : List ℕ) (ic : Bool) (ts ts' : List ℕ) (w w' : Bool)
    → ts ≡ ts'
    → w ≡ w'
    → parsed (pattern_of src_str ic ts w) ≡ parsed (pattern_of src_str ic ts' w')
same_pattern src_str ic ts ts' w w' e f = ap₂ (λ t v. parsed (pattern_of src_str ic t v)) e f

or-true : (w : Bool) → true ≡ w || true
or-true true = refl
or-true false = refl

or-false : (w : Bool) → w ≡ w || false
or-false true = refl
or-false false = refl

parse_loop-source :
    (fuel : ℕ) (tr : ℕ → ℕ) (star : Bool) (src_str : List ℕ) (ic : Bool) (is : List Item)
    (dst : List ℕ) (w : Bool)
    → all_plain tr is ≡ true
    → length (source is) < fuel
    → parse_loop fuel tr star src_str ic (parsing (source is) dst w) ≡ made tr src_str ic dst w is
parse_loop-source zero tr star src_str ic is dst w h k = absurd (omega arith)
parse_loop-source (suc fuel) tr star src_str ic [] dst w h k =
    loop-end fuel tr star src_str ic dst w
    ∙ same_pattern src_str ic _ _ _ _ (sym (append-nil dst)) (or-false w)
parse_loop-source (suc fuel) tr star src_str ic (any ∷ is) dst w h k =
    loop-step fuel tr star src_str ic _ _ (step-any tr star (source is) dst w)
    ∙ parse_loop-source fuel tr star src_str ic is (dst ++ p_any ∷ []) true h (omega arith)
    ∙ same_pattern src_str ic _ _ _ _ (append_assoc dst _ (tokens tr is)) (or-true w)
parse_loop-source (suc fuel) tr star src_str ic (single ∷ is) dst w h k =
    loop-step fuel tr star src_str ic _ _ (step-single tr star (source is) dst w)
    ∙ parse_loop-source fuel tr star src_str ic is (dst ++ p_single ∷ []) true h (omega arith)
    ∙ same_pattern src_str ic _ _ _ _ (append_assoc dst _ (tokens tr is)) (or-true w)
parse_loop-source (suc fuel) tr star src_str ic (char c ∷ is) dst w h k =
    loop-step fuel tr star src_str ic _ _
      (step-char tr star c (source is) dst w (plain-first tr c is h))
    ∙ parse_loop-source fuel tr star src_str ic is (dst ++ tr c ∷ []) w (plain-rest tr c is h)
        (omega arith)
    ∙ same_pattern src_str ic _ _ _ _ (append_assoc dst _ (tokens tr is)) refl

-- A source of plain characters, `?` and `#?` is parsed into a pattern that has a wildcard just when the
-- source has one. With that pattern `pattern_match` ends within its fuel, and says whether the string is
-- one of those that the source stands for.
pub pattern_match-pattern_parse :
    (lower : ℕ → ℕ) (is : List Item) (in_str : List ℕ) (ignore_case star_is_wild : Bool)
    → all_plain (tr_of lower ignore_case) is ≡ true
    → (pattern : Pattern) × (pattern_parse lower (source is) ignore_case star_is_wild
        ≡ parsed pattern)
      × (pattern.has_wildcard ≡ is_wild is)
      × (pattern_match (match_fuel (length pattern.pat_str) (length in_str)) lower pattern in_str
          ≡ result (stands_for (tr_of lower ignore_case) is in_str))
unfolding pattern_parse
pattern_match-pattern_parse lower is in_str ic star h =
    let tr = tr_of lower ic in
    let p = pattern_of (source is) ic (tokens tr is) (is_wild is) in
    (
      p,
      parse_loop-source (suc (length (source is))) tr star (source is) ic is [] false h
          (omega arith),
      refl,
      pattern_match-glob lower p in_str _ (tokens-simple tr is h) (omega arith)
          ∙ ap result (glob-tokens tr is h in_str),
    )

step-quote :
    (tr : ℕ → ℕ) (star : Bool) (dst : List ℕ) (w : Bool)
    → parse_step tr star (parsing (39 ∷ []) dst w) ≡ type_error
unfolding parse_step
step-quote tr star dst w = refl

loop-error :
    (fuel : ℕ) (tr : ℕ → ℕ) (star : Bool) (src_str : List ℕ) (ic : Bool) (p : Parsing)
    → parse_step tr star p ≡ type_error
    → parse_loop (suc fuel) tr star src_str ic p ≡ raises_type_error
unfolding parse_loop
loop-error fuel tr star src_str ic p e = ground (arith, e)

parse_loop-quote :
    (fuel : ℕ) (tr : ℕ → ℕ) (star : Bool) (src_str : List ℕ) (ic : Bool) (is : List Item)
    (dst : List ℕ) (w : Bool)
    → all_plain tr is ≡ true
    → length (source is ++ 39 ∷ []) ≤ fuel
    → parse_loop fuel tr star src_str ic (parsing (source is ++ 39 ∷ []) dst w) ≡ raises_type_error
parse_loop-quote zero tr star src_str ic [] dst w h k = absurd (omega arith)
parse_loop-quote zero tr star src_str ic (any ∷ is) dst w h k = absurd (omega arith)
parse_loop-quote zero tr star src_str ic (single ∷ is) dst w h k = absurd (omega arith)
parse_loop-quote zero tr star src_str ic (char c ∷ is) dst w h k = absurd (omega arith)
parse_loop-quote (suc fuel) tr star src_str ic [] dst w h k =
    loop-error fuel tr star src_str ic _ (step-quote tr star dst w)
parse_loop-quote (suc fuel) tr star src_str ic (any ∷ is) dst w h k =
    loop-step fuel tr star src_str ic _ _ (step-any tr star (source is ++ 39 ∷ []) dst w)
    ∙ parse_loop-quote fuel tr star src_str ic is (dst ++ p_any ∷ []) true h (omega arith)
parse_loop-quote (suc fuel) tr star src_str ic (single ∷ is) dst w h k =
    loop-step fuel tr star src_str ic _ _ (step-single tr star (source is ++ 39 ∷ []) dst w)
    ∙ parse_loop-quote fuel tr star src_str ic is (dst ++ p_single ∷ []) true h (omega arith)
parse_loop-quote (suc fuel) tr star src_str ic (char c ∷ is) dst w h k =
    loop-step fuel tr star src_str ic _ _
      (step-char tr star c (source is ++ 39 ∷ []) dst w (plain-first tr c is h))
    ∙ parse_loop-quote fuel tr star src_str ic is (dst ++ tr c ∷ []) w (plain-rest tr c is h)
        (omega arith)

-- A source of plain characters, `?` and `#?` with a quote behind makes `pattern_parse` raise a
-- TypeError.
pub pattern_parse-quote :
    (lower : ℕ → ℕ) (is : List Item) (ignore_case star_is_wild : Bool)
    → all_plain (tr_of lower ignore_case) is ≡ true
    → pattern_parse lower (source is ++ 39 ∷ []) ignore_case star_is_wild ≡ raises_type_error
unfolding pattern_parse
pattern_parse-quote lower is ic star h =
    parse_loop-quote (suc (length (source is ++ 39 ∷ []))) (tr_of lower ic) star
      (source is ++ 39 ∷ []) ic is [] false h (omega arith)
