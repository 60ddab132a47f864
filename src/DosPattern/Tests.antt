-- ===== src/DosPattern/Tests.antt =====
-- Runs of the parser and the matcher of AmigaDOS patterns.
use amitools.Prelude.{
  ℕ, ◌≡◌, ◌≢◌, ◌+◌, ◌&&◌, ltb, refl, true, false, if◌then◌else◌, List, [], ◌∷◌, length,
}
use amitools.DosPattern.{Pattern}
use amitools.DosPattern.Parse.{parsed, raises_type_error, out_of_fuel, pattern_parse}
use amitools.DosPattern.Match.{MatchResult, result, raised, pattern_match}
use amitools.DosPattern.Search.{match_fuel}
use amitools.DosPattern.Items.{
  Item, any, single, char, source, pattern_match-pattern_parse, pattern_parse-quote,
}
use amitools.DosPattern.Ends.{pattern_parse-ends}

abbrev lower_ascii : ℕ → ℕ
lower_ascii c = if ltb 64 c && ltb c 91 then c + 32 else c

-- "#?.Inf?"
abbrev info_files : List Item
info_files = any ∷ char 46 ∷ char 73 ∷ char 110 ∷ char 102 ∷ single ∷ []

-- "Disk.info"
abbrev disk_info : List ℕ
disk_info = 68 ∷ 105 ∷ 115 ∷ 107 ∷ 46 ∷ 105 ∷ 110 ∷ 102 ∷ 111 ∷ []

pattern_match-pattern_parse_example :
    (pattern : Pattern) × (pattern_parse lower_ascii (source info_files) true false
      ≡ parsed pattern)
    × (pattern.has_wildcard ≡ true)
    × (pattern_match (match_fuel (length pattern.pat_str) 9) lower_ascii pattern disk_info
        ≡ result true)
pattern_match-pattern_parse_example =
    pattern_match-pattern_parse lower_ascii info_files disk_info true false refl

pattern_parse-quote_example :
    pattern_parse lower_ascii (97 ∷ 63 ∷ 39 ∷ []) true false ≡ raises_type_error
pattern_parse-quote_example =
    pattern_parse-quote lower_ascii (char 97 ∷ single ∷ []) true false refl

pattern_parse-ends_example : pattern_parse lower_ascii disk_info true false ≢ out_of_fuel
pattern_parse-ends_example = pattern_parse-ends lower_ascii disk_info true false

-- The answer for a source and a string.
abbrev answer : List ℕ → List ℕ → MatchResult
answer src in_str = elim (pattern_parse lower_ascii src true false) [
  | parsed p ↦ pattern_match 200 lower_ascii p in_str
  | _ ↦ raised
]

-- "(ab|c)d" and "cd"
alternatives-run : answer (40 ∷ 97 ∷ 98 ∷ 124 ∷ 99 ∷ 41 ∷ 100 ∷ []) (99 ∷ 100 ∷ []) ≡ result true
unfolding pattern_parse pattern_match
alternatives-run = refl

-- "((a|b)c|d)#?" and "bcx"
alternatives_nested-run :
    answer (40 ∷ 40 ∷ 97 ∷ 124 ∷ 98 ∷ 41 ∷ 99 ∷ 124 ∷ 100 ∷ 41 ∷ 35 ∷ 63 ∷ []) (98 ∷ 99 ∷ 120 ∷ [])
    ≡ result true
unfolding pattern_parse pattern_match
alternatives_nested-run = refl

-- "#(ab)c" and "ababc"
repeat-run : answer (35 ∷ 40 ∷ 97 ∷ 98 ∷ 41 ∷ 99 ∷ []) (97 ∷ 98 ∷ 97 ∷ 98 ∷ 99 ∷ []) ≡ result true
unfolding pattern_parse pattern_match
repeat-run = refl

-- "#ac" and "c"
repeat_none-run : answer (35 ∷ 97 ∷ 99 ∷ []) (99 ∷ []) ≡ result true
unfolding pattern_parse pattern_match
repeat_none-run = refl

-- "#ac" and "ab"
repeat_fails-run : answer (35 ∷ 97 ∷ 99 ∷ []) (97 ∷ 98 ∷ []) ≡ result false
unfolding pattern_parse pattern_match
repeat_fails-run = refl

-- "~(a)" and "b"
not-run : answer (126 ∷ 40 ∷ 97 ∷ 41 ∷ []) (98 ∷ []) ≡ result true
unfolding pattern_parse pattern_match
not-run = refl

-- "~(ab)" and "ab"
not_same-run : answer (126 ∷ 40 ∷ 97 ∷ 98 ∷ 41 ∷ []) (97 ∷ 98 ∷ []) ≡ result false
unfolding pattern_parse pattern_match
not_same-run = refl

-- "~(a#?)" and "ba"
not_longer-run : answer (126 ∷ 40 ∷ 97 ∷ 35 ∷ 63 ∷ 41 ∷ []) (98 ∷ 97 ∷ []) ≡ result true
unfolding pattern_parse pattern_match
not_longer-run = refl

-- "[a-c]x" and "Bx"
class-run : answer (91 ∷ 97 ∷ 45 ∷ 99 ∷ 93 ∷ 120 ∷ []) (66 ∷ 120 ∷ []) ≡ result true
unfolding pattern_parse pattern_match
class-run = refl

-- "[~a-c]" and "d"
class_not-run : answer (91 ∷ 126 ∷ 97 ∷ 45 ∷ 99 ∷ 93 ∷ []) (100 ∷ []) ≡ result true
unfolding pattern_parse pattern_match
class_not-run = refl

-- "#(%)a" and "b"
empty_repeat-run : answer (35 ∷ 40 ∷ 37 ∷ 41 ∷ 97 ∷ []) (98 ∷ []) ≡ result false
unfolding pattern_parse pattern_match
empty_repeat-run = refl

-- "a~(b)c" and "axc"
not_inside-run : answer (97 ∷ 126 ∷ 40 ∷ 98 ∷ 41 ∷ 99 ∷ []) (97 ∷ 120 ∷ 99 ∷ []) ≡ result true
unfolding pattern_parse pattern_match
not_inside-run = refl

-- "a~(b)c" and "abc"
not_inside_b-run : answer (97 ∷ 126 ∷ 40 ∷ 98 ∷ 41 ∷ 99 ∷ []) (97 ∷ 98 ∷ 99 ∷ []) ≡ result false
unfolding pattern_parse pattern_match
not_inside_b-run = refl

-- "~(a)" and ""
not_empty-run : answer (126 ∷ 40 ∷ 97 ∷ 41 ∷ []) ([]) ≡ result true
unfolding pattern_parse pattern_match
not_empty-run = refl

-- "~(a)" and "ab"
not_prefix-run : answer (126 ∷ 40 ∷ 97 ∷ 41 ∷ []) (97 ∷ 98 ∷ []) ≡ result true
unfolding pattern_parse pattern_match
not_prefix-run = refl

-- "~(#?.info)" and "x.info"
info-run :
    answer
      (126 ∷ 40 ∷ 35 ∷ 63 ∷ 46 ∷ 105 ∷ 110 ∷ 102 ∷ 111 ∷ 41 ∷ [])
      (120 ∷ 46 ∷ 105 ∷ 110 ∷ 102 ∷ 111 ∷ [])
    ≡ result false
unfolding pattern_parse pattern_match
info-run = refl

-- "~(#?.info)" and "x.inf"
info2-run :
    answer
      (126 ∷ 40 ∷ 35 ∷ 63 ∷ 46 ∷ 105 ∷ 110 ∷ 102 ∷ 111 ∷ 41 ∷ [])
      (120 ∷ 46 ∷ 105 ∷ 110 ∷ 102 ∷ [])
    ≡ result true
unfolding pattern_parse pattern_match
info2-run = refl

-- "[a-]" and "z"
class_end-run : answer (91 ∷ 97 ∷ 45 ∷ 93 ∷ []) (122 ∷ []) ≡ result true
unfolding pattern_parse pattern_match
class_end-run = refl
