-- ===== src/DosPattern/Ends.antt =====
-- The loop of `pattern_parse` ends.
use amitools.Prelude.{
  ℕ, zero, suc, ◌≤◌, ◌<◌, ◌≡◌, ◌≢◌, refl, inl, inr, Bool-cases, Bool, true, false, List, [], ◌∷◌,
  ◌++◌, ◌==◌, if◌then◌else◌, length, arith,
}
use amitools.DosPattern.{p_class, p_notclass}
use amitools.DosPattern.Parse.{
  next_is, begin, Parsing, ParseStep, ParseResult, next, invalid, type_error, finished, no_pattern,
  raises_type_error, out_of_fuel, wild, tail, scan_class, close_class, parse_hash, parse_not,
  parse_bar, parse_close, parse_class, parse_quote, parse_char, parse_step, parse_loop,
  check_blocks, pattern_parse, tr_of,
}

-- The step leaves at most `n` characters of the source.
abbrev Leaves : ℕ → ParseStep → Type 0
Leaves n (next p) = length p.rest ≤ n
Leaves n _ = Unit

Leaves-le : (m n : ℕ) (r : ParseStep) → m ≤ n → Leaves m r → Leaves n r
Leaves-le m n (next p) h k = omega arith
Leaves-le m n invalid h k = tt
Leaves-le m n type_error h k = tt
Leaves-le m n finished h k = tt

length-tail : (s : List ℕ) → length (tail s) ≤ length s
length-tail [] = omega arith
length-tail (x ∷ s) = omega arith

scan_class-Leaves :
    (tr : ℕ → ℕ) (src dst : List ℕ) (p : Parsing)
    → Leaves (length src) (close_class (scan_class tr src dst) p)
scan_class-Leaves tr [] dst p = tt
scan_class-Leaves tr (c ∷ src) dst p =
    let ih = scan_class-Leaves tr src (if c == 39 then dst else dst ++ tr c ∷ []) p in
    elim (Bool-cases (c == 93)) [
      | inl e ↦ ground (arith, e)
      | inr e ↦ ground (arith, e, Leaves-le (length src) (suc (length src)) _ (omega arith) ih)
    ]

hash-Leaves : (p : Parsing) → Leaves (length p.rest) (parse_hash p)
unfolding parse_hash
hash-Leaves p = ground (arith, length-tail p.rest)

not-Leaves : (p : Parsing) → Leaves (length p.rest) (parse_not p)
unfolding parse_not
not-Leaves p = ground arith

bar-Leaves : (p : Parsing) → Leaves (length p.rest) (parse_bar p)
unfolding parse_bar
bar-Leaves p = ground arith

close-Leaves : (p : Parsing) → Leaves (length p.rest) (parse_close p)
unfolding parse_close
close-Leaves p = ground arith

class-Leaves : (tr : ℕ → ℕ) (p : Parsing) → Leaves (length p.rest) (parse_class tr p)
unfolding parse_class
class-Leaves tr p = elim (Bool-cases (next_is 126 p.rest)) [
  | inl e ↦ ground (
    arith,
    e,
    Leaves-le (length (tail p.rest)) (length p.rest) _ (length-tail p.rest)
        (scan_class-Leaves tr (tail p.rest) (p.dst ++ p_notclass ∷ []) (wild p)),
  )
  | inr e ↦ ground (arith, e, scan_class-Leaves tr p.rest (p.dst ++ p_class ∷ []) (wild p))
]

quote-Leaves : (p : Parsing) → Leaves (length p.rest) (parse_quote p)
unfolding parse_quote
quote-Leaves p = ground arith

char-Leaves :
    (tr : ℕ → ℕ) (star : Bool) (c : ℕ) (p : Parsing)
    → Leaves (length p.rest) (parse_char tr star c p)
unfolding parse_char
char-Leaves tr star c p = ground (
  arith,
  hash-Leaves p,
  not-Leaves p,
  bar-Leaves p,
  close-Leaves p,
  class-Leaves tr p,
  quote-Leaves p,
)

-- A round takes at least one character, where there is one.
abbrev Shortens : List ℕ → ParseStep → Type 0
Shortens [] (next p) = ⊥
Shortens (c ∷ rest) (next p) = length p.rest ≤ length rest
Shortens s _ = Unit

Leaves-Shortens :
    (c : ℕ) (rest : List ℕ) (r : ParseStep) → Leaves (length rest) r → Shortens (c ∷ rest) r
Leaves-Shortens c rest (next p) h = h
Leaves-Shortens c rest invalid h = tt
Leaves-Shortens c rest type_error h = tt
Leaves-Shortens c rest finished h = tt

abbrev state : List ℕ → List ℕ → List ℕ → Bool → Parsing
state rest dst blocks w = record { rest = rest; dst = dst; blocks = blocks; has_wild = w }

step-Shortens :
    (tr : ℕ → ℕ) (star : Bool) (rest dst blocks : List ℕ) (w : Bool)
    → Shortens rest (parse_step tr star (state rest dst blocks w))
unfolding parse_step
step-Shortens tr star [] dst blocks w = tt
step-Shortens tr star (c ∷ rest) dst blocks w =
    Leaves-Shortens c rest _ (char-Leaves tr star c (state rest dst blocks w))

abbrev is_out_of_fuel : ParseResult → Bool
is_out_of_fuel out_of_fuel = true
is_out_of_fuel _ = false

parse_loop-ends :
    (fuel : ℕ) (tr : ℕ → ℕ) (star : Bool) (src_str : List ℕ) (ic : Bool) (p : Parsing)
    → length p.rest < fuel
    → is_out_of_fuel (parse_loop fuel tr star src_str ic p) ≡ false
unfolding parse_loop
parse_loop-ends zero tr star src_str ic p h = absurd (omega arith)
parse_loop-ends (suc fuel) tr star src_str ic p h =
    stepped-ends (parse_step tr star p) p.rest
      (step-Shortens tr star p.rest p.dst p.blocks p.has_wild) h
      (λ p' k. parse_loop-ends fuel tr star src_str ic p' k)
  where
    stepped-ends :
        (r : ParseStep) (rest : List ℕ)
        → Shortens rest r
        → length rest < suc fuel
        → ((p' : Parsing)
            → length p'.rest < fuel
            → is_out_of_fuel (parse_loop fuel tr star src_str ic p') ≡ false)
        → is_out_of_fuel (elim r [
          | next p' ↦ parse_loop fuel tr star src_str ic p'
          | invalid ↦ no_pattern
          | type_error ↦ raises_type_error
          | finished ↦ check_blocks src_str ic p
        ])
          ≡ false
    stepped-ends (next p') [] s k f = absurd s
    stepped-ends (next p') (c ∷ rest) s k f = f p' (omega arith)
    stepped-ends invalid rest s k f = refl
    stepped-ends type_error rest s k f = refl
    stepped-ends finished rest s k f = ground arith

-- `pattern_parse` ends on every source, within its fuel.
pub pattern_parse-ends :
    (lower : ℕ → ℕ) (src_str : List ℕ) (ignore_case star_is_wild : Bool)
    → pattern_parse lower src_str ignore_case star_is_wild ≢ out_of_fuel
unfolding pattern_parse
pattern_parse-ends lower src ic star e =
    let h =
      parse_loop-ends (suc (length src)) (tr_of lower ic) star src ic (begin src) (omega arith) in
    ground (arith, e, h)
