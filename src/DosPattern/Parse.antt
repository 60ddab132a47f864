-- ===== src/DosPattern/Parse.antt =====
-- `pattern_parse`. Its loop keeps what is left of the source, the tokens so far, the blocks that are
-- open, the last one first, and whether there was a wildcard.
use amitools.Prelude.{
  ℕ, zero, suc, Bool, true, false, Option, none, some, List, [], ◌∷◌, ◌++◌, ◌==◌, ◌||◌,
  if◌then◌else◌, length,
}
use amitools.DosPattern.{
  p_any, p_single, p_orstart, p_ornext, p_orend, p_not, p_notend, p_notclass, p_class, p_repbeg,
  p_repend, Pattern,
}

pub record Parsing : Type 0 where
  pub rest : List ℕ
  pub dst : List ℕ
  pub blocks : List ℕ
  pub has_wild : Bool

-- What a round of the loop comes to: `invalid` is the result None, and `type_error` what `in` raises
-- of None.
pub data ParseStep : Type 0 where
  next : Parsing → ParseStep
  invalid type_error finished : ParseStep

pub data ParseResult : Type 0 where
  parsed : Pattern → ParseResult
  no_pattern raises_type_error out_of_fuel : ParseResult

-- `_pop_non_or`: the blocks and the tokens.
abbrev pub pop_non_or : List ℕ → List ℕ → List ℕ × List ℕ
pop_non_or [] dst = ([], dst)
pop_non_or (b ∷ blocks) dst = elim (b == p_orend) [
  | true ↦ (b ∷ blocks, dst)
  | false ↦ pop_non_or blocks (dst ++ b ∷ [])
]

abbrev pub flush : Parsing → Parsing
flush p = let r = pop_non_or p.blocks p.dst in record p { blocks = r.0; dst = r.1 }

abbrev pub emit : ℕ → Parsing → Parsing
emit c p = record p { dst = p.dst ++ c ∷ [] }

abbrev pub wild : Parsing → Parsing
wild p = record p { has_wild = true }

abbrev pub open_block : ℕ → Parsing → Parsing
open_block b p = record p { blocks = b ∷ p.blocks }

-- `next`, or None at the end.
abbrev pub next_is : ℕ → List ℕ → Bool
next_is c [] = false
next_is c (x ∷ xs) = x == c

abbrev pub tail : List ℕ → List ℕ
tail [] = []
tail (x ∷ xs) = xs

abbrev pub is_end : List ℕ → Bool
is_end [] = true
is_end (x ∷ xs) = false

-- In the functions below `p` holds the source behind the character.
unfoldable pub parse_hash : Parsing → ParseStep
parse_hash p =
    if is_end p.rest
    then invalid
    else if next_is 63 p.rest
    then next (flush (record (emit p_any (wild p)) { rest = tail p.rest }))
    else if next_is 41 p.rest
    then invalid
    else next (open_block p_repend (emit p_repbeg (wild p)))

unfoldable pub parse_not : Parsing → ParseStep
parse_not p =
    if is_end p.rest
    then next (flush (emit 126 p))
    else if next_is 41 p.rest
    then invalid
    else next (open_block p_notend (emit p_not (wild p)))

unfoldable pub parse_bar : Parsing → ParseStep
parse_bar p = let q = flush p in if is_end q.blocks then invalid else next (emit p_ornext q)

unfoldable pub parse_close : Parsing → ParseStep
parse_close p =
    let q = flush p in
    if is_end q.blocks
    then invalid
    else next (flush (record (emit p_orend q) { blocks = tail q.blocks }))

-- The characters of a class, up to its end, and the source behind it.
abbrev pub scan_class : (ℕ → ℕ) → List ℕ → List ℕ → Option (List ℕ × List ℕ)
scan_class tr [] dst = none
scan_class tr (ch ∷ src) dst = elim (ch == 93) [
  | true ↦ some (dst, src)
  | false ↦ scan_class tr src (if ch == 39 then dst else dst ++ tr ch ∷ [])
]

abbrev pub close_class : Option (List ℕ × List ℕ) → Parsing → ParseStep
close_class none p = invalid
close_class (some (dst, src)) p = next (flush (record p { dst = dst ++ p_class ∷ []; rest = src }))

unfoldable pub parse_class : (ℕ → ℕ) → Parsing → ParseStep
parse_class tr p =
    let q = wild p in
    if next_is 126 p.rest
    then close_class (scan_class tr (tail p.rest) (p.dst ++ p_notclass ∷ [])) q
    else close_class (scan_class tr p.rest (p.dst ++ p_class ∷ [])) q

-- `next in "#*?(|)~[]%'"`
abbrev pub is_quotable : ℕ → Bool
is_quotable c =
    c == 35
    || (c == 42
        || (c == 63
            || (c == 40
                || (c == 124
                    || (c == 41 || (c == 126 || (c == 91 || (c == 93 || (c == 37 || c == 39)))))))))

unfoldable pub parse_quote : Parsing → ParseStep
parse_quote p = elim p.rest [
  | [] ↦ type_error
  | c ∷ rest ↦ next (flush (if is_quotable c then record (emit c p) { rest = rest } else p))
]

-- A round of the loop, at a character.
unfoldable pub parse_char : (ℕ → ℕ) → Bool → ℕ → Parsing → ParseStep
unfolding parse_hash parse_not parse_bar parse_close parse_class parse_quote
parse_char tr star_is_wild src p =
    if src == 35
    then parse_hash p
    else if src == 126
    then parse_not p
    else if src == 63
    then next (flush (emit p_single (wild p)))
    else if src == 40
    then next (open_block p_orend (emit p_orstart (wild p)))
    else if src == 124
    then parse_bar p
    else if src == 41
    then parse_close p
    else if src == 91
    then parse_class tr p
    else if src == 42
    then next (flush (if star_is_wild then emit p_any (wild p) else emit src p))
    else if src == 37
    then next p
    else if src == 39
    then parse_quote p
    else next (flush (emit (tr src) p))

unfoldable pub parse_step : (ℕ → ℕ) → Bool → Parsing → ParseStep
unfolding parse_char
parse_step tr star_is_wild p = elim p.rest [
  | [] ↦ finished
  | src ∷ rest ↦ parse_char tr star_is_wild src (record p { rest = rest })
]

-- "finally check blocks"
abbrev pub check_blocks : List ℕ → Bool → Parsing → ParseResult
check_blocks src_str ignore_case p =
    if is_end p.blocks
    then parsed (record {
      src_str = src_str;
      pat_str = p.dst;
      ignore_case = ignore_case;
      has_wildcard = p.has_wild;
    })
    else no_pattern

-- The loop, on fuel.
unfoldable pub parse_loop : ℕ → (ℕ → ℕ) → Bool → List ℕ → Bool → Parsing → ParseResult
unfolding parse_step
parse_loop zero tr star_is_wild src_str ignore_case p = out_of_fuel
parse_loop (suc fuel) tr star_is_wild src_str ignore_case p = elim (parse_step tr star_is_wild p) [
  | next p' ↦ parse_loop fuel tr star_is_wild src_str ignore_case p'
  | invalid ↦ no_pattern
  | type_error ↦ raises_type_error
  | finished ↦ check_blocks src_str ignore_case p
]

abbrev pub tr_of : (ℕ → ℕ) → Bool → ℕ → ℕ
tr_of lower ignore_case = if ignore_case then lower else λ c. c

abbrev pub begin : List ℕ → Parsing
begin src_str = record { rest = src_str; dst = []; blocks = []; has_wild = false }

-- Every round takes a character of the source at least, so its length, and one, is fuel enough.
unfoldable pub pattern_parse : (ℕ → ℕ) → List ℕ → Bool → Bool → ParseResult
unfolding parse_loop
pattern_parse lower src_str ignore_case star_is_wild =
    parse_loop (suc (length src_str)) (tr_of lower ignore_case) star_is_wild src_str ignore_case
      (begin src_str)
