-- ===== src/DosPattern/Match.antt =====
-- `pattern_match`: its loop at the positions `pat_pos` and `str_pos`, and its markers, the last one
-- first.
use amitools.Prelude.{
  ℕ, zero, suc, ◌+◌, ◌-◌, Bool, true, false, not, Option, none, some, List, [], ◌∷◌, ◌==◌, ltb, leb,
  ◌&&◌, ◌||◌, if◌then◌else◌, length, get_elem?, drop,
}
use amitools.DosPattern.{
  p_any, p_single, p_orstart, p_ornext, p_orend, p_not, p_notend, p_notclass, p_class, p_repbeg,
  p_repend, Pattern,
}
use amitools.DosPattern.Parse.{tr_of}

pub record Marker : Type 0 where
  pub flag : Bool
  pub pat_pos : ℕ
  pub str_pos : ℕ

abbrev pub marker : Bool → ℕ → ℕ → Marker
marker flag pat_pos str_pos = record { flag = flag; pat_pos = pat_pos; str_pos = str_pos }

abbrev pub same_flag : Bool → Bool → Bool
same_flag true b = b
same_flag false b = not b

abbrev pub same : Marker → Marker → Bool
same m o = same_flag m.flag o.flag && (m.pat_pos == o.pat_pos && m.str_pos == o.str_pos)

pub record Matching : Type 0 where
  pub pat_pos : ℕ
  pub str_pos : ℕ
  pub stack : List Marker
  pub history : List Marker

pub data MatchStep : Type 0 where
  next : Matching → MatchStep
  matched failed index_error type_error : MatchStep

pub data MatchResult : Type 0 where
  result : Bool → MatchResult
  raised out_of_fuel : MatchResult

abbrev pub in_history : Marker → List Marker → Bool
in_history m [] = false
in_history m (h ∷ hs) = same h m || in_history m hs

-- `MarkerStack.push`
abbrev pub push : Marker → Matching → Matching
push m s = if in_history m s.history then s else record s { stack = m ∷ s.stack }

abbrev pub resumed : Marker → List Marker → List Marker → Matching
resumed m stack history = record {
  pat_pos = m.pat_pos;
  str_pos = m.str_pos;
  stack = stack;
  history = history;
}

-- "get next marker to try", with `MarkerStack.pop`.
unfoldable pub next_marker : ℕ → Matching → MatchStep
next_marker n_str s = elim s.stack [
  | [] ↦ failed
  | m ∷ stack ↦
      let s' = resumed m stack (m ∷ s.history) in
      next (
        if m.flag && ltb m.str_pos n_str
        then push (marker true m.pat_pos (m.str_pos + 1)) s'
        else s')
]

-- `get_last(True)` and `drop`: the markers below the last one with a flag, if there is one.
abbrev drop_last : List Marker → List Marker → List Marker
drop_last all [] = all
drop_last all (m ∷ ms) = elim m.flag [ true ↦ ms | false ↦ drop_last all ms ]

-- The last marker with a flag takes the position, if that is behind its own.
abbrev update_last : ℕ → List Marker → Option (List Marker)
update_last pos [] = none
update_last pos (m ∷ ms) = elim m.flag [
  | true ↦ some ((if ltb m.str_pos pos then record m { str_pos = pos } else m) ∷ ms)
  | false ↦ elim (update_last pos ms) [ none ↦ none | some ms' ↦ some (m ∷ ms') ]
]

-- `_seek_end` in what is left of the pattern from `pos` on; `none` is the `IndexError`.
abbrev seek_end : List ℕ → ℕ → ℕ → ℕ → ℕ → Option ℕ
seek_end [] pos p_beg p_end nesting = none
seek_end (cmd ∷ pat) pos p_beg p_end nesting = elim (cmd == p_beg) [
  | true ↦ seek_end pat (suc pos) p_beg p_end (suc nesting)
  | false ↦ elim (cmd == p_end) [
    | false ↦ seek_end pat (suc pos) p_beg p_end nesting
    | true ↦ elim (nesting == 1) [
      | true ↦ some pos
      | false ↦ seek_end pat (suc pos) p_beg p_end (nesting - 1)
    ]
  ]
]

-- `_seek_begin` from `pos - 1` down. With no begin in front, which is so in no pattern that
-- `pattern_parse` makes, Python goes on at the end of the string, and this gives `none`.
abbrev seek_begin : List ℕ → ℕ → ℕ → ℕ → ℕ → Option ℕ
seek_begin pat zero p_beg p_end nesting = none
seek_begin pat (suc pos) p_beg p_end nesting = elim (get_elem? pat pos) [
  | none ↦ none
  | some cmd ↦ elim (cmd == p_end) [
    | true ↦ seek_begin pat pos p_beg p_end (suc nesting)
    | false ↦ elim (cmd == p_beg) [
      | false ↦ seek_begin pat pos p_beg p_end nesting
      | true ↦ elim (nesting == 1) [
        | true ↦ some pos
        | false ↦ seek_begin pat pos p_beg p_end (nesting - 1)
      ]
    ]
  ]
]

-- `_scan_or_block` in what is left of the pattern from `pos` on.
abbrev scan_or_block : List ℕ → ℕ → ℕ → ℕ → Matching → Option Matching
scan_or_block [] pos str_pos nesting s = none
scan_or_block (cmd ∷ pat) pos str_pos nesting s = elim (cmd == p_orstart) [
  | true ↦ scan_or_block pat (suc pos) str_pos (suc nesting) s
  | false ↦ elim (cmd == p_orend) [
    | true ↦ elim (nesting == 1) [
      | true ↦ some s
      | false ↦ scan_or_block pat (suc pos) str_pos (nesting - 1) s
    ]
    | false ↦
        scan_or_block pat (suc pos) str_pos nesting
          (if cmd == p_ornext && nesting == 1 then push (marker false (suc pos) str_pos) s else s)
  ]
]

abbrev pub at_pos : ℕ → Matching → Matching
at_pos pos s = record s { pat_pos = pos }

abbrev advance : Matching → Matching
advance s = record s { pat_pos = s.pat_pos + 1; str_pos = s.str_pos + 1 }

abbrev seek_next : Option ℕ → (ℕ → Matching) → MatchStep
seek_next none f = index_error
seek_next (some pos) f = next (f pos)

-- What a class says of a character: it is in the class, with the pattern from there on, or it is not,
-- with the position behind the class. `outside` is the `IndexError`.
pub data InClass : Type 0 where
  hit : List ℕ → ℕ → InClass
  missed : ℕ → InClass
  outside : InClass

-- "move to end of pattern"
abbrev class_end : List ℕ → ℕ → Option ℕ
class_end [] pos = none
class_end (c ∷ pat) pos = elim (c == p_class) [
  | true ↦ some (suc pos)
  | false ↦ class_end pat (suc pos)
]

-- The loop over a class, in the pattern from `pos` on. The end of a range is read again as the begin
-- of the next one.
abbrev in_class : List ℕ → ℕ → ℕ → InClass
in_class [] pos s_ch = outside
in_class (begin ∷ []) pos s_ch = if begin == p_class then missed (suc pos) else outside
in_class (begin ∷ c ∷ []) pos s_ch =
    if begin == p_class
    then missed (suc pos)
    else if c == 45
    then outside
    else if begin == s_ch
    then hit (c ∷ []) (suc pos)
    else in_class (c ∷ []) (suc pos) s_ch
in_class (begin ∷ c ∷ d ∷ pat) pos s_ch =
    let on = in_class (c ∷ d ∷ pat) (suc pos) s_ch in
    let behind = in_class (d ∷ pat) (suc (suc pos)) s_ch in
    if begin == p_class
    then missed (suc pos)
    else if c == 45
    then (let last = if d == p_class then 255 else d in
        if leb begin s_ch && leb s_ch last then hit (d ∷ pat) (suc (suc pos)) else behind)
    else if begin == s_ch
    then hit (c ∷ d ∷ pat) (suc pos)
    else on

-- The steps at the tokens, behind the token: `cmd` stands at `s.pat_pos - 1`.
step_repbeg : List ℕ → Matching → MatchStep
step_repbeg pat s =
    let s' = push (marker false s.pat_pos s.str_pos) s in
    seek_next (seek_end (drop s.pat_pos pat) s.pat_pos p_repbeg p_repend 1)
      (λ pos. at_pos (pos + 1) s')

step_not : List ℕ → Matching → MatchStep
step_not pat s =
    seek_next (seek_end (drop s.pat_pos pat) s.pat_pos p_not p_notend 1)
      (λ pos. push (marker true (pos + 1) s.str_pos) s)

step_orstart : List ℕ → Matching → MatchStep
step_orstart pat s = elim (scan_or_block (drop s.pat_pos pat) s.pat_pos s.str_pos 1 s) [
  | none ↦ index_error
  | some s' ↦ next s'
]

step_ornext : List ℕ → Matching → MatchStep
step_ornext pat s =
    seek_next (seek_end (drop s.pat_pos pat) s.pat_pos p_orstart p_orend 1)
      (λ pos. at_pos (pos + 1) s)

step_class : List ℕ → ℕ → ℕ → Matching → MatchStep
unfolding next_marker
step_class pat n_str s_ch s = elim (in_class (drop s.pat_pos pat) s.pat_pos s_ch) [
  | hit rest pos ↦ elim (class_end rest pos) [
    | none ↦ index_error
    | some behind ↦ next (record s { pat_pos = behind; str_pos = s.str_pos + 1 })
  ]
  | missed pos ↦ next_marker n_str (at_pos pos s)
  | outside ↦ index_error
]

step_notclass : List ℕ → ℕ → ℕ → Matching → MatchStep
unfolding next_marker
step_notclass pat n_str s_ch s = elim (in_class (drop s.pat_pos pat) s.pat_pos s_ch) [
  | hit rest pos ↦ next_marker n_str s
  | missed pos ↦ next (record s { pat_pos = pos; str_pos = s.str_pos + 1 })
  | outside ↦ index_error
]

-- At the token itself.
step_repend : List ℕ → Matching → MatchStep
step_repend pat s = seek_next (seek_begin pat s.pat_pos p_repbeg p_repend 1) (λ pos. at_pos pos s)

step_notend : ℕ → Matching → MatchStep
unfolding next_marker
step_notend n_str s =
    if s.str_pos == n_str
    then next_marker n_str (record s { stack = drop_last s.stack s.stack })
    else (elim (update_last (s.str_pos + 1) s.stack) [
      | none ↦ type_error
      | some stack ↦ next_marker n_str (record s { stack = stack; str_pos = s.str_pos + 1 })
    ])

unfoldable pub step_any : ℕ → Matching → MatchStep
step_any n_str s =
    let s' = if ltb s.str_pos n_str then push (marker false s.pat_pos (s.str_pos + 1)) s else s in
    next (at_pos (s.pat_pos + 1) s')

-- A character of the pattern and one of the string, where there is one.
unfoldable pub step_char : ℕ → ℕ → Option ℕ → Matching → MatchStep
unfolding next_marker
step_char n_str p_ch none s = next_marker n_str s
step_char n_str p_ch (some s_ch) s = if p_ch == s_ch then next (advance s) else next_marker n_str s

unfoldable pub step_single : ℕ → Matching → MatchStep
unfolding next_marker
step_single n_str s =
    if ltb s.str_pos n_str then next (advance s) else next_marker n_str (at_pos (s.pat_pos + 1) s)

unfoldable pub step_eof : ℕ → Matching → MatchStep
unfolding next_marker
step_eof n_str s = if s.str_pos == n_str then matched else next_marker n_str s

-- The tokens that end or negate, and the classes, when the string has a character.
step_block : ℕ → List ℕ → ℕ → Option ℕ → Matching → MatchStep
unfolding next_marker step_repbeg step_repend step_not step_notend step_orstart step_ornext
    step_class step_notclass
step_block cmd pat n_str s_ch s =
    let behind = at_pos (s.pat_pos + 1) s in
    if cmd == p_repbeg
    then step_repbeg pat behind
    else if cmd == p_repend
    then step_repend pat s
    else if cmd == p_not
    then step_not pat behind
    else if cmd == p_notend
    then step_notend n_str s
    else if cmd == p_orstart
    then step_orstart pat behind
    else if cmd == p_ornext
    then step_ornext pat behind
    else if cmd == p_orend
    then next behind
    else (elim s_ch [
      | none ↦ next_marker n_str s
      | some ch ↦
          if cmd == p_class
          then step_class pat n_str ch behind
          else step_notclass pat n_str ch behind
    ])

-- The tokens that `step_block` is about.
abbrev pub is_block : ℕ → Bool
is_block cmd =
    cmd == p_repbeg
    || (cmd == p_repend
        || (cmd == p_not
            || (cmd == p_notend
                || (cmd == p_orstart
                    || (cmd == p_ornext
                        || (cmd == p_orend || (cmd == p_class || cmd == p_notclass)))))))

abbrev pub map_ch : (ℕ → ℕ) → Option ℕ → Option ℕ
map_ch tr none = none
map_ch tr (some c) = some (tr c)

-- A round of the loop; behind the pattern the command is 0.
unfoldable pub match_step : (ℕ → ℕ) → List ℕ → List ℕ → Matching → MatchStep
unfolding step_any step_single step_eof step_char step_block
match_step tr pat in_str s =
    let n_str = length in_str in
    let s_ch = map_ch tr (get_elem? in_str s.str_pos) in
    elim (get_elem? pat s.pat_pos) [
      | none ↦ step_eof n_str s
      | some cmd ↦
          if cmd == p_single
          then step_single n_str s
          else if cmd == p_any
          then step_any n_str s
          else if cmd == 0
          then step_eof n_str s
          else if is_block cmd
          then step_block cmd pat n_str s_ch s
          else step_char n_str cmd s_ch s
    ]

-- The loop, on fuel.
unfoldable pub match_loop : ℕ → (ℕ → ℕ) → List ℕ → List ℕ → Matching → MatchResult
unfolding match_step
match_loop zero tr pat in_str s = out_of_fuel
match_loop (suc fuel) tr pat in_str s = elim (match_step tr pat in_str s) [
  | next s' ↦ match_loop fuel tr pat in_str s'
  | matched ↦ result true
  | failed ↦ result false
  | index_error ↦ raised
  | type_error ↦ raised
]

abbrev pub start : Matching
start = record { pat_pos = 0; str_pos = 0; stack = []; history = [] }

unfoldable pub pattern_match : ℕ → (ℕ → ℕ) → Pattern → List ℕ → MatchResult
unfolding match_loop
pattern_match fuel lower pattern in_str =
    match_loop fuel (tr_of lower pattern.ignore_case) pattern.pat_str in_str start
