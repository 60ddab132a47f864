-- ===== src/DosPattern.antt =====
-- AmigaDOS patterns: amitools/vamos/lib/dos/PatternMatch.py. A source string is made into a string of
-- characters and tokens, which the matcher walks with a stack of markers. Strings are lists of code
-- points, and a token is a code point too, as it is there. Lower case, `str.lower` of one character,
-- is an argument.
pub mod Parse
pub mod Match
pub mod Glob
pub mod Search
pub mod Items
pub mod Ends
mod Tests
use amitools.Prelude.{ℕ, Bool, List}

abbrev pub p_any : ℕ
p_any = 128

abbrev pub p_single : ℕ
p_single = 129

abbrev pub p_orstart : ℕ
p_orstart = 130

abbrev pub p_ornext : ℕ
p_ornext = 131

abbrev pub p_orend : ℕ
p_orend = 132

abbrev pub p_not : ℕ
p_not = 133

abbrev pub p_notend : ℕ
p_notend = 134

abbrev pub p_notclass : ℕ
p_notclass = 135

abbrev pub p_class : ℕ
p_class = 136

abbrev pub p_repbeg : ℕ
p_repbeg = 137

abbrev pub p_repend : ℕ
p_repend = 138

pub record Pattern : Type 0 where
  pub src_str : List ℕ
  pub pat_str : List ℕ
  pub ignore_case : Bool
  pub has_wildcard : Bool
