-- ===== src/Prelude/Assoc.antt =====
-- Python dictionaries whose keys are numbers: the pairs in the order in which the keys came in.
use Prim.Native.Nat.{ℕ}
use mathlib.Core.Path.{◌≡◌}
use mathlib.Core.Logic.{◌≢◌}
use mathlib.Core.List.{List, [], ◌∷◌}
use mathlib.Core.Option.{Option, none, some}
use native.Mathlib.Omega.{arith}
use amitools.Prelude.Tests.{◌==◌, if◌then◌else◌}

abbrev pub Dict : Type 0 → Type 0
Dict V = List (ℕ × V)

module _ {V : Type 0} (key : ℕ) where
  -- `table.get(key)`
  abbrev pub lookup : Dict V → Option V
  lookup [] = none
  lookup ((at, value) ∷ table) = if at == key then some value else lookup table

  -- `table[key] = value`: an entry that is there keeps its place.
  abbrev pub insert : V → Dict V → Dict V
  insert value [] = (key, value) ∷ []
  insert value ((at, old) ∷ table) =
      if at == key then (at, value) ∷ table else (at, old) ∷ insert value table

  -- `del table[key]`
  abbrev pub erase : Dict V → Dict V
  erase [] = []
  erase ((at, value) ∷ table) = if at == key then table else (at, value) ∷ erase table

-- What is found after a write: the new value at its key, and what was there at any other.
pub lookup-insert :
    {V : Type 0} (key other : ℕ) (value : V) (table : Dict V)
    → lookup other (insert key value table)
      ≡ (if other == key then some value else lookup other table)
lookup-insert key other value [] = ground arith
lookup-insert key other value (entry ∷ table) = ground (arith, lookup-insert key other value table)

-- A deletion leaves every other key alone.
pub lookup-erase :
    {V : Type 0} (key other : ℕ) (table : Dict V)
    → other ≢ key
    → lookup other (erase key table) ≡ lookup other table
lookup-erase key other [] apart = ground arith
lookup-erase key other (entry ∷ table) apart = ground (arith, lookup-erase key other table apart)

-- A new key goes to the end, so its deletion restores the table.
pub erase-insert :
    {V : Type 0} (key : ℕ) (value : V) (table : Dict V)
    → lookup key table ≡ none
    → erase key (insert key value table) ≡ table
erase-insert key value [] new = ground arith
erase-insert key value (entry ∷ table) new = ground (arith, erase-insert key value table)
