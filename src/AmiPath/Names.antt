-- ===== src/AmiPath/Names.antt =====
-- The names of a path: `parent` and `filename` undo `join` with a name.
use amitools.Prelude.{ℕ, ◌≡◌, false, none, List}
use amitools.Prelude.Strs.{colon, slash, find}
use amitools.AmiPath.{AmiPath, is_empty}

-- A name: not empty, and without a slash or a colon.
unfoldable IsName : List ℕ → Type 0
IsName o = (is_empty o ≡ false) × (find slash o ≡ none) × (find colon o ≡ none)
