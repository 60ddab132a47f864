-- ===== src/Fs/Block/Strings.antt =====
-- The C strings of a block: `_get_cstr` and `_put_cstr` of amitools/fs/block/Block.py.
use amitools.Prelude.{
  ℕ, zero, suc, ◌+◌, ◌-◌, ◌*◌, ◌≤◌, ◌<◌, ◌≡◌, ◌⊎◌, inl, inr, refl, sym, Option, none, some, ◌>>=◌,
  List, [], ◌∷◌, ◌++◌, arith, length, get_elem?, take, drop, ltb, leb, if◌then◌else◌, length-append,
  take-append-drop, length-take, length-drop,
}
use mathlib.Core.List.{append_assoc}

-- The loop of `_get_cstr`, with `left` rounds to go.
pub cstr_length : ℕ → ℕ → ℕ → List ℕ → Option ℕ
cstr_length zero n loc bytes = some n
cstr_length (suc left) n loc bytes = elim (get_elem? bytes (loc + n)) [
  | none ↦ none
  | some zero ↦ some n
  | some (suc c) ↦ cstr_length left (n + 1) loc bytes
]

-- `none` is an `IndexError`.
pub get_cstr : ℕ → ℕ → List ℕ → Option (List ℕ)
get_cstr loc max_size bytes = do
  n ← cstr_length max_size 0 (loc * 4) bytes
  some (take n (drop (loc * 4) bytes))

-- The slice from `loc` to `loc + n` is replaced by the whole string. `None` is the empty string.
pub put_cstr : ℕ → ℕ → List ℕ → List ℕ → List ℕ
put_cstr loc max_size cstr bytes =
    let n = (if leb max_size (length cstr) then max_size else length cstr) in
    if ltb 0 n then take (loc * 4) bytes ++ cstr ++ drop (loc * 4 + n) bytes else bytes

-- Where `max_size` is not 0 and the block has room for so many bytes, putting a string of at most
-- `max_size` bytes keeps the size of the data, but one that is longer is not cut: the data grow by the
-- bytes that are too many.
pub length-put_cstr :
    (loc max_size : ℕ) (cstr bytes : List ℕ)
    → 0 < max_size
    → loc * 4 + max_size ≤ length bytes
    → length (put_cstr loc max_size cstr bytes) ≡ length bytes + (length cstr - max_size)
unfolding put_cstr
length-put_cstr loc max_size cstr bytes h k = ground (
  arith,
  length-append (take (loc * 4) bytes ++ cstr) (drop (loc * 4 + max_size) bytes),
  length-append (take (loc * 4) bytes ++ cstr) (drop (loc * 4 + length cstr) bytes),
  length-append (take (loc * 4) bytes) cstr,
  length-take (loc * 4) bytes,
  length-drop (loc * 4 + max_size) bytes,
  length-drop (loc * 4 + length cstr) bytes,
)

-- No character is 0.
abbrev pub IsCstr : List ℕ → Type 0
IsCstr [] = Unit
IsCstr (c ∷ cs) = (0 < c) × IsCstr cs

at-append :
    (pre post : List ℕ) (i : ℕ) → i ≡ length pre → get_elem? (pre ++ post) i ≡ get_elem? post 0
at-append [] post i h = rw h refl
at-append (p ∷ pre) post (suc i) h = at-append pre post i (omega (arith, h))
at-append (p ∷ pre) post zero h = absurd (omega (arith, h))

drop-append : (pre post : List ℕ) (i : ℕ) → i ≡ length pre → drop i (pre ++ post) ≡ post
drop-append [] post zero h = refl
drop-append [] post (suc i) h = absurd (omega (arith, h))
drop-append (p ∷ pre) post (suc i) h = drop-append pre post i (omega (arith, h))
drop-append (p ∷ pre) post zero h = absurd (omega (arith, h))

take-append : (pre post : List ℕ) → take (length pre) (pre ++ post) ≡ pre
take-append [] post = refl
take-append (p ∷ pre) post = rw (take-append pre post)

cstr_length_lem :
    (left n loc : ℕ) (pre cstr post : List ℕ)
    → length pre ≡ loc + n
    → IsCstr cstr
    → length cstr ≤ left
    → (length cstr ≡ left) ⊎ (get_elem? post 0 ≡ some 0)
    → cstr_length left n loc (pre ++ (cstr ++ post)) ≡ some (n + length cstr)
unfolding cstr_length
cstr_length_lem zero n loc pre [] post e s h k = ground arith
cstr_length_lem zero n loc pre (c ∷ cstr) post e s h k = absurd (omega (arith, h))
cstr_length_lem (suc left) n loc pre [] post e s h k =
    ground (arith, at-append pre post (loc + n) (sym e))
cstr_length_lem (suc left) n loc pre (suc c ∷ cstr) post e s h k =
    let found = at-append pre (suc c ∷ (cstr ++ post)) (loc + n) (sym e) in
    let len = length-append pre (suc c ∷ []) in
    let rest =
      cstr_length_lem left (n + 1) loc (pre ++ suc c ∷ []) cstr post (omega (arith, e, len)) s.1
        (omega (arith, h)) (elim k [ inl i ↦ inl (omega (arith, i)) | inr o ↦ inr o ]) in
    ground (arith, found, append_assoc pre (suc c ∷ []) (cstr ++ post), rest)
cstr_length_lem (suc left) n loc pre (zero ∷ cstr) post e s h k = absurd (omega (arith, s))

put_cstr_lem :
    (loc max_size : ℕ) (cstr bytes : List ℕ)
    → length cstr ≤ max_size
    → put_cstr loc max_size cstr bytes
      ≡ take (loc * 4) bytes ++ (cstr ++ drop (loc * 4 + length cstr) bytes)
unfolding put_cstr
put_cstr_lem loc max_size [] bytes h =
    let e : loc * 4 + 0 ≡ loc * 4 = omega arith in
    ground (arith, e, take-append-drop (loc * 4) bytes)
put_cstr_lem loc max_size (c ∷ cstr) bytes h = ground (
  arith,
  append_assoc (take (loc * 4) bytes) (c ∷ cstr) (drop (loc * 4 + length (c ∷ cstr)) bytes),
)

-- A string without zeros that is put into a block is read back, where it fits and either has the full
-- size or stands before a zero byte.
pub get_cstr-put_cstr :
    (loc max_size : ℕ) (cstr bytes : List ℕ)
    → IsCstr cstr
    → length cstr ≤ max_size
    → loc * 4 + max_size ≤ length bytes
    → (length cstr ≡ max_size) ⊎ (get_elem? (drop (loc * 4 + length cstr) bytes) 0 ≡ some 0)
    → get_cstr loc max_size (put_cstr loc max_size cstr bytes) ≡ some cstr
unfolding get_cstr
get_cstr-put_cstr loc max_size cstr bytes s h k e =
    rw
      (
        put_cstr_lem loc max_size cstr bytes h,
        cstr_length_lem max_size 0 (loc * 4) pre cstr post (omega (arith, len)) s h e,
        drop-append pre (cstr ++ post) (loc * 4) (omega (arith, len)),
      )
      (let z : 0 + length cstr ≡ length cstr = omega arith in rw (z, take-append cstr post) refl)
  where
    pre : List ℕ
    pre = take (loc * 4) bytes

    post : List ℕ
    post = drop (loc * 4 + length cstr) bytes

    len : length pre ≡ loc * 4
    len = omega (arith, length-take (loc * 4) bytes, h, k)
