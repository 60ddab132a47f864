-- ===== src/ExecList/Tests.antt =====
-- Runs of the list operations, and each theorem at an input that meets its hypotheses.
use amitools.Prelude.{
  false, ◌⊎◌, ℕ, ◌≡◌, refl, true, none, some, List, [], ◌∷◌, arith, ◌==◌, if◌then◌else◌,
}
use amitools.ExecList.{
  Mem, succ, pred, new_list, remove, add_head, add_tail, rem_head, rem_tail, insert, walk, to_list,
  len, enqueue,
}
use amitools.ExecList.Chain.{IsList}
use amitools.ExecList.Ends.{new_list-IsList, add_head-IsList, add_tail-IsList}
use amitools.ExecList.Middle.{remove-IsList}
use amitools.ExecList.Insert.{insert-IsList}
use amitools.ExecList.Walk.{to_list-IsList, len-IsList, rem_head-IsList, rem_tail-IsList, rem-empty}
use amitools.ExecList.Enqueue.{Spared, enqueue-IsList}

-- Priorities of 2, 1 and -1: a node at 250 goes between those at 200 and 300.
abbrev blank : Mem
blank a = if a == 208 then 131072 else if a == 258 then 65536 else if a == 308 then 16711680 else 0

abbrev empty : Mem
empty = new_list 100 blank

abbrev two : Mem
two = add_tail 100 300 (add_tail 100 200 empty)

empty-IsList : IsList empty 100 []
empty-IsList = new_list-IsList 100 blank (omega arith)

one-IsList : IsList (add_tail 100 200 empty) 100 (200 ∷ [])
one-IsList = add_tail-IsList 100 200 [] empty empty-IsList (omega arith)

two-IsList : IsList two 100 (200 ∷ 300 ∷ [])
two-IsList = add_tail-IsList 100 300 (200 ∷ []) _ one-IsList (omega arith)

two_nodes : to_list 5 100 two ≡ some (200 ∷ 300 ∷ [])
unfolding to_list walk add_tail new_list
two_nodes = refl

add_head-run : IsList (add_head 100 300 (add_tail 100 200 empty)) 100 (300 ∷ 200 ∷ [])
add_head-run = add_head-IsList 100 300 (200 ∷ []) (add_tail 100 200 empty) one-IsList (omega arith)

add_tail-run : IsList two 100 (200 ∷ 300 ∷ [])
add_tail-run = add_tail-IsList 100 300 (200 ∷ []) (add_tail 100 200 empty) one-IsList (omega arith)

insert-IsList_example : IsList (insert 100 250 (some 200) two) 100 (200 ∷ 250 ∷ 300 ∷ [])
insert-IsList_example = insert-IsList two 100 [] 200 (300 ∷ []) 250 two-IsList (omega arith)

remove-IsList_example :
    (m' : Mem) × (remove 300 true two ≡ some m')
    × IsList m' 100 (200 ∷ [])
    × ((true ≡ false) ⊎ ((succ m' 300 ≡ 0) × (pred m' 300 ≡ 0)))
remove-IsList_example = remove-IsList two 100 (200 ∷ []) 300 [] true two-IsList

to_list-run : to_list 3 100 two ≡ some (200 ∷ 300 ∷ [])
to_list-run = to_list-IsList 3 100 (200 ∷ 300 ∷ []) two two-IsList (omega arith)

len-run : len 3 100 two ≡ some 2
len-run = len-IsList 3 100 (200 ∷ 300 ∷ []) two two-IsList (omega arith)

rem_head-IsList-run :
    (m' : Mem) × (rem_head 100 two ≡ some (some 200, m'))
    × IsList m' 100 (300 ∷ [])
    × (succ m' 200 ≡ 0)
    × (pred m' 200 ≡ 0)
rem_head-IsList-run = rem_head-IsList 100 200 (300 ∷ []) two two-IsList

rem_tail-run :
    (m' : Mem) × (rem_tail 100 two ≡ some (some 300, m'))
    × IsList m' 100 (200 ∷ [])
    × (succ m' 300 ≡ 0)
    × (pred m' 300 ≡ 0)
rem_tail-run = rem_tail-IsList 100 (200 ∷ []) 300 two two-IsList

rem-empty_example : (rem_head 100 empty ≡ none) × (rem_tail 100 empty ≡ none)
rem-empty_example = rem-empty 100 empty empty-IsList

enqueue-run :
    (m' : Mem) × (enqueue 3 100 250 two ≡ some m')
    × IsList m' 100 (200 ∷ 250 ∷ 300 ∷ [])
    × ((a : ℕ) → Spared 100 (250 ∷ 200 ∷ 300 ∷ []) a → m' a ≡ two a)
unfolding add_tail new_list
enqueue-run = enqueue-IsList 3 100 250 (200 ∷ 300 ∷ []) two two-IsList (omega arith) (omega arith)
