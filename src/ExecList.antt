-- ===== src/ExecList.antt =====
-- The doubly linked Exec lists in the emulator's memory: class `ListBase` with `MinList` of
-- amitools/vamos/libtypes/list_.py, and `NodeBase` of node.py. A node at address `n` has its pointer
-- `succ` at `n` and `pred` at `n + 4`. A list at `l` has `head`, `tail` and `tail_pred` at `l`, `l + 4`
-- and `l + 8`, and is read as two nodes that overlap, `_head` at `l` and `_tail` at `l + 4`.
pub mod Chain
pub mod Ends
pub mod Middle
pub mod Insert
pub mod Walk
pub mod Enqueue
mod Tests
use amitools.Prelude.{
  ℕ, zero, suc, ◌+◌, ◌-◌, ◌/◌, ◌%◌, ltb, Bool, Option, none, some, List, [], ◌∷◌, ◌||◌, true, ◌==◌,
  if◌then◌else◌,
}
use amitools.Prelude.Int.{ℤ, pos, negsuc, ltb_ℤ}

-- The longwords of the memory. The pointer 0 is `None`.
abbrev pub Mem : Type 0
Mem = ℕ → ℕ

abbrev pub write : Mem → ℕ → ℕ → Mem
write m at v b = if b == at then v else m b

abbrev pub succ : Mem → ℕ → ℕ
succ m n = m n

abbrev pub pred : Mem → ℕ → ℕ
pred m n = m (n + 4)

abbrev pub set_succ : ℕ → ℕ → Mem → Mem
set_succ n v m = write m n v

abbrev pub set_pred : ℕ → ℕ → Mem → Mem
set_pred n v m = write m (n + 4) v

-- `self._tail` of a list
abbrev pub tail_node : ℕ → ℕ
tail_node l = l + 4

-- `MinList.new_list`
pub new_list : ℕ → Mem → Mem
new_list l m = write (write (write m l (tail_node l)) (l + 4) 0) (l + 8) l

-- `NodeBase.remove`; `none` is its `ValueError`.
pub remove : ℕ → Bool → Mem → Option Mem
remove n clear m =
    let s = succ m n in
    let p = pred m n in
    let unlinked = set_succ p s (set_pred s p m) in
    if s == 0 || p == 0
    then none
    else some (if clear then set_pred n 0 (set_succ n 0 unlinked) else unlinked)

pub add_head : ℕ → ℕ → Mem → Mem
add_head l node m =
    let n = succ m l in set_pred n node (set_succ l node (set_succ node n (set_pred node l m)))

pub add_tail : ℕ → ℕ → Mem → Mem
add_tail l node m =
    let tp = m (l + 8) in
    set_succ tp node
      (set_pred node tp (set_pred (tail_node l) node (set_succ node (tail_node l) m)))

-- The node that was taken off, if any; the outer `none` is the `ValueError` of `remove`.
abbrev take_off : ℕ → Mem → Option (Option ℕ × Mem)
take_off node m =
    if node == 0
    then some (none, m)
    else (elim (remove node true m) [ none ↦ none | some m' ↦ some (some node, m') ])

pub rem_head : ℕ → Mem → Option (Option ℕ × Mem)
rem_head l m = take_off (succ m l) m

pub rem_tail : ℕ → Mem → Option (Option ℕ × Mem)
rem_tail l m = take_off (m (l + 8)) m

-- The branch of `insert` behind a node.
abbrev insert_behind : ℕ → ℕ → ℕ → Mem → Mem
insert_behind l node p m =
    let s = succ m p in
    if s == 0
    then add_tail l node m
    else set_succ p node (set_pred s node (set_pred node p (set_succ node s m)))

pub insert : ℕ → ℕ → Option ℕ → Mem → Mem
insert l node none m = add_head l node m
insert l node (some p) m = if p == l then add_head l node m else insert_behind l node p m

-- The nodes from `node` on that a `ListIter` yields. The fuel bounds the walk; `none` is a walk that
-- is not over.
pub walk : ℕ → ℕ → Mem → Option (List ℕ)
walk zero node m = none
walk (suc fuel) node m = elim (succ m node) [
  | zero ↦ some []
  | suc s ↦ elim (walk fuel (suc s) m) [ none ↦ none | some nodes ↦ some (node ∷ nodes) ]
]

-- `ListBase.to_list`
pub to_list : ℕ → ℕ → Mem → Option (List ℕ)
to_list fuel l m = walk fuel (succ m l) m

-- The loop of `__len__`: `n` nodes are counted, and `node` is the next.
pub count : ℕ → ℕ → ℕ → Mem → Option ℕ
count zero n node m = none
count (suc fuel) n node m = elim (succ m node) [
  | zero ↦ some n
  | suc s ↦ count fuel (n + 1) (suc s) m
]

pub len : ℕ → ℕ → Mem → Option ℕ
unfolding count
len fuel l m = count fuel 0 (succ m l) m

-- `ln_Pri`, the signed byte that stands 9 bytes behind a node: the second one of the long there.
abbrev pub node_pri : Mem → ℕ → ℤ
node_pri m n = let b = m (n + 8) / 65536 % 256 in if ltb b 128 then pos b else negsuc (255 - b)

-- The loop of `List.enqueue`; `pri` gives the priority of a node, as the memory has it when the loop
-- runs, which writes nothing before it ends.
pub enqueue_from : (ℕ → ℤ) → ℕ → ℕ → ℕ → Option ℕ → ℕ → Mem → Option Mem
enqueue_from pri zero l node p ln m = none
enqueue_from pri (suc fuel) l node p ln m = elim (succ m ln) [
  | zero ↦ some (add_tail l node m)
  | suc s ↦
      let rest = enqueue_from pri fuel l node (some ln) (suc s) m in
      if ltb_ℤ (pri ln) (pri node) then some (insert l node p m) else rest
]

pub enqueue : ℕ → ℕ → ℕ → Mem → Option Mem
unfolding enqueue_from
enqueue fuel l node m = enqueue_from (node_pri m) fuel l node none (succ m l) m
