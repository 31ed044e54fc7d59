-- ===== src/LinkedList/Access.antt =====
-- data_structures/list.c: the functions that look for a node or go through all of them.
use c_utils.Base.{
  ℕ, zero, suc, ◌+◌, ◌-◌, ◌/◌, Bool, false, not, List, [], ◌∷◌, ltb, leb, ◌==◌, if◌then◌else◌, Run,
  ok, fault, out_of_fuel, ◌>>=◌,
}
use c_utils.Node.{Ptr, null, Store, load}
use c_utils.LinkedList.{LinkedList}

-- while((node = node->prev) && --i != index); the assertion behind it fails where `prev` is NULL.
unfoldable pub back_loop : ℕ → Store → Ptr → ℕ → ℕ → Run Ptr
back_loop zero s node i index = out_of_fuel
back_loop (suc k) s node i index = do
  n ← load s node
  if n.prev == null
      then fault
      else if i - 1 == index
      then ok n.prev
      else back_loop k s n.prev (i - 1) index

-- while((node = node->next) && ++i != index); the same at the other end.
unfoldable pub forward_loop : ℕ → Store → Ptr → ℕ → ℕ → Run Ptr
forward_loop zero s node i index = out_of_fuel
forward_loop (suc k) s node i index = do
  n ← load s node
  if n.next == null
      then fault
      else if i + 1 == index
      then ok n.next
      else forward_loop k s n.next (i + 1) index

unfoldable pub index_to_node : LinkedList → ℕ → Run Ptr
unfolding back_loop forward_loop
index_to_node l index =
    if leb l.size index
    then ok null
    else if index == l.size - 1
    then ok l.tail
    else if index == 0
    then ok l.head
    else if ltb (l.size / 2) index
    then back_loop l.size l.nodes l.tail (l.size - 1) index
    else forward_loop l.size l.nodes l.head 0 index

unfoldable pub find_loop : ℕ → Store → Ptr → ℕ → Run Ptr
find_loop zero s node item = out_of_fuel
find_loop (suc k) s node item =
    if node == null
    then ok null
    else (do n ← load s node; if item == n.item then ok node else find_loop k s n.next item)

-- `p && p->item == item`
unfoldable pub holds : Store → Ptr → ℕ → Run Bool
holds s p item = if p == null then ok false else (do n ← load s p; ok (n.item == item))

unfoldable pub item_to_node : LinkedList → ℕ → Run Ptr
unfolding find_loop holds
item_to_node l item = do
  at_head ← holds l.nodes l.head item
  if at_head then ok l.head else (do
    at_tail ← holds l.nodes l.tail item
    if at_tail then ok l.tail else find_loop (l.size + 1) l.nodes l.head item)

-- The items in order: what `for_each` hands to its callback, and what `as_array` writes.
unfoldable pub items_loop : ℕ → Store → Ptr → Run (List ℕ)
items_loop zero s node = out_of_fuel
items_loop (suc k) s node =
    if node == null
    then ok []
    else (do n ← load s node; rest ← items_loop k s n.next; ok (n.item ∷ rest))

unfoldable pub for_each_item : LinkedList → Run (List ℕ)
unfolding items_loop
for_each_item l = items_loop (l.size + 1) l.nodes l.head

unfoldable pub contains : LinkedList → ℕ → Run Bool
contains l item =
    if item == null then ok false else (do node ← item_to_node l item; ok (not (node == null)))

unfoldable pub get : LinkedList → ℕ → Run ℕ
get l index = do
  node ← index_to_node l index
  if node == null then ok null else (do n ← load l.nodes node; ok n.item)

-- `malloc_ok` says whether there is memory for the array.
unfoldable pub as_array : Bool → LinkedList → Run (List ℕ)
as_array malloc_ok l = if malloc_ok then items_loop (l.size + 1) l.nodes l.head else ok []
