-- ===== src/LinkedList/Drop.antt =====
-- data_structures/list.c: the functions that take nodes out of a list.
use c_utils.Base.{
  ℕ, zero, suc, ◌+◌, ◌-◌, Bool, false, Option, some, ◌==◌, if◌then◌else◌, List, ◌∷◌, Run, ok,
  out_of_fuel, ◌>>=◌, fault,
}
use c_utils.Node.{Ptr, null, Node, Store, load, change, set_next, set_prev}
use c_utils.LinkedList.{LinkedList, ItemEvent, ref_dec, destruct}
use c_utils.LinkedList.Access.{index_to_node, item_to_node}

-- What happens to the item of a node that leaves: `del` says whether the destructor is to run.
abbrev pub drop_item : LinkedList → Bool → ℕ → List ItemEvent
drop_item l del item =
    if l.conf.rc_item
    then ref_dec item ∷ l.events
    else if del
    then destruct item ∷ l.events
    else l.events

-- The node is marked, and its reference given up. The last one runs the destructor of the node, which
-- is `free` and gets an address inside of the block: that is undefined.
abbrev pub invalid : Node → Option Node
invalid n = some (record n { is_valid = false; refs = n.refs - 1 })

unfoldable pub invalidate_node : Store → Ptr → Run Store
invalidate_node s node = do n ← load s node; if n.refs == 0 then fault else change s node invalid

-- The last steps that the removals share.
unfoldable pub retire : LinkedList → Ptr → Bool → Run LinkedList
unfolding invalidate_node
retire l node del = do
  n ← load l.nodes node
  s ← invalidate_node l.nodes node
  ok (record l { nodes = s; size = l.size - 1; events = drop_item l del n.item })

unfoldable pub remove_only : LinkedList → Ptr → Bool → Run LinkedList
remove_only l node del = retire (record l { head = null; tail = null }) node del

unfoldable pub remove_head : LinkedList → Ptr → Bool → Run LinkedList
remove_head l node del = do
  h ← load l.nodes l.head
  s ← set_prev l.nodes h.next null
  h' ← load s l.head
  retire (record l { nodes = s; head = h'.next }) node del

unfoldable pub remove_tail : LinkedList → Ptr → Bool → Run LinkedList
remove_tail l node del = do
  t ← load l.nodes l.tail
  s ← set_next l.nodes t.prev null
  retire (record l { nodes = s; tail = t.prev }) node del

unfoldable pub remove_normal : LinkedList → Ptr → Bool → Run LinkedList
remove_normal l node del = do
  n ← load l.nodes node
  s ← set_prev l.nodes n.next n.prev
  n' ← load s node
  s ← set_next s n'.prev n'.next
  retire (record l { nodes = s }) node del

unfoldable pub remove_node : LinkedList → Ptr → Bool → Run LinkedList
remove_node l node del =
    if l.size == 1
    then remove_only l node del
    else if l.tail == node
    then remove_tail l node del
    else if l.head == node
    then remove_head l node del
    else remove_normal l node del

-- `c_utils_list_remove_at` is `remove_at l index false`, `c_utils_list_delete_at` has `true`.
unfoldable pub remove_at : LinkedList → ℕ → Bool → Run (ℕ × LinkedList)
remove_at l index delete_item = do
  node ← index_to_node l index
  if node == null
      then ok (null, l)
      else (do n ← load l.nodes node; l' ← remove_node l node delete_item; ok (n.item, l'))

-- The node is not compared with NULL.
unfoldable pub remove_item : LinkedList → ℕ → Bool → Run LinkedList
remove_item l item delete_item = do node ← item_to_node l item; remove_node l node delete_item

-- `c_utils_list_remove` and `c_utils_list_delete`
unfoldable pub remove : LinkedList → ℕ → Bool → Run LinkedList
unfolding remove_item
remove l item delete_item = if item == null then ok l else remove_item l item delete_item

-- while(list->head) remove_node(list, list->head, del)
unfoldable pub delete_all_nodes : ℕ → LinkedList → Bool → Run LinkedList
delete_all_nodes zero l del = out_of_fuel
delete_all_nodes (suc k) l del =
    if l.head == null then ok l else (do l' ← remove_node l l.head del; delete_all_nodes k l' del)

-- `c_utils_list_remove_all` and `c_utils_list_delete_all`
unfoldable pub clear : LinkedList → Bool → Run LinkedList
unfolding delete_all_nodes
clear l del = delete_all_nodes (l.size + 1) l del

-- The nodes go; the memory of the list itself is not modelled.
unfoldable pub destroy_list : LinkedList → Run LinkedList
unfolding clear
destroy_list l = clear l l.conf.delete_on_destroy
