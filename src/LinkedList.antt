-- ===== src/LinkedList.antt =====
-- data_structures/list.c: the doubly linked list. An operation is one step: the lock is not
-- modelled. The nodes live in the store of Node.antt.
pub mod Invariant
pub mod Add
pub mod Between
pub mod Sorted
pub mod Insert
pub mod Access
pub mod Drop
pub mod Retire
pub mod Cut
pub mod Bridge
pub mod Index
pub mod Find
pub mod Clear
pub mod Iterate
pub mod Hold
pub mod Moves
pub mod Travel
pub mod Session
pub mod Walk
pub mod Handle
pub mod Release
pub mod IterateTests
pub mod Tests
use c_utils.Base.{
  ℕ, zero, suc, ◌+◌, ◌-◌, ◌/◌, Bool, true, false, not, ◌&&◌, Option, none, some, List, [], ◌∷◌, ltb,
  leb, ◌==◌, if◌then◌else◌, Comparator, is_lt, is_le, is_ge, Run, ok, fault, out_of_fuel, ◌>>=◌,
}
use c_utils.Node.{Ptr, null, Node, Store, write, load, change, set_next, set_prev}

-- What the list does to its items through other code: it gives up a reference, or calls the
-- destructor.
pub data ItemEvent : Type 0 where
  ref_inc : ℕ → ItemEvent
  ref_dec : ℕ → ItemEvent
  destruct : ℕ → ItemEvent

pub record ListConf : Type 0 where
  pub rc_instance : Bool
  pub rc_item : Bool
  pub delete_on_destroy : Bool
  pub compare : Option Comparator
  pub max : ℕ

pub record LinkedList : Type 0 where
  pub head : Ptr
  pub tail : Ptr
  pub size : ℕ
  pub nodes : Store
  pub conf : ListConf
  pub events : List ItemEvent

-- What `malloc` returns for a node: an address, or `null`, and what the memory holds.
pub record Block : Type 0 where
  pub ptr : Ptr
  pub junk : Node

unfoldable pub create_node : Block → ℕ → Store → Store
create_node b item s =
    write s b.ptr (some (record b.junk { item = item; is_valid = true; refs = 0 }))

unfoldable pub add_as_head : LinkedList → Ptr → Run LinkedList
add_as_head l node = do
  s ← set_next l.nodes node l.head
  s ← set_prev s l.head node
  s ← set_prev s node null
  ok (record l { nodes = s; head = node; size = l.size + 1 })

unfoldable pub add_as_tail : LinkedList → Ptr → Run LinkedList
add_as_tail l node = do
  s ← set_next l.nodes l.tail node
  s ← set_prev s node l.tail
  s ← set_next s node null
  ok (record l { nodes = s; tail = node; size = l.size + 1 })

unfoldable pub add_after : LinkedList → Ptr → Ptr → Run LinkedList
add_after l current node = do
  c ← load l.nodes current
  s ← set_prev l.nodes c.next node
  s ← set_next s node c.next
  s ← set_prev s node current
  s ← set_next s current node
  ok (record l { nodes = s; size = l.size + 1 })

unfoldable pub add_as_only : LinkedList → Ptr → Run LinkedList
add_as_only l node = do
  s ← set_prev l.nodes node null
  s ← set_next s node null
  ok (record l { nodes = s; head = node; tail = node; size = l.size + 1 })

unfoldable pub add_before : LinkedList → Ptr → Ptr → Run LinkedList
add_before l current node = do
  c ← load l.nodes current
  s ← set_next l.nodes c.prev node
  s ← set_next s node current
  s ← set_prev s node c.prev
  s ← set_prev s current node
  ok (record l { nodes = s; size = l.size + 1 })

-- The walk for the place of `item`; `false` is the error at its end.
unfoldable pub sorted_loop : Comparator → ℕ → LinkedList → Ptr → ℕ → Ptr → Run (Bool × LinkedList)
sorted_loop cmp zero l node item current = out_of_fuel
sorted_loop cmp (suc k) l node item current = if current == null then ok (false, l) else (do
  c ← load l.nodes current
  if is_le (cmp item c.item)
      then (do l' ← add_before l current node; ok (true, l'))
      else if c.next == null
      then (do l' ← add_as_tail l node; ok (true, l'))
      else sorted_loop cmp k l node item c.next)

unfoldable pub add_sorted : LinkedList → Ptr → Comparator → Run (Bool × LinkedList)
add_sorted l node cmp = do
  n ← load l.nodes node
  h ← load l.nodes l.head
  if l.size == 1
      then (do
        l' ← (if is_lt (cmp n.item h.item) then add_as_head l node else add_as_tail l node)
        ok (true, l'))
      else if is_le (cmp n.item h.item)
      then (do l' ← add_as_head l node; ok (true, l'))
      else (do
        t ← load l.nodes l.tail
        if is_ge (cmp n.item t.item)
            then (do l' ← add_as_tail l node; ok (true, l'))
            else sorted_loop cmp (l.size + 1) l node n.item l.head)

unfoldable pub add_unsorted : LinkedList → Ptr → Run LinkedList
add_unsorted l node = do
  s ← set_next l.nodes node null
  s ← set_prev s node l.tail
  s ← set_next s l.tail node
  ok (record l { nodes = s; tail = node; size = l.size + 1 })

-- `c_utils_list_add`, past the checks for NULL: the node is made before the capacity is looked at.
unfoldable pub add_node : LinkedList → Ptr → Run (Bool × LinkedList)
add_node l node =
    if not (l.conf.max == 0) && (l.conf.max == l.size)
    then ok (false, l)
    else if l.size == 0
    then (do l' ← add_as_only l node; ok (true, l'))
    else elim l.conf.compare [
      | some cmp ↦ add_sorted l node cmp
      | none ↦ do l' ← add_unsorted l node; ok (true, l')
    ]

unfoldable pub add : Block → LinkedList → ℕ → Run (Bool × LinkedList)
unfolding create_node add_node
add b l item =
    if item == null
    then ok (false, l)
    else if b.ptr == null
    then ok (false, l)
    else add_node (record l { nodes = create_node b item l.nodes }) b.ptr
