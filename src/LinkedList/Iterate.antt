-- ===== src/LinkedList/Iterate.antt =====
-- data_structures/list.c: the iterator. A position counts on the node that it stands at and on the
-- two neighbours that the node had then. Each call is one step under the lock.
use c_utils.Base.{
  fault, ℕ, ◌+◌, ◌-◌, Bool, true, false, not, ◌&&◌, Option, none, some, List, ◌∷◌, ◌==◌,
  if◌then◌else◌, Run, ok, ◌>>=◌,
}
use c_utils.Node.{Ptr, null, Node, Store, write, load, change}
use c_utils.LinkedList.{
  LinkedList, Block, ItemEvent, ref_inc, ref_dec, create_node, add_as_head, add_as_tail,
  add_as_only, add_before,
}
use c_utils.LinkedList.Drop.{remove_node}

pub record Position : Type 0 where
  pub prev : Ptr
  pub curr : Ptr
  pub next : Ptr

abbrev pub nowhere : Position
nowhere = record { prev = null; curr = null; next = null }

-- C_UTILS_REF_DEC and C_UTILS_REF_INC of a node. As in `invalidate_node`, the last release is undefined.
abbrev pub given_up : Node → Option Node
given_up n = some (record n { refs = n.refs - 1 })

abbrev pub taken : Node → Option Node
taken n = some (record n { refs = n.refs + 1 })

unfoldable pub ref_dec_node : Store → Ptr → Run Store
ref_dec_node s p =
    if p == null
    then ok s
    else (do n ← load s p; if n.refs == 0 then fault else change s p given_up)

unfoldable pub ref_inc_node : Store → Ptr → Run Store
ref_inc_node s p = if p == null then ok s else change s p taken

abbrev pub note : Bool → ItemEvent → List ItemEvent → List ItemEvent
note flag e es = if flag then e ∷ es else es

-- `update_pos`, first part: what the position counts on is given up.
unfoldable pub let_go : LinkedList → Position → Run LinkedList
let_go l pos = do
  events ←
      (if pos.curr == null
        then ok l.events
        else (do c ← load l.nodes pos.curr; ok (note l.conf.rc_item (ref_dec c.item) l.events)))
  s ← ref_dec_node l.nodes pos.curr
  s ← ref_dec_node s pos.next
  s ← ref_dec_node s pos.prev
  ok (record l { nodes = s; events = events })

-- The second part: the references to the new node and to its neighbours.
unfoldable pub take_hold : LinkedList → Ptr → Run (Position × LinkedList)
take_hold l node = if node == null then ok (nowhere, l) else (do
  s ← ref_inc_node l.nodes node
  n ← load s node
  s ← ref_inc_node s n.next
  s ← ref_inc_node s n.prev
  ok (
    record { prev = n.prev; curr = node; next = n.next },
    record l { nodes = s; events = note l.conf.rc_item (ref_inc n.item) l.events },
  ))

unfoldable pub update_pos : LinkedList → Position → Ptr → Run (Position × LinkedList)
update_pos l pos node = do l' ← let_go l pos; take_hold l' node

unfoldable pub get_item : Store → Ptr → Run ℕ
get_item s node = if node == null then ok null else (do n ← load s node; ok n.item)

-- The end that `head`, `tail`, `next` and `prev` share.
unfoldable pub move : LinkedList → Position → Ptr → Run (ℕ × Position × LinkedList)
move l pos node = do
  (pos', l') ← update_pos l pos node
  item ← get_item l'.nodes node
  ok (item, pos', l')

unfoldable pub head : LinkedList → Position → Run (ℕ × Position × LinkedList)
unfolding move
head l pos = move l pos l.head

unfoldable pub tail : LinkedList → Position → Run (ℕ × Position × LinkedList)
unfolding move
tail l pos = move l pos l.tail

-- `p && p->is_valid`
unfoldable pub is_there : Store → Ptr → Run Bool
is_there s p = if p == null then ok false else (do n ← load s p; ok n.is_valid)

unfoldable pub next : LinkedList → Position → Run (ℕ × Position × LinkedList)
next l pos =
    if l.size == 0 then move l pos null else if pos.curr == null then move l pos l.head else (do
      c ← load l.nodes pos.curr
      node ←
          (if c.is_valid
            then ok c.next
            else (do there ← is_there l.nodes pos.next; ok (if there then pos.next else null)))
      move l pos node)

unfoldable pub prev : LinkedList → Position → Run (ℕ × Position × LinkedList)
prev l pos =
    if l.size == 0 then move l pos null else if pos.curr == null then move l pos l.tail else (do
      c ← load l.nodes pos.curr
      node ←
          (if c.is_valid
            then ok c.prev
            else (do there ← is_there l.nodes pos.prev; ok (if there then pos.prev else null)))
      move l pos node)

-- The statement behind the test for a full list is not guarded by it: what follows is never run.
unfoldable pub append : Block → LinkedList → Position → ℕ → Run (Bool × LinkedList)
append b l pos item = if item == null then ok (false, l) else elim l.conf.compare [
  | some cmp ↦ ok (false, l)
  | none ↦ if b.ptr == null then ok (false, l) else (do
    s ← ref_inc_node (create_node b item l.nodes) b.ptr
    let full = not (l.conf.max == 0) && (l.conf.max == l.size)
    ok (false, record l { nodes = if full then write s b.ptr none else s }))
]

-- if(p->prev) add_before(list, p, node); else add_as_head(list, node);
unfoldable pub put_before : LinkedList → Ptr → Ptr → Run LinkedList
put_before l p node = do
  n ← load l.nodes p
  if not (n.prev == null) then add_before l p node else add_as_head l node

-- Where `prepend` puts the new node.
unfoldable pub place : LinkedList → Position → Ptr → Run LinkedList
place l pos node =
    if l.size == 0 then add_as_only l node else if pos.curr == null then add_as_tail l node else (do
      at_curr ← is_there l.nodes pos.curr
      if at_curr then put_before l pos.curr node else (do
        at_next ← is_there l.nodes pos.next
        if at_next then put_before l pos.next node else (do
          at_prev ← is_there l.nodes pos.prev
          if at_prev then put_before l pos.prev node else add_as_head l node)))

unfoldable pub prepend : Block → LinkedList → Position → ℕ → Run (Bool × Position × LinkedList)
prepend b l pos item = if item == null then ok (false, pos, l) else elim l.conf.compare [
  | some cmp ↦ ok (false, pos, l)
  | none ↦ if b.ptr == null then ok (false, pos, l) else (do
    s ← ref_inc_node (create_node b item l.nodes) b.ptr
    if not (l.conf.max == 0) && (l.conf.max == l.size)
        then ok (false, pos, record l { nodes = write s b.ptr none })
        else (do
          l' ← place (record l { nodes = s }) pos b.ptr
          (pos', l'') ← update_pos l' pos b.ptr
          ok (true, pos', l'')))
]

-- `rem` is `rem_at l pos false`, `del` has `true`.
unfoldable pub rem_at : LinkedList → Position → Bool → Run (Bool × LinkedList)
rem_at l pos del =
    if l.size == 0 then ok (false, l) else if pos.curr == null then ok (false, l) else (do
      c ← load l.nodes pos.curr
      l' ← (if c.is_valid then remove_node l pos.curr del else ok l)
      ok (true, l'))

unfoldable pub curr : LinkedList → Position → Run ℕ
curr l pos = do
  there ← is_there l.nodes pos.curr
  if there then get_item l.nodes pos.curr else ok null

-- The memory of the position itself is left out.
unfoldable pub finalize : LinkedList → Position → Run LinkedList
finalize l pos = do (pos', l') ← update_pos l pos null; ok l'
