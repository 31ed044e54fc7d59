-- ===== src/Stack.antt =====
-- data_structures/stack.c without its lock-free mode: a stack of nodes that are linked one way.
pub mod Chain
pub mod Session
pub mod Tests
use c_utils.Base.{
  ℕ, zero, suc, ◌+◌, ◌-◌, Bool, true, false, none, some, List, [], ◌∷◌, ◌==◌, if◌then◌else◌, Run,
  ok, fault, out_of_fuel, ◌>>=◌,
}
use c_utils.Node.{Ptr, null, Node, Store, write, load, set_next}

-- `del` says whether there is a destructor; `destroyed` has the items that it was given, the last
-- one first.
pub record Stack : Type 0 where
  pub head : Ptr
  pub size : ℕ
  pub nodes : Store
  pub del : Bool
  pub destroyed : List ℕ

-- A node as `calloc` and the assignment of the item leave it.
abbrev pub new_node : ℕ → Node
new_node item = record { next = null; prev = null; is_valid = false; item = item; refs = 0 }

unfoldable pub push : Stack → Ptr → Run Stack
push st node = do
  s ← set_next st.nodes node st.head
  ok (record st { head = node; size = st.size + 1; nodes = s })

-- `node` is what `calloc` returns.
unfoldable pub stack_push : Ptr → Stack → ℕ → Run (Bool × Stack)
unfolding push
stack_push node st item =
    if item == null then ok (false, st) else if node == null then ok (false, st) else (do
      st' ← push (record st { nodes = write st.nodes node (some (new_node item)) }) node
      ok (true, st'))

unfoldable pub pop : Stack → Run (ℕ × Stack)
pop st = if st.head == null then ok (null, st) else (do
  n ← load st.nodes st.head
  ok (n.item, record st { head = n.next; nodes = write st.nodes st.head none; size = st.size - 1 }))

-- `free(NULL)` does nothing.
abbrev pub free : Store → Ptr → Store
free s p = if p == null then s else write s p none

-- The loop frees each node one round late.
unfoldable pub destroy_loop : ℕ → Stack → Ptr → Ptr → Run Stack
destroy_loop zero st prev_node node = out_of_fuel
destroy_loop (suc k) st prev_node node =
    let st' = record st { nodes = free st.nodes prev_node } in
    if node == null then ok st' else (do
      n ← load st'.nodes node
      destroy_loop k
          (record st' { destroyed = if st'.del then n.item ∷ st'.destroyed else st'.destroyed })
          node n.next)

unfoldable pub stack_destroy : Stack → Run Stack
unfolding destroy_loop
stack_destroy st = destroy_loop (st.size + 1) st null st.head
