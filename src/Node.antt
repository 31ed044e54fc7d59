-- ===== src/Node.antt =====
-- data_structures/helpers.h: the nodes that the list, the stack and the queue share, in a store. A
-- pointer is its address, and `null` is 0. Access through a pointer that leads to no node is
-- undefined.
pub mod Links
use c_utils.Base.{
  ℕ, ◌+◌, ◌-◌, ◌≢◌, ◌≡◌, Bool, true, false, Option, none, some, arith, ◌==◌, if◌then◌else◌, Run, ok,
  fault, ◌>>=◌,
}

abbrev pub Ptr : Type 0
Ptr = ℕ

abbrev pub null : Ptr
null = 0

-- `refs` is the counter that ref_count.c keeps in front of a node that it allocates.
pub record Node : Type 0 where
  pub next : Ptr
  pub prev : Ptr
  pub is_valid : Bool
  pub item : ℕ
  pub refs : ℕ

abbrev pub Store : Type 0
Store = Ptr → Option Node

abbrev pub write : Store → Ptr → Option Node → Store
write s p n a = if p == a then n else s a

unfoldable pub load : Store → Ptr → Run Node
load s p = if p == null then fault else elim (s p) [ none ↦ fault | some n ↦ ok n ]

-- A change of the node at `p`, if there is one.
abbrev pub at_node : (Node → Option Node) → Option Node → Option Node
at_node f none = none
at_node f (some n) = f n

abbrev pub modify : Store → Ptr → (Node → Option Node) → Store
modify s p f a = if p == a then at_node f (s a) else s a

unfoldable pub change : Store → Ptr → (Node → Option Node) → Run Store
unfolding load
change s p f = do n ← load s p; ok (modify s p f)

-- `p->next = q` and `p->prev = q`
abbrev pub set_next : Store → Ptr → Ptr → Run Store
set_next s p q = change s p (λ n. some (record n { next = q }))

abbrev pub set_prev : Store → Ptr → Ptr → Run Store
set_prev s p q = change s p (λ n. some (record n { prev = q }))

-- There is a node at `p`.
pub record IsNode (s : Store) (p : Ptr) (n : Node) : Type 0 where
  pub ne_null : p ≢ null
  pub holds : s p ≡ some n

module _ {s : Store} {p : Ptr} {n : Node} (e : IsNode s p n) where
  pub load-ok : load s p ≡ ok n
  unfolding load
  load-ok = ground (arith, e.ne_null, e.holds)

  pub change-ok : (f : Node → Option Node) → change s p f ≡ ok (modify s p f)
  unfolding change
  change-ok f = ground (arith, e.ne_null, e.holds)

pub modify_ne : (s : Store) (p a : Ptr) (f : Node → Option Node) → p ≢ a → modify s p f a ≡ s a
modify_ne s p a f h = ground arith

module _ {s : Store} {p : Ptr} {n : Node} where
  pub modify_self :
      (f : Node → Option Node) {m : Node} → IsNode s p n → f n ≡ some m → IsNode (modify s p f) p m
  modify_self f e h = record { ne_null = e.ne_null; holds = ground (arith, e.holds) }

  pub modify_other :
      (q : Ptr) (f : Node → Option Node) → IsNode s p n → q ≢ p → IsNode (modify s q f) p n
  modify_other q f e h = record { ne_null = e.ne_null; holds = ground (arith, e.holds) }
