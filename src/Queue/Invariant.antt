-- ===== src/Queue/Invariant.antt =====
-- What is true of a queue of data_structures/queue.c at all times: its nodes in the order in which
-- they were appended, where the head and the tail are among them, and what each thread knows.
use c_utils.Base.{
  ℕ, suc, ◌≡◌, ◌≢◌, ◌≤◌, ◌<◌, Option, none, some, List, [], ◌∷◌, get_elem?, take, drop,
}
use c_utils.Node.{Ptr, null, Node, Store, IsNode}
use c_utils.Queue.{
  Queue, Local, At, enq_start, enq_tail, enq_checked, enq_next, enq_decided, enq_swing, deq_head,
  deq_checked, deq_tail, deq_next, deq_decided, deq_item, new_node,
}

-- A node that was appended, the first one being that of the creation.
pub record Entry : Type 0 where
  pub ptr : Ptr
  pub item : ℕ

abbrev pub Is : List Entry → ℕ → Entry → Type 0
Is all i e = get_elem? all i ≡ some e

abbrev pub ptr_or_null : Option Entry → Ptr
ptr_or_null none = null
ptr_or_null (some e) = e.ptr

abbrev pub entry_node : Entry → Ptr → Node
entry_node e next = record (new_node e.item) { next = next }

-- The pointer is that of the node number `i`.
pub record Place (all : List Entry) (i : ℕ) (p : Ptr) : Type 0 where
  pub entry : Entry
  pub is : Is all i entry
  pub ptr : entry.ptr ≡ p

-- `x` stands behind `p`.
pub record Next (all : List Entry) (p x : Ptr) : Type 0 where
  pub at : ℕ
  pub first : Place all at p
  pub second : Place all (suc at) x

-- `p` is among the nodes up to the number `k`.
pub record UpTo (all : List Entry) (k : ℕ) (p : Ptr) : Type 0 where
  pub at : ℕ
  pub place : Place all at p
  pub bound : at ≤ k

-- `x` stands behind `h`, holds `v`, and the tail is behind `h`.
pub record Ready (all : List Entry) (k : ℕ) (h x v : ℕ) : Type 0 where
  pub at : ℕ
  pub first : Place all at h
  pub second : Place all (suc at) x
  pub item : second.entry.item ≡ v
  pub bound : at < k

-- What a thread knows, with the tail at number `k`.
abbrev pub Knows : List Entry → ℕ → Local → Type 0
Knows all k (enq_tail n v t) = UpTo all k t
Knows all k (enq_checked n v t) = UpTo all k t
Knows all k (enq_next n v t x) = UpTo all k t × (x ≢ null → Next all t x)
Knows all k (enq_decided n v t x) = UpTo all k t × (x ≢ null → Next all t x)
Knows all k (enq_swing n v t) = Next all t n
Knows all k (deq_head h) = UpTo all k h
Knows all k (deq_checked h) = UpTo all k h
Knows all k (deq_tail h t) = UpTo all k h × (h ≢ t → (i : ℕ) × Place all i h × (i < k))
Knows all k (deq_next h t x) =
    UpTo all k h × (h ≢ t → (i : ℕ) × Place all i h × (i < k)) × (x ≢ null → Next all h x)
Knows all k (deq_decided h t x) =
    UpTo all k h × (h ≢ t → (i : ℕ) × Place all i h × (i < k)) × (x ≢ null → Next all h x)
Knows all k (deq_item h x v) = Ready all k h x v
Knows all k _ = Unit

-- The node that a thread has made and not yet appended, and its item.
abbrev pub made : Local → Option (ℕ × ℕ)
made (enq_start n v) = some (n, v)
made (enq_tail n v t) = some (n, v)
made (enq_checked n v t) = some (n, v)
made (enq_next n v t x) = some (n, v)
made (enq_decided n v t x) = some (n, v)
made _ = none

-- A node that is not among the appended ones.
pub record IsLoose (s : Store) (all : List Entry) (n v : ℕ) : Type 0 where
  pub node : IsNode s n (new_node v)
  pub out : (i : ℕ) → Place all i n → ⊥

abbrev pub items : List Entry → List ℕ
items [] = []
items (e ∷ es) = e.item ∷ items es

pub record Invariant (q : Queue) : Type 0 where
  pub all : List Entry
  pub head_at : ℕ
  pub tail_at : ℕ
  pub nodes :
      (i : ℕ) (e : Entry)
      → Is all i e
      → IsNode q.nodes e.ptr (entry_node e (ptr_or_null (get_elem? all (suc i))))
  pub unique : (i j : ℕ) (p : Ptr) → Place all i p → Place all j p → i ≡ j
  pub head : Place all head_at q.head
  pub tail : Place all tail_at q.tail
  pub order : head_at ≤ tail_at
  pub knows : (i : ℕ) (l : Local) → At q i l → Knows all tail_at l
  pub loose :
      (i : ℕ) (l : Local) (n v : ℕ) → At q i l → made l ≡ some (n, v) → IsLoose q.nodes all n v
  pub apart :
      (i j : ℕ) (l k : Local) (n v w : ℕ)
      → At q i l
      → At q j k
      → made l ≡ some (n, v)
      → made k ≡ some (n, w)
      → i ≡ j
  pub accepted : q.accepted ≡ items (drop 1 all)
  pub taken : q.taken ≡ items (take head_at (drop 1 all))
