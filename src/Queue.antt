-- ===== src/Queue.antt =====
-- data_structures/queue.c: the queue of Michael and Scott. A step is what one thread does at one
-- access to what the threads share; a compare-and-swap is one access. The hazard pointers are not
-- modelled: a node that is retired keeps its memory, which is not given out again.
pub mod Invariant
pub mod Frame
pub mod Reads
pub mod Growth
pub mod Order
pub mod Whole
pub mod Tests
use c_utils.Base.{
  ℕ, ◌≡◌, ◌≢◌, Bool, true, false, Option, none, some, List, [], ◌∷◌, ◌++◌, replicate, set,
  get_elem?, length, ◌+◌, ◌==◌, if◌then◌else◌, Run, ok, out_of_fuel, ◌>>=◌, zero, suc,
}
use c_utils.Node.{Ptr, null, Node, Store, write, load, modify}

-- Where a thread stands. In an enqueue it has the new node `n` with the item `v`, in a dequeue the
-- head `h`; then the tail `t`, and the next node `x` that it read.
pub data Local : Type 0 where
  outside : Local
  enq_start : (n v : ℕ) → Local
  enq_tail enq_checked : (n v t : ℕ) → Local
  enq_next enq_decided : (n v t x : ℕ) → Local
  enq_swing : (n v t : ℕ) → Local
  deq_start : Local
  deq_head deq_checked : (h : ℕ) → Local
  deq_tail : (h t : ℕ) → Local
  deq_next deq_decided : (h t x : ℕ) → Local
  deq_item : (h x v : ℕ) → Local

-- `accepted` and `taken` are what the appended nodes hold and what the dequeues return, in order.
pub record Queue : Type 0 where
  pub head : Ptr
  pub tail : Ptr
  pub nodes : Store
  pub accepted : List ℕ
  pub taken : List ℕ
  pub threads : List Local

-- A node of calloc, with its item.
abbrev pub new_node : ℕ → Node
new_node item = record { next = null; prev = null; is_valid = false; item = item; refs = 0 }

-- `c_utils_queue_create`, with the node that calloc returned, for a queue that `n` threads know.
unfoldable pub queue_create : Ptr → ℕ → Queue
queue_create node n = record {
  head = node;
  tail = node;
  nodes = write (λ a. none) node (some (new_node null));
  accepted = [];
  taken = [];
  threads = replicate n outside;
}

abbrev pub At : Queue → ℕ → Local → Type 0
At q i l = get_elem? q.threads i ≡ some l

abbrev pub go : Queue → ℕ → Local → Queue
go q i l = record q { threads = set q.threads i l }

-- __sync_bool_compare_and_swap(&queue->tail, old, new)
abbrev pub swing : Queue → Ptr → Ptr → Queue
swing q old new = record q { tail = if q.tail == old then new else q.tail }

-- The node `n` is written behind `t`.
abbrev pub link : Store → Ptr → Ptr → Store
link s t n = modify s t (λ m. some (record m { next = n }))

-- One step of the thread `i`.
pub data Step (q : Queue) (r : Queue) : Type 0 where
  enqueue :
      (i n v : ℕ)
      → At q i outside
      → n ≢ null
      → q.nodes n ≡ none
      → r ≡ go (record q { nodes = write q.nodes n (some (new_node v)) }) i (enq_start n v)
      → Step q r
  read_tail : (i n v : ℕ) → At q i (enq_start n v) → r ≡ go q i (enq_tail n v q.tail) → Step q r
  check_tail :
      (i n v t : ℕ)
      → At q i (enq_tail n v t)
      → r ≡ go q i (if q.tail == t then enq_checked n v t else enq_start n v)
      → Step q r
  read_next :
      (i n v t : ℕ) (m : Node)
      → At q i (enq_checked n v t)
      → q.nodes t ≡ some m
      → r ≡ go q i (enq_next n v t m.next)
      → Step q r
  check_again :
      (i n v t x : ℕ)
      → At q i (enq_next n v t x)
      → r ≡ go q i (if q.tail == t then enq_decided n v t x else enq_start n v)
      → Step q r
  help :
      (i n v t x : ℕ)
      → At q i (enq_decided n v t x)
      → x ≢ null
      → r ≡ go (swing q t x) i (enq_start n v)
      → Step q r
  append :
      (i n v t : ℕ) (m : Node)
      → At q i (enq_decided n v t null)
      → q.nodes t ≡ some m
      → m.next ≡ null
      → r
        ≡ go
            (record q { nodes = link q.nodes t n; accepted = q.accepted ++ v ∷ [] })
            i
            (enq_swing n v t)
      → Step q r
  append_fails :
      (i n v t : ℕ) (m : Node)
      → At q i (enq_decided n v t null)
      → q.nodes t ≡ some m
      → m.next ≢ null
      → r ≡ go q i (enq_start n v)
      → Step q r
  enqueued : (i n v t : ℕ) → At q i (enq_swing n v t) → r ≡ go (swing q t n) i outside → Step q r
  dequeue : (i : ℕ) → At q i outside → r ≡ go q i deq_start → Step q r
  read_head : (i : ℕ) → At q i deq_start → r ≡ go q i (deq_head q.head) → Step q r
  check_head :
      (i h : ℕ)
      → At q i (deq_head h)
      → r ≡ go q i (if q.head == h then deq_checked h else deq_start)
      → Step q r
  read_deq_tail : (i h : ℕ) → At q i (deq_checked h) → r ≡ go q i (deq_tail h q.tail) → Step q r
  read_head_next :
      (i h t : ℕ) (m : Node)
      → At q i (deq_tail h t)
      → q.nodes h ≡ some m
      → r ≡ go q i (deq_next h t m.next)
      → Step q r
  check_head_again :
      (i h t x : ℕ)
      → At q i (deq_next h t x)
      → r ≡ go q i (if q.head == h then deq_decided h t x else deq_start)
      → Step q r
  find_empty : (i h t : ℕ) → At q i (deq_decided h t null) → r ≡ go q i outside → Step q r
  help_dequeue :
      (i h t x : ℕ)
      → At q i (deq_decided h t x)
      → x ≢ null
      → h ≡ t
      → r ≡ go (swing q t x) i deq_start
      → Step q r
  read_item :
      (i h t x : ℕ) (m : Node)
      → At q i (deq_decided h t x)
      → x ≢ null
      → h ≢ t
      → q.nodes x ≡ some m
      → r ≡ go q i (deq_item h x m.item)
      → Step q r
  take :
      (i h x v : ℕ)
      → At q i (deq_item h x v)
      → q.head ≡ h
      → r ≡ go (record q { head = x; taken = q.taken ++ v ∷ [] }) i outside
      → Step q r
  take_fails :
      (i h x v : ℕ) → At q i (deq_item h x v) → q.head ≢ h → r ≡ go q i deq_start → Step q r

-- Any number of steps.
pub data Steps (q : Queue) : Queue → Type 0 where
  none_yet : Steps q q
  and_then : {p r : Queue} → Steps q p → Step p r → Steps q r

-- The loop of c_utils_queue_destroy: what the destructor gets. That the nodes go is left out.
unfoldable pub destroy_loop : ℕ → Store → Ptr → Run (List ℕ)
destroy_loop zero s node = out_of_fuel
destroy_loop (suc k) s node =
    if node == null
    then ok []
    else (do n ← load s node; rest ← destroy_loop k s n.next; ok (n.item ∷ rest))

unfoldable pub queue_destroy : Queue → Run (List ℕ)
unfolding destroy_loop
queue_destroy q = destroy_loop (length q.accepted + 2) q.nodes q.head
