-- ===== src/Queue/Order.antt =====
-- Every step on a queue of data_structures/queue.c keeps its invariant, so that what the dequeues
-- return is, in order, what the enqueues put in.
use c_utils.Base.{
  ℕ, suc, ◌≡◌, ◌≢◌, refl, sym, ap, subst, Bool, true, false, some, arith, ◌==◌, if◌then◌else◌,
}
use c_utils.Node.{Ptr, null, Node}
use c_utils.Queue.{
  Queue, Local, At, go, swing, link, Step, Steps, outside, enq_start, enq_tail, enq_checked,
  enq_next, enq_decided, enq_swing, deq_start, deq_head, deq_checked, deq_tail, deq_next,
  deq_decided, deq_item, new_node, enqueue, read_tail, check_tail, read_next, check_again, help,
  append, append_fails, enqueued, dequeue, read_head, check_head, read_deq_tail, read_head_next,
  check_head_again, find_empty, help_dequeue, read_item, take_fails, none_yet, and_then,
  queue_create,
}
use c_utils.Queue.Invariant.{Next, UpTo, Ready, Knows, Invariant}
use c_utils.Queue
use c_utils.Queue.Growth.{take-Invariant, enqueue-Invariant, append-Invariant}
use c_utils.Queue.Frame.{NoMore, quiet}
use c_utils.Queue.Reads.{place-node, next-Next, tail-UpTo, head-UpTo, behind, swung}

module _ (q : Queue) (v : Invariant q) (i : ℕ) where
  -- A step after which only the thread stands elsewhere.
  still : (l l' : Local) → At q i l → Knows v.all v.tail_at l' → NoMore l l' → Invariant (go q i l')
  still l l' here k n = quiet q v i l l' here q.tail v.tail_at v.tail (omega arith) k n

  -- A step that swings the tail from `t` to `x`, which is behind it.
  swinging :
      (l l' : Local) (t x : Ptr)
      → At q i l
      → Next v.all t x
      → ((k : ℕ) → Knows v.all k l')
      → NoMore l l'
      → Invariant (go (swing q t x) i l')
  swinging l l' t x here n know no_more =
      let (k, place, later) = swung q v t x n in
      quiet q v i l l' here (if q.tail == t then x else q.tail) k place later (know k) no_more

  -- A check that fails starts the loop again.
  checked :
      (b : Bool) (l yes_l no_l : Local)
      → At q i l
      → (b ≡ true → Knows v.all v.tail_at yes_l)
      → Knows v.all v.tail_at no_l
      → NoMore l yes_l
      → NoMore l no_l
      → Invariant (go q i (if b then yes_l else no_l))
  checked true l a z here ka kz na nz = still l a here (ka refl) na
  checked false l a z here ka kz na nz = still l z here kz nz

  item-Ready :
      (h t x : ℕ) (m : Node)
      → At q i (deq_decided h t x)
      → x ≢ null
      → h ≢ t
      → q.nodes x ≡ some m
      → Ready v.all v.tail_at h x m.item
  item-Ready h t x m here ne net at_x =
      let k = v.knows i (deq_decided h t x) here in
      let n : Next v.all h x = k.2 ne in
      let (j, place, bound) = k.1 net in
      record {
        at = n.at;
        first = n.first;
        second = n.second;
        item = ap (λ (y : Node). y.item) (sym (place-node q v (suc n.at) x m n.second at_x));
        bound = omega (arith, bound, v.unique j n.at h place n.first);
      }

-- Every step keeps the invariant.
Step-Invariant : (q r : Queue) → Step q r → Invariant q → Invariant r
Step-Invariant q r (enqueue i n w h ne free e) v = rw e (enqueue-Invariant q v i n w ne free h)
Step-Invariant q r (read_tail i n w h e) v =
    rw e (still q v i (enq_start n w) (enq_tail n w q.tail) h (tail-UpTo q v) (λ a b m. m))
Step-Invariant q r (check_tail i n w t h e) v = rw e (
    checked q v i (q.tail == t) (enq_tail n w t) (enq_checked n w t) (enq_start n w) h
      (λ z. v.knows i (enq_tail n w t) h) tt (λ a b m. m) (λ a b m. m))
Step-Invariant q r (read_next i n w t m h at_t e) v =
    let u : UpTo v.all v.tail_at t = v.knows i (enq_checked n w t) h in
    rw e (
      still q v i (enq_checked n w t) (enq_next n w t m.next) h
        (u, next-Next q v u.at t m u.place at_t) (λ a b m. m))
Step-Invariant q r (check_again i n w t x h e) v = rw e (
    checked q v i (q.tail == t) (enq_next n w t x) (enq_decided n w t x) (enq_start n w) h
      (λ z. v.knows i (enq_next n w t x) h) tt (λ a b m. m) (λ a b m. m))
Step-Invariant q r (help i n w t x h ne e) v = rw e (
    swinging q v i (enq_decided n w t x) (enq_start n w) t x h
      ((v.knows i (enq_decided n w t x) h).1 ne) (λ k. tt) (λ a b m. m))
Step-Invariant q r (append i n w t m h at_t last e) v =
    rw e (append-Invariant q v i n w t m h at_t last)
Step-Invariant q r (append_fails i n w t m h at_t ne e) v =
    rw e (still q v i (enq_decided n w t null) (enq_start n w) h tt (λ a b m. m))
Step-Invariant q r (enqueued i n w t h e) v = rw e (
    swinging q v i (enq_swing n w t) outside t n h (v.knows i (enq_swing n w t) h) (λ k. tt)
      (λ a b m. m))
Step-Invariant q r (dequeue i h e) v = rw e (still q v i outside deq_start h tt (λ a b m. m))
Step-Invariant q r (read_head i h e) v =
    rw e (still q v i deq_start (deq_head q.head) h (head-UpTo q v) (λ a b m. m))
Step-Invariant q r (check_head i p h e) v = rw e (
    checked q v i (q.head == p) (deq_head p) (deq_checked p) deq_start h
      (λ z. v.knows i (deq_head p) h) tt (λ a b m. m) (λ a b m. m))
Step-Invariant q r (read_deq_tail i p h e) v =
    let u : UpTo v.all v.tail_at p = v.knows i (deq_checked p) h in
    rw e (still q v i (deq_checked p) (deq_tail p q.tail) h (u, behind q v p u) (λ a b m. m))
Step-Invariant q r (read_head_next i p t m h at_p e) v =
    let k = v.knows i (deq_tail p t) h in
    rw e (
      still q v i (deq_tail p t) (deq_next p t m.next) h
        (k.0, k.1, next-Next q v k.0.at p m k.0.place at_p) (λ a b m. m))
Step-Invariant q r (check_head_again i p t x h e) v = rw e (
    checked q v i (q.head == p) (deq_next p t x) (deq_decided p t x) deq_start h
      (λ z. v.knows i (deq_next p t x) h) tt (λ a b m. m) (λ a b m. m))
Step-Invariant q r (find_empty i p t h e) v =
    rw e (still q v i (deq_decided p t null) outside h tt (λ a b m. m))
Step-Invariant q r (help_dequeue i p t x h ne same e) v = rw e (
    swinging q v i (deq_decided p t x) deq_start t x h
      (subst (λ y. Next v.all y x) same ((v.knows i (deq_decided p t x) h).2 ne)) (λ k. tt)
      (λ a b m. m))
Step-Invariant q r (read_item i p t x m h ne net at_x e) v = rw e (
    still q v i (deq_decided p t x) (deq_item p x m.item) h (item-Ready q v i p t x m h ne net at_x)
      (λ a b m. m))
Step-Invariant q r (Queue.take i p x w h at_head e) v = rw e (take-Invariant q v i p x w h at_head)
Step-Invariant q r (take_fails i p x w h ne e) v =
    rw e (still q v i (deq_item p x w) deq_start h tt (λ a b m. m))

pub Steps-Invariant : (q r : Queue) → Steps q r → Invariant q → Invariant r
Steps-Invariant q r none_yet v = v
Steps-Invariant q r (and_then {p} steps step) v =
    Step-Invariant p r step (Steps-Invariant q p steps v)
