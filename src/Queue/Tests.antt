-- ===== src/Queue/Tests.antt =====
-- The theorems on data_structures/queue.c at a concrete run: one thread enqueues and dequeues.
use c_utils.Base.{refl, none, some, [], ◌∷◌, arith, Returns}
use c_utils.Node.{Store, write}
use c_utils.Queue.{
  Queue, outside, new_node, queue_create, queue_destroy, link, Steps, none_yet, and_then, enqueue,
  read_tail, check_tail, read_next, check_again, append, enqueued, dequeue, read_head, check_head,
  read_deq_tail, read_head_next, check_head_again, read_item, take,
}
use c_utils.Queue.Whole.{IsFifo, Steps-IsFifo, Destroyed, queue_destroy-Destroyed}

-- The nodes after the item 7 is appended.
abbrev nodes : Store
nodes = link (write (write (λ a. none) 10 (some (new_node 0))) 20 (some (new_node 7))) 10 20

-- The item is taken out again: its node is the head.
abbrev served : Queue
served = record {
  head = 20;
  tail = 20;
  nodes = nodes;
  accepted = 7 ∷ [];
  taken = 7 ∷ [];
  threads = outside ∷ [];
}

filled : Steps (queue_create 10 1) (record served { head = 10; taken = [] })
unfolding queue_create
filled =
    and_then
      (and_then
        (and_then
          (and_then
            (and_then
              (and_then (and_then none_yet (enqueue 0 20 7 refl (omega arith) refl refl))
                (read_tail 0 20 7 refl refl))
              (check_tail 0 20 7 10 refl refl))
            (read_next 0 20 7 10 (new_node 0) refl refl refl))
          (check_again 0 20 7 10 0 refl refl))
        (append 0 20 7 10 (new_node 0) refl refl refl refl))
      (enqueued 0 20 7 10 refl refl)

run : Steps (queue_create 10 1) served
unfolding queue_create
run =
    and_then
      (and_then
        (and_then
          (and_then
            (and_then
              (and_then (and_then (and_then filled (dequeue 0 refl refl)) (read_head 0 refl refl))
                (check_head 0 10 refl refl))
              (read_deq_tail 0 10 refl refl))
            (read_head_next 0 10 20 (record (new_node 0) { next = 20 }) refl refl refl))
          (check_head_again 0 10 20 20 refl refl))
        (read_item 0 10 20 20 (new_node 7) refl (omega arith) (omega arith) refl refl))
      (take 0 10 20 7 refl refl refl)

Steps-IsFifo_example : IsFifo served
Steps-IsFifo_example = Steps-IsFifo 10 1 served (omega arith) run

queue_destroy-Destroyed_example : Returns (Destroyed served) (queue_destroy served)
queue_destroy-Destroyed_example = queue_destroy-Destroyed 10 1 served (omega arith) run
