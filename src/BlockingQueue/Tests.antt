-- ===== src/BlockingQueue/Tests.antt =====
-- The theorems on data_structures/blocking_queue.c at concrete queues, over a heap and over a list.
use c_utils.Base.{
  ◌≡◌, refl, true, false, some, [], ◌∷◌, arith, Run, ok, Returns, compare, replicate,
}
use c_utils.LinkedList.Tests.{three, full_numbers, full-IsList}
use c_utils.Heap.{Heap, insert, store, heapify_up, up_loop, grow, above, swap, remove}
use c_utils.Heap.Create.{default_growth_rate, default_growth_trigger}
use c_utils.BlockingQueue.{
  BlockingQueue, Acquired, create_conf, put, take, at_once, forever, Verdict, leave_with, to_int,
  test, enqueue_test, dequeue_test, add_item, take_item,
}
use c_utils.BlockingQueue.Steps.{
  asleep, signalling, System, Steps, none_yet, and_then, enter, lock, leave_loop, sleep, new_system,
}
use c_utils.BlockingQueue.Progress.{Settles}
use c_utils.BlockingQueue.History.{Log, logged, had_none}
use c_utils.BlockingQueue.OverHeap.{HeapStore, over_heap, IsReady, new_queue, heap_queue-Settles}
use c_utils.BlockingQueue.OverList.{ListStore, HasItems, over_list}
use c_utils.BlockingQueue.Results.{enqueue_full-true, created, create_conf-created}

abbrev empty_heap : Heap
empty_heap = record {
  slots = replicate 8 0;
  cmp = compare;
  size = 8;
  used = 0;
  conf = record {
    rc_instance = false;
    rc_item = false;
    delete_on_destroy = false;
    destructor = some true;
    initial = 8;
    max = 0;
    rate = default_growth_rate;
    trigger = default_growth_trigger;
  };
  events = [];
  freed = false;
}

abbrev empty_store : HeapStore
empty_store = record { heap = empty_heap; inserted = 0; memory = λ i. some 0 }

empty_store-IsReady : IsReady (λ a. a) empty_store
empty_store-IsReady = record {
  agrees = λ a b. refl;
  valid = record { sized = refl; room = omega arith; ordered = λ c p q. absurd (omega arith) };
  roomy = record {
    default = record { unbounded = refl; rate = refl; trigger = refl };
    big = omega arith;
    filled = omega arith;
  };
  supplied = λ i e. cc;
}

abbrev Queue : Type 0
Queue = BlockingQueue (Log HeapStore)

abbrev queue_of : Run (Verdict × Queue) → Queue → Queue
queue_of (ok (v, q)) d = q
queue_of _ d = d

-- After a dequeue that had nothing to take.
abbrev missed : Log HeapStore
missed = record { store = empty_store; history = had_none ∷ [] }

abbrev two_calls : Queue
two_calls = record { store = missed; shutdown = false; blocked = 2 }

abbrev filled : Queue
unfolding test enqueue_test add_item over_heap insert store heapify_up up_loop grow above swap
filled = queue_of (test (logged over_heap) (put 7 at_once) two_calls) two_calls

-- Thread 0 sleeps in a dequeue, and thread 1 has put 7 in and is about to signal.
abbrev about_to_signal : System (Log HeapStore)
about_to_signal = record {
  queue = filled;
  owner = some 1;
  threads = asleep (take 0 forever) ∷ signalling 1 ∷ [];
}

run : Steps (logged over_heap) (new_system (new_queue empty_store) 2) about_to_signal
unfolding test dequeue_test take_item enqueue_test add_item over_heap insert store heapify_up
    up_loop grow above swap remove
run =
    and_then
      (and_then
        (and_then
          (and_then
            (and_then (and_then none_yet (enter 0 (take 0 forever) refl refl))
              (lock 0 _ refl refl refl))
            (sleep 0 _ (take 0 forever) (record { store = missed; shutdown = false; blocked = 1 })
              refl refl refl))
          (enter 1 (put 7 at_once) refl refl))
        (lock 1 _ refl refl refl))
      (leave_loop 1 _ 1 filled refl refl refl)

heap_queue-Settles_example : Settles (logged over_heap) about_to_signal
heap_queue-Settles_example =
    heap_queue-Settles (λ a. a) empty_store empty_store-IsReady refl 2 about_to_signal run

abbrev full_store : ListStore
full_store = record { list = full_numbers; supply = [] }

abbrev full_queue : BlockingQueue ListStore
full_queue = record { store = full_store; shutdown = false; blocked = 0 }

full_store-HasItems : HasItems full_store (3 ∷ 5 ∷ 8 ∷ [])
full_store-HasItems = record {
  cells = three;
  valid = full-IsList;
  unordered = refl;
  given = omega arith;
  items_are = refl;
  supplied = tt;
}

enqueue_full-true_example :
    Returns
      (λ r. (r.0 ≡ leave_with (to_int true)) × HasItems r.1.store (3 ∷ 5 ∷ 8 ∷ []))
      (enqueue_test over_list full_queue 6 at_once)
enqueue_full-true_example =
    enqueue_full-true full_queue 6 (3 ∷ 5 ∷ 8 ∷ []) full_store-HasItems refl (omega arith) refl

-- The second condition variable cannot be had.
abbrev all_but_last : Acquired
all_but_last = record { memory = true; mutex = true; removed = true; added = false }

create_conf-created_example :
    create_conf all_but_last (some full_store) ≡ created all_but_last (some full_store)
create_conf-created_example = create_conf-created all_but_last (some full_store)
