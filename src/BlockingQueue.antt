-- ===== src/BlockingQueue.antt =====
-- data_structures/blocking_queue.c: a queue over a list or a heap, with a mutex, a counter of the
-- calls under way and a flag for the shutdown. A step is what one thread does between two accesses
-- to what the threads share.
pub mod Steps
pub mod Waiting
pub mod History
pub mod OverHeap
pub mod Progress
pub mod OverList
pub mod Results
pub mod Tests
use c_utils.Base.{
  ℕ, ◌+◌, ◌-◌, ◌≡◌, Bool, true, false, not, Option, none, some, List, [], ◌∷◌, ◌++◌, replicate, set,
  get_elem?, ◌==◌, if◌then◌else◌, Run, ok, ◌>>=◌,
}

-- The data structure behind the queue: what `add_item` and `take_item` call.
pub record Backing (S : Type 0) : Type 0 where
  pub add : ℕ → S → Run (Bool × S)
  pub take : S → Run (ℕ × S)
  pub remove_all : S → Run S
  pub delete_all : S → Run S
  pub size : S → ℕ
  pub destroy : S → Run S

-- A timeout of 0, C_UTILS_BLOCKING_QUEUE_NO_TIMEOUT, or another.
pub data Timeout : Type 0 where
  at_once forever limited : Timeout

-- An enqueue with its item, or a dequeue with what its variable `item` has in it.
pub data Call : Type 0 where
  put take : ℕ → Timeout → Call

abbrev pub null : ℕ
null = 0

-- What a call of a `bool` function returns, as a number.
abbrev pub to_int : Bool → ℕ
to_int true = 1
to_int false = 0

-- After the test of the loop: the call leaves it and will return the value, or it is to wait.
pub data Verdict : Type 0 where
  leave_with : ℕ → Verdict
  wait_as : Call → Verdict

abbrev pub or_wait : Timeout → ℕ → Call → Verdict
or_wait at_once result call = leave_with result
or_wait _ result call = wait_as call

pub record BlockingQueue (S : Type 0) : Type 0 where
  pub store : S
  pub shutdown : Bool
  pub blocked : ℕ

module _ {S : Type 0} (b : Backing S) where
  -- `add_item` and `take_item`
  unfoldable pub add_item : BlockingQueue S → ℕ → Run (Bool × BlockingQueue S)
  add_item q item = do (done, s) ← b.add item q.store; ok (done, record q { store = s })

  unfoldable pub take_item : BlockingQueue S → Run (ℕ × BlockingQueue S)
  take_item q = do (item, s) ← b.take q.store; ok (item, record q { store = s })

  -- The test of the loop of c_utils_blocking_queue_enqueue, and the test of the timeout in it.
  unfoldable pub enqueue_test : BlockingQueue S → ℕ → Timeout → Run (Verdict × BlockingQueue S)
  enqueue_test q item timeout = if q.shutdown then ok (leave_with (to_int true), q) else (do
    (done, q') ← add_item q item
    ok (
      if done then leave_with (to_int true) else or_wait timeout (to_int true) (put item timeout),
      q',
    ))

  -- The same of c_utils_blocking_queue_dequeue.
  unfoldable pub dequeue_test : BlockingQueue S → ℕ → Timeout → Run (Verdict × BlockingQueue S)
  dequeue_test q last timeout = if q.shutdown then ok (leave_with last, q) else (do
    (item, q') ← take_item q
    ok (if item == null then or_wait timeout item (take item timeout) else leave_with item, q'))

  unfoldable pub test : Call → BlockingQueue S → Run (Verdict × BlockingQueue S)
  unfolding enqueue_test dequeue_test
  test (put item timeout) q = enqueue_test q item timeout
  test (take last timeout) q = dequeue_test q last timeout

  unfoldable pub queue_remove_all : BlockingQueue S → Run (BlockingQueue S)
  queue_remove_all q = do s ← b.remove_all q.store; ok (record q { store = s })

  unfoldable pub queue_delete_all : BlockingQueue S → Run (BlockingQueue S)
  queue_delete_all q = do s ← b.delete_all q.store; ok (record q { store = s })

  unfoldable pub queue_size : BlockingQueue S → ℕ
  queue_size q = b.size q.store

module _ {S : Type 0} where
  unfoldable pub activate : BlockingQueue S → BlockingQueue S
  activate q = record q { shutdown = false }

  unfoldable pub shut_down : BlockingQueue S → BlockingQueue S
  shut_down q = record q { shutdown = true }

  -- The end of destroy_blocking_queue, once no call is under way.
  unfoldable pub destroy_blocking_queue : Backing S → BlockingQueue S → Run S
  unfolding shut_down
  destroy_blocking_queue b q = b.destroy (shut_down q).store

-- What a creation has acquired and not given back.
pub record Acquired : Type 0 where
  pub memory : Bool
  pub mutex : Bool
  pub removed : Bool
  pub added : Bool

abbrev pub nothing : Acquired
nothing = record { memory = false; mutex = false; removed = false; added = false }

-- The labels at the end of c_utils_blocking_queue_create_conf.
abbrev pub err_lock : Acquired → Acquired
err_lock a = record a { memory = false }

abbrev pub err_removed : Acquired → Acquired
err_removed a = err_lock (record a { mutex = false })

abbrev pub err_added : Acquired → Acquired
err_added a = err_removed (record a { removed = false })

abbrev pub err_data : Acquired → Acquired
err_data a = err_added (record a { added = false })

-- `wants` says what can be acquired, and `made` what c_utils_list_create_conf or
-- c_utils_heap_create_conf gives.
unfoldable pub create_conf :
    {S : Type 0} → Acquired → Option S → Option (BlockingQueue S) × Acquired
create_conf wants made =
    let with_memory = record nothing { memory = true } in
    let with_mutex = record with_memory { mutex = true } in
    let with_removed = record with_mutex { removed = true } in
    let with_added = record with_removed { added = true } in
    if not wants.memory
    then (none, nothing)
    else if not wants.mutex
    then (none, err_lock with_memory)
    else if not wants.removed
    then (none, err_removed with_mutex)
    else if not wants.added
    then (none, err_added with_removed)
    else elim made [
      | none ↦ (none, err_data with_added)
      | some s ↦ (some (record { store = s; shutdown = false; blocked = 0 }), with_added)
    ]
