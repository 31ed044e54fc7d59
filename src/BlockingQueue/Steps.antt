-- ===== src/BlockingQueue/Steps.antt =====
-- data_structures/blocking_queue.c: threads that call the functions of one queue.
use c_utils.Base.{ℕ, ◌+◌, ◌-◌, ◌≡◌, Option, none, some, List, replicate, set, get_elem?, ok}
use c_utils.BlockingQueue.{
  Backing, BlockingQueue, Call, null, leave_with, wait_as, test, shut_down, activate,
  queue_remove_all, queue_delete_all,
}

-- Where a thread stands: outside of the calls, before the lock, at the test of the loop, in the
-- wait, with an error of the wait, before the signal, or behind the lock.
pub data Local : Type 0 where
  outside : Local
  starting testing asleep : Call → Local
  failing : Local
  signalling leaving : ℕ → Local

pub record System (S : Type 0) : Type 0 where
  pub queue : BlockingQueue S
  -- the thread that holds the mutex
  pub owner : Option ℕ
  pub threads : List Local

abbrev pub At : {S : Type 0} → System S → ℕ → Local → Type 0
At y i l = get_elem? y.threads i ≡ some l

abbrev pub go : {S : Type 0} → System S → ℕ → Local → System S
go y i l = record y { threads = set y.threads i l }

-- One step of the thread `i`. A wait may end at any time, with or without an error: POSIX lets one end
-- without a signal, and what a signal or a broadcast brings about is among these steps.
pub data Step {S : Type 0} (b : Backing S) (y : System S) (z : System S) : Type 0 where
  enter :
      (i : ℕ) (call : Call)
      → At y i outside
      → z
        ≡ go
            (record y { queue = record y.queue { blocked = y.queue.blocked + 1 } })
            i
            (starting call)
      → Step b y z
  lock :
      (i : ℕ) (call : Call)
      → At y i (starting call)
      → y.owner ≡ none
      → z ≡ go (record y { owner = some i }) i (testing call)
      → Step b y z
  leave_loop :
      (i : ℕ) (call : Call) (result : ℕ) (q : BlockingQueue S)
      → At y i (testing call)
      → test b call y.queue ≡ ok (leave_with result, q)
      → z ≡ go (record y { queue = q }) i (signalling result)
      → Step b y z
  sleep :
      (i : ℕ) (call again : Call) (q : BlockingQueue S)
      → At y i (testing call)
      → test b call y.queue ≡ ok (wait_as again, q)
      → z ≡ go (record y { queue = q; owner = none }) i (asleep again)
      → Step b y z
  wake :
      (i : ℕ) (call : Call)
      → At y i (asleep call)
      → y.owner ≡ none
      → z ≡ go (record y { owner = some i }) i (testing call)
      → Step b y z
  give_up :
      (i : ℕ) (call : Call)
      → At y i (asleep call)
      → y.owner ≡ none
      → z ≡ go (record y { owner = some i }) i failing
      → Step b y z
  fail : (i : ℕ) → At y i failing → z ≡ go (record y { owner = none }) i (leaving null) → Step b y z
  signal :
      (i : ℕ) (result : ℕ)
      → At y i (signalling result)
      → z ≡ go (record y { owner = none }) i (leaving result)
      → Step b y z
  leave :
      (i : ℕ) (result : ℕ)
      → At y i (leaving result)
      → z ≡ go (record y { queue = record y.queue { blocked = y.queue.blocked - 1 } }) i outside
      → Step b y z
  shutdown_by : y.owner ≡ none → z ≡ record y { queue = shut_down y.queue } → Step b y z
  remove_all_by :
      (q : BlockingQueue S)
      → y.owner ≡ none
      → queue_remove_all b y.queue ≡ ok q
      → z ≡ record y { queue = q }
      → Step b y z
  delete_all_by :
      (q : BlockingQueue S)
      → y.owner ≡ none
      → queue_delete_all b y.queue ≡ ok q
      → z ≡ record y { queue = q }
      → Step b y z
  activate_by : z ≡ record y { queue = activate y.queue } → Step b y z

-- Any number of steps.
pub data Steps {S : Type 0} (b : Backing S) (y : System S) : System S → Type 0 where
  none_yet : Steps b y y
  and_then : {u z : System S} → Steps b y u → Step b u z → Steps b y z

-- A new queue that `n` threads know: none of them is in a call.
abbrev pub new_system : {S : Type 0} → BlockingQueue S → ℕ → System S
new_system q n = record { queue = q; owner = none; threads = replicate n outside }
