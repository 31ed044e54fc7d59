-- ===== src/Events.antt =====
-- threading/events.c: threads that wait for an event and signal it. A step is what one thread does
-- between two accesses to what the threads share: the two atomic variables and the mutex.
pub mod Waiting
pub mod Tests
use c_utils.Base.{
  ℕ, ◌+◌, ◌-◌, ◌≡◌, Bool, true, false, ◌&&◌, Option, none, some, List, replicate, set, get_elem?,
  ◌==◌, if◌then◌else◌,
}

-- The flags of the configuration that decide when the signal is taken back.
pub data Reset : Type 0 where
  manual auto_reset auto_reset_on_last : Reset

-- Where a thread stands: outside, in c_utils_event_wait_until, or in c_utils_event_signal. In
-- `handling` and `resetting` the flag says whether the mutex is held; in `unlocking` and `leaving`
-- it is what the call will return.
pub data Local : Type 0 where
  outside counted locking testing asleep : Local
  failed : Bool → Local
  handling : Bool → Local
  resetting : Bool → Local
  unlocking : Bool → Local
  leaving : Bool → Local
  signal_locking signal_storing signal_unlocking : Local

pub record Event : Type 0 where
  pub signaled : Bool
  pub waiting_threads : ℕ
  -- the thread that holds the mutex
  pub owner : Option ℕ
  pub threads : List Local
  pub reset : Reset
  pub signal_on_timeout : Bool

-- `c_utils_event_reset`
unfoldable pub event_reset : Event → Event
event_reset e = record e { signaled = true }

abbrev pub At : Event → ℕ → Local → Type 0
At e i l = get_elem? e.threads i ≡ some l

abbrev pub move : Event → ℕ → Local → Event
move e i l = record e { threads = set e.threads i l }

-- The end of auto_reset_handler: with the mutex it is unlocked next.
abbrev pub handled : Bool → Local
handled held = if held then unlocking true else leaving true

-- The tests of auto_reset_handler.
abbrev pub handler : Event → Bool → Local
handler e held = elim e.reset [
  | auto_reset_on_last ↦ if e.waiting_threads == 1 then resetting held else handled held
  | auto_reset ↦ resetting held
  | manual ↦ handled held
]

-- One step of the thread `i`.
pub data Step : Event → Event → Type 0 where
  enter :
      {e : Event} (i : ℕ)
      → At e i outside
      → Step e (move (record e { waiting_threads = e.waiting_threads + 1 }) i counted)
  see_signal :
      {e : Event} (i : ℕ) → At e i counted → e.signaled ≡ true → Step e (move e i (handling false))
  see_none : {e : Event} (i : ℕ) → At e i counted → e.signaled ≡ false → Step e (move e i locking)
  lock :
      {e : Event} (i : ℕ)
      → At e i locking
      → e.owner ≡ none
      → Step e (move (record e { owner = some i }) i testing)
  leave_loop :
      {e : Event} (i : ℕ) → At e i testing → e.signaled ≡ true → Step e (move e i (handling true))
  sleep :
      {e : Event} (i : ℕ)
      → At e i testing
      → e.signaled ≡ false
      → Step e (move (record e { owner = none }) i asleep)
  wake :
      {e : Event} (i : ℕ)
      → At e i asleep
      → e.owner ≡ none
      → Step e (move (record e { owner = some i }) i testing)
  give_up :
      {e : Event} (i : ℕ) (timed_out : Bool)
      → At e i asleep
      → e.owner ≡ none
      → Step e (move (record e { owner = some i }) i (failed timed_out))
  fail :
      {e : Event} (i : ℕ) (timed_out : Bool)
      → At e i (failed timed_out)
      → Step e (
          move
            (record e { signaled = if timed_out && e.signal_on_timeout then true else e.signaled })
            i
            (unlocking (timed_out && e.signal_on_timeout)))
  handle :
      {e : Event} (i : ℕ) (held : Bool)
      → At e i (handling held)
      → Step e (move e i (handler e held))
  take_back :
      {e : Event} (i : ℕ) (held : Bool)
      → At e i (resetting held)
      → Step e (move (record e { signaled = false }) i (handled held))
  unlock :
      {e : Event} (i : ℕ) (result : Bool)
      → At e i (unlocking result)
      → Step e (move (record e { owner = none }) i (leaving result))
  leave :
      {e : Event} (i : ℕ) (result : Bool)
      → At e i (leaving result)
      → Step e (move (record e { waiting_threads = e.waiting_threads - 1 }) i outside)
  signal :
      {e : Event} (i : ℕ) → At e i outside → e.signaled ≡ false → Step e (move e i signal_locking)
  signal_lock :
      {e : Event} (i : ℕ)
      → At e i signal_locking
      → e.owner ≡ none
      → Step e (move (record e { owner = some i }) i signal_storing)
  signal_store :
      {e : Event} (i : ℕ)
      → At e i signal_storing
      → Step e (move (record e { signaled = true }) i signal_unlocking)
  signal_unlock :
      {e : Event} (i : ℕ)
      → At e i signal_unlocking
      → Step e (move (record e { owner = none }) i outside)
  reset_by : {e : Event} → Step e (event_reset e)

-- Any number of steps.
pub data Steps (e : Event) : Event → Type 0 where
  none_yet : Steps e e
  and_then : {f g : Event} → Steps e f → Step f g → Steps e g

-- `c_utils_event_create_conf`, for an event that `n` threads know: none of them is in a call.
unfoldable pub event_create : Bool → Reset → Bool → ℕ → Event
event_create signaled_by_default reset signal_on_timeout n = record {
  signaled = signaled_by_default;
  waiting_threads = 0;
  owner = none;
  threads = replicate n outside;
  reset = reset;
  signal_on_timeout = signal_on_timeout;
}
