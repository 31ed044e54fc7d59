-- ===== src/Events/Waiting.antt =====
-- The counter and the mutex of an event of threading/events.c.
use c_utils.Base.{
  ℕ, ◌+◌, ◌-◌, ◌≡◌, Bool-cases, inl, inr, refl, sym, Bool, true, false, none, some, set, arith,
  if◌then◌else◌, ◌&&◌, total, total-set, weight-le-total, total-replicate, Mutex, Mutex-keep,
  Mutex-acquire, Mutex-release, Mutex-replicate, Mutex-exclusive,
}
use c_utils.Events.{
  Reset, Local, outside, counted, locking, testing, asleep, failed, handling, resetting, unlocking,
  leaving, signal_locking, signal_storing, signal_unlocking, Event, event_create, event_reset, At,
  handled, handler, Step, enter, see_signal, see_none, lock, leave_loop, sleep, wake, give_up, fail,
  handle, take_back, unlock, leave, signal, signal_lock, signal_store, signal_unlock, reset_by,
  Steps, none_yet, and_then,
}

-- 1 for a thread between the two changes of the counter.
abbrev pub inside : Local → ℕ
inside outside = 0
inside signal_locking = 0
inside signal_storing = 0
inside signal_unlocking = 0
inside _ = 1

-- Whether a thread holds the mutex there.
abbrev pub holds : Local → Bool
holds testing = true
holds (failed timed_out) = true
holds (handling held) = held
holds (resetting held) = held
holds (unlocking result) = true
holds signal_storing = true
holds signal_unlocking = true
holds _ = false

pub record Invariant (e : Event) : Type 0 where
  pub counter : e.waiting_threads ≡ total inside e.threads
  pub mutex : Mutex holds e.owner e.threads

module _ (e : Event) (v : Invariant e) (i : ℕ) (l l' : Local) (here : At e i l) where
  moved :
      (w : ℕ) → w + inside l ≡ e.waiting_threads + inside l' → w ≡ total inside (set e.threads i l')
  moved w c = omega (arith, v.counter, total-set inside e.threads i l l' here)

  -- A step that leaves the mutex as it is.
  keep :
      (s : Bool) (w : ℕ)
      → w + inside l ≡ e.waiting_threads + inside l'
      → holds l' ≡ holds l
      → Invariant (record e { signaled = s; waiting_threads = w; threads = set e.threads i l' })
  keep s w c same = record {
    counter = moved w c;
    mutex = Mutex-keep holds e.owner e.threads v.mutex i l l' here same;
  }

  acquire :
      inside l ≡ inside l'
      → e.owner ≡ none
      → Invariant (record e { owner = some i; threads = set e.threads i l' })
  acquire c free = record {
    counter = moved e.waiting_threads (omega (arith, c));
    mutex = Mutex-acquire holds e.owner e.threads v.mutex i l l' here free;
  }

  let_go :
      inside l ≡ inside l'
      → holds l ≡ true
      → holds l' ≡ false
      → Invariant (record e { owner = none; threads = set e.threads i l' })
  let_go c held freed = record {
    counter = moved e.waiting_threads (omega (arith, c));
    mutex = Mutex-release holds e.owner e.threads v.mutex i l l' here held freed;
  }

holds-handled : (held : Bool) → holds (handled held) ≡ held
holds-handled true = refl
holds-handled false = refl

inside-handled : (held : Bool) → inside (handled held) ≡ 1
inside-handled true = refl
inside-handled false = refl

handler-same :
    (e : Event) (held : Bool) → (inside (handler e held) ≡ 1) × (holds (handler e held) ≡ held)
handler-same e held = elim (Bool-cases held) [
  | inl h ↦ rw h (ground arith)
  | inr h ↦ rw h (ground arith)
]

-- Every step keeps the counter and the mutex right.
Step-Invariant : {e f : Event} → Step e f → Invariant e → Invariant f
unfolding event_reset
Step-Invariant {e} (enter i h) v =
    keep e v i outside counted h e.signaled (e.waiting_threads + 1) (omega arith) refl
Step-Invariant {e} (see_signal i h s) v =
    keep e v i counted (handling false) h e.signaled e.waiting_threads refl refl
Step-Invariant {e} (see_none i h s) v =
    keep e v i counted locking h e.signaled e.waiting_threads refl refl
Step-Invariant {e} (lock i h f) v = acquire e v i locking testing h refl f
Step-Invariant {e} (leave_loop i h s) v =
    keep e v i testing (handling true) h e.signaled e.waiting_threads refl refl
Step-Invariant {e} (sleep i h s) v = let_go e v i testing asleep h refl refl refl
Step-Invariant {e} (wake i h f) v = acquire e v i asleep testing h refl f
Step-Invariant {e} (give_up i t h f) v = acquire e v i asleep (failed t) h refl f
Step-Invariant {e} (fail i t h) v =
    keep e v i (failed t) (unlocking (t && e.signal_on_timeout)) h
      (if t && e.signal_on_timeout then true else e.signaled) e.waiting_threads refl refl
Step-Invariant {e} (handle i held h) v =
    let (c, m) = handler-same e held in
    keep e v i (handling held) (handler e held) h e.signaled e.waiting_threads (omega (arith, c)) m
Step-Invariant {e} (take_back i held h) v =
    keep e v i (resetting held) (handled held) h false e.waiting_threads
      (omega (arith, inside-handled held)) (holds-handled held)
Step-Invariant {e} (unlock i r h) v = let_go e v i (unlocking r) (leaving r) h refl refl refl
Step-Invariant {e} (leave i r h) v =
    keep e v i (leaving r) outside h e.signaled (e.waiting_threads - 1)
      (omega (arith, v.counter, weight-le-total inside e.threads i (leaving r) h)) refl
Step-Invariant {e} (signal i h s) v =
    keep e v i outside signal_locking h e.signaled e.waiting_threads refl refl
Step-Invariant {e} (signal_lock i h f) v = acquire e v i signal_locking signal_storing h refl f
Step-Invariant {e} (signal_store i h) v =
    keep e v i signal_storing signal_unlocking h true e.waiting_threads refl refl
Step-Invariant {e} (signal_unlock i h) v = let_go e v i signal_unlocking outside h refl refl refl
Step-Invariant {e} reset_by v = record { counter = v.counter; mutex = v.mutex }

pub Steps-Invariant : {e f : Event} → Steps e f → Invariant e → Invariant f
Steps-Invariant none_yet v = v
Steps-Invariant (and_then steps step) v = Step-Invariant step (Steps-Invariant steps v)

-- The counter has the number of threads inside of a wait, and at most one thread holds the mutex.
pub record IsCounted (e : Event) : Type 0 where
  pub counter : e.waiting_threads ≡ total inside e.threads
  pub exclusive :
      (i j : ℕ) (l k : Local) → At e i l → At e j k → holds l ≡ true → holds k ≡ true → i ≡ j

-- Whatever steps the threads that know a new event make, waiting for it, signalling it and
-- resetting it, in whatever order: the counter is the number of threads between its two changes
-- in c_utils_event_wait_until, so that it is 0 only where no thread is there, and at most one
-- thread holds the mutex.
pub Steps-IsCounted :
    (signaled : Bool) (reset : Reset) (signal_on_timeout : Bool) (n : ℕ) (e : Event)
    → Steps (event_create signaled reset signal_on_timeout n) e
    → IsCounted e
unfolding event_create
Steps-IsCounted signaled reset signal_on_timeout n e steps =
    let v = Steps-Invariant steps (record {
      counter = sym (total-replicate inside n outside refl);
      mutex = Mutex-replicate holds none n outside refl;
    }) in
    record { counter = v.counter; exclusive = Mutex-exclusive holds e.owner e.threads v.mutex }
