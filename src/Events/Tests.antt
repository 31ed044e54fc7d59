-- ===== src/Events/Tests.antt =====
-- The theorem on threading/events.c at a concrete run: one thread waits, and another signals.
use c_utils.Base.{refl, false, some, [], ◌∷◌}
use c_utils.Events.{
  Event, event_create, Steps, none_yet, and_then, enter, see_none, lock, sleep, signal, signal_lock,
  auto_reset, asleep, signal_storing,
}
use c_utils.Events.Waiting.{IsCounted, Steps-IsCounted}

-- Thread 0 sleeps, and thread 1 is about to store the signal.
abbrev about_to_signal : Event
about_to_signal = record {
  signaled = false;
  waiting_threads = 1;
  owner = some 1;
  threads = asleep ∷ signal_storing ∷ [];
  reset = auto_reset;
  signal_on_timeout = false;
}

run : Steps (event_create false auto_reset false 2) about_to_signal
unfolding event_create
run =
    and_then
      (and_then
        (and_then
          (and_then (and_then (and_then none_yet (enter 0 refl)) (see_none 0 refl refl))
            (lock 0 refl refl))
          (sleep 0 refl refl))
        (signal 1 refl refl))
      (signal_lock 1 refl refl)

Steps-IsCounted_example : IsCounted about_to_signal
Steps-IsCounted_example = Steps-IsCounted false auto_reset false 2 about_to_signal run
