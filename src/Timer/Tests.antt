-- ===== src/Timer/Tests.antt =====
-- The theorem on misc/timer.c at a concrete timer.
use c_utils.Base.{◌-◌, ◌≡◌, refl, false, some, arith, ok, Returns}
use c_utils.Timer.{Timer, timer_start, timer_stop, timer_string}
use c_utils.Timer.Elapsed.{Shows, start_stop-Shows}

abbrev idle : Timer
idle = record { start = 0; end = 0; is_running = false; is_finished = false }

-- 3725 seconds are 01:02:05.
string-runs : timer_string (timer_stop 3735 (timer_start 10 idle).1).1 ≡ ok (some (1, 2, 5))
unfolding timer_start timer_stop timer_string
string-runs = refl

start_stop-Shows_example :
    Returns (Shows (3735 - 10)) (timer_string (timer_stop 3735 (timer_start 10 idle).1).1)
start_stop-Shows_example = start_stop-Shows idle 10 3735 refl (omega arith)
