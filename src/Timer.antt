-- ===== src/Timer.antt =====
-- misc/timer.c: a timer that is started and stopped. A time is a number of seconds, and the clock
-- is an argument.
pub mod Elapsed
pub mod Tests
use c_utils.Base.{
  ℕ, zero, suc, ◌+◌, ◌-◌, ◌/◌, Bool, true, false, not, ◌||◌, Option, none, some, ltb, ◌==◌,
  if◌then◌else◌, Run, ok, out_of_fuel, ◌>>=◌,
}

pub record Timer : Type 0 where
  pub start : ℕ
  pub end : ℕ
  pub is_running : Bool
  pub is_finished : Bool

-- `malloc_ok` says whether the three allocations succeed; the clock stands at `now`.
unfoldable pub timer_init : Bool → ℕ → Bool → Option Timer
timer_init malloc_ok now start =
    if malloc_ok
    then some (record {
      start = if start then now else 0;
      end = 0;
      is_running = start;
      is_finished = false;
    })
    else none

unfoldable pub timer_start : ℕ → Timer → Bool × Timer
timer_start now t =
    if t.is_running
    then (false, t)
    else (true, record t { start = now; is_running = true; is_finished = false })

unfoldable pub timer_stop : ℕ → Timer → Bool × Timer
timer_stop now t =
    if not t.is_running || t.is_finished
    then (false, t)
    else (true, record t { end = now; is_running = false; is_finished = true })

-- while((int)(total_time / unit)) { count++; total_time -= unit; }
unfoldable pub count_loop : ℕ → ℕ → ℕ → ℕ → Run (ℕ × ℕ)
count_loop zero unit count total = out_of_fuel
count_loop (suc k) unit count total =
    let rest = count_loop k unit (count + 1) (total - unit) in
    if total / unit == 0 then ok (count, total) else rest

-- The hours, minutes and seconds that are printed, or NULL. If the clock went back, the loops
-- count down without end.
unfoldable pub timer_string : Timer → Run (Option (ℕ × ℕ × ℕ))
unfolding count_loop
timer_string t =
    let total = t.end - t.start in
    if not t.is_finished then ok none else if ltb t.end t.start then out_of_fuel else (do
      (hours, total) ← count_loop (total + 1) 3600 0 total
      (minutes, total) ← count_loop (total + 1) 60 0 total
      (seconds, total) ← count_loop (total + 1) 1 0 total
      ok (some (hours, minutes, seconds)))
