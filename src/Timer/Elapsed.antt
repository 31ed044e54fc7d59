-- ===== src/Timer/Elapsed.antt =====
-- What a timer of misc/timer.c prints.
use c_utils.Base.{
  ℕ, zero, suc, ◌+◌, ◌-◌, ◌*◌, ◌/◌, ◌<◌, ◌≤◌, ◌≡◌, refl, true, false, Option, some, arith, ltb,
  ◌==◌, Returns, returns, Returns-if, Returns-bind, Returns-mono, ==_true, ◌↔◌, Bool-cases, inl,
  inr,
}
use c_utils.Timer.{Timer, timer_start, timer_stop, count_loop, timer_string}

-- The loop takes out the unit as often as it goes.
record Counted (unit count total : ℕ) (r : ℕ × ℕ) : Type 0 where
  sum : r.0 * unit + r.1 ≡ count * unit + total
  rest : r.1 < unit

module _ (unit : ℕ) (whole : (t : ℕ) → (t / unit ≡ 0) ↔ (t < unit)) (positive : 0 < unit) where
  count_loop-Counted :
      (k count total : ℕ)
      → total < k
      → Returns (Counted unit count total) (count_loop k unit count total)
  unfolding count_loop
  count_loop-Counted zero count total h = absurd (omega arith)
  count_loop-Counted (suc k) count total h =
      Returns-if (total / unit == 0)
        (λ e. returns (record { sum = refl; rest = (whole total).0 (==_true (total / unit) 0 e) }))
        λ e.
          let more : unit ≤ total = elim (Bool-cases (ltb total unit)) [
            | inl l ↦ absurd (ground (arith, (whole total).1))
            | inr g ↦ ground arith
          ] in
          Returns-mono (count_loop-Counted k (count + 1) (total - unit) (omega arith))
            λ r c. record { sum = grind (arith, c.sum); rest = c.rest }

hours_whole : (t : ℕ) → (t / 3600 ≡ 0) ↔ (t < 3600)
hours_whole t = (λ e. omega (arith, e), λ l. omega (arith, l))

minutes_whole : (t : ℕ) → (t / 60 ≡ 0) ↔ (t < 60)
minutes_whole t = (λ e. omega (arith, e), λ l. omega (arith, l))

seconds_whole : (t : ℕ) → (t / 1 ≡ 0) ↔ (t < 1)
seconds_whole t = (λ e. omega (arith, e), λ l. omega (arith, l))

-- The printed time, in seconds, and in the range of a clock.
pub data Shows (elapsed : ℕ) : Option (ℕ × ℕ × ℕ) → Type 0 where
  shows :
      (hours minutes seconds : ℕ)
      → hours * 3600 + minutes * 60 + seconds ≡ elapsed
      → minutes < 60
      → seconds < 60
      → Shows elapsed (some (hours, minutes, seconds))

string-Shows :
    (t : Timer)
    → t.is_finished ≡ true
    → t.start ≤ t.end
    → Returns (Shows (t.end - t.start)) (timer_string t)
unfolding timer_string
string-Shows t finished forward =
    let f : ltb t.end t.start ≡ false = ground arith in
    rw (finished, f)
      (Returns-bind
        (count_loop-Counted 3600 hours_whole (omega arith) (t.end - t.start + 1) 0 (t.end - t.start)
          (omega arith))
        λ (h, left_h) ch.
          Returns-bind
            (count_loop-Counted 60 minutes_whole (omega arith) (left_h + 1) 0 left_h (omega arith))
            λ (m, left_m) cm.
              Returns-bind
                (count_loop-Counted 1 seconds_whole (omega arith) (left_m + 1) 0 left_m
                  (omega arith))
                λ (s, left_s) cs. returns (
                  shows h m s (omega (arith, ch.sum, cm.sum, cs.sum, cs.rest))
                    (omega (arith, ch.rest, cm.sum, cs.sum))
                    (omega (arith, cm.rest, cs.sum, cs.rest))))

-- A timer that is not running, is started, and is stopped later prints the time between in hours,
-- minutes below 60 and seconds below 60, and its loops end.
pub start_stop-Shows :
    (t : Timer) (began ended : ℕ)
    → t.is_running ≡ false
    → began ≤ ended
    → Returns (Shows (ended - began)) (timer_string (timer_stop ended (timer_start began t).1).1)
unfolding timer_start timer_stop
start_stop-Shows t began ended idle forward = simp idle (string-Shows _ refl forward)
