-- ===== src/Net/TimerQueue/Tests.antt =====
-- Timers on concrete times.
use mathlib.Core.List.{Perm}
use cpp_game_frame.Prelude.{
  ℕ, ◌≡◌, refl, true, false, some, List, [], ◌∷◌, if◌then◌else◌, ◌==◌, arith,
}
use cpp_game_frame.Net.TimerQueue.{
  TimerQueue, Request, new, restart, reset_timerfd, insert_later, insert_with_lock_hold, schedule,
  run_at, run_every, expired, pending, schedule_all, put_again, reinsert, reset_next, run_expired,
  handle_read,
}
use cpp_game_frame.Net.TimerQueue.Order.{IsSorted, due}
use cpp_game_frame.Net.TimerQueue.Due.{call_all, left_over, handle_read_lem}
use cpp_game_frame.Net.TimerQueue.Alarm.{
  AreValid, IsArmed, begin, schedules, reads, reachable-IsArmed,
}

-- A callback is a number, the world the list of those that have run, the latest first. Callback 7
-- schedules callback 8.
abbrev eight : Request ℕ
eight = record { made = 1501; callback = 8; when = 1600; interval = 0; repeats = false }

abbrev call : ℕ → List ℕ → List ℕ × List (Request ℕ)
call c w = (c ∷ w, if c == 7 then eight ∷ [] else [])

-- A timer every second, one at 1500 and one at 9000.
abbrev three : TimerQueue ℕ
unfolding new run_every run_at schedule insert_with_lock_hold insert_later reset_timerfd
three = run_at 500 9000 3 (run_at 500 1500 7 (run_every 500 1000 1 new))

three-alarm : three.alarm ≡ some 1500
unfolding three
three-alarm = refl

-- At 1501 the timers of 1500 run, the later one of them first; 8 is in, and 1 again.
read_at_1501 : handle_read call 1501 1502 [] three ≡ (
  1 ∷ 7 ∷ [],
  record {
    timers =
        record { id = 3; callback = 8; expiration = 1600; interval = 0; repeats = false }
        ∷ record { id = 0; callback = 1; expiration = 2501; interval = 1000; repeats = true }
        ∷ record { id = 2; callback = 3; expiration = 9000; interval = 0; repeats = false }
        ∷ [];
    alarm = some 1602;
    next_id = 4;
  },
)
unfolding handle_read run_expired schedule_all schedule insert_with_lock_hold insert_later
    reset_timerfd reset_next reinsert put_again restart expired pending three
read_at_1501 = refl

three-IsSorted : IsSorted three.timers
unfolding three
three-IsSorted = omega arith

handle_read_lem_example :
    ((handle_read call 1501 1502 [] three).0 ≡ (call_all call (due 1501 three.timers) []).0)
    × IsSorted (handle_read call 1501 1502 [] three).1.timers
    × Perm (handle_read call 1501 1502 [] three).1.timers (left_over call 1501 [] three)
handle_read_lem_example = handle_read_lem call 1501 1502 [] three three-IsSorted

call-AreValid : (c : ℕ) (w : List ℕ) → AreValid (call c w).1
call-AreValid c w = ground arith

abbrev asked : Request ℕ
asked = record { made = 500; callback = 7; when = 1500; interval = 0; repeats = false }

reachable-IsArmed_example : IsArmed 1502 (handle_read call 1501 1502 [] (schedule asked new)).1
reachable-IsArmed_example =
    reachable-IsArmed call call-AreValid
      (reads 1501 1502 [] (schedules asked (begin 400) (omega arith)) (omega arith))
