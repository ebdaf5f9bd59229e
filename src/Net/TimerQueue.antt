-- ===== src/Net/TimerQueue.antt =====
-- The timers of an event loop, mysdk/net/TimerQueue.cc, Timer.h and Timer.cc, with `runAt`, `runAfter`
-- and `runEvery` of EventLoop.cc. Times are microseconds, and stay below 2 ^ 63. An interval is what the
-- cast of the `double` to microseconds leaves of it. A callback changes a world of its own and
-- schedules timers; what it schedules are requests, each with the time at which it is made.
pub mod Order
pub mod Due
pub mod Alarm
mod Tests
use cpp_game_frame.Prelude.{
  ℕ, suc, ◌+◌, ◌-◌, Bool, true, false, Option, none, some, List, [], ◌∷◌, ltb, leb, if◌then◌else◌,
  max,
}

-- `id` tells the objects apart, and stands for the pointer that a `TimerId` holds.
pub record Timer {ℓ} (C : Type ℓ) : Type ℓ where
  pub id : ℕ
  pub callback : C
  pub expiration : ℕ
  pub interval : ℕ
  pub repeats : Bool

-- `alarm` is the time at which the timer file descriptor becomes readable; `none` while it is not set.
pub record TimerQueue {ℓ} (C : Type ℓ) : Type ℓ where
  pub timers : List (Timer C)
  pub alarm : Option ℕ
  pub next_id : ℕ

-- A call of `schedule` at a time.
pub record Request {ℓ} (C : Type ℓ) : Type ℓ where
  pub made : ℕ
  pub callback : C
  pub when : ℕ
  pub interval : ℕ
  pub repeats : Bool

module _ {ℓ} {C : Type ℓ} where
  unfoldable pub new : TimerQueue C
  new = record { timers = []; alarm = none; next_id = 0 }

  -- `Timer::restart`; without repetition the timer becomes invalid.
  unfoldable pub restart : ℕ → Timer C → Timer C
  restart now t =
      if t.repeats then record t { expiration = now + t.interval } else record t { expiration = 0 }

  -- `howMuchTimeFromNow` and `resetTimerfd`: at least 100 microseconds.
  unfoldable pub reset_timerfd : ℕ → ℕ → TimerQueue C → TimerQueue C
  reset_timerfd now when q = record q { alarm = some (now + max (when - now) 100) }

  -- The loop of `insertWithLockHold` that looks for the place.
  unfoldable pub insert_later : Timer C → List (Timer C) → List (Timer C)
  insert_later t [] = t ∷ []
  insert_later t (x ∷ xs) =
      if ltb x.expiration t.expiration then x ∷ insert_later t xs else t ∷ x ∷ xs

  -- The list with the timer, and whether it is the earliest.
  unfoldable pub insert_with_lock_hold : Timer C → List (Timer C) → Bool × List (Timer C)
  unfolding insert_later
  insert_with_lock_hold t [] = (true, t ∷ [])
  insert_with_lock_hold t (x ∷ xs) =
      if ltb t.expiration x.expiration then (true, t ∷ x ∷ xs) else (false, insert_later t (x ∷ xs))

  unfoldable pub schedule : Request C → TimerQueue C → TimerQueue C
  schedule r q =
      let t : Timer C = record {
        id = q.next_id;
        callback = r.callback;
        expiration = r.when;
        interval = r.interval;
        repeats = r.repeats;
      } in
      let (earliest_changed, timers) = insert_with_lock_hold t q.timers in
      let inserted = record q { timers = timers; next_id = suc q.next_id } in
      if earliest_changed then reset_timerfd r.made r.when inserted else inserted

  unfoldable pub run_at : ℕ → ℕ → C → TimerQueue C → TimerQueue C
  run_at now time cb =
      schedule (record { made = now; callback = cb; when = time; interval = 0; repeats = false })

  unfoldable pub run_after : ℕ → ℕ → C → TimerQueue C → TimerQueue C
  run_after now delay cb = run_at now (now + delay) cb

  -- The interval of a timer that repeats is not 0 as a `double`.
  unfoldable pub run_every : ℕ → ℕ → C → TimerQueue C → TimerQueue C
  run_every now interval cb = schedule (record {
    made = now;
    callback = cb;
    when = now + interval;
    interval = interval;
    repeats = true;
  })

  -- The front of the list that has expired, and the rest.
  unfoldable pub expired : ℕ → List (Timer C) → List (Timer C)
  expired now [] = []
  expired now (x ∷ xs) = if leb x.expiration now then x ∷ expired now xs else []

  unfoldable pub pending : ℕ → List (Timer C) → List (Timer C)
  pending now [] = []
  pending now (x ∷ xs) = if leb x.expiration now then pending now xs else x ∷ xs

  unfoldable pub schedule_all : List (Request C) → TimerQueue C → TimerQueue C
  schedule_all [] q = q
  schedule_all (r ∷ rs) q = schedule_all rs (schedule r q)

  -- A timer that has run is put in again or deleted.
  unfoldable pub put_again : ℕ → Timer C → List (Timer C) → List (Timer C)
  put_again now t timers =
      if t.repeats then (insert_with_lock_hold (restart now t) timers).1 else timers

  unfoldable pub reinsert : ℕ → List (Timer C) → List (Timer C) → List (Timer C)
  reinsert now [] timers = timers
  reinsert now (x ∷ xs) timers = reinsert now xs (put_again now x timers)

  -- The descriptor is set for the first timer, if its time is valid.
  unfoldable pub reset_next : ℕ → List (Timer C) → TimerQueue C → TimerQueue C
  reset_next later [] q = q
  reset_next later (x ∷ xs) q = if ltb 0 x.expiration then reset_timerfd later x.expiration q else q

  module _ {κ} {W : Type κ} (call : C → W → W × List (Request C)) where
    -- The loop that runs the callbacks.
    unfoldable pub run_expired : List (Timer C) → W → TimerQueue C → W × TimerQueue C
    run_expired [] w q = (w, q)
    run_expired (x ∷ xs) w q =
        let (w', requests) = call x.callback w in run_expired xs w' (schedule_all requests q)

    -- `handleRead` at the time `now`, when the alarm has gone off; the descriptor is set again at a
    -- time `later`.
    unfoldable pub handle_read : ℕ → ℕ → W → TimerQueue C → W × TimerQueue C
    handle_read now later w q =
        let due = expired now q.timers in
        let (w', ran) =
          run_expired due w (record q { timers = pending now q.timers; alarm = none }) in
        let timers = reinsert now due ran.timers in
        (w', reset_next later timers (record ran { timers = timers }))
