-- ===== src/Net/TimerQueue/Alarm.antt =====
-- The alarm goes off in time for the first timer.
use cpp_game_frame.Prelude.{
  ℕ, ◌+◌, ◌-◌, ◌<◌, ◌≡◌, refl, sym, ap, ◌∙◌, Bool, if◌then◌else◌, Bool-cases, inl, inr, true, false,
  Option, none, some, List, [], ◌∷◌, ltb, leb, max, arith,
}
use cpp_game_frame.Net.TimerQueue.{
  Timer, TimerQueue, Request, new, insert_later, insert_with_lock_hold, schedule, reset_timerfd,
  reset_next, restart, put_again, reinsert, run_expired, schedule_all, expired, pending,
  handle_read,
}
use cpp_game_frame.Net.TimerQueue.Order.{NotBefore, insert-NotBefore}
use cpp_game_frame.Net.TimerQueue.Due.{timer_of, schedule-timers}

module _ {ℓ} {C : Type ℓ} where
  -- The alarm that was set for the first timer at the time `set`: at its time, or 100 microseconds after `set`.
  abbrev InTime : ℕ → Option ℕ → List (Timer C) → Type 0
  InTime set alarm [] = Unit
  InTime set alarm (x ∷ xs) = alarm ≡ some (max x.expiration (set + 100))

  -- The queue: every timer has a valid time, and the alarm was set for the first of them at the time `set`.
  pub record IsArmed (set : ℕ) (q : TimerQueue C) : Type ℓ where
    pub valid : NotBefore 1 q.timers
    pub in_time : InTime set q.alarm q.timers

  -- A time before those of all timers.
  abbrev pub is_earliest : ℕ → List (Timer C) → Bool
  is_earliest when [] = true
  is_earliest when (x ∷ xs) = ltb when x.expiration

  insert-is_earliest :
      (t : Timer C) (xs : List (Timer C))
      → (insert_with_lock_hold t xs).0 ≡ is_earliest t.expiration xs
  unfolding insert_with_lock_hold
  insert-is_earliest t [] = refl
  insert-is_earliest t (x ∷ xs) = elim (Bool-cases (ltb t.expiration x.expiration)) [
    | inl before ↦ rw before refl
    | inr after ↦ rw after refl
  ]

  -- Not the first timer, so that the alarm is as good as before.
  InTime-insert :
      (set : ℕ) (alarm : Option ℕ) (t : Timer C) (xs : List (Timer C))
      → (insert_with_lock_hold t xs).0 ≡ false
      → InTime set alarm xs
      → InTime set alarm (insert_with_lock_hold t xs).1
  unfolding insert_with_lock_hold insert_later
  InTime-insert set alarm t [] e h = cc
  InTime-insert set alarm t (x ∷ xs) e h = elim (Bool-cases (ltb t.expiration x.expiration)) [
    | inl before ↦ absurd (ground arith)
    | inr after ↦ rw after (elim (Bool-cases (ltb x.expiration t.expiration)) [
      | inl more ↦ rw more h
      | inr same ↦
          let equal : t.expiration ≡ x.expiration = ground arith in
          rw same (h ∙ ap (λ n. some (max n (set + 100))) (sym equal))
    ])
  ]

  InTime-first :
      (made : ℕ) (t : Timer C) (xs : List (Timer C))
      → (insert_with_lock_hold t xs).0 ≡ true
      → InTime made (some (made + max (t.expiration - made) 100)) (insert_with_lock_hold t xs).1
  unfolding insert_with_lock_hold
  InTime-first made t [] e = ap some (omega arith)
  InTime-first made t (x ∷ xs) e = elim (Bool-cases (ltb t.expiration x.expiration)) [
    | inl before ↦ rw before (ap some (omega arith))
    | inr after ↦ absurd (ground arith)
  ]

  schedule-valid :
      (r : Request C) (q : TimerQueue C)
      → 0 < r.when
      → NotBefore 1 q.timers
      → NotBefore 1 (schedule r q).timers
  schedule-valid r q k v =
      rw (schedule-timers r q).0
        (insert-NotBefore 1 (timer_of q.next_id r) q.timers (omega arith) v)

  -- When the alarm was set, after a call of `schedule`.
  abbrev pub set_by : Request C → ℕ → TimerQueue C → ℕ
  set_by r set q = if is_earliest r.when q.timers then r.made else set

  pub schedule-IsArmed :
      (set : ℕ) (r : Request C) (q : TimerQueue C)
      → 0 < r.when
      → IsArmed set q
      → IsArmed (set_by r set q) (schedule r q)
  unfolding schedule reset_timerfd
  schedule-IsArmed set r q k v =
      let t = timer_of q.next_id r in
      let test : (insert_with_lock_hold t q.timers).0 ≡ is_earliest r.when q.timers =
        insert-is_earliest t q.timers in
      elim (Bool-cases (insert_with_lock_hold t q.timers).0) [
        | inl first ↦
            let yes : is_earliest r.when q.timers ≡ true = sym test ∙ first in
            rw (first, yes)
              (record {
                valid = insert-NotBefore 1 t q.timers (omega arith) v.valid;
                in_time = InTime-first r.made t q.timers first;
              })
        | inr later ↦
            let no : is_earliest r.when q.timers ≡ false = sym test ∙ later in
            rw (later, no)
              (record {
                valid = insert-NotBefore 1 t q.timers (omega arith) v.valid;
                in_time = InTime-insert set q.alarm t q.timers later v.in_time;
              })
      ]

  -- The times that are asked for are valid.
  abbrev pub AreValid : List (Request C) → Type 0
  AreValid [] = Unit
  AreValid (r ∷ rs) = (0 < r.when) × AreValid rs

  schedule_all-valid :
      (rs : List (Request C)) (q : TimerQueue C)
      → AreValid rs
      → NotBefore 1 q.timers
      → NotBefore 1 (schedule_all rs q).timers
  unfolding schedule_all
  schedule_all-valid [] q a v = v
  schedule_all-valid (r ∷ rs) q a v =
      schedule_all-valid rs (schedule r q) a.1 (schedule-valid r q a.0 v)

  put_again-valid :
      (now : ℕ) (t : Timer C) (xs : List (Timer C))
      → 0 < now
      → NotBefore 1 xs
      → NotBefore 1 (put_again now t xs)
  unfolding put_again restart
  put_again-valid now t xs h v = elim (Bool-cases t.repeats) [
    | inl e ↦ simp e (
        insert-NotBefore 1 (record t { expiration = now + t.interval; repeats = true }) xs
          (omega arith) v)
    | inr e ↦ simp e v
  ]

  reinsert-valid :
      (now : ℕ) (xs timers : List (Timer C))
      → 0 < now
      → NotBefore 1 timers
      → NotBefore 1 (reinsert now xs timers)
  unfolding reinsert
  reinsert-valid now [] timers h v = v
  reinsert-valid now (x ∷ xs) timers h v =
      reinsert-valid now xs (put_again now x timers) h (put_again-valid now x timers h v)

  pending-valid : (now n : ℕ) (xs : List (Timer C)) → NotBefore n xs → NotBefore n (pending now xs)
  unfolding pending
  pending-valid now n [] v = tt
  pending-valid now n (x ∷ xs) v = elim (Bool-cases (leb x.expiration now)) [
    | inl e ↦ rw e (pending-valid now n xs v.1)
    | inr e ↦ rw e v
  ]

  reset_next-IsArmed :
      (later : ℕ) (xs : List (Timer C)) (q : TimerQueue C)
      → NotBefore 1 xs
      → IsArmed later (reset_next later xs (record q { timers = xs }))
  unfolding reset_next reset_timerfd
  reset_next-IsArmed later [] q v = record { valid = tt; in_time = tt }
  reset_next-IsArmed later (x ∷ xs) q v =
      let set : ltb 0 x.expiration ≡ true = ground arith in
      rw set (record { valid = v; in_time = ap some (omega arith) })

  module _ {κ} {W : Type κ} (call : C → W → W × List (Request C)) where
    -- The operations of a loop, and the time of the last one that set the alarm: a call of handleRead, or of schedule
    -- with a time before those of all timers.
    pub data IsReachable : ℕ → TimerQueue C → Type (ℓ ⊔ κ) where
      begin : (now : ℕ) → IsReachable now new
      schedules :
          {set : ℕ} {q : TimerQueue C} (r : Request C)
          → IsReachable set q
          → 0 < r.when
          → IsReachable (set_by r set q) (schedule r q)
      reads :
          {set : ℕ} {q : TimerQueue C} (at later : ℕ) (w : W)
          → IsReachable set q
          → 0 < at
          → IsReachable later (handle_read call at later w q).1

  module _ {κ} {W : Type κ} (call : C → W → W × List (Request C))
      (sensible : (c : C) (w : W) → AreValid (call c w).1) where
    run_expired-valid :
        (xs : List (Timer C)) (w : W) (q : TimerQueue C)
        → NotBefore 1 q.timers
        → NotBefore 1 (run_expired call xs w q).1.timers
    unfolding run_expired
    run_expired-valid [] w q v = v
    run_expired-valid (x ∷ xs) w q v =
        run_expired-valid xs (call x.callback w).0 _
          (schedule_all-valid (call x.callback w).1 q (sensible x.callback w) v)

    pub handle_read-IsArmed :
        (now later : ℕ) (w : W) (q : TimerQueue C)
        → 0 < now
        → NotBefore 1 q.timers
        → IsArmed later (handle_read call now later w q).1
    unfolding handle_read
    handle_read-IsArmed now later w q h v =
        let start : TimerQueue C = record q { timers = pending now q.timers; alarm = none } in
        let due = expired now q.timers in
        let ran = (run_expired call due w start).1 in
        reset_next-IsArmed later (reinsert now due ran.timers) ran (
          reinsert-valid now due ran.timers h
            (run_expired-valid due w start (pending-valid now 1 q.timers v)))

    -- With callbacks that ask for valid times: after any sequence of schedule and handleRead, at any
    -- times after 0, whether or not anything was due: if a timer is in the queue, the alarm is set,
    -- and it goes off at the time of the first timer or 100 microseconds after the last operation that
    -- set it, whichever is later; the operations that set it are handleRead, and a schedule of a time
    -- before those of all timers of the queue.
    pub reachable-IsArmed : {set : ℕ} {q : TimerQueue C} → IsReachable call set q → IsArmed set q
    unfolding new
    reachable-IsArmed (begin now) = record { valid = tt; in_time = tt }
    reachable-IsArmed (schedules {set} {q} r reach k) =
        schedule-IsArmed set r q k (reachable-IsArmed reach)
    reachable-IsArmed (reads {set} {q} at later w reach h) =
        handle_read-IsArmed at later w q h (reachable-IsArmed reach).valid
