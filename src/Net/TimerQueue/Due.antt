-- ===== src/Net/TimerQueue/Due.antt =====
-- What a call of `handleRead` runs and leaves, and that the alarm is set in time.
use mathlib.Core.List.{Perm, perm_middle}
use mathlib.Core.List.Perm
use cpp_game_frame.Prelude.{
  ℕ, suc, ◌≡◌, refl, sym, ap, ◌∙◌, Bool-cases, inl, inr, none, List, [], ◌∷◌, ◌++◌, ltb,
}
use cpp_game_frame.Net.TimerQueue.{
  Timer, TimerQueue, Request, insert_with_lock_hold, schedule, schedule_all, pending, reset_next,
  reset_timerfd, run_expired, handle_read,
}
use cpp_game_frame.Net.TimerQueue.Order.{
  IsSorted, insert-IsSorted, insert-perm, reinsert-IsSorted, repeating, reinsert-perm, due, not_due,
  expired-due, pending-not_due, pending-IsSorted,
}

module _ {ℓ} {C : Type ℓ} where
  -- The timer that a request makes.
  abbrev pub timer_of : ℕ → Request C → Timer C
  timer_of id r = record {
    id = id;
    callback = r.callback;
    expiration = r.when;
    interval = r.interval;
    repeats = r.repeats;
  }

  abbrev pub made_timers : ℕ → List (Request C) → List (Timer C)
  made_timers id [] = []
  made_timers id (r ∷ rs) = timer_of id r ∷ made_timers (suc id) rs

  pub schedule-timers :
      (r : Request C) (q : TimerQueue C)
      → ((schedule r q).timers ≡ (insert_with_lock_hold (timer_of q.next_id r) q.timers).1)
        × ((schedule r q).next_id ≡ suc q.next_id)
  unfolding schedule reset_timerfd
  schedule-timers r q =
      elim (Bool-cases (insert_with_lock_hold (timer_of q.next_id r) q.timers).0) [
        | inl e ↦ rw e (refl, refl)
        | inr e ↦ rw e (refl, refl)
      ]

  schedule_all-IsSorted :
      (rs : List (Request C)) (q : TimerQueue C)
      → IsSorted q.timers
      → IsSorted (schedule_all rs q).timers
  unfolding schedule_all
  schedule_all-IsSorted [] q s = s
  schedule_all-IsSorted (r ∷ rs) q s =
      schedule_all-IsSorted rs (schedule r q)
        (rw (schedule-timers r q).0 (insert-IsSorted (timer_of q.next_id r) q.timers s))

  schedule_all-perm :
      (rs : List (Request C)) (q : TimerQueue C)
      → Perm (schedule_all rs q).timers (made_timers q.next_id rs ++ q.timers)
  unfolding schedule_all
  schedule_all-perm [] q = Perm.refl _
  schedule_all-perm (r ∷ rs) q =
      let (timers, id) = schedule-timers r q in
      let rest = made_timers (suc q.next_id) rs in
      Perm.trans (schedule_all-perm rs (schedule r q)) (
        rw (timers, id)
          (Perm.trans (Perm.append_left rest (insert-perm (timer_of q.next_id r) q.timers))
            (perm_middle rest q.timers)))

  schedule_all-append :
      (rs ss : List (Request C)) (q : TimerQueue C)
      → schedule_all (rs ++ ss) q ≡ schedule_all ss (schedule_all rs q)
  unfolding schedule_all
  schedule_all-append [] ss q = refl
  schedule_all-append (r ∷ rs) ss q = schedule_all-append rs ss (schedule r q)

  reset_next-timers :
      (later : ℕ) (xs : List (Timer C)) (q : TimerQueue C)
      → (reset_next later xs q).timers ≡ q.timers
  unfolding reset_next reset_timerfd
  reset_next-timers later [] q = refl
  reset_next-timers later (x ∷ xs) q = elim (Bool-cases (ltb 0 x.expiration)) [
    | inl e ↦ rw e refl
    | inr e ↦ rw e refl
  ]

  module _ {κ} {W : Type κ} (call : C → W → W × List (Request C)) where
    -- The callbacks of a list of timers, run one after the other, and all that they schedule.
    abbrev pub call_all : List (Timer C) → W → W × List (Request C)
    call_all [] w = (w, [])
    call_all (x ∷ xs) w =
        let (w', rs) = call x.callback w in let (w'', ss) = call_all xs w' in (w'', rs ++ ss)

    run_expired-call_all :
        (xs : List (Timer C)) (w : W) (q : TimerQueue C)
        → run_expired call xs w q ≡ ((call_all xs w).0, schedule_all (call_all xs w).1 q)
    unfolding run_expired schedule_all
    run_expired-call_all [] w q = refl
    run_expired-call_all (x ∷ xs) w q =
        let (w', rs) = call x.callback w in
        run_expired-call_all xs w' (schedule_all rs q)
        ∙ ap (λ z. ((call_all xs w').0, z)) (sym (schedule_all-append rs (call_all xs w').1 q))

    -- What is in the queue afterwards: the timers that ran and repeat, at their next times; those
    -- that the callbacks made; those that were not due.
    abbrev pub left_over : ℕ → W → TimerQueue C → List (Timer C)
    left_over now w q =
        repeating now (due now q.timers)
        ++ (made_timers q.next_id (call_all (due now q.timers) w).1 ++ not_due now q.timers)

    -- For timers in the order of their times: handleRead runs the callbacks of exactly the timers that
    -- are due, in that order, each once; afterwards the queue holds, again in order, the timers that
    -- repeat at their next times, the timers that the callbacks have scheduled, and those that were
    -- not due, all of them as often as they should be and no other.
    pub handle_read_lem :
        (now later : ℕ) (w : W) (q : TimerQueue C)
        → IsSorted q.timers
        → ((handle_read call now later w q).0 ≡ (call_all (due now q.timers) w).0)
          × IsSorted (handle_read call now later w q).1.timers
          × Perm (handle_read call now later w q).1.timers (left_over now w q)
    unfolding handle_read
    handle_read_lem now later w q s =
        let start : TimerQueue C = record q { timers = pending now q.timers; alarm = none } in
        let rs = (call_all (due now q.timers) w).1 in
        let ran = run_expired-call_all (due now q.timers) w start in
        rw (expired-due now q.timers s, ran, reset_next-timers)
          (
            refl,
            reinsert-IsSorted now (due now q.timers) (schedule_all rs start).timers
                (schedule_all-IsSorted rs start (pending-IsSorted now q.timers s)),
            Perm.trans (reinsert-perm now (due now q.timers) (schedule_all rs start).timers) (
                Perm.append_left (repeating now (due now q.timers))
                  (rw (← pending-not_due now q.timers s) (schedule_all-perm rs start))),
          )
