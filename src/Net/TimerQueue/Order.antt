-- ===== src/Net/TimerQueue/Order.antt =====
-- The order of the timers, and what an insertion does.
use mathlib.Core.List.{Perm, append_assoc, perm_append_comm}
use mathlib.Core.List.Perm
use cpp_game_frame.Prelude.{
  ℕ, ◌+◌, ◌≤◌, ◌<◌, ◌≡◌, refl, Bool-cases, inl, inr, true, false, List, [], ◌∷◌, ◌++◌, ltb, leb,
  if◌then◌else◌, arith,
}
use cpp_game_frame.Net.TimerQueue.{
  Timer, insert_later, insert_with_lock_hold, expired, pending, put_again, reinsert, restart,
}

module _ {ℓ} {C : Type ℓ} where
  -- No timer of the list expires before this time.
  abbrev pub NotBefore : ℕ → List (Timer C) → Type 0
  NotBefore n [] = Unit
  NotBefore n (x ∷ xs) = (n ≤ x.expiration) × NotBefore n xs

  abbrev pub IsSorted : List (Timer C) → Type 0
  IsSorted [] = Unit
  IsSorted (x ∷ xs) = NotBefore x.expiration xs × IsSorted xs

  NotBefore-le : (m n : ℕ) (xs : List (Timer C)) → m ≤ n → NotBefore n xs → NotBefore m xs
  NotBefore-le m n [] h k = tt
  NotBefore-le m n (x ∷ xs) h k = (omega arith, NotBefore-le m n xs h k.1)

  insert_later-NotBefore :
      (n : ℕ) (t : Timer C) (xs : List (Timer C))
      → n ≤ t.expiration
      → NotBefore n xs
      → NotBefore n (insert_later t xs)
  unfolding insert_later
  insert_later-NotBefore n t [] h k = (h, tt)
  insert_later-NotBefore n t (x ∷ xs) h k = elim (Bool-cases (ltb x.expiration t.expiration)) [
    | inl e ↦ rw e (k.0, insert_later-NotBefore n t xs h k.1)
    | inr e ↦ rw e (h, k)
  ]

  insert_later-IsSorted :
      (t : Timer C) (xs : List (Timer C)) → IsSorted xs → IsSorted (insert_later t xs)
  unfolding insert_later
  insert_later-IsSorted t [] s = (tt, tt)
  insert_later-IsSorted t (x ∷ xs) s = elim (Bool-cases (ltb x.expiration t.expiration)) [
    | inl e ↦ rw e (
      insert_later-NotBefore x.expiration t xs (ground arith) s.0,
      insert_later-IsSorted t xs s.1,
    )
    | inr e ↦
        let h : t.expiration ≤ x.expiration = ground arith in
        rw e ((h, NotBefore-le t.expiration x.expiration xs h s.0), s)
  ]

  pub insert-NotBefore :
      (n : ℕ) (t : Timer C) (xs : List (Timer C))
      → n ≤ t.expiration
      → NotBefore n xs
      → NotBefore n (insert_with_lock_hold t xs).1
  unfolding insert_with_lock_hold
  insert-NotBefore n t [] h k = (h, tt)
  insert-NotBefore n t (x ∷ xs) h k = elim (Bool-cases (ltb t.expiration x.expiration)) [
    | inl e ↦ rw e (h, k)
    | inr e ↦ rw e (insert_later-NotBefore n t (x ∷ xs) h k)
  ]

  pub insert-IsSorted :
      (t : Timer C) (xs : List (Timer C)) → IsSorted xs → IsSorted (insert_with_lock_hold t xs).1
  unfolding insert_with_lock_hold
  insert-IsSorted t [] s = (tt, tt)
  insert-IsSorted t (x ∷ xs) s = elim (Bool-cases (ltb t.expiration x.expiration)) [
    | inl e ↦
        let h : t.expiration ≤ x.expiration = ground arith in
        rw e ((h, NotBefore-le t.expiration x.expiration xs h s.0), s)
    | inr e ↦ rw e (insert_later-IsSorted t (x ∷ xs) s)
  ]

  insert_later-perm : (t : Timer C) (xs : List (Timer C)) → Perm (insert_later t xs) (t ∷ xs)
  unfolding insert_later
  insert_later-perm t [] = Perm.refl _
  insert_later-perm t (x ∷ xs) = elim (Bool-cases (ltb x.expiration t.expiration)) [
    | inl e ↦ rw e (Perm.trans (Perm.cons x (insert_later-perm t xs)) (Perm.swap t x xs))
    | inr e ↦ rw e (Perm.refl _)
  ]

  pub insert-perm :
      (t : Timer C) (xs : List (Timer C)) → Perm (insert_with_lock_hold t xs).1 (t ∷ xs)
  unfolding insert_with_lock_hold
  insert-perm t [] = Perm.refl _
  insert-perm t (x ∷ xs) = elim (Bool-cases (ltb t.expiration x.expiration)) [
    | inl e ↦ rw e (Perm.refl _)
    | inr e ↦ rw e (insert_later-perm t (x ∷ xs))
  ]

  put_again-IsSorted :
      (now : ℕ) (t : Timer C) (timers : List (Timer C))
      → IsSorted timers
      → IsSorted (put_again now t timers)
  unfolding put_again
  put_again-IsSorted now t timers s = elim (Bool-cases t.repeats) [
    | inl e ↦ simp e (insert-IsSorted (restart now t) timers s)
    | inr e ↦ simp e s
  ]

  pub reinsert-IsSorted :
      (now : ℕ) (xs timers : List (Timer C)) → IsSorted timers → IsSorted (reinsert now xs timers)
  unfolding reinsert
  reinsert-IsSorted now [] timers s = s
  reinsert-IsSorted now (x ∷ xs) timers s =
      reinsert-IsSorted now xs (put_again now x timers) (put_again-IsSorted now x timers s)

  -- What is left of a timer that has run: itself with its next time, if it repeats.
  abbrev pub again : ℕ → Timer C → List (Timer C)
  again now t = if t.repeats then record t { expiration = now + t.interval } ∷ [] else []

  abbrev pub repeating : ℕ → List (Timer C) → List (Timer C)
  repeating now [] = []
  repeating now (x ∷ xs) = again now x ++ repeating now xs

  put_again-perm :
      (now : ℕ) (t : Timer C) (timers : List (Timer C))
      → Perm (put_again now t timers) (again now t ++ timers)
  unfolding put_again restart
  put_again-perm now t timers = elim (Bool-cases t.repeats) [
    | inl e ↦
        simp e (insert-perm (record t { expiration = now + t.interval; repeats = true }) timers)
    | inr e ↦ simp e (Perm.refl timers)
  ]

  pub reinsert-perm :
      (now : ℕ) (xs timers : List (Timer C))
      → Perm (reinsert now xs timers) (repeating now xs ++ timers)
  unfolding reinsert
  reinsert-perm now [] timers = Perm.refl _
  reinsert-perm now (x ∷ xs) timers = Perm.trans (reinsert-perm now xs (put_again now x timers)) (
      Perm.trans (Perm.append_left (repeating now xs) (put_again-perm now x timers)) (
        rw (← append_assoc (repeating now xs) (again now x) timers)
          (Perm.append_right timers (perm_append_comm (repeating now xs) (again now x)))))

  -- The timers due at a time, and those that are not.
  abbrev pub due : ℕ → List (Timer C) → List (Timer C)
  due now [] = []
  due now (x ∷ xs) = if leb x.expiration now then x ∷ due now xs else due now xs

  abbrev pub not_due : ℕ → List (Timer C) → List (Timer C)
  not_due now [] = []
  not_due now (x ∷ xs) = if leb x.expiration now then not_due now xs else x ∷ not_due now xs

  none_due :
      (now n : ℕ) (xs : List (Timer C))
      → now < n
      → NotBefore n xs
      → (due now xs ≡ []) × (not_due now xs ≡ xs)
  none_due now n [] h k = (refl, refl)
  none_due now n (x ∷ xs) h k =
      let late : leb x.expiration now ≡ false = ground arith in
      rw late (rw ((none_due now n xs h k.1).0, (none_due now n xs h k.1).1) (refl, refl))

  -- Of a list in order, the expired front is all that is due.
  pub expired-due : (now : ℕ) (xs : List (Timer C)) → IsSorted xs → expired now xs ≡ due now xs
  unfolding expired
  expired-due now [] s = refl
  expired-due now (x ∷ xs) s = elim (Bool-cases (leb x.expiration now)) [
    | inl e ↦ rw (e, expired-due now xs s.1)
    | inr e ↦ rw (e, (none_due now x.expiration xs (ground arith) s.0).0)
  ]

  pub pending-not_due :
      (now : ℕ) (xs : List (Timer C)) → IsSorted xs → pending now xs ≡ not_due now xs
  unfolding pending
  pending-not_due now [] s = refl
  pending-not_due now (x ∷ xs) s = elim (Bool-cases (leb x.expiration now)) [
    | inl e ↦ rw (e, pending-not_due now xs s.1)
    | inr e ↦ rw (e, (none_due now x.expiration xs (ground arith) s.0).1)
  ]

  pub pending-IsSorted : (now : ℕ) (xs : List (Timer C)) → IsSorted xs → IsSorted (pending now xs)
  unfolding pending
  pending-IsSorted now [] s = tt
  pending-IsSorted now (x ∷ xs) s = elim (Bool-cases (leb x.expiration now)) [
    | inl e ↦ rw e (pending-IsSorted now xs s.1)
    | inr e ↦ rw e s
  ]
