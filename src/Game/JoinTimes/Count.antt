-- ===== src/Game/JoinTimes/Count.antt =====
-- Counting joins within a day and over midnight.
use cpp_game_frame.Prelude.{
  ℕ, ◌≡◌, refl, ap, ◌∙◌, inl, inr, Bool, true, false, Bool-cases, Option, none, some, List, [], ◌∷◌,
  arith, if◌then◌else◌,
}
use cpp_game_frame.Prelude.Int.{ℤ, pos, ◌+ℤ◌, eqb_ℤ, to_int32}
use cpp_game_frame.Game.JoinTimes.{
  JoinTimesMgr, find, put, times, new_day, is_same_day, get_join_times, inc_join_times,
}

find-put :
    (id j v : ℤ) (xs : List (ℤ × ℤ))
    → find j (put id v xs) ≡ (if eqb_ℤ id j then some v else find j xs)
unfolding find put
find-put id j v [] = refl
find-put id j v ((k, n) ∷ xs) = ground (arith, find-put id j v xs)

-- One more: an entry that is not there counts as 0.
put_one :
    (id : ℤ) (o : Option ℤ) (xs : List (ℤ × ℤ))
    → elim o [ some n ↦ put id (to_int32 (n +ℤ pos 1)) xs | none ↦ put id (pos 1) xs ]
      ≡ put id (to_int32 (times o +ℤ pos 1)) xs
unfolding times ◌+ℤ◌
put_one id none xs = refl
put_one id (some n) xs = refl

times_if :
    (c : Bool) (v : ℤ) (o : Option ℤ) → times (if c then some v else o) ≡ (if c then v else times o)
unfolding times
times_if true v o = refl
times_if false v o = refl

-- A join, on the map of the day.
join_today :
    (cur : ℕ) (id j : ℤ) (m : JoinTimesMgr)
    → get_join_times j (inc_join_times cur id m) ≡ (
        if eqb_ℤ id j
        then to_int32 (get_join_times id (new_day cur m) +ℤ pos 1)
        else get_join_times j (new_day cur m))
unfolding get_join_times inc_join_times
join_today cur id j m =
    let xs = (new_day cur m).player_map in
    let v = to_int32 (times (find id xs) +ℤ pos 1) in
    ap (λ ys. times (find j ys)) (put_one id (find id xs) xs)
    ∙ ap times (find-put id j v xs)
    ∙ times_if (eqb_ℤ id j) v (find j xs)

same_day : (cur : ℕ) (m : JoinTimesMgr) → is_same_day m.last_times cur ≡ true → new_day cur m ≡ m
unfolding new_day
same_day cur m e = rw e refl

next_day :
    (cur : ℕ) (j : ℤ) (m : JoinTimesMgr)
    → is_same_day m.last_times cur ≡ false
    → get_join_times j (new_day cur m) ≡ pos 0
unfolding new_day get_join_times find times
next_day cur j m e = rw e refl

-- What getJoinTimes says after incJoinTimes at a time of the day of the last join: one more for
-- the player, as an int32, and the same for every other; on another day, 1 for the player and 0
-- for everybody else.
pub get_join_times-inc_join_times :
    (cur : ℕ) (id j : ℤ) (m : JoinTimesMgr)
    → get_join_times j (inc_join_times cur id m) ≡ (
        if is_same_day m.last_times cur
        then (if eqb_ℤ id j then to_int32 (get_join_times id m +ℤ pos 1) else get_join_times j m)
        else if eqb_ℤ id j
        then pos 1
        else pos 0)
unfolding ◌+ℤ◌
get_join_times-inc_join_times cur id j m = elim (Bool-cases (is_same_day m.last_times cur)) [
  | inl same ↦ rw same (
      join_today cur id j m
      ∙ ap (λ d. if eqb_ℤ id j then to_int32 (get_join_times id d +ℤ pos 1) else get_join_times j d)
          (same_day cur m same))
  | inr other ↦ rw other (
      join_today cur id j m
      ∙ ap (λ v. if eqb_ℤ id j then to_int32 (v +ℤ pos 1) else get_join_times j (new_day cur m))
          (next_day cur id m other)
      ∙ ap (λ v. if eqb_ℤ id j then pos 1 else v) (next_day cur j m other))
]
