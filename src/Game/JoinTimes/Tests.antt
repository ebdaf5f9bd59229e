-- ===== src/Game/JoinTimes/Tests.antt =====
-- Joins on the day and after midnight.
use cpp_game_frame.Prelude.{◌≡◌, refl, [], ◌∷◌}
use cpp_game_frame.Prelude.Int.{pos, ◌+ℤ◌}
use cpp_game_frame.Game.JoinTimes.{JoinTimesMgr, get_join_times, inc_join_times}

-- 2012-04-01, 23:00 in Beijing.
abbrev evening : JoinTimesMgr
evening = record { player_map = (pos 9, pos 2) ∷ []; last_times = 1333292400000 }

third_join : get_join_times (pos 9) (inc_join_times 1333292500000 (pos 9) evening) ≡ pos 3
unfolding get_join_times inc_join_times ◌+ℤ◌
third_join = refl

after_midnight : get_join_times (pos 9) (inc_join_times 1333296000000 (pos 5) evening) ≡ pos 0
unfolding get_join_times inc_join_times ◌+ℤ◌
after_midnight = refl
