-- ===== src/Game/Battleground/Tests.antt =====
-- Witnesses for battlegrounds: two players in a battle that one throne has just lost.
use cpp_game_frame.Prelude.{◌≡◌, ◌≢◌, refl, inl, inr, true, false, some, List, [], ◌∷◌, ◌++◌, arith}
use cpp_game_frame.Prelude.Int.{pos}
use cpp_game_frame.Game.Body.{black, white, is_dead}
use cpp_game_frame.Game.Player
use cpp_game_frame.Game.Player.{Player, set_team}
use cpp_game_frame.Game.Battleground.{
  run, exit, Battleground, Effect, init, new, have_other_team_empty,
}
use cpp_game_frame.Game.Battleground.State.{new_state, run_state, settlement}
use cpp_game_frame.Game.Battleground.Players.{get_player, on_enter_battle}
use cpp_game_frame.Game.Battleground.Counts.{IsValid}
use cpp_game_frame.Game.Battleground.Reach.{begin, next, enter, reachable-IsValid}
use cpp_game_frame.Game.Battleground.Phases.{
  Next, phase_of, run_state-Next, run_state-moves, run_state-waited,
}
use cpp_game_frame.Game.Battleground.Silence.{run_state-no_reward}
use cpp_game_frame.Game.Battleground.Reward.{rewards, verdict, run_state-settles}

abbrev ann : Player
unfolding Player.new
ann = Player.new (pos 9) [] (pos 1) (pos 0)

abbrev bea : Player
unfolding Player.new
bea = Player.new (pos 5) [] (pos 2) (pos 0)

-- A new battleground, in which `ann` has entered for the black team.
abbrev opened : Battleground
unfolding new
opened = (on_enter_battle 1000 (pos 3) (pos 1) ann (new (pos 3))).0

reachable-IsValid_example : IsValid opened
unfolding new get_player
reachable-IsValid_example =
    reachable-IsValid (pos 3) (next begin (enter 1000 (pos 3) (pos 1) ann refl))

abbrev battle : Battleground
unfolding new init set_team
battle = record (new (pos 3)) {
  black_num = 1;
  white_num = 1;
  first = false;
  state = some (new_state 70000 run);
  players =
      set_team white (record bea { battleground_id = pos 3 })
      ∷ set_team black (record ann { battleground_id = pos 3 })
      ∷ [];
  black_building = record ((new (pos 3)).black_building) { hp = pos 0 };
}

-- The same battle, which its black player has left.
abbrev lonely : Battleground
unfolding battle
lonely = record battle {
  black_num = 0;
  state = some (record (new_state 70000 run) { wait_state = true; wait_times = 80000 });
  players = set_team white (record bea { battleground_id = pos 3 }) ∷ [];
}

run_state-Next_example :
    Next (phase_of battle.state) (phase_of ((run_state 90000 90001 battle).0.state))
run_state-Next_example = run_state-Next 90000 90001 battle

run_state-moves_example : phase_of ((run_state 670000 670001 battle).0.state) ≢ some run
unfolding battle
run_state-moves_example =
    run_state-moves 670000 670001 battle (new_state 70000 run) refl refl (omega arith)

run_state-waited_example : phase_of ((run_state 90001 90002 lonely).0.state) ≡ some exit
unfolding lonely have_other_team_empty
run_state-waited_example =
    run_state-waited 90001 90002 lonely
      (record (new_state 70000 run) { wait_state = true; wait_times = 80000 }) refl refl refl refl
      (omega arith)

run_state-settles_example :
    let result = verdict (is_dead battle.black_building) (is_dead battle.white_building) in
    let (after, effects) = run_state 90000 90001 battle in
    (after.result ≡ result)
    × (phase_of after.state ≡ some exit)
    × ((rest : List Effect) × (effects ≡ settlement (record battle { result = result }) ++ rest)
        × (rewards rest ≡ 0))
unfolding battle have_other_team_empty
run_state-settles_example =
    run_state-settles 90000 90001 battle (new_state 70000 run) refl refl refl refl refl

run_state-no_reward_example : rewards ((run_state 90001 90002 lonely).1) ≡ 0
unfolding lonely
run_state-no_reward_example =
    run_state-no_reward 90001 90002 lonely
      (record (new_state 70000 run) { wait_state = true; wait_times = 80000 }) refl (inr (inl refl))
