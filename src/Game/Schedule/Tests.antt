-- ===== src/Game/Schedule/Tests.antt =====
-- A witness for the turns: four battlegrounds, of which the second runs next.
use cpp_game_frame.Prelude.{ℕ, ◌+◌, ◌-◌, ◌*◌, ◌%◌, ◌≡◌, true, [], ◌∷◌, get_elem?, arith}
use cpp_game_frame.Prelude.Int.{pos}
use cpp_game_frame.Game.Battleground
use cpp_game_frame.Game.Schedule.{BattlegroundMgr, run, run_one}
use cpp_game_frame.Game.Schedule.Turns.{map_option, three_runs}

abbrev four : BattlegroundMgr
four = record {
  bg_list =
      Battleground.new (pos 1)
      ∷ Battleground.new (pos 2)
      ∷ Battleground.new (pos 3)
      ∷ Battleground.new (pos 4)
      ∷ [];
  start_index = 1;
}

abbrev clock : ℕ → ℕ
clock n = 1000 + 50 * n

three_runs_example :
    let third =
      (run (clock 2) (clock 2) (run (clock 1) (clock 1) (run (clock 0) (clock 0) four).0).0).0 in
    let k = (3 + 3 - 1) % 3 in
    (get_elem? third.bg_list 3
      ≡ map_option true (λ bg. (run_one (clock k) (clock k) bg).0) (get_elem? four.bg_list 3))
    × (third.start_index ≡ 1)
three_runs_example = three_runs clock clock 3 four (omega arith) (omega arith)
