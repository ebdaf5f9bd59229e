-- ===== src/Game/Battleground/State.antt =====
-- The states of a battleground: what starts, runs and ends each, and closing the battleground.
use cpp_game_frame.Prelude.{
  ℕ, ◌-◌, Bool, true, false, not, ◌&&◌, Option, none, some, List, [], ◌∷◌, ◌++◌, ltb, leb, suc,
  if◌then◌else◌,
}
use cpp_game_frame.Prelude.Int.{ℤ, pos}
use cpp_game_frame.Game.Note.{
  Note, Word, int, op_tellclient_state, op_member_insufficient, op_settlement,
  op_get_battleground_award,
}
use cpp_game_frame.Game.Body.{none_team, is_dead}
use cpp_game_frame.Game.Player.{
  Player, BgResult, black_result, white_result, draw_result, result_code, serialize_result,
  set_team, get_id,
}
use cpp_game_frame.Game.Battleground.{
  Phase, wait, count_down, start, run, exit, BattlegroundState, Battleground, Effect, to_hotel,
  tell_php, inc_join_times, left, init, is_full, is_empty, have_other_team_empty, broad_msg,
  state_time_limit, state_code, left_word,
}

unfoldable pub state_note : ℕ → ℤ → BattlegroundState → Note
state_note now code s = record {
  op = op_tellclient_state;
  param = pos 0;
  words = int code ∷ int (left_word now s) ∷ [];
}

-- `TellClientCloseBg`.
unfoldable pub tell_client_close_bg : ℤ → Battleground → Effect
tell_client_close_bg state bg =
    broad_msg bg (record { op = op_member_insufficient; param = state; words = [] })

-- The words of all players in the two packets about the result, and how many players there are.
result_words : BgResult → List Player → List Word
unfolding serialize_result
result_words result [] = []
result_words result (p ∷ ps) = (serialize_result result p).0 ++ result_words result ps

hotel_words : ℤ → BgResult → List Player → List Word
unfolding serialize_result
hotel_words id result [] = []
hotel_words id result (p ∷ ps) =
    int id ∷ int id ∷ (serialize_result result p).1 ++ hotel_words id result ps

count_players : List Player → ℕ
count_players [] = 0
count_players (p ∷ ps) = suc (count_players ps)

unfoldable pub settlement : Battleground → List Effect
unfolding result_words hotel_words count_players
settlement bg =
    broad_msg bg (record {
      op = op_settlement;
      param = pos (count_players bg.players);
      words = int (result_code bg.result) ∷ result_words bg.result bg.players;
    })
    ∷ to_hotel (record {
      op = op_get_battleground_award;
      param = pos (count_players bg.players);
      words = hotel_words bg.id bg.result bg.players;
    })
    ∷ []

unfoldable pub inc_bg_player_times : List Player → List Effect
inc_bg_player_times [] = []
inc_bg_player_times (p ∷ ps) = inc_join_times (get_id p) ∷ inc_bg_player_times ps

-- `end` of a state: the run state settles if both teams have players.
unfoldable pub end : Option BattlegroundState → Battleground → List Effect
unfolding settlement have_other_team_empty
end none bg = []
end (some s) bg = elim s.phase [
  | run ↦ if have_other_team_empty bg then [] else settlement bg
  | wait ↦ []
  | count_down ↦ []
  | start ↦ []
  | exit ↦ []
]

unfoldable pub on_start : Phase → Battleground → List Effect
unfolding inc_bg_player_times
on_start run bg = inc_bg_player_times bg.players
on_start wait bg = []
on_start count_down bg = []
on_start start bg = []
on_start exit bg = []

abbrev pub new_state : ℕ → Phase → BattlegroundState
new_state now phase = record { phase = phase; start_time = now; wait_state = false; wait_times = 0 }

-- `setBattlegroundState` with the state that a `switch...State` makes; `now` is the time of the call.
unfoldable pub set_battleground_state : ℕ → Phase → Battleground → Battleground × List Effect
unfolding end state_note on_start
set_battleground_state now phase bg =
    let s = new_state now phase in
    (
      record bg { state = some s },
      end bg.state bg
          ++ (broad_msg bg (state_note now (state_code phase) s)
              ∷ tell_php bg.id
              ∷ on_start phase bg),
    )

unfoldable pub release : List Player → List Effect
unfolding set_team
release [] = []
release (p ∷ ps) = left (set_team none_team (record p { battleground_id = pos 0 })) ∷ release ps

-- `closeBattleground`.
unfoldable pub close_battleground : Battleground → Battleground × List Effect
unfolding end release init
close_battleground bg = (
  record (init bg) { state = none },
  end bg.state bg ++ (release bg.players ++ (tell_php bg.id ∷ [])),
)

-- `isGameOver`: whether a throne is dead, and the result.
unfoldable pub is_game_over : Battleground → Bool × Battleground
is_game_over bg =
    if is_dead bg.black_building && is_dead bg.white_building
    then (true, record bg { result = draw_result })
    else if is_dead bg.black_building
    then (true, record bg { result = white_result })
    else if is_dead bg.white_building
    then (true, record bg { result = black_result })
    else (false, bg)

-- A call that comes after something was sent.
abbrev pub after : Effect → Battleground × List Effect → Battleground × List Effect
after e (bg, es) = (bg, e ∷ es)

unfoldable pub run_wait : BattlegroundState → ℕ → ℕ → Battleground → Battleground × List Effect
unfolding set_battleground_state is_full is_empty
run_wait s cur now bg =
    if is_full bg
    then set_battleground_state now count_down bg
    else if is_empty bg
    then set_battleground_state now exit bg
    else if leb (state_time_limit wait) (cur - s.start_time)
    then set_battleground_state now count_down bg
    else (bg, [])

unfoldable pub run_count_down :
    BattlegroundState → ℕ → ℕ → Battleground → Battleground × List Effect
unfolding set_battleground_state have_other_team_empty
run_count_down s cur now bg =
    if leb (state_time_limit count_down) (cur - s.start_time)
    then (if have_other_team_empty bg
        then set_battleground_state now start bg
        else set_battleground_state now run bg)
    else (bg, [])

unfoldable pub run_start : BattlegroundState → ℕ → ℕ → Battleground → Battleground × List Effect
unfolding set_battleground_state have_other_team_empty tell_client_close_bg
run_start s cur now bg =
    if leb (state_time_limit start) (cur - s.start_time)
    then after (tell_client_close_bg (pos 1) bg) (set_battleground_state now exit bg)
    else if have_other_team_empty bg
    then (bg, [])
    else set_battleground_state now run bg

-- The run state while it waits for a team to come back.
unfoldable pub run_waiting : BattlegroundState → ℕ → ℕ → Battleground → Battleground × List Effect
unfolding set_battleground_state have_other_team_empty state_note
run_waiting s cur now bg =
    if not (have_other_team_empty bg)
    then (
      record bg { state = some (record s { wait_state = false }) },
      broad_msg bg (state_note now (state_code run) s) ∷ [],
    )
    else if ltb 10000 (cur - s.wait_times)
    then set_battleground_state now exit bg
    else (bg, [])

unfoldable pub run_run : BattlegroundState → ℕ → ℕ → Battleground → Battleground × List Effect
unfolding set_battleground_state have_other_team_empty state_note is_game_over run_waiting
run_run s cur now bg =
    if s.wait_state
    then run_waiting s cur now bg
    else if (is_game_over bg).0
    then set_battleground_state now exit (is_game_over bg).1
    else if leb (state_time_limit run) (cur - s.start_time)
    then set_battleground_state now exit (record bg { result = draw_result })
    else if have_other_team_empty bg
    then (
      record bg { state = some (record s { wait_state = true; wait_times = cur }) },
      broad_msg bg (state_note now (pos 3) s) ∷ [],
    )
    else (bg, [])

unfoldable pub run_exit : BattlegroundState → ℕ → ℕ → Battleground → Battleground × List Effect
unfolding close_battleground tell_client_close_bg
run_exit s cur now bg =
    if leb (state_time_limit exit) (cur - s.start_time)
    then after (tell_client_close_bg (pos 0) bg) (close_battleground bg)
    else (bg, [])

unfoldable pub run_phase :
    Phase → BattlegroundState → ℕ → ℕ → Battleground → Battleground × List Effect
unfolding run_wait run_count_down run_start run_run run_exit
run_phase wait = run_wait
run_phase count_down = run_count_down
run_phase start = run_start
run_phase run = run_run
run_phase exit = run_exit

-- The state's part of `Battleground::run`: `cur` is the time that is passed in, `now` is the clock.
unfoldable pub run_state : ℕ → ℕ → Battleground → Battleground × List Effect
unfolding run_phase
run_state cur now bg = elim bg.state [ none ↦ (bg, []) | some s ↦ run_phase s.phase s cur now bg ]
