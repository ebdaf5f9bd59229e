-- ===== src/Game/Battleground.antt =====
-- A battleground and its states, game/LoongBgSrv/Battleground.cc, BattlegroundState.cc and the five
-- StateBattleground*.cc, the part of scene/Scene.cc that holds the players and the two thrones, and
-- the handlers of BgPlayer.cc that enter and leave. What is sent is a list of effects.
pub mod State
pub mod Players
pub mod Counts
pub mod Enter
pub mod Leave
pub mod Reach
pub mod Phases
pub mod Reward
pub mod Silence
mod Tests
use cpp_game_frame.Prelude.{
  ℕ, ◌+◌, ◌-◌, ◌%◌, Bool, true, false, not, ◌&&◌, ◌||◌, Option, none, some, List, [], ◌∷◌, ltb, leb,
  ◌==◌, if◌then◌else◌,
}
use cpp_game_frame.Prelude.Int.{ℤ, pos, signed32}
use cpp_game_frame.Game.Note.{Note, int}
use cpp_game_frame.Game.Body
use cpp_game_frame.Game.Body.{Body, Team, none_team, black, white, is_dead}
use cpp_game_frame.Game.Player.{Player, BgResult, none_result, get_id}

pub data Phase : Type 0 where
  wait count_down start run exit : Phase

-- The object of a state: `bWaitState_` and `waitTimes_` are those of the run state.
pub record BattlegroundState : Type 0 where
  pub phase : Phase
  pub start_time : ℕ
  pub wait_state : Bool
  pub wait_times : ℕ

-- `players` is the map of the scene, in the order of the ids; the buildings are those of the scene.
pub record Battleground : Type 0 where
  pub id : ℤ
  pub none_num : ℕ
  pub black_num : ℕ
  pub white_num : ℕ
  pub first : Bool
  pub result : BgResult
  pub state : Option BattlegroundState
  pub players : List Player
  pub black_building : Body
  pub white_building : Body

-- What happens outside: a packet to the players of these ids, to one player, to the hotel, a notice
-- to the web server, one more join of a player, a player that is taken out of the battleground it was
-- in, and the player as a call leaves it.
pub data Effect : Type 0 where
  broad : List ℤ → Note → Effect
  send : ℤ → Note → Effect
  to_hotel : Note → Effect
  tell_php : ℤ → Effect
  inc_join_times : ℤ → Effect
  close : Player → Effect
  left : Player → Effect

abbrev pub max_team_num : ℕ
max_team_num = 5

building_max_hp : ℤ
building_max_hp = pos 15000

building_init : Body → Body
unfolding building_max_hp
building_init b = record b { hp = building_max_hp }

-- `Battleground::init` with `Scene::init`.
unfoldable pub init : Battleground → Battleground
unfolding building_init
init bg = record bg {
  none_num = 99;
  black_num = 0;
  white_num = 0;
  first = true;
  result = none_result;
  players = [];
  black_building = building_init bg.black_building;
  white_building = building_init bg.white_building;
}

building : ℤ → ℤ → ℤ → Team → Body
unfolding Body.new
building id x y team = record (Body.new Body.building id (pos 4) team) { x = x; y = y }

-- The constructors of the battleground and of its scene, with the id that the manager gives.
unfoldable pub new : ℤ → Battleground
unfolding init building
new id = init (record {
  id = id;
  none_num = 0;
  black_num = 0;
  white_num = 0;
  first = true;
  result = none_result;
  state = none;
  players = [];
  black_building = building (pos 1) (pos 2773) (pos 258) black;
  white_building = building (pos 2) (pos 129) (pos 209) white;
})

abbrev pub team_num : Team → Battleground → ℕ
team_num none_team bg = bg.none_num
team_num black bg = bg.black_num
team_num white bg = bg.white_num

abbrev pub set_team_num : Team → ℕ → Battleground → Battleground
set_team_num none_team n bg = record bg { none_num = n }
set_team_num black n bg = record bg { black_num = n }
set_team_num white n bg = record bg { white_num = n }

unfoldable pub is_full : Battleground → Bool
is_full bg = leb max_team_num bg.black_num && leb max_team_num bg.white_num

unfoldable pub is_empty : Battleground → Bool
is_empty bg = leb bg.black_num 0 && leb bg.white_num 0

unfoldable pub have_other_team_empty : Battleground → Bool
have_other_team_empty bg = bg.black_num == 0 || bg.white_num == 0

abbrev pub ids : List Player → List ℤ
ids [] = []
ids (p ∷ ps) = get_id p ∷ ids ps

-- `broadMsg`.
abbrev pub broad_msg : Battleground → Note → Effect
broad_msg bg note = broad (ids bg.players) note

abbrev pub state_time_limit : Phase → ℕ
state_time_limit wait = 55000
state_time_limit count_down = 5000
state_time_limit start = 10000
state_time_limit run = 600000
state_time_limit exit = 20000

-- The code of a state in the packets.
abbrev pub state_code : Phase → ℤ
state_code wait = pos 1
state_code count_down = pos 2
state_code start = pos 3
state_code run = pos 4
state_code exit = pos 5

-- `getLeftTime`, an `uint32` that wraps.
abbrev pub left_time : ℕ → BattlegroundState → ℕ
left_time now s =
    (state_time_limit s.phase + 4294967296 - (now - s.start_time) % 4294967296) % 4294967296

-- `getLeftTime` as a word of a packet.
abbrev pub left_word : ℕ → BattlegroundState → ℤ
left_word now s = signed32 (left_time now s)
