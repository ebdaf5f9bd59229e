-- ===== src/Game/Flower.antt =====
-- The flowers that players plant, game/LoongBgSrv/scene/FlowerMgr.cc, and the flower itself, BgFlower.cc.
-- `sStartId` is one variable for the flower managers of all battlegrounds: it is an argument and a
-- result of the calls that use it.
pub mod Ids
mod Tests
use cpp_game_frame.Prelude.{
  ℕ, ◌+◌, ◌-◌, ◌%◌, Bool, true, false, not, ◌||◌, Option, none, some, List, [], ◌∷◌, ◌++◌, length,
  ltb, if◌then◌else◌,
}
use cpp_game_frame.Prelude.Int.{ℤ, pos, negsuc, signed32, eqb_ℤ}
use cpp_game_frame.Game.Note.{Note, Word, int, op_plant_flower, op_disappear_flower}
use cpp_game_frame.Game.Body
use cpp_game_frame.Game.Body.{Body, Team, is_dead}
use cpp_game_frame.Game.Buf.{Actor}
use cpp_game_frame.Game.Player.{team_code}

pub record BgFlower : Type 0 where
  pub actor : Actor
  pub plant_times : ℕ
  pub use_skill_times : ℕ

abbrev pub max_flower_num : ℕ
max_flower_num = 5

abbrev pub disappear_time : ℕ
disappear_time = 30000

abbrev flower_max_hp : ℤ
flower_max_hp = pos 300

abbrev pub flower_id : BgFlower → ℤ
flower_id f = f.actor.body.unit_id

-- The constructor of BgFlower.
unfoldable pub new_flower : ℤ → Team → BgFlower
unfolding Body.new
new_flower id team = record {
  actor = record {
    body = record (Body.new Body.flower id (pos 5) team) {
      hp = flower_max_hp;
      max_hp = flower_max_hp;
    };
    bufs = [];
  };
  plant_times = 0;
  use_skill_times = 0;
}

-- `BgFlower::serialize`.
unfoldable pub serialize_flower : BgFlower → List Word
serialize_flower f =
    let b = f.actor.body in
    int b.unit_id ∷ int (team_code b.team) ∷ int b.unit_type ∷ int b.x ∷ int b.y ∷ int b.hp ∷ []

-- `init`: no flowers, and the ids of all managers begin again.
unfoldable pub init : ℕ × List BgFlower
init = (1, [])

unfoldable pub planted : ℕ → ℕ → Team → ℤ → ℤ → BgFlower
unfolding new_flower
planted start_id now team x y =
    let f = new_flower (signed32 start_id) team in
    record f {
      actor = record (f.actor) { body = record (f.actor.body) { x = x; y = y } };
      plant_times = now;
    }

plant_note : ℤ → BgFlower → Note
unfolding serialize_flower
plant_note player_id f = record {
  op = op_plant_flower;
  param = pos 0;
  words = serialize_flower f ++ (int player_id ∷ []);
}

no_room : Note
no_room = record { op = op_plant_flower; param = negsuc 0; words = [] }

-- `plantFlower`: the answer, the next id, the flowers and what is sent, to all or, if there is no room,
-- to the player.
unfoldable pub plant_flower :
    ℕ → ℤ → Team → ℤ → ℤ → ℕ → List BgFlower → Bool × ℕ × List BgFlower × List Note
unfolding planted plant_note no_room
plant_flower now player_id team x y start_id flowers =
    if ltb max_flower_num (length flowers)
    then (false, start_id, flowers, no_room ∷ [])
    else let f = planted start_id now team x y in
      (true, (start_id + 1) % 4294967296, flowers ++ (f ∷ []), plant_note player_id f ∷ [])

-- `getFlower`.
unfoldable pub get_flower : ℤ → List BgFlower → Option BgFlower
get_flower id [] = none
get_flower id (f ∷ fs) = if eqb_ℤ (flower_id f) id then some f else get_flower id fs

-- The test of `FlowerMgr::run` that takes a flower away.
unfoldable pub disappears : ℕ → BgFlower → Bool
disappears cur f = ltb disappear_time (cur - f.plant_times) || is_dead f.actor.body
