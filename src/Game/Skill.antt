-- ===== src/Game/Skill.antt =====
-- The use of skills, game/LoongBgSrv/skill/SkillHandler.cc, and what BgPlayer.cc and BgUnit.cc say of a skill
-- (`hasSkill`, `canUseSkill`, `useSkill`). `none` is an access through a null pointer or out of range,
-- or a division by zero. The time and the value of `random` are arguments.
pub mod Objects
pub mod Strike
pub mod Refuse
pub mod Dates
pub mod Cooldown
pub mod Spare
pub mod Order
pub mod Flowers
mod Tests
use cpp_game_frame.Prelude.{
  ℕ, zero, suc, ◌+◌, ◌-◌, ◌%◌, Bool, true, false, not, ◌&&◌, ◌||◌, Option, none, some, List, [],
  ◌∷◌, ◌++◌, get_elem?, length, take, ltb, leb, ◌==◌, if◌then◌else◌, ◌>>=◌,
}
use cpp_game_frame.Prelude.Int.{
  ℤ, pos, negsuc, ◌+ℤ◌, ◌-ℤ◌, ◌*ℤ◌, quot_ℤ, pos_part, neg_part, ltb_ℤ, leb_ℤ, eqb_ℤ, to_int16,
  to_int32,
}
use cpp_game_frame.Game.Note.{Note, int, op_alert_code}
use cpp_game_frame.Game.Base.{
  BufBase, PetBase, SkillBase, get_buf_base_info, param, get_pet_base_info, check_pet_id,
  get_skill_base_info, check_skill_id,
}
use cpp_game_frame.Game.Body.{
  Body, Kind, player, building, flower, Team, none_team, black, white, can_skill_hurt, can_buf_hurt,
  is_dead, on_hurt, on_buf_hurt, get_distance,
}
use cpp_game_frame.Game.Buf.{Actor, BufKind, immune, add_speed, stun, burn, buf_handler}
use cpp_game_frame.Game.Player.{Player, get_id, get_team, inc_kill_enemy_time}
use cpp_game_frame.Game.Battleground.{Effect}
use cpp_game_frame.Game.Skill.Strike.{Tables, strike}
use cpp_game_frame.Game.Skill.Objects.{
  Field, Ref, at_player, at_black, at_white, at_flower, find_player, change_player, actor_at,
  put_actor, broad_notes, send_to,
}

unfoldable pub member : ℤ → List ℤ → Bool
member id [] = false
member id (x ∷ xs) = eqb_ℤ x id || member id xs

-- `BgPlayer::hasSkill` with `PetBase::hasSkill`.
unfoldable pub player_has_skill : Tables → ℤ → Player → Bool
unfolding member
player_has_skill t id p =
    if ltb_ℤ (pos 0) p.pet_id
    then (if not (check_pet_id t.pets p.pet_id)
        then false
        else let pet = get_pet_base_info t.pets p.pet_id in
          member id (take (pos_part pet.skill_num) pet.skill_list))
    else false

-- A flower has every skill, a building none.
unfoldable pub has_skill : Tables → ℤ → Ref → Field → Bool
has_skill t id (at_player me) f = elim (find_player me f.players) [
  | none ↦ false
  | some p ↦ player_has_skill t id p
]
has_skill t id (at_flower me) f = true
has_skill t id _ f = false

unfoldable pub last_use : ℤ → List (ℤ × ℕ) → Option ℕ
last_use id [] = none
last_use id ((k, time) ∷ rest) = if eqb_ℤ k id then some time else last_use id rest

unfoldable pub player_can_use_skill : ℤ → ℤ → ℕ → Player → Bool
unfolding last_use
player_can_use_skill id cooldown cur p = elim (last_use id p.use_skill_map) [
  | none ↦ true
  | some last ↦ not (leb_ℤ (pos cur -ℤ pos last) cooldown)
]

unfoldable pub can_use_skill : ℤ → ℤ → ℕ → Ref → Field → Bool
can_use_skill id cooldown cur (at_player me) f = elim (find_player me f.players) [
  | none ↦ false
  | some p ↦ player_can_use_skill id cooldown cur p
]
can_use_skill id cooldown cur (at_flower me) f = true
can_use_skill id cooldown cur _ f = false

-- The map of the last uses, in the order of the ids.
unfoldable pub set_use : ℤ → ℕ → List (ℤ × ℕ) → List (ℤ × ℕ)
set_use id cur [] = (id, cur) ∷ []
set_use id cur ((k, time) ∷ rest) =
    if ltb_ℤ id k
    then (id, cur) ∷ (k, time) ∷ rest
    else if eqb_ℤ k id
    then (id, cur) ∷ rest
    else (k, time) ∷ set_use id cur rest

unfoldable pub use_skill : ℤ → ℕ → Ref → Field → Field
unfolding set_use
use_skill id cur (at_player me) f = record f {
  players =
      change_player me (λ p. record p { use_skill_map = set_use id cur p.use_skill_map }) f.players;
}
use_skill id cur _ f = f

-- `alert` with the code of a target that cannot be hurt.
cannot_hurt : Note
cannot_hurt = record { op = op_alert_code; param = pos 1; words = int (pos 3) ∷ [] }

-- `SkillHandler::onEmitSkill`.
unfoldable pub on_emit_skill :
    Tables → ℕ → ℕ → ℤ → Ref → Ref → Field → Option (Bool × Field × List Effect)
unfolding cannot_hurt
on_emit_skill t cur random id me target f =
    if not (check_skill_id t.skills id)
    then some (false, f, [])
    else if not (has_skill t id me f)
    then some (false, f, [])
    else do
      b ← actor_at target f
      let skill = get_skill_base_info t.skills id
      if not (can_skill_hurt b.body)
          then some (false, f, send_to me cannot_hurt)
          else if not (can_use_skill id skill.cooldown_time cur me f)
          then some (false, f, [])
          else strike t cur random skill me target (use_skill id cur me f)
