-- ===== src/Game/Skill/Order.antt =====
-- A player's order to use a skill: `onUseSkill` of game/LoongBgSrv/BgPlayer.cc and `getTargetUnit` of
-- Battleground.cc. The words of the packet are read; a player that is not among the players of the field has no
-- scene. In the code one that has left keeps the pointer to it: his order is still told to the players there, and goes
-- no further. That telling is left out.
pub mod Spare
use cpp_game_frame.Prelude.{
  ℕ, Bool, true, false, not, ◌||◌, Option, none, some, List, [], ◌∷◌, ◌++◌, if◌then◌else◌, ◌>>=◌,
}
use cpp_game_frame.Prelude.Int.{ℤ, pos, ltb_ℤ, eqb_ℤ, to_int16}
use cpp_game_frame.Game.Note.{Note, int, op_use_skill}
use cpp_game_frame.Game.Body.{is_dead}
use cpp_game_frame.Game.Player.{Player, get_team}
use cpp_game_frame.Game.Flower.{get_flower}
use cpp_game_frame.Game.Battleground.{Effect}
use cpp_game_frame.Game.Battleground.Players.{check_battleground_id}
use cpp_game_frame.Game.Skill.Objects.{
  Field, Ref, at_player, at_black, at_white, at_flower, find_player, actor_at, broad_notes,
}
use cpp_game_frame.Game.Skill.Strike.{Tables, same_team}
use cpp_game_frame.Game.Skill.{on_emit_skill}

-- The parameter and the words of the packet.
pub record Order : Type 0 where
  pub param : ℤ
  pub unit_type : ℤ
  pub player_id : ℤ
  pub use_player_id : ℤ
  pub x : ℤ
  pub y : ℤ

-- `getTargetUnit`.
unfoldable pub get_target_unit : ℤ → ℤ → Field → Option Ref
get_target_unit player_id unit_type f =
    if eqb_ℤ unit_type (pos 0)
    then (elim (find_player player_id f.players) [
      | none ↦ none
      | some _ ↦ some (at_player player_id)
    ])
    else if eqb_ℤ unit_type (pos 1)
    then some at_black
    else if eqb_ℤ unit_type (pos 2)
    then some at_white
    else if eqb_ℤ unit_type (pos 3)
    then (elim (get_flower player_id f.flowers) [
      | none ↦ none
      | some _ ↦ some (at_flower player_id)
    ])
    else none

-- The order goes to all players as it came.
told : ℤ → Order → Note
told skill_id o = record {
  op = op_use_skill;
  param = skill_id;
  words =
      int o.unit_type
      ∷ int o.player_id
      ∷ int (pos 0)
      ∷ int o.use_player_id
      ∷ int o.x
      ∷ int o.y
      ∷ [];
}

-- From the tests on the target on.
unfoldable pub aim : Tables → ℕ → ℕ → ℤ → ℤ → Player → Ref → Field → Option (Field × List Effect)
aim t cur random skill_id me p target f = do
  a ← actor_at target f
  if is_dead a.body || same_team a.body.team (get_team p) then some (f, []) else (do
    (answer, g, es) ← on_emit_skill t cur random skill_id (at_player me) target f
    some (g, es))

order_of : Tables → ℕ → ℕ → Order → ℤ → Player → Field → Option (Field × List Effect)
unfolding told aim
order_of t cur random o me p f =
    if not (ltb_ℤ (pos 0) p.pet_id) || is_dead p.actor.body || not p.actor.body.operation
    then some (f, [])
    else let skill_id = to_int16 o.param in
      let notes = broad_notes f (told skill_id o ∷ []) in
      if not (check_battleground_id p.battleground_id)
      then some (f, notes)
      else elim (get_target_unit o.player_id o.unit_type f) [
        | none ↦ some (f, notes)
        | some target ↦ do (g, es) ← aim t cur random skill_id me p target f; some (g, notes ++ es)
      ]

-- `BgPlayer::onUseSkill`.
unfoldable pub on_use_skill : Tables → ℕ → ℕ → Order → ℤ → Field → Option (Field × List Effect)
unfolding order_of
on_use_skill t cur random o me f = elim (find_player me f.players) [
  | none ↦ some (f, [])
  | some p ↦ order_of t cur random o me p f
]
