-- ===== src/Game/Skill/Flowers.antt =====
-- What a flower does by itself: `run` and `onAIHandle` of game/LoongBgSrv/BgFlower.cc. The flowers of a scene are told
-- apart by their ids.
pub mod Spare
use cpp_game_frame.Prelude.{
  ℕ, ◌*◌, ◌-◌, Bool, true, false, not, ◌&&◌, ◌||◌, Option, none, some, List, [], ◌∷◌, ◌++◌, ltb,
  if◌then◌else◌, ◌>>=◌,
}
use cpp_game_frame.Prelude.Int.{ℤ, pos, leb_ℤ}
use cpp_game_frame.Game.Note.{Note, int, op_use_skill}
use cpp_game_frame.Game.Body.{Body, Team, none_team, black, white, is_dead, get_distance}
use cpp_game_frame.Game.Buf.{run_buf}
use cpp_game_frame.Game.Player.{Player, get_id, get_team}
use cpp_game_frame.Game.Flower.{BgFlower, get_flower}
use cpp_game_frame.Game.Battleground.{Effect}
use cpp_game_frame.Game.Skill.Objects.{
  Field, Ref, at_player, at_black, at_white, at_flower, change_flower, put_actor, broad_notes,
}
use cpp_game_frame.Game.Skill.Strike.{Tables, same_team}
use cpp_game_frame.Game.Skill.{on_emit_skill}

abbrev use_skill_interval : ℕ
use_skill_interval = 2000

abbrev flower_skill : ℤ
flower_skill = pos 7

abbrev max_distance : ℤ
max_distance = pos (120 * 120)

near : Body → Body → Bool
near me b = leb_ℤ (get_distance me b) max_distance

-- The first player that the flower can strike.
unfoldable pub find_prey : Body → List Player → Option ℤ
unfolding near
find_prey me [] = none
find_prey me (p ∷ ps) =
    if is_dead p.actor.body
    then find_prey me ps
    else if same_team (get_team p) me.team
    then find_prey me ps
    else if near me p.actor.body
    then some (get_id p)
    else find_prey me ps

-- What is said of a target: its unit type and, for a player, the id.
pub record Target : Type 0 where
  pub unit_type : ℤ
  pub id : ℤ
  pub place : Ref

-- The throne of the other side, if it is near.
enemy_throne : Team → Body → Field → Option Target
unfolding near
enemy_throne black me f =
    if near me f.white_building
    then some (record { unit_type = pos 2; id = pos 0; place = at_white })
    else none
enemy_throne white me f =
    if near me f.black_building
    then some (record { unit_type = pos 1; id = pos 0; place = at_black })
    else none
enemy_throne none_team me f = none

unfoldable pub find_target : Body → Field → Option Target
unfolding enemy_throne
find_target me f = elim (find_prey me f.players) [
  | none ↦ enemy_throne me.team me f
  | some id ↦ some (record { unit_type = pos 0; id = id; place = at_player id })
]

announce : Body → Target → Note
announce me target = record {
  op = op_use_skill;
  param = flower_skill;
  words =
      int target.unit_type
      ∷ int target.id
      ∷ int (pos 3)
      ∷ int me.unit_id
      ∷ int me.x
      ∷ int me.y
      ∷ [];
}

attack : Tables → ℕ → ℕ → ℤ → Body → Target → Field → Option (Field × List Effect)
unfolding announce
attack t cur random id me target f = do
  (answer, g, es) ← on_emit_skill t cur random flower_skill (at_flower id) target.place f
  some (
    record g { flowers = change_flower id (λ x. record x { use_skill_times = cur }) g.flowers },
    broad_notes f (announce me target ∷ []) ++ es,
  )

-- `onAIHandle` of the flower `x` with this id.
unfoldable pub on_ai_handle : Tables → ℕ → ℕ → ℤ → BgFlower → Field → Option (Field × List Effect)
unfolding attack
on_ai_handle t cur random id x f =
    if ltb use_skill_interval (cur - x.use_skill_times)
    then (elim (find_target x.actor.body f) [
      | none ↦ some (f, [])
      | some target ↦ attack t cur random id x.actor.body target f
    ])
    else some (f, [])

-- `BgFlower::run`.
unfoldable pub run_flower : Tables → ℕ → ℕ → ℤ → Field → Option (Field × List Effect)
run_flower t cur random id f = do
  x ← get_flower id f.flowers
  if is_dead x.actor.body then some (f, []) else (do
    (a, notes) ← run_buf t.bufs cur x.actor
    let g = put_actor (at_flower id) a f
    let rest = on_ai_handle t cur random id (record x { actor = a }) g
    if a.body.operation
        then (do (h, es) ← rest; some (h, broad_notes f notes ++ es))
        else some (g, broad_notes f notes))
