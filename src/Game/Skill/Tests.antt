-- ===== src/Game/Skill/Tests.antt =====
-- Witnesses for skills: a player with a pet strikes the building of the white side, at time 5000 and again at 6000.
use cpp_game_frame.Prelude.{
  ℕ, ◌≡◌, refl, Bool, true, false, Option, some, List, [], ◌∷◌, Each, arith,
}
use cpp_game_frame.Prelude.Int.{ℤ, pos, ◌+ℤ◌, ◌-ℤ◌, ◌*ℤ◌, quot_ℤ}
use cpp_game_frame.Game.Base.{
  SkillBase, get_skill_base_info, check_skill_id, check_pet_id, get_pet_base_info,
  get_buf_base_info,
}
use cpp_game_frame.Game.Body
use cpp_game_frame.Game.Body.{Body, player, building, white, black, Team}
use cpp_game_frame.Game.Player
use cpp_game_frame.Game.Player.{Player}
use cpp_game_frame.Game.Battleground.{Effect, broad}
use cpp_game_frame.Game.Note.{int, op_on_hurt}
use cpp_game_frame.Game.Package
use cpp_game_frame.Game.Skill.Objects.{
  Field, at_player, at_white, actor_at, find_player, change_player, put_actor, broad_notes, send_to,
}
use cpp_game_frame.Game.Skill.Strike.{
  Tables, strike, attack_value, get_random_between, get_bonus_value, hurt, handle_bufs,
}
use cpp_game_frame.Game.Skill.{
  member, has_skill, player_has_skill, can_use_skill, player_can_use_skill, last_use, set_use,
  use_skill, on_emit_skill,
}
use cpp_game_frame.Game.Flower.{BgFlower, planted, get_flower}
use cpp_game_frame.Game.Skill.Flowers.{on_ai_handle}
use cpp_game_frame.Game.Skill.Flowers.Spare.{on_ai_handle-spares}
use cpp_game_frame.Game.Skill.Order.{Order, on_use_skill}
use cpp_game_frame.Game.Skill.Order.Spare.{on_use_skill-spares}
use cpp_game_frame.Game.Skill.Spare.{Unhurt}
use cpp_game_frame.Game.Skill.Cooldown.{Meanwhile, nothing, emits, changes, on_emit_skill-cools}

abbrev magic : ℤ → SkillBase
magic id = record {
  skill_id = id;
  max_attack_value = pos 120;
  min_attack_value = pos 80;
  cooldown_time = pos 2000;
  type = pos 1;
  buf_num = pos 1;
  buf_list = pos 1 ∷ [];
}

abbrev tables : Tables
unfolding magic
tables = record {
  bufs =
      record { id = pos 1; type = pos 3; param_list = pos 100 ∷ pos 50 ∷ pos 200 ∷ pos 20 ∷ [] }
      ∷ [];
  pets =
      record {
        pet_id = pos 1;
        hp = pos 700;
        unit_type = pos 1;
        skill_num = pos 2;
        skill_list = pos 1 ∷ pos 2 ∷ [];
      }
      ∷ [];
  skills =
      record {
        skill_id = pos 1;
        max_attack_value = pos 120;
        min_attack_value = pos 80;
        cooldown_time = pos 2000;
        type = pos 0;
        buf_num = pos 0;
        buf_list = [];
      }
      ∷ magic (pos 2)
      ∷ magic (pos 3)
      ∷ magic (pos 4)
      ∷ magic (pos 5)
      ∷ magic (pos 6)
      ∷ magic (pos 7)
      ∷ [];
}

abbrev knight : Player
unfolding Player.new
knight = record (Player.new (pos 9) [] (pos 1) (pos 0)) {
  actor = record {
    body = record (Body.new player (pos 9) (pos 1) black) { hp = pos 700 };
    bufs = [];
  };
  pet_id = pos 1;
}

abbrev field : Field
unfolding knight
field = record {
  players = knight ∷ [];
  black_building = record (Body.new building (pos 1) (pos 4) black) { hp = pos 5000 };
  white_building = record (Body.new building (pos 2) (pos 4) white) { hp = pos 5000 };
  flowers = [];
}

strike_at : ℕ → Field → Option (Bool × Field × List Effect)
strike_at cur f = on_emit_skill tables cur 7 (pos 1) (at_player (pos 9)) at_white f

-- The blow is worth 87: the random value 7 above the least of 80, with a bonus of 100 percent.
abbrev after : Field
unfolding field knight
after = record field {
  players = record knight { use_skill_map = (pos 1, 5000) ∷ [] } ∷ [];
  white_building = record (field.white_building) { hp = pos 4913 };
}

abbrev effects : List Effect
effects =
    broad (pos 9 ∷ []) (record {
      op = op_on_hurt;
      param = pos 0;
      words = int (pos 2) ∷ int (pos 0) ∷ int (pos 1) ∷ int (pos 0) ∷ int (pos 87) ∷ [];
    })
    ∷ []

strike_at_first : strike_at 5000 field ≡ some (true, after, effects)
unfolding strike_at field knight on_emit_skill check_skill_id check_pet_id get_pet_base_info
    get_skill_base_info get_buf_base_info has_skill player_has_skill member find_player actor_at
    can_use_skill player_can_use_skill last_use set_use use_skill change_player put_actor
    broad_notes send_to strike attack_value get_random_between get_bonus_value hurt Body.new
    Player.new Package.new Body.can_skill_hurt Body.can_buf_hurt Body.dec_hp Body.on_hurt ◌+ℤ◌ ◌-ℤ◌
    ◌*ℤ◌ quot_ℤ handle_bufs
strike_at_first = refl

-- He strikes too soon, walks, and another player comes, before he strikes again.
abbrev walked : Field
unfolding after field knight
walked = record after {
  players =
      record knight {
        use_skill_map = (pos 1, 5000) ∷ [];
        actor = record { body = record (knight.actor.body) { x = pos 70 }; bufs = [] };
      }
      ∷ Player.new (pos 10) [] (pos 1) (pos 0)
      ∷ [];
}

between : Meanwhile tables (pos 9) 6000 after walked
unfolding after walked field knight on_emit_skill check_skill_id check_pet_id get_pet_base_info
    get_skill_base_info has_skill player_has_skill member find_player actor_at can_use_skill
    player_can_use_skill last_use Body.new Player.new Package.new Body.can_skill_hurt ◌-ℤ◌
between =
    changes walked _ _
      (emits after 5500 7 (pos 1) (at_player (pos 9)) at_white false [] nothing (omega arith) refl)
      refl refl refl

on_emit_skill-cools_example :
    (es : List Effect) × (strike_at 6000 walked ≡ some (false, walked, es))
unfolding strike_at field knight get_skill_base_info actor_at ◌-ℤ◌
on_emit_skill-cools_example =
    on_emit_skill-cools tables 5000 7 6000 7 (pos 1) (pos 9) at_white at_white field after walked
      effects (record { body = walked.white_building; bufs = [] }) strike_at_first between refl refl

-- A friend and two enemies beside the knight, who strikes the first of them; the splash reaches the second.
abbrev soldier : ℤ → Team → ℤ → Player
unfolding knight
soldier id team x = record knight {
  actor = record {
    body = record (knight.actor.body) { unit_id = id; team = team; x = x };
    bufs = [];
  };
}

abbrev melee : Field
unfolding field knight
melee = record field {
  players =
      record knight { battleground_id = pos 1 }
      ∷ soldier (pos 10) black (pos 5)
      ∷ soldier (pos 11) white (pos 20)
      ∷ soldier (pos 12) white (pos 90)
      ∷ [];
}

abbrev attack_eleven : Order
attack_eleven = record {
  param = pos 2;
  unit_type = pos 0;
  player_id = pos 11;
  use_player_id = pos 9;
  x = pos 20;
  y = pos 0;
}

on_use_skill-spares_example :
    Each (Unhurt black melee) (on_use_skill tables 5000 7 attack_eleven (pos 9) melee)
unfolding find_player melee field knight
on_use_skill-spares_example =
    on_use_skill-spares tables 5000 7 attack_eleven (pos 9)
      (record knight { battleground_id = pos 1 }) melee refl

-- A flower of the white side among them, with the knight within its reach.
abbrev weeds : BgFlower
unfolding planted
weeds = planted 1 1000 white (pos 30) (pos 0)

abbrev garden : Field
unfolding melee weeds
garden = record melee { flowers = weeds ∷ [] }

on_ai_handle-spares_example :
    Each (Unhurt white garden) (on_ai_handle tables 9000 7 (pos 1) weeds garden)
unfolding find_player get_flower garden melee field knight weeds
on_ai_handle-spares_example =
    on_ai_handle-spares tables 9000 7 (pos 1) weeds garden
      ((refl, (refl, (refl, (refl, tt)))), refl, refl) refl
