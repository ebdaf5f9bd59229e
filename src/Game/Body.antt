-- ===== src/Game/Body.antt =====
-- The base class of what stands on a battleground, game/LoongBgSrv/BgUnit.h and BgUnit.cc, and how
-- its subclasses are hurt: BgPlayer.cc, BgBuilding.cc and BgFlower.cc.
pub mod Hurt
use cpp_game_frame.Prelude.{ℕ, Bool, true, false, List, [], ◌∷◌, ◌++◌, not, ◌&&◌, if◌then◌else◌}
use cpp_game_frame.Prelude.Int.{ℤ, pos, negsuc, ◌+ℤ◌, ◌-ℤ◌, ◌*ℤ◌, ltb_ℤ, leb_ℤ, to_int32}
use cpp_game_frame.Game.Note.{Note, Word, int, op_on_hurt, op_pet_dead}

pub data Team : Type 0 where
  none_team black white : Team

-- The subclass of an object.
pub data Kind : Type 0 where
  player building flower : Kind

pub record Body : Type 0 where
  pub kind : Kind
  pub unit_id : ℤ
  pub x : ℤ
  pub y : ℤ
  pub hp : ℤ
  pub max_hp : ℤ
  pub operation : Bool
  pub can_skill_hurt_flag : Bool
  pub can_buf_hurt_flag : Bool
  pub team : Team
  pub unit_type : ℤ

-- The constructors give what they are not told this way.
unfoldable pub new : Kind → ℤ → ℤ → Team → Body
new kind unit_id unit_type team = record {
  kind = kind;
  unit_id = unit_id;
  x = pos 0;
  y = pos 0;
  hp = pos 0;
  max_hp = pos 0;
  operation = true;
  can_skill_hurt_flag = true;
  can_buf_hurt_flag = true;
  team = team;
  unit_type = unit_type;
}

unfoldable pub init : Body → Body
init b = record b { operation = true; can_skill_hurt_flag = true; can_buf_hurt_flag = true }

abbrev pub is_dead : Body → Bool
is_dead b = leb_ℤ b.hp (pos 0)

can_skill_hurt_of : Kind → Body → Bool
can_skill_hurt_of player b = b.can_skill_hurt_flag
can_skill_hurt_of building b = b.can_skill_hurt_flag
can_skill_hurt_of flower b = true

-- `canSkillHurt`, which a flower overrides.
unfoldable pub can_skill_hurt : Body → Bool
unfolding can_skill_hurt_of
can_skill_hurt b = can_skill_hurt_of b.kind b

can_buf_hurt_of : Kind → Body → Bool
can_buf_hurt_of player b = not (is_dead b) && b.can_buf_hurt_flag
can_buf_hurt_of building b = b.can_buf_hurt_flag
can_buf_hurt_of flower b = true

-- `canBufHurt`, which a player and a flower override.
unfoldable pub can_buf_hurt : Body → Bool
unfolding can_buf_hurt_of
can_buf_hurt b = can_buf_hurt_of b.kind b

unfoldable pub add_hp : ℤ → Body → Body
add_hp n b = record b { hp = to_int32 (b.hp +ℤ n) }

unfoldable pub dec_hp : ℤ → Body → Body
dec_hp n b = record b { hp = to_int32 (b.hp -ℤ n) }

-- The damage that counts is at most what is left.
abbrev pub cut : Body → ℤ → ℤ
cut b damage = if ltb_ℤ b.hp damage then b.hp else damage

-- The unit type in the packets about damage.
type_of : Kind → Team → ℤ
type_of player team = pos 0
type_of building black = pos 1
type_of building none_team = pos 2
type_of building white = pos 2
type_of flower team = pos 3

dead_notes : Kind → Body → List Note
dead_notes player b =
    if is_dead b then record { op = op_pet_dead; param = b.unit_id; words = [] } ∷ [] else []
dead_notes building b = []
dead_notes flower b = []

attacker_words : Kind → ℤ → List Word
attacker_words player id = int id ∷ []
attacker_words building id = []
attacker_words flower id = []

hurt_param : Kind → ℤ → ℤ
hurt_param player id = id
hurt_param building id = pos 0
hurt_param flower id = id

-- `onHurt` of the three subclasses: the body afterwards, what is broadcast, and whether the attacker
-- is told of a kill.
unfoldable pub on_hurt : ℤ → ℤ → ℤ → ℤ → Body → Body × List Note × Bool
unfolding dec_hp type_of dead_notes attacker_words hurt_param
on_hurt attacker_id damage skill_id skill_type b =
    let after = dec_hp (cut b damage) b in
    (
      after,
      dead_notes b.kind after
          ++ (record {
            op = op_on_hurt;
            param = hurt_param b.kind b.unit_id;
            words =
                int (type_of b.kind b.team)
                ∷ int (pos 0)
                ∷ int skill_id
                ∷ int skill_type
                ∷ int (cut b damage)
                ∷ attacker_words b.kind attacker_id;
          }
              ∷ []),
      elim b.kind [ player ↦ is_dead after | building ↦ false | flower ↦ false ],
    )

buf_hurt_of : Kind → ℤ → ℤ → Body → Body × List Note
unfolding dec_hp dead_notes type_of
buf_hurt_of building damage buf_id b = (b, [])
buf_hurt_of kind damage buf_id b =
    let after = dec_hp (cut b damage) b in
    (
      after,
      dead_notes kind after
          ++ (record {
            op = op_on_hurt;
            param = b.unit_id;
            words = int (type_of kind b.team) ∷ int (pos 1) ∷ int buf_id ∷ int (cut b damage) ∷ [];
          }
              ∷ []),
    )

-- `onBufHurt`; a building does not override it.
unfoldable pub on_buf_hurt : ℤ → ℤ → Body → Body × List Note
unfolding buf_hurt_of
on_buf_hurt damage buf_id b = buf_hurt_of b.kind damage buf_id b

-- `getDistance`: the square of the distance, as an `int32`.
unfoldable pub get_distance : Body → Body → ℤ
get_distance me target =
    let dx = me.x -ℤ target.x in let dy = me.y -ℤ target.y in to_int32 (dx *ℤ dx +ℤ dy *ℤ dy)
