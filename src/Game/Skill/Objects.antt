-- ===== src/Game/Skill/Objects.antt =====
-- The objects of a scene, game/LoongBgSrv/scene/Scene.h, and the pointers to them: a pointer is the
-- place of the object, so that two pointers to one object are one value.
use cpp_game_frame.Prelude.{Option, none, some, List, [], ◌∷◌, if◌then◌else◌}
use cpp_game_frame.Prelude.Int.{ℤ, eqb_ℤ}
use cpp_game_frame.Game.Note.{Note}
use cpp_game_frame.Game.Body.{Body}
use cpp_game_frame.Game.Buf.{Actor}
use cpp_game_frame.Game.Player.{Player, get_id}
use cpp_game_frame.Game.Battleground.{Effect, broad, send, ids}
use cpp_game_frame.Game.Flower.{BgFlower, flower_id, get_flower}

pub record Field : Type 0 where
  pub players : List Player
  pub black_building : Body
  pub white_building : Body
  pub flowers : List BgFlower

pub data Ref : Type 0 where
  at_player : (id : ℤ) → Ref
  at_black at_white : Ref
  at_flower : (id : ℤ) → Ref

unfoldable pub find_player : ℤ → List Player → Option Player
find_player id [] = none
find_player id (p ∷ ps) = if eqb_ℤ (get_id p) id then some p else find_player id ps

-- The object with its buffs; a building has none.
unfoldable pub actor_at : Ref → Field → Option Actor
unfolding find_player
actor_at (at_player id) f = elim (find_player id f.players) [ none ↦ none | some p ↦ some p.actor ]
actor_at at_black f = some (record { body = f.black_building; bufs = [] })
actor_at at_white f = some (record { body = f.white_building; bufs = [] })
actor_at (at_flower id) f = elim (get_flower id f.flowers) [ none ↦ none | some x ↦ some x.actor ]

-- A change of the player of an id.
unfoldable pub change_player : ℤ → (Player → Player) → List Player → List Player
change_player id g [] = []
change_player id g (p ∷ ps) = if eqb_ℤ (get_id p) id then g p ∷ ps else p ∷ change_player id g ps

unfoldable pub change_flower : ℤ → (BgFlower → BgFlower) → List BgFlower → List BgFlower
change_flower id g [] = []
change_flower id g (x ∷ xs) = if eqb_ℤ (flower_id x) id then g x ∷ xs else x ∷ change_flower id g xs

-- The object is written, its id left as it is.
unfoldable pub put_actor : Ref → Actor → Field → Field
unfolding change_player change_flower
put_actor (at_player id) a f = record f {
  players = change_player id (λ p. record p { actor = a }) f.players;
}
put_actor at_black a f = record f { black_building = a.body }
put_actor at_white a f = record f { white_building = a.body }
put_actor (at_flower id) a f = record f {
  flowers = change_flower id (λ x. record x { actor = a }) f.flowers;
}

-- `Scene::broadMsg`: to all players of the scene.
unfoldable pub broad_notes : Field → List Note → List Effect
broad_notes f [] = []
broad_notes f (n ∷ ns) = broad (ids f.players) n ∷ broad_notes f ns

-- `sendPacket`, which only a player overrides.
unfoldable pub send_to : Ref → Note → List Effect
send_to (at_player id) note = send id note ∷ []
send_to _ note = []
