-- ===== src/Game/UseItem.antt =====
-- Using an item: `onUseItem` and `fullHp` of game/LoongBgSrv/BgPlayer.cc, and skill/ItemHandler.cc with
-- the table of handlers of skill/BufHandler.cc, as an item calls them: on the player itself, without a
-- target. `none` is a failed assertion or an access through a null pointer or out of range.
pub mod Cooldown
mod Tests
use cpp_game_frame.Prelude.{
  ℕ, zero, suc, ◌+◌, ◌-◌, Bool, true, false, not, ◌&&◌, ◌||◌, Option, none, some, List, [], ◌∷◌,
  ◌++◌, get_elem?, ltb, leb, ◌==◌, if◌then◌else◌, ◌>>=◌,
}
use cpp_game_frame.Prelude.Int.{ℤ, pos, negsuc, ◌-ℤ◌, pos_part, ltb_ℤ, eqb_ℤ, to_int32}
use cpp_game_frame.Game.Note.{Note, Word, int, op_use_item, op_add_hp}
use cpp_game_frame.Game.Base.{
  BufBase, ItemBase, PetBase, get_buf_base_info, get_item_base_info, check_item_id,
  get_pet_base_info, check_pet_id,
}
use cpp_game_frame.Game.Body.{Body, Team, none_team, black, white, is_dead}
use cpp_game_frame.Game.Buf.{Actor, immune, add_speed, buf_handler}
use cpp_game_frame.Game.Package.{has_item, del_item}
use cpp_game_frame.Game.Player.{Player, get_id, get_team}
use cpp_game_frame.Game.Battleground.{Effect, broad, send, ids}

pub record Tables : Type 0 where
  pub bufs : List BufBase
  pub items : List ItemBase
  pub pets : List PetBase

-- The scene of a player is the players of its map, or nothing before the player has entered one.
broad_all : Option (List Player) → List Note → List Effect
broad_all none notes = []
broad_all (some ps) [] = []
broad_all (some ps) (note ∷ notes) = broad (ids ps) note ∷ broad_all (some ps) notes

hp_note : Player → ℤ → ℤ → Note
hp_note p hp last = record {
  op = op_add_hp;
  param = get_id p;
  words = int hp ∷ int (to_int32 (hp -ℤ last)) ∷ [];
}

set_hp : ℤ → Player → Player
set_hp hp p = record p { actor = record (p.actor) { body = record (p.actor.body) { hp = hp } } }

-- `fullHp`.
full_hp : Tables → Option (List Player) → Player → Player × List Effect
unfolding hp_note broad_all set_hp
full_hp t none p = (p, [])
full_hp t (some ps) p =
    if not (ltb_ℤ (pos 0) p.pet_id) || not (check_pet_id t.pets p.pet_id)
    then (p, [])
    else let hp = (get_pet_base_info t.pets p.pet_id).hp in
      (set_hp hp p, broad_all (some ps) (hp_note p hp p.actor.body.hp ∷ []))

same_team : Team → Team → Bool
same_team none_team none_team = true
same_team black black = true
same_team white white = true
same_team _ _ = false

-- The splash of JianSheBufHandler asks for the distance from the target as soon as there is a living
-- enemy.
has_enemy : Player → List Player → Bool
unfolding same_team
has_enemy me [] = false
has_enemy me (p ∷ ps) =
    let rest = has_enemy me ps in
    if eqb_ℤ (get_id p) (get_id me) || is_dead p.actor.body || same_team (get_team p) (get_team me)
    then rest
    else true

lasting : Option (List Player) → Player → Actor × List Note → Player × List Effect
unfolding broad_all
lasting scene p (a, notes) = (record p { actor = a }, broad_all scene notes)

splash : Option (List Player) → Player → Option (Player × List Effect)
unfolding has_enemy
splash none p = none
splash (some ps) p = if has_enemy p ps then none else some (p, [])

-- The table `bufHandlers`, at the type of a buff.
handle_buf : Tables → ℕ → Option (List Player) → ℤ → Player → Option (Player × List Effect)
unfolding lasting splash
handle_buf t cur scene id p =
    let type = (get_buf_base_info t.bufs id).type in
    if eqb_ℤ type (pos 0) || eqb_ℤ type (pos 6)
    then some (p, [])
    else if eqb_ℤ type (pos 3)
    then splash scene p
    else if eqb_ℤ type (pos 4)
    then some (lasting scene p (buf_handler immune t.bufs id cur p.actor))
    else if eqb_ℤ type (pos 5)
    then some (lasting scene p (buf_handler add_speed t.bufs id cur p.actor))
    else none

-- The loop over the buffs of an item, from index `i`.
handle_bufs :
    ℕ → ℕ → List ℤ → Tables → ℕ → Option (List Player) → Player → Option (Player × List Effect)
unfolding handle_buf
handle_bufs zero i buf_list t cur scene p = some (p, [])
handle_bufs (suc n) i buf_list t cur scene p = do
  id ← get_elem? buf_list i
  (q, es) ← handle_buf t cur scene id p
  (q', es') ← handle_bufs n (i + 1) buf_list t cur scene q
  some (q', es ++ es')

item_function : Tables → Option (List Player) → ℤ → Player → Option (Player × List Effect)
unfolding full_hp
item_function t scene type p =
    if eqb_ℤ type (pos 0)
    then some (p, [])
    else if eqb_ℤ type (pos 1)
    then some (full_hp t scene p)
    else none

-- `ItemHandler::onUseItem`.
unfoldable pub handle_item :
    Tables → ℕ → Option (List Player) → ℤ → Player → Option (Player × List Effect)
unfolding item_function handle_bufs
handle_item t cur scene item_id p =
    if not (check_item_id t.items item_id) then some (p, []) else (do
      (q, es) ← item_function t scene (get_item_base_info t.items item_id).function_type p
      (q', es') ←
          handle_bufs (pos_part (get_item_base_info t.items item_id).buf_num) 0
            (get_item_base_info t.items item_id).buf_list t cur scene q
      some (q', es ++ es'))

-- The test of the cooldown; a timestamp is in microseconds since 1970, and is valid if it is not 0.
unfoldable pub cooling_down : ℕ → Player → Bool
cooling_down now p =
    not (ltb 0 p.use_item_timestamp) && ltb (now - p.use_item_timestamp) 10000000000

-- `onUseItem`, at the time `now` in microseconds and `cur` in milliseconds.
unfoldable pub on_use_item :
    Tables → ℕ → ℕ → Option (List Player) → ℤ → Player → Option (Player × List Effect)
unfolding handle_item cooling_down
on_use_item t now cur scene item_id p =
    if not (has_item item_id p.items) || cooling_down now p then some (p, []) else (do
      (q, es) ←
          handle_item t cur scene item_id
            (record p { use_item_timestamp = now; items = del_item item_id p.items })
      some (
        q,
        es
            ++ (send (get_id p)
                  (record { op = op_use_item; param = pos 0; words = int item_id ∷ [] })
                ∷ []),
      ))
