-- ===== src/Game/Skill/Strike.antt =====
-- The blow of a skill, skill/SkillHandler.cc from the value of the attack on, with the bonus of Util.h, the
-- splash and the table of handlers of skill/BufHandler.cc.
pub mod View
pub mod Spare
pub mod Uses
use cpp_game_frame.Prelude.{
  ℕ, zero, suc, ◌+◌, ◌-◌, ◌%◌, Bool, true, false, not, ◌&&◌, ◌||◌, Option, none, some, List, [],
  ◌∷◌, ◌++◌, get_elem?, length, take, ltb, leb, ◌==◌, if◌then◌else◌, ◌>>=◌,
}
use cpp_game_frame.Prelude.Int.{
  ℤ, pos, negsuc, ◌+ℤ◌, ◌-ℤ◌, ◌*ℤ◌, quot_ℤ, pos_part, neg_part, ltb_ℤ, leb_ℤ, eqb_ℤ, to_int16,
  to_int32,
}
use cpp_game_frame.Game.Note.{Note, int, op_alert_code}
use cpp_game_frame.Game.Base.{
  BufBase, PetBase, SkillBase, get_buf_base_info, param, get_pet_base_info, check_pet_id,
  get_skill_base_info, check_skill_id,
}
use cpp_game_frame.Game.Body.{
  Body, Kind, player, building, flower, Team, none_team, black, white, can_skill_hurt, can_buf_hurt,
  is_dead, on_hurt, on_buf_hurt, get_distance,
}
use cpp_game_frame.Game.Buf.{Actor, BufKind, immune, add_speed, stun, burn, buf_handler}
use cpp_game_frame.Game.Player.{Player, get_id, get_team, inc_kill_enemy_time}
use cpp_game_frame.Game.Battleground.{Effect}
use cpp_game_frame.Game.Skill.Objects.{
  Field, Ref, at_player, at_black, at_white, at_flower, find_player, change_player, actor_at,
  put_actor, broad_notes, send_to,
}

pub record Tables : Type 0 where
  pub bufs : List BufBase
  pub pets : List PetBase
  pub skills : List SkillBase

-- `getRandomBetween`, an `int32`.
unfoldable pub get_random_between : ℕ → ℤ → ℤ → Option ℤ
get_random_between random low high =
    let n = high -ℤ low +ℤ pos 1 in
    let size = pos_part n + neg_part n in
    if size == 0 then none else some (to_int32 (low +ℤ pos (random % size)))

bonus_table : List (List ℤ)
bonus_table =
    (pos 100 ∷ pos 100 ∷ pos 150 ∷ pos 100 ∷ pos 100 ∷ [])
    ∷ (pos 150 ∷ pos 100 ∷ pos 100 ∷ pos 100 ∷ pos 100 ∷ [])
    ∷ (pos 100 ∷ pos 150 ∷ pos 100 ∷ pos 100 ∷ pos 100 ∷ [])
    ∷ (pos 100 ∷ pos 100 ∷ pos 100 ∷ pos 100 ∷ pos 100 ∷ [])
    ∷ (pos 100 ∷ pos 100 ∷ pos 100 ∷ pos 100 ∷ pos 100 ∷ [])
    ∷ []

at_type {ℓ} : {A : Type ℓ} → ℤ → List A → Option A
at_type (pos zero) xs = none
at_type (pos (suc n)) xs = get_elem? xs n
at_type (negsuc n) xs = none

-- `getBonusValue`, by the unit types of the two.
unfoldable pub get_bonus_value : Body → Body → Option ℤ
unfolding bonus_table at_type
get_bonus_value me target = do row ← at_type me.unit_type bonus_table; at_type target.unit_type row

-- The value of the attack, an `int16`.
unfoldable pub attack_value : ℕ → SkillBase → Body → Body → Option ℤ
attack_value random skill me target = do
  value ← get_random_between random skill.min_attack_value skill.max_attack_value
  let attack = to_int16 value
  if eqb_ℤ skill.type (pos 0)
      then (do bonus ← get_bonus_value me target; some (to_int16 (quot_ℤ (attack *ℤ bonus) 100)))
      else some attack

count_kill : ℤ → Field → Option Player → Field × List Effect
count_kill me f none = (f, [])
count_kill me f (some p) = (
  record f { players = change_player me (λ q. (inc_kill_enemy_time q).0) f.players },
  broad_notes f (inc_kill_enemy_time p).1,
)

-- `incKillEnemyTime`, which only a player overrides.
unfoldable pub inc_kill : Ref → Field → Field × List Effect
unfolding count_kill
inc_kill (at_player me) f = count_kill me f (find_player me f.players)
inc_kill _ f = (f, [])

-- `target->onHurt(me, …)`.
unfoldable pub hurt : ℤ → SkillBase → Body → Ref → Ref → Field → Option (Field × List Effect)
hurt attack skill attacker me target f = do
  a ← actor_at target f
  let (body, notes, killed) = on_hurt attacker.unit_id attack skill.skill_id skill.type a.body
  let struck = put_actor target (record a { body = body }) f
  let (after, titles) = if killed then inc_kill me struck else (struck, [])
  some (after, titles ++ broad_notes f notes)

unfoldable pub same_team : Team → Team → Bool
same_team none_team none_team = true
same_team black black = true
same_team white white = true
same_team _ _ = false

is_me : Ref → Player → Bool
is_me (at_player me) p = eqb_ℤ (get_id p) me
is_me _ p = false

-- The damage of the splash on a player, if it reaches him; `near` and `far` are the numbers of the
-- parameters with the distance, each followed by the share.
splash_damage : BufBase → ℤ → ℤ → Option ℤ
splash_damage base attack distance =
    if leb_ℤ distance (param base 0 *ℤ param base 0)
    then some (to_int16 (quot_ℤ (attack *ℤ param base 1) 100))
    else if leb_ℤ distance (param base 2 *ℤ param base 2)
    then some (to_int16 (quot_ℤ (attack *ℤ param base 3) 100))
    else none

splash_one : BufBase → ℤ → Ref → Team → Body → Player → Player × List Note
unfolding splash_damage is_me same_team
splash_one base attack me team target p =
    if is_me me p || is_dead p.actor.body || same_team (get_team p) team
    then (p, [])
    else elim (splash_damage base attack (get_distance target p.actor.body)) [
      | none ↦ (p, [])
      | some damage ↦
          let (body, notes) = on_buf_hurt damage base.id p.actor.body in
          (record p { actor = record (p.actor) { body = body } }, notes)
    ]

-- The loop of `JianSheBufHandler` over the players; `target` stays where it is while they are hurt.
splash : BufBase → ℤ → Ref → Team → Body → List Player → List Player × List Note
unfolding splash_one
splash base attack me team target [] = ([], [])
splash base attack me team target (p ∷ ps) =
    let (q, notes) = splash_one base attack me team target p in
    let (qs, more) = splash base attack me team target ps in (q ∷ qs, notes ++ more)

-- A handler of a lasting buff, on the object that it is for.
lasting : BufKind → Tables → ℤ → ℕ → Ref → Field → Option (Field × List Effect)
lasting kind t id cur ref f = do
  a ← actor_at ref f
  let (after, notes) = buf_handler kind t.bufs id cur a
  some (put_actor ref after f, broad_notes f notes)

-- The table `bufHandlers`, at the type of a buff.
unfoldable pub handle_buf : Tables → ℕ → ℤ → ℤ → Ref → Ref → Field → Option (Field × List Effect)
unfolding splash lasting
handle_buf t cur attack id me target f =
    let base = get_buf_base_info t.bufs id in
    if eqb_ℤ base.type (pos 0) || eqb_ℤ base.type (pos 6)
    then some (f, [])
    else if eqb_ℤ base.type (pos 1)
    then lasting stun t id cur target f
    else if eqb_ℤ base.type (pos 2)
    then lasting burn t id cur target f
    else if eqb_ℤ base.type (pos 3)
    then (do
      a ← actor_at me f
      b ← actor_at target f
      let (players, notes) = splash base attack me a.body.team b.body f.players
      some (record f { players = players }, broad_notes f notes))
    else if eqb_ℤ base.type (pos 4)
    then lasting immune t id cur me f
    else if eqb_ℤ base.type (pos 5)
    then lasting add_speed t id cur me f
    else none

-- The loop over the buffs of a skill, from index `i`.
unfoldable pub handle_bufs :
    ℕ → ℕ → List ℤ → Tables → ℕ → ℤ → Ref → Ref → Field → Option (Field × List Effect)
handle_bufs zero i buf_list t cur attack me target f = some (f, [])
handle_bufs (suc n) i buf_list t cur attack me target f = do
  id ← get_elem? buf_list i
  (g, es) ← handle_buf t cur attack id me target f
  (h, es') ← handle_bufs n (i + 1) buf_list t cur attack me target g
  some (h, es ++ es')

-- The part of `onEmitSkill` after `useSkill`.
unfoldable pub strike :
    Tables → ℕ → ℕ → SkillBase → Ref → Ref → Field → Option (Bool × Field × List Effect)
strike t cur random skill me target f = do
  a ← actor_at me f
  b ← actor_at target f
  attack ← attack_value random skill a.body b.body
  (g, es) ← hurt attack skill a.body me target f
  c ← actor_at target g
  if not (can_buf_hurt c.body) then some (true, g, es) else (do
    (h, es') ← handle_bufs (pos_part skill.buf_num) 0 skill.buf_list t cur attack me target g
    some (true, h, es ++ es'))
