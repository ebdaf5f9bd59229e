-- ===== src/Game/Battleground/Players.antt =====
-- Players that enter and leave a battleground.
use cpp_game_frame.Prelude.{
  ℕ, ◌+◌, ◌%◌, Bool, true, false, not, ◌&&◌, Option, none, some, List, [], ◌∷◌, ◌++◌, leb,
  if◌then◌else◌,
}
use cpp_game_frame.Prelude.Int.{ℤ, pos, negsuc, ltb_ℤ, eqb_ℤ}
use cpp_game_frame.Game.Note.{Note, int, op_add_player, op_remove_player, op_enter_battle}
use cpp_game_frame.Game.Body.{Team, none_team, black, white}
use cpp_game_frame.Game.Player.{Player, get_id, get_team, set_team, serialize}
use cpp_game_frame.Game.Battleground.{
  wait, run, exit, BattlegroundState, Battleground, Effect, send, tell_php, inc_join_times, close,
  left, max_team_num, team_num, set_team_num, broad_msg,
}
use cpp_game_frame.Game.Battleground.State.{set_battleground_state}

abbrev pub max_bg_num : ℤ
max_bg_num = pos 600

-- `checkBattlegroundId` of BattlegroundMgr.cc.
abbrev pub check_battleground_id : ℤ → Bool
check_battleground_id id = ltb_ℤ (pos 0) id && ltb_ℤ id max_bg_num

abbrev pub is_in_bg : Player → Bool
is_in_bg p = check_battleground_id p.battleground_id

-- Writing and erasing in a map that is ordered by the ids.
unfoldable pub insert : Player → List Player → List Player
insert p [] = p ∷ []
insert p (x ∷ xs) =
    if ltb_ℤ (get_id p) (get_id x)
    then p ∷ x ∷ xs
    else if eqb_ℤ (get_id p) (get_id x)
    then p ∷ xs
    else x ∷ insert p xs

unfoldable pub erase : ℤ → List Player → List Player
erase id [] = []
erase id (x ∷ xs) = if eqb_ℤ (get_id x) id then xs else x ∷ erase id xs

-- `Scene::getPlayer`.
unfoldable pub get_player : ℤ → List Player → Option Player
get_player id [] = none
get_player id (x ∷ xs) = if eqb_ℤ (get_id x) id then some x else get_player id xs

-- `Scene::addPlayer` and `Scene::removePlayer`.
unfoldable pub add_player : Player → Battleground → Battleground × List Effect
unfolding insert serialize
add_player p bg =
    let bg' = record bg { players = insert p bg.players } in
    (bg', broad_msg bg' (record { op = op_add_player; param = pos 0; words = serialize p }) ∷ [])

unfoldable pub remove_player : ℤ → Battleground → Battleground × List Effect
unfolding erase
remove_player id bg =
    let bg' = record bg { players = erase id bg.players } in
    (bg', broad_msg bg' (record { op = op_remove_player; param = id; words = [] }) ∷ [])

is_run : Option BattlegroundState → Bool
is_run none = false
is_run (some s) = elim s.phase [ run ↦ true | _ ↦ false ]

unfoldable pub is_exit : Option BattlegroundState → Bool
is_exit none = false
is_exit (some s) = elim s.phase [ exit ↦ true | _ ↦ false ]

-- The first player after `init` starts the wait state.
unfoldable pub open_first : ℕ → Battleground → Battleground × List Effect
unfolding set_battleground_state
open_first now bg =
    if bg.first
    then (
      record ((set_battleground_state now wait bg).0) { first = false },
      (set_battleground_state now wait bg).1,
    )
    else (bg, [])

-- The player as it enters, and the battleground with the player counted and put in.
unfoldable pub entered : Team → Player → Battleground → Player
unfolding set_team
entered team p bg = set_team team (record p { battleground_id = bg.id })

unfoldable pub joined : Team → Player → Battleground → Battleground
unfolding entered add_player
joined team p bg =
    (add_player (entered team p bg) (set_team_num team ((team_num team bg + 1) % 256) bg)).0

-- `addBgPlayer`; a player that is in another battleground is taken out of it first.
unfoldable pub add_bg_player : ℕ → Player → Team → Battleground → Bool × Battleground × List Effect
unfolding open_first entered joined add_player is_run
add_bg_player now p team bg =
    if leb max_team_num (team_num team bg)
    then (false, bg, [])
    else let opened = (open_first now bg).0 in
      (
        true,
        joined team p opened,
        (open_first now bg).1
            ++ ((if is_in_bg p then close p ∷ [] else [])
                ++ (left (entered team p opened)
                      ∷ tell_php bg.id
                      ∷ (if is_run opened.state then inc_join_times (get_id p) ∷ [] else [])
                    ++ (add_player (entered team p opened) opened).1)),
      )

-- `removeBgPlayer`.
unfoldable pub remove_bg_player : Player → Team → Battleground → Battleground × List Effect
unfolding set_team remove_player
remove_bg_player p team bg =
    let counted = set_team_num team ((team_num team bg + 255) % 256) bg in
    let (bg', effects) = remove_player (get_id p) counted in
    (
      bg',
      left (set_team none_team (record p { battleground_id = pos 0 })) ∷ effects
          ++ (tell_php bg.id ∷ []),
    )

enter_note : ℤ → ℤ → ℤ → Note
enter_note param bg_id team_value = record {
  op = op_enter_battle;
  param = param;
  words = int bg_id ∷ int team_value ∷ [];
}

answer : Player → ℤ → ℤ → ℤ → List Effect
unfolding enter_note
answer p bg_id team_value param = send (get_id p) (enter_note param bg_id team_value) ∷ []

-- `onEnterBattle` of a player, on the battleground of that id.
unfoldable pub on_enter_battle : ℕ → ℤ → ℤ → Player → Battleground → Battleground × List Effect
unfolding answer add_bg_player is_exit
on_enter_battle now bg_id team_value p bg =
    let team = if eqb_ℤ team_value (pos 1) then black else white in
    if not (check_battleground_id bg_id)
    then (bg, [])
    else if is_in_bg p
    then (bg, answer p bg_id team_value (negsuc 2))
    else if is_exit bg.state
    then (bg, answer p bg_id team_value (negsuc 1))
    else (
      (add_bg_player now p team bg).1,
      (add_bg_player now p team bg).2
          ++ answer p bg_id team_value
              (if (add_bg_player now p team bg).0 then pos 0 else negsuc 0),
    )

-- `BgPlayer::close` of a player that the battleground holds.
unfoldable pub close_player : Player → Battleground → Battleground × List Effect
unfolding remove_bg_player
close_player p bg =
    if check_battleground_id p.battleground_id then remove_bg_player p (get_team p) bg else (bg, [])
