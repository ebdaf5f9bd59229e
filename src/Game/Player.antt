-- ===== src/Game/Player.antt =====
-- A player as the battleground sees it, game/LoongBgSrv/BgPlayer.cc: team, kills, title and reward.
pub mod Title
use cpp_game_frame.Prelude.{ℕ, Bool, true, false, ◌&&◌, List, [], ◌∷◌, if◌then◌else◌}
use cpp_game_frame.Prelude.Int.{ℤ, pos, ◌+ℤ◌, eqb_ℤ, leb_ℤ, to_int16}
use cpp_game_frame.Game.Note.{Note, Word, int, utf, op_get_title}
use cpp_game_frame.Game.Body
use cpp_game_frame.Game.Package.{Package}
use cpp_game_frame.Game.Package
use cpp_game_frame.Game.Buf.{Actor}
use cpp_game_frame.Game.Body.{Team, none_team, black, white}

pub data BgResult : Type 0 where
  none_result black_result white_result draw_result : BgResult

-- `actor` is the part of the base class and the list of buffs.
pub record Player : Type 0 where
  pub actor : Actor
  pub name : List ℕ
  pub kill_enemy_times : ℤ
  pub last_kill_enemy_times : ℤ
  pub pet_id : ℤ
  pub battleground_id : ℤ
  pub role_type : ℤ
  pub title : ℤ
  pub join_times : ℤ
  pub use_skill_map : List (ℤ × ℕ)
  pub wait_close : Bool
  pub items : Package
  pub use_item_timestamp : ℕ

abbrev pub get_id : Player → ℤ
get_id p = p.actor.body.unit_id

abbrev pub get_team : Player → Team
get_team p = p.actor.body.team

unfoldable pub set_team : Team → Player → Player
set_team team p = record p {
  actor = record (p.actor) { body = record (p.actor.body) { team = team } };
}

unfoldable pub new : ℤ → List ℕ → ℤ → ℤ → Player
unfolding Body.new Package.new
new player_id name role_type join_times = record {
  actor = record { body = Body.new Body.player player_id (pos 0) none_team; bufs = [] };
  name = name;
  kill_enemy_times = pos 0;
  last_kill_enemy_times = pos 0;
  pet_id = pos 0;
  battleground_id = pos 0;
  role_type = role_type;
  title = pos 0;
  join_times = join_times;
  use_skill_map = [];
  wait_close = false;
  items = Package.new;
  use_item_timestamp = 0;
}

abbrev pub team_code : Team → ℤ
team_code none_team = pos 0
team_code black = pos 1
team_code white = pos 2

abbrev pub result_code : BgResult → ℤ
result_code none_result = pos 0
result_code black_result = pos 1
result_code white_result = pos 2
result_code draw_result = pos 3

-- The medals that `serializeResult` gives, and the outcome that it reports to the hotel.
medals : BgResult → Team → ℤ × ℤ
medals draw_result team = (pos 2, pos 3)
medals black_result black = (pos 5, pos 1)
medals white_result white = (pos 5, pos 1)
medals result team = (pos 1, pos 2)

-- `serializeResult`: the words for the clients and the words for the hotel.
unfoldable pub serialize_result : BgResult → Player → List Word × List Word
unfolding medals
serialize_result result p =
    let (medal, outcome) = medals result (get_team p) in
    (
      int (get_id p)
          ∷ int (team_code (get_team p))
          ∷ utf p.name
          ∷ int p.kill_enemy_times
          ∷ int medal
          ∷ [],
      int (get_id p) ∷ int outcome ∷ [],
    )

-- The words that `serialize` puts into a packet.
unfoldable pub serialize : Player → List Word
serialize p =
    let b = p.actor.body in
    int b.unit_id
    ∷ int b.unit_type
    ∷ int (team_code b.team)
    ∷ utf p.name
    ∷ int p.role_type
    ∷ int p.pet_id
    ∷ int b.hp
    ∷ int b.max_hp
    ∷ int p.title
    ∷ int b.x
    ∷ int b.y
    ∷ []

-- `setTitle`: a title is never lowered.
set_title : ℤ → Player → Player × List Note
set_title title p = if leb_ℤ title p.title then (p, []) else (
  record p { title = title },
  record { op = op_get_title; param = title; words = int (get_id p) ∷ utf p.name ∷ [] } ∷ [],
)

unfoldable pub on_title_handle : Player → Player × List Note
unfolding set_title
on_title_handle p =
    let n = p.last_kill_enemy_times in
    if eqb_ℤ n (pos 1)
    then set_title (pos 1) p
    else if eqb_ℤ n (pos 3)
    then set_title (pos 2) p
    else if eqb_ℤ n (pos 5)
    then set_title (pos 3) p
    else if eqb_ℤ n (pos 7)
    then set_title (pos 4) p
    else if eqb_ℤ n (pos 9)
    then set_title (pos 5) p
    else if eqb_ℤ n (pos 11)
    then set_title (pos 6) p
    else if eqb_ℤ n (pos 13)
    then set_title (pos 7) p
    else if eqb_ℤ n (pos 15)
    then set_title (pos 8) p
    else (p, [])

unfoldable pub inc_kill_enemy_time : Player → Player × List Note
unfolding on_title_handle
inc_kill_enemy_time p = on_title_handle (record p {
  kill_enemy_times = to_int16 (p.kill_enemy_times +ℤ pos 1);
  last_kill_enemy_times = to_int16 (p.last_kill_enemy_times +ℤ pos 1);
})
