-- ===== src/Game/Battleground/Enter.antt =====
-- A player that enters keeps the team counts right.
use cpp_game_frame.Prelude.{
  ℕ, ◌<◌, ◌≡◌, ◌≢◌, refl, sym, ap, ◌∙◌, inl, inr, Bool, true, false, not, Bool-cases, none, some,
  leb, arith, if◌then◌else◌,
}
use cpp_game_frame.Prelude.Int.{ℤ, pos, eqb_ℤ}
use cpp_game_frame.Game.Body.{Team, none_team, black, white}
use cpp_game_frame.Game.Player.{Player, get_id, set_team}
use cpp_game_frame.Game.Battleground.{wait, BattlegroundState, Battleground, team_num, max_team_num}
use cpp_game_frame.Game.Battleground.State.{new_state, set_battleground_state}
use cpp_game_frame.Game.Battleground.Players.{
  check_battleground_id, is_in_bg, is_exit, get_player, add_player, open_first, entered, joined,
  add_bg_player, on_enter_battle,
}
use cpp_game_frame.Game.Battleground.Counts.{IsValid, Leaves, if-Leaves, count-insert}

open_first-IsValid :
    (now : ℕ) {bg : Battleground}
    → IsValid bg
    → IsValid (open_first now bg).0
      × ((open_first now bg).0.first ≡ false)
      × ((open_first now bg).0.players ≡ bg.players)
      × ((t : Team) → team_num t (open_first now bg).0 ≡ team_num t bg)
unfolding open_first set_battleground_state
open_first-IsValid now {bg} v = elim (Bool-cases bg.first) [
  | inl first ↦ rw (opens first) (
    record {
      blacks = v.blacks;
      whites = v.whites;
      nones = v.nones;
      black_room = v.black_room;
      white_room = v.white_room;
      opened = inr (refl, (new_state now wait, refl));
    },
    refl,
    refl,
    kept,
  )
  | inr already ↦ rw (shut already) (v, already, refl, λ t. refl)
]
  where
    opens :
        bg.first ≡ true
        → (open_first now bg).0 ≡ record ((set_battleground_state now wait bg).0) { first = false }
    opens e = rw e refl

    shut : bg.first ≡ false → (open_first now bg).0 ≡ bg
    shut e = rw e refl

    kept :
        (t : Team)
        → team_num t (record ((set_battleground_state now wait bg).0) { first = false })
          ≡ team_num t bg
    kept none_team = refl
    kept black = refl
    kept white = refl

running :
    {bg : Battleground}
    → IsValid bg
    → bg.first ≡ false
    → (s : BattlegroundState) × (bg.state ≡ some s)
running v f = elim v.opened [ inl (first, _, _) ↦ cc | inr (_, live) ↦ live ]

joined-IsValid :
    (team : Team) (p : Player) {bg : Battleground}
    → team ≢ none_team
    → IsValid bg
    → bg.first ≡ false
    → get_player (get_id p) bg.players ≡ none
    → team_num team bg < 5
    → IsValid (joined team p bg)
unfolding joined add_player entered set_team
joined-IsValid none_team p n v f h room = absurd (n refl)
joined-IsValid black p {bg} n v f h room =
    let q = entered black p bg in
    record {
      blacks = omega (arith, count-insert black q bg.players h, v.blacks);
      whites = v.whites ∙ sym (count-insert white q bg.players h);
      nones = count-insert none_team q bg.players h ∙ v.nones;
      black_room = omega arith;
      white_room = v.white_room;
      opened = inr (f, running v f);
    }
joined-IsValid white p {bg} n v f h room =
    let q = entered white p bg in
    record {
      blacks = v.blacks ∙ sym (count-insert black q bg.players h);
      whites = omega (arith, count-insert white q bg.players h, v.whites);
      nones = count-insert none_team q bg.players h ∙ v.nones;
      black_room = v.black_room;
      white_room = omega arith;
      opened = inr (f, running v f);
    }

add_bg_player-IsValid :
    (now : ℕ) (p : Player) (team : Team) {bg : Battleground}
    → team ≢ none_team
    → IsValid bg
    → get_player (get_id p) bg.players ≡ none
    → IsValid (add_bg_player now p team bg).1
unfolding add_bg_player
add_bg_player-IsValid now p team {bg} n v h =
    elim (Bool-cases (leb max_team_num (team_num team bg))) [
      | inl full ↦ rw (add_bg_player, full) v
      | inr room ↦
          let (v', f, same_players, same_num) = open_first-IsValid now v in
          let less : team_num team (open_first now bg).0 < 5 = ground (arith, same_num team) in
          rw (add_bg_player, room)
            (joined-IsValid team p n v' f (ap (get_player (get_id p)) same_players ∙ h) less)
    ]

a_side : (c : Bool) → (if c then black else white) ≢ none_team
a_side true e = cc
a_side false e = cc

pub on_enter_battle-Leaves :
    (now : ℕ) (bg_id team_value : ℤ) (p : Player) {bg : Battleground}
    → IsValid bg
    → get_player (get_id p) bg.players ≡ none
    → Leaves (on_enter_battle now bg_id team_value p bg)
unfolding on_enter_battle
on_enter_battle-Leaves now bg_id team_value p {bg} v h =
    if-Leaves (not (check_battleground_id bg_id)) (record { valid = v })
      (if-Leaves (is_in_bg p) (record { valid = v })
        (if-Leaves (is_exit bg.state) (record { valid = v })
          (record {
            valid = add_bg_player-IsValid now p _ (a_side (eqb_ℤ team_value (pos 1))) v h;
          })))
