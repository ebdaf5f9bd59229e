-- ===== src/Game/Battleground/Leave.antt =====
-- A player that leaves keeps the team counts right.
use cpp_game_frame.Prelude.{
  suc, ◌≡◌, refl, sym, ap, ◌∙◌, inl, inr, false, Bool-cases, none, some, arith, if◌then◌else◌,
}
use cpp_game_frame.Game.Body.{Team, none_team, black, white}
use cpp_game_frame.Game.Player.{Player, get_id, get_team}
use cpp_game_frame.Game.Battleground.{BattlegroundState, Battleground}
use cpp_game_frame.Game.Battleground.Players.{
  check_battleground_id, get_player, erase, remove_player, remove_bg_player, close_player,
}
use cpp_game_frame.Game.Battleground.Counts.{IsValid, count, same, count-erase}

-- A battleground with a player in it is open.
open_with :
    {bg : Battleground} (p : Player)
    → IsValid bg
    → get_player (get_id p) bg.players ≡ some p
    → (bg.first ≡ false) × ((s : BattlegroundState) × (bg.state ≡ some s))
unfolding get_player
open_with {bg} p v h = elim v.opened [
  | inl (_, _, nobody) ↦
      let empty : none ≡ some p = sym (ap (get_player (get_id p)) nobody) ∙ h in cc
  | inr live ↦ live
]

remove_bg_player-IsValid :
    (p : Player) {bg : Battleground}
    → IsValid bg
    → get_player (get_id p) bg.players ≡ some p
    → IsValid (remove_bg_player p (get_team p) bg).0
unfolding remove_bg_player remove_player
remove_bg_player-IsValid p {bg} v h = go (get_team p) refl
  where
    gone :
        (t : Team)
        → get_team p ≡ t
        → (u : Team)
        → count u bg.players ≡ (
            if same t u
            then suc (count u (erase (get_id p) bg.players))
            else count u (erase (get_id p) bg.players))
    gone t e u =
        count-erase u p bg.players h
        ∙ ap
            (λ x.
              if same x u
              then suc (count u (erase (get_id p) bg.players))
              else count u (erase (get_id p) bg.players))
            e

    go : (t : Team) → get_team p ≡ t → IsValid (remove_bg_player p t bg).0
    go none_team e = absurd (omega (arith, gone none_team e none_team, v.nones))
    go black e =
        let fewer = gone black e black in
        record {
          blacks = omega (arith, fewer, v.blacks, v.black_room);
          whites = v.whites ∙ gone black e white;
          nones = sym (gone black e none_team) ∙ v.nones;
          black_room = omega (arith, fewer, v.blacks, v.black_room);
          white_room = v.white_room;
          opened = inr (open_with p v h);
        }
    go white e =
        let fewer = gone white e white in
        record {
          blacks = v.blacks ∙ gone white e black;
          whites = omega (arith, fewer, v.whites, v.white_room);
          nones = sym (gone white e none_team) ∙ v.nones;
          black_room = v.black_room;
          white_room = omega (arith, fewer, v.whites, v.white_room);
          opened = inr (open_with p v h);
        }

pub close_player-IsValid :
    (p : Player) {bg : Battleground}
    → IsValid bg
    → get_player (get_id p) bg.players ≡ some p
    → IsValid (close_player p bg).0
unfolding close_player
close_player-IsValid p v h = elim (Bool-cases (check_battleground_id p.battleground_id)) [
  | inl here ↦ rw (close_player, here) (remove_bg_player-IsValid p v h)
  | inr elsewhere ↦ rw (close_player, elsewhere) v
]
