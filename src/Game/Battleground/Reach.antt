-- ===== src/Game/Battleground/Reach.antt =====
-- What can happen to a battleground, step by step, and the team counts in every reachable state.
use cpp_game_frame.Prelude.{
  ℕ, suc, ◌≡◌, refl, sym, ap, ◌∙◌, inl, inr, none, some, List, [], ◌∷◌, if◌then◌else◌,
}
use cpp_game_frame.Prelude.Int.{ℤ}
use cpp_game_frame.Game.Body.{Body, Team, none_team, black, white}
use cpp_game_frame.Game.Player.{Player, get_id, get_team}
use cpp_game_frame.Game.Battleground.{Battleground, new}
use cpp_game_frame.Game.Battleground.State.{run_state}
use cpp_game_frame.Game.Battleground.Players.{get_player, on_enter_battle, close_player}
use cpp_game_frame.Game.Battleground.Counts.{IsValid, count, same, new-IsValid, run_state-IsValid}
use cpp_game_frame.Game.Battleground.Enter.{on_enter_battle-Leaves}
use cpp_game_frame.Game.Battleground.Leave.{close_player-IsValid}

-- The players by id and team.
abbrev pub roster : List Player → List (ℤ × Team)
roster [] = []
roster (p ∷ ps) = (get_id p, get_team p) ∷ roster ps

-- A player that is not there asks to enter; a player that is there leaves; the state runs; and what
-- the players do to themselves, each other and the thrones, which moves nobody in or out.
pub data Step : Battleground → Battleground → Type 0 where
  enter :
      (now : ℕ) (bg_id team_value : ℤ) (p : Player) {bg : Battleground}
      → get_player (get_id p) bg.players ≡ none
      → Step bg (on_enter_battle now bg_id team_value p bg).0
  leave :
      (p : Player) {bg : Battleground}
      → get_player (get_id p) bg.players ≡ some p
      → Step bg (close_player p bg).0
  tick : (cur now : ℕ) {bg : Battleground} → Step bg (run_state cur now bg).0
  act :
      (players : List Player) (b w : Body) {bg : Battleground}
      → roster players ≡ roster bg.players
      → Step bg (record bg { players = players; black_building = b; white_building = w })

-- What is reached from a new battleground.
pub data IsReachable (id : ℤ) : Battleground → Type 0 where
  begin : IsReachable id (new id)
  next : {bg after : Battleground} → IsReachable id bg → Step bg after → IsReachable id after

count-roster : (t : Team) (ps qs : List Player) → roster ps ≡ roster qs → count t ps ≡ count t qs
count-roster t [] [] h = refl
count-roster t [] (q ∷ qs) h = cc
count-roster t (p ∷ ps) [] h = cc
count-roster t (p ∷ ps) (q ∷ qs) h =
    let team : get_team p ≡ get_team q = cc in
    let others = count-roster t ps qs cc in
    ap (λ x. if same x t then suc (count t ps) else count t ps) team
    ∙ ap (λ n. if same (get_team q) t then suc n else n) others

Step-IsValid : {bg after : Battleground} → IsValid bg → Step bg after → IsValid after
Step-IsValid v (enter now bg_id team_value p h) =
    (on_enter_battle-Leaves now bg_id team_value p v h).valid
Step-IsValid v (leave p h) = close_player-IsValid p v h
Step-IsValid v (tick cur now {bg}) = run_state-IsValid cur now bg v
Step-IsValid v (act players b w {bg} h) = record {
  blacks = v.blacks ∙ sym (count-roster black players bg.players h);
  whites = v.whites ∙ sym (count-roster white players bg.players h);
  nones = count-roster none_team players bg.players h ∙ v.nones;
  black_room = v.black_room;
  white_room = v.white_room;
  opened = elim v.opened [
    | inl (f, idle, nobody) ↦ inl (f, idle, no_roster players (h ∙ ap roster nobody))
    | inr live ↦ inr live
  ];
}
  where
    no_roster : (ps : List Player) → roster ps ≡ [] → ps ≡ []
    no_roster [] e = refl
    no_roster (p ∷ ps) e = cc

-- In every battleground that is reached from a new one, by players entering and leaving, by its
-- states and by what goes on inside, in any order: the two team counts are the numbers of players
-- of the teams that are there, at most five each, no player is without a team, and the
-- battleground has no state exactly as long as nobody has entered since it was made or closed,
-- with nobody in it.
pub reachable-IsValid : (id : ℤ) {bg : Battleground} → IsReachable id bg → IsValid bg
reachable-IsValid id begin = new-IsValid id
reachable-IsValid id (next way step) = Step-IsValid (reachable-IsValid id way) step
