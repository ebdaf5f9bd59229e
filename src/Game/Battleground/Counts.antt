-- ===== src/Game/Battleground/Counts.antt =====
-- The team counts of a battleground, through everything that happens to it.
use cpp_game_frame.Prelude.{
  ℕ, suc, ◌≤◌, ◌≡◌, refl, ap, ◌∙◌, ◌⊎◌, inl, inr, Bool, true, false, ◌&&◌, Bool-cases, none, some,
  List, [], ◌∷◌, arith, if◌then◌else◌,
}
use cpp_game_frame.Prelude.Int.{ℤ, eqb_ℤ}
use cpp_game_frame.Game.Body.{Team, none_team, black, white, is_dead}
use cpp_game_frame.Game.Player.{
  Player, BgResult, black_result, white_result, draw_result, get_id, get_team,
}
use cpp_game_frame.Game.Battleground.{
  Phase, wait, count_down, start, run, exit, BattlegroundState, Battleground, Effect, init, new,
}
use cpp_game_frame.Game.Battleground.State.{
  new_state, set_battleground_state, close_battleground, run_state, run_phase, run_wait,
  run_count_down, run_start, run_waiting, run_run, run_exit, is_game_over,
}
use cpp_game_frame.Game.Battleground.Players.{get_player, insert, erase}

abbrev pub same : Team → Team → Bool
same none_team none_team = true
same none_team black = false
same none_team white = false
same black none_team = false
same black black = true
same black white = false
same white none_team = false
same white black = false
same white white = true

-- How many players of a team a battleground holds.
abbrev pub count : Team → List Player → ℕ
count t [] = 0
count t (p ∷ ps) = let rest = count t ps in if same (get_team p) t then suc rest else rest

pub record IsValid (bg : Battleground) : Type 0 where
  pub blacks : bg.black_num ≡ count black bg.players
  pub whites : bg.white_num ≡ count white bg.players
  pub nones : count none_team bg.players ≡ 0
  pub black_room : bg.black_num ≤ 5
  pub white_room : bg.white_num ≤ 5
  pub opened :
      (bg.first ≡ true) × (bg.state ≡ none) × (bg.players ≡ [])
      ⊎ (bg.first ≡ false) × ((s : BattlegroundState) × (bg.state ≡ some s))

pub count-insert :
    (t : Team) (p : Player) (xs : List Player)
    → get_player (get_id p) xs ≡ none
    → count t (insert p xs) ≡ (if same (get_team p) t then suc (count t xs) else count t xs)
unfolding get_player insert
count-insert t p [] h = refl
count-insert t p (x ∷ xs) h = ground (arith, count-insert t p xs)

pub count-erase :
    (t : Team) (p : Player) (xs : List Player)
    → get_player (get_id p) xs ≡ some p
    → count t xs ≡ (
        if same (get_team p) t
        then suc (count t (erase (get_id p) xs))
        else count t (erase (get_id p) xs))
unfolding get_player erase
count-erase t p [] h = cc
count-erase t p (x ∷ xs) h = elim (Bool-cases (eqb_ℤ (get_id x) (get_id p))) [
  | inl e ↦
      let h' = rw e at h in
      let same_one : x ≡ p = cc in
      rw e (ap (λ y. if same (get_team y) t then suc (count t xs) else count t xs) same_one)
  | inr e ↦ ground (arith, count-erase t p xs)
]

-- A call leaves a valid battleground.
pub record Leaves (r : Battleground × List Effect) : Type 0 where
  pub valid : IsValid r.0

pub if-Leaves :
    (c : Bool) {x y : Battleground × List Effect}
    → Leaves x
    → Leaves y
    → Leaves (if c then x else y)
if-Leaves true a b = a
if-Leaves false a b = b

pub new-IsValid : (id : ℤ) → IsValid (new id)
unfolding new init
new-IsValid id = record {
  blacks = refl;
  whites = refl;
  nones = refl;
  black_room = omega arith;
  white_room = omega arith;
  opened = inl (refl, refl, refl);
}

close_battleground-IsValid : (bg : Battleground) → IsValid (close_battleground bg).0
unfolding close_battleground init
close_battleground-IsValid bg = record {
  blacks = refl;
  whites = refl;
  nones = refl;
  black_room = omega arith;
  white_room = omega arith;
  opened = inl (refl, refl, refl);
}

-- An open battleground with another state or another result.
pub with_state-IsValid :
    {bg : Battleground} (s : BattlegroundState)
    → IsValid bg
    → bg.first ≡ false
    → IsValid (record bg { state = some s })
with_state-IsValid s v f = record {
  blacks = v.blacks;
  whites = v.whites;
  nones = v.nones;
  black_room = v.black_room;
  white_room = v.white_room;
  opened = inr (f, (s, refl));
}

with_result-IsValid :
    {bg : Battleground} (r : BgResult) → IsValid bg → IsValid (record bg { result = r })
with_result-IsValid r v = record {
  blacks = v.blacks;
  whites = v.whites;
  nones = v.nones;
  black_room = v.black_room;
  white_room = v.white_room;
  opened = v.opened;
}

pub set_battleground_state-IsValid :
    (now : ℕ) (phase : Phase) {bg : Battleground}
    → IsValid bg
    → bg.first ≡ false
    → IsValid (set_battleground_state now phase bg).0
unfolding set_battleground_state
set_battleground_state-IsValid now phase v f = with_state-IsValid (new_state now phase) v f

is_game_over-IsValid : {bg : Battleground} → IsValid bg → IsValid (is_game_over bg).1
unfolding is_game_over
is_game_over-IsValid {bg} v = by_case (is_dead bg.black_building) (is_dead bg.white_building)
  where
    by_case :
        (b w : Bool)
        → let r : Bool × Battleground =
            if b && w
            then (true, record bg { result = draw_result })
            else if b
            then (true, record bg { result = white_result })
            else if w
            then (true, record bg { result = black_result })
            else (false, bg) in
          IsValid r.1
    by_case true true = with_result-IsValid draw_result v
    by_case true false = with_result-IsValid white_result v
    by_case false true = with_result-IsValid black_result v
    by_case false false = v

game_over-first : (bg : Battleground) → (is_game_over bg).1.first ≡ bg.first
unfolding is_game_over
game_over-first bg = ground arith

set_battleground_state-Leaves :
    (now : ℕ) (phase : Phase) {bg : Battleground}
    → IsValid bg
    → bg.first ≡ false
    → Leaves (set_battleground_state now phase bg)
set_battleground_state-Leaves now phase v f = record {
  valid = set_battleground_state-IsValid now phase v f;
}

module _ (s : BattlegroundState) (cur now : ℕ) {bg : Battleground} (v : IsValid bg)
    (f : bg.first ≡ false) where
  run_wait-Leaves : Leaves (run_wait s cur now bg)
  unfolding run_wait
  run_wait-Leaves = if-Leaves _ (set_battleground_state-Leaves now count_down v f) (
      if-Leaves _ (set_battleground_state-Leaves now exit v f)
        (if-Leaves _ (set_battleground_state-Leaves now count_down v f) (record { valid = v })))

  run_count_down-Leaves : Leaves (run_count_down s cur now bg)
  unfolding run_count_down
  run_count_down-Leaves =
      if-Leaves _
        (if-Leaves _ (set_battleground_state-Leaves now start v f)
          (set_battleground_state-Leaves now run v f))
        (record { valid = v })

  run_start-Leaves : Leaves (run_start s cur now bg)
  unfolding run_start
  run_start-Leaves =
      if-Leaves _ (record { valid = set_battleground_state-IsValid now exit v f })
        (if-Leaves _ (record { valid = v }) (set_battleground_state-Leaves now run v f))

  run_run-Leaves : Leaves (run_run s cur now bg)
  unfolding run_run run_waiting
  run_run-Leaves =
      if-Leaves _
        (if-Leaves _ (record { valid = with_state-IsValid (record s { wait_state = false }) v f })
          (if-Leaves _ (set_battleground_state-Leaves now exit v f) (record { valid = v })))
        (if-Leaves _
          (set_battleground_state-Leaves now exit (is_game_over-IsValid v) (game_over-first bg ∙ f))
          (if-Leaves _
            (set_battleground_state-Leaves now exit (with_result-IsValid draw_result v) f)
            (if-Leaves _
              (record {
                valid = with_state-IsValid (record s { wait_state = true; wait_times = cur }) v f;
              })
              (record { valid = v }))))

  run_exit-Leaves : Leaves (run_exit s cur now bg)
  unfolding run_exit
  run_exit-Leaves =
      if-Leaves _ (record { valid = close_battleground-IsValid bg }) (record { valid = v })

  run_phase-Leaves : (phase : Phase) → Leaves (run_phase phase s cur now bg)
  unfolding run_phase
  run_phase-Leaves wait = run_wait-Leaves
  run_phase-Leaves count_down = run_count_down-Leaves
  run_phase-Leaves start = run_start-Leaves
  run_phase-Leaves run = run_run-Leaves
  run_phase-Leaves exit = run_exit-Leaves

pub run_state-IsValid :
    (cur now : ℕ) (bg : Battleground) → IsValid bg → IsValid (run_state cur now bg).0
unfolding run_state
run_state-IsValid cur now bg v = elim v.opened [
  | inl (first, idle, nobody) ↦ rw (run_state, idle) v
  | inr (f, (s, e)) ↦ rw (run_state, e) (run_phase-Leaves s cur now v f s.phase).valid
]
