-- ===== src/Game/Battleground/Reward.antt =====
-- When a battle is settled and what the result is.
use cpp_game_frame.Prelude.{
  ℕ, suc, ◌+◌, ◌-◌, ◌≡◌, refl, ap, ◌∙◌, Bool, true, false, ◌||◌, Option, none, some, List, [], ◌∷◌,
  ◌++◌, leb, arith,
}
use cpp_game_frame.Game.Body.{is_dead}
use cpp_game_frame.Game.Player.{Player, BgResult, black_result, white_result, draw_result}
use cpp_game_frame.Game.Battleground.{
  Phase, wait, count_down, start, run, exit, BattlegroundState, Battleground, Effect, to_hotel,
  tell_php, broad_msg, state_code, have_other_team_empty, state_time_limit,
}
use cpp_game_frame.Game.Battleground.State.{
  state_note, new_state, after, settlement, end, on_start, release, inc_bg_player_times,
  set_battleground_state, run_state, run_phase, run_run, is_game_over,
}
use cpp_game_frame.Game.Battleground.Phases.{phase_of}

-- How many packets for the hotel there are among the effects.
abbrev pub rewards : List Effect → ℕ
rewards [] = 0
rewards (to_hotel note ∷ es) = suc (rewards es)
rewards (_ ∷ es) = rewards es

-- The result by the thrones: who still has one when the other has lost its throne wins.
abbrev pub verdict : Bool → Bool → BgResult
verdict true true = draw_result
verdict true false = white_result
verdict false true = black_result
verdict false false = draw_result

pub rewards-append : (es fs : List Effect) → rewards (es ++ fs) ≡ rewards es + rewards fs
rewards-append [] fs = omega arith
rewards-append (e ∷ es) fs = ground (arith, rewards-append es fs)

rewards-inc_bg_player_times : (ps : List Player) → rewards (inc_bg_player_times ps) ≡ 0
unfolding inc_bg_player_times
rewards-inc_bg_player_times [] = refl
rewards-inc_bg_player_times (p ∷ ps) = rewards-inc_bg_player_times ps

pub rewards-release : (ps : List Player) → rewards (release ps) ≡ 0
unfolding release
rewards-release [] = refl
rewards-release (p ∷ ps) = rewards-release ps

rewards-on_start : (q : Phase) (bg : Battleground) → rewards (on_start q bg) ≡ 0
unfolding on_start
rewards-on_start wait bg = refl
rewards-on_start count_down bg = refl
rewards-on_start start bg = refl
rewards-on_start run bg = rewards-inc_bg_player_times bg.players
rewards-on_start exit bg = refl

pub rewards-switch :
    (now : ℕ) (q : Phase) (bg : Battleground)
    → rewards ((set_battleground_state now q bg).1) ≡ rewards (end bg.state bg)
unfolding set_battleground_state
rewards-switch now q bg = rewards-append (end bg.state bg) _ ∙ omega (arith, rewards-on_start q bg)

module _ (s : BattlegroundState) (cur now : ℕ) (bg : Battleground) where
  abbrev won : Bool → Bool → Battleground
  won b w = record bg { result = verdict b w }

  ends :
      (b w : Bool)
      → is_dead bg.black_building ≡ b
      → is_dead bg.white_building ≡ w
      → (b || w || leb (state_time_limit run) (cur - s.start_time)) ≡ true
      → s.wait_state ≡ false
      → run_run s cur now bg ≡ set_battleground_state now exit (won b w)
  unfolding run_run
  ends true true eb ew l n = rw (run_run, n, is_game_over, eb, ew) refl
  ends true false eb ew l n = rw (run_run, n, is_game_over, eb, ew) refl
  ends false true eb ew l n = rw (run_run, n, is_game_over, eb, ew) refl
  ends false false eb ew l n = rw (run_run, n, is_game_over, eb, ew, l) refl

  settles :
      (b w : Bool)
      → bg.state ≡ some s
      → s.phase ≡ run
      → have_other_team_empty bg ≡ false
      → end bg.state (won b w) ≡ settlement (won b w)
  unfolding end have_other_team_empty
  settles b w e p h = rw (end, e, p, h) refl

-- What runs in a phase.
pub at_phase :
    {q : Phase} (s : BattlegroundState) (cur now : ℕ) (bg : Battleground)
    → bg.state ≡ some s
    → s.phase ≡ q
    → run_state cur now bg ≡ run_phase q s cur now bg
unfolding run_state
at_phase s cur now bg e p =
    ap {A = Option BattlegroundState}
      (λ o. elim o [ none ↦ (bg, []) | some t ↦ run_phase t.phase t cur now bg ]) e
    ∙ ap (λ q. run_phase q s cur now bg) p

pub at_run :
    (s : BattlegroundState) (cur now : ℕ) (bg : Battleground)
    → bg.state ≡ some s
    → s.phase ≡ run
    → run_state cur now bg ≡ run_run s cur now bg
unfolding run_phase
at_run s cur now bg e p = at_phase s cur now bg e p

-- A battle that is on, is not waiting and has players in both teams, and in which a throne is dead
-- or the time has passed: running it goes to the exit, with the result that the side whose throne
-- stands has won, or a draw if both or none do; the first things that are sent are the two packets
-- about this result, to the players and to the hotel, and nothing else goes to the hotel.
pub run_state-settles :
    (cur now : ℕ) (bg : Battleground) (s : BattlegroundState)
    → bg.state ≡ some s
    → s.phase ≡ run
    → s.wait_state ≡ false
    → have_other_team_empty bg ≡ false
    → (is_dead bg.black_building
        || is_dead bg.white_building
        || leb (state_time_limit run) (cur - s.start_time))
      ≡ true
    → let result = verdict (is_dead bg.black_building) (is_dead bg.white_building) in
      let (after, effects) = run_state cur now bg in
      (after.result ≡ result)
      × (phase_of after.state ≡ some exit)
      × ((rest : List Effect) × (effects ≡ settlement (record bg { result = result }) ++ rest)
          × (rewards rest ≡ 0))
unfolding set_battleground_state on_start
run_state-settles cur now bg s e p n h l =
    let b = is_dead bg.black_building in
    let w = is_dead bg.white_building in
    let to_exit = at_run s cur now bg e p ∙ ends s cur now bg b w refl refl l n in
    let won_bg = record bg { result = verdict b w } in
    rw to_exit (
      refl,
      refl,
      (
        broad_msg won_bg (state_note now (state_code exit) (new_state now exit))
            ∷ tell_php bg.id
            ∷ [],
        ap
            (λ es.
              es
              ++ (broad_msg won_bg (state_note now (state_code exit) (new_state now exit))
                  ∷ tell_php bg.id
                  ∷ []))
            (settles s cur now bg b w e p h),
        refl,
      ),
    )
