-- ===== src/Game/Battleground/Silence.antt =====
-- When nothing is reported to the hotel.
use cpp_game_frame.Prelude.{
  ℕ, ◌-◌, ◌≡◌, ◌≢◌, refl, ap, ◌∙◌, ◌⊎◌, inl, inr, Bool, true, false, not, ◌||◌, Bool-cases, Option,
  none, some, List, [], ◌∷◌, ltb, leb, arith, if◌then◌else◌,
}
use cpp_game_frame.Prelude.Int.{ℤ, pos}
use cpp_game_frame.Game.Note.{Note}
use cpp_game_frame.Game.Body.{is_dead}
use cpp_game_frame.Game.Player.{draw_result}
use cpp_game_frame.Game.Battleground.{
  Phase, wait, count_down, start, run, exit, BattlegroundState, Battleground, Effect, tell_php,
  broad, ids, state_code, have_other_team_empty, state_time_limit,
}
use cpp_game_frame.Game.Battleground.State.{
  state_note, after, end, release, set_battleground_state, close_battleground, run_state, run_phase,
  run_wait, run_count_down, run_start, run_waiting, run_run, run_exit, is_game_over,
  tell_client_close_bg,
}
use cpp_game_frame.Game.Battleground.Reward.{
  rewards, rewards-append, rewards-release, rewards-switch, at_phase, at_run,
}

record Quiet (r : Battleground × List Effect) : Type 0 where
  quiet : rewards r.1 ≡ 0

if-Quiet :
    (c : Bool) {x y : Battleground × List Effect} → Quiet x → Quiet y → Quiet (if c then x else y)
if-Quiet true a b = a
if-Quiet false a b = b

still : (bg : Battleground) → Quiet (bg, [])
still bg = record { quiet = refl }

told : (bg : Battleground) (to : List ℤ) (note : Note) → Quiet (bg, broad to note ∷ [])
told bg to note = record { quiet = refl }

set_battleground_state-Quiet :
    (now : ℕ) (q : Phase) (bg : Battleground)
    → rewards (end bg.state bg) ≡ 0
    → Quiet (set_battleground_state now q bg)
set_battleground_state-Quiet now q bg z = record { quiet = rewards-switch now q bg ∙ z }

after-Quiet :
    (ps : Battleground) (state : ℤ) (r : Battleground × List Effect)
    → Quiet r
    → Quiet (after (tell_client_close_bg state ps) r)
unfolding tell_client_close_bg
after-Quiet ps state r q = record { quiet = q.quiet }

close_battleground-Quiet :
    (bg : Battleground) → rewards (end bg.state bg) ≡ 0 → Quiet (close_battleground bg)
unfolding close_battleground
close_battleground-Quiet bg z = record {
  quiet =
      rewards-append (end bg.state bg) _
      ∙ omega (
        arith,
        z,
        rewards-append (release bg.players) (tell_php bg.id ∷ []),
        rewards-release bg.players,
      );
}

-- The end of a state other than run, or with a team empty.
quiet_end :
    (s : BattlegroundState) (bg : Battleground) (q : Phase)
    → s.phase ≡ q
    → q ≢ run
    → rewards (end (some s) bg) ≡ 0
unfolding end
quiet_end s bg wait e n = rw e refl
quiet_end s bg count_down e n = rw e refl
quiet_end s bg start e n = rw e refl
quiet_end s bg run e n = absurd (n refl)
quiet_end s bg exit e n = rw e refl

empty_end :
    (o : Option BattlegroundState) (bg : Battleground)
    → have_other_team_empty bg ≡ true
    → rewards (end o bg) ≡ 0
unfolding end
empty_end none bg h = refl
empty_end (some s) bg h = go s.phase refl
  where
    go : (q : Phase) → s.phase ≡ q → rewards (end (some s) bg) ≡ 0
    go wait e = rw e refl
    go count_down e = rw e refl
    go start e = rw e refl
    go run e = rw (e, h) refl
    go exit e = rw e refl

game_over-empty :
    (bg : Battleground) → have_other_team_empty (is_game_over bg).1 ≡ have_other_team_empty bg
unfolding is_game_over have_other_team_empty
game_over-empty bg = ground arith

module _ (s : BattlegroundState) (cur now : ℕ) (bg : Battleground) where
  run_phase-Quiet :
      (q : Phase) → q ≢ run → rewards (end bg.state bg) ≡ 0 → Quiet (run_phase q s cur now bg)
  unfolding run_phase run_wait run_count_down run_start run_exit
  run_phase-Quiet wait n z = if-Quiet _ (set_battleground_state-Quiet now count_down bg z) (
      if-Quiet _ (set_battleground_state-Quiet now exit bg z)
        (if-Quiet _ (set_battleground_state-Quiet now count_down bg z) (still bg)))
  run_phase-Quiet count_down n z =
      if-Quiet _
        (if-Quiet _ (set_battleground_state-Quiet now start bg z)
          (set_battleground_state-Quiet now run bg z))
        (still bg)
  run_phase-Quiet start n z =
      if-Quiet _
        (after-Quiet bg (pos 1) (set_battleground_state now exit bg)
          (set_battleground_state-Quiet now exit bg z))
        (if-Quiet _ (still bg) (set_battleground_state-Quiet now run bg z))
  run_phase-Quiet run n z = absurd (n refl)
  run_phase-Quiet exit n z =
      if-Quiet _ (after-Quiet bg (pos 0) (close_battleground bg) (close_battleground-Quiet bg z))
        (still bg)

  empty_run : have_other_team_empty bg ≡ true → Quiet (run_run s cur now bg)
  unfolding run_run run_waiting
  empty_run h =
      if-Quiet s.wait_state
        (if-Quiet (not (have_other_team_empty bg))
          (told (record bg { state = some (record s { wait_state = false }) }) (ids bg.players)
            (state_note now (state_code run) s))
          (if-Quiet (ltb 10000 (cur - s.wait_times))
            (set_battleground_state-Quiet now exit bg (empty_end bg.state bg h)) (still bg)))
        (if-Quiet (is_game_over bg).0
          (set_battleground_state-Quiet now exit (is_game_over bg).1
            (empty_end (is_game_over bg).1.state (is_game_over bg).1 (game_over-empty bg ∙ h)))
          (if-Quiet (leb (state_time_limit run) (cur - s.start_time))
            (set_battleground_state-Quiet now exit (record bg { result = draw_result })
              (empty_end bg.state (record bg { result = draw_result }) (drawn h)))
            (if-Quiet (have_other_team_empty bg)
              (told (record bg { state = some (record s { wait_state = true; wait_times = cur }) })
                (ids bg.players) (state_note now (pos 3) s))
              (still bg))))
    where
      drawn :
          have_other_team_empty bg ≡ true
          → have_other_team_empty (record bg { result = draw_result }) ≡ true
      drawn e = e

  full_run :
      have_other_team_empty bg ≡ false
      → (s.wait_state ≡ true)
        ⊎ ((is_dead bg.black_building
              || is_dead bg.white_building
              || leb (state_time_limit run) (cur - s.start_time))
            ≡ false)
      → Quiet (run_run s cur now bg)
  unfolding run_run run_waiting is_game_over
  full_run h (inl w) = record { quiet = rw (run_run, w, run_waiting, h) refl }
  full_run h (inr no_end) = elim (Bool-cases s.wait_state) [
    | inl w ↦ record { quiet = rw (run_run, w, run_waiting, h) refl }
    | inr n ↦ record {
      quiet = on (is_dead bg.black_building) (is_dead bg.white_building) refl refl no_end n;
    }
  ]
    where
      on :
          (b w : Bool)
          → is_dead bg.black_building ≡ b
          → is_dead bg.white_building ≡ w
          → (b || w || leb (state_time_limit run) (cur - s.start_time)) ≡ false
          → s.wait_state ≡ false
          → rewards ((run_run s cur now bg).1) ≡ 0
      on true w eb ew l n = cc
      on false true eb ew l n = cc
      on false false eb ew l n = rw (run_run, n, is_game_over, eb, ew, l, h) refl

-- Running a battleground reports nothing to the hotel if the battle is not on, or it waits for a
-- team to come back, or a team is empty, or both thrones stand and the time has not passed.
pub run_state-no_reward :
    (cur now : ℕ) (bg : Battleground) (s : BattlegroundState)
    → bg.state ≡ some s
    → (s.phase ≢ run)
      ⊎ (s.wait_state ≡ true)
      ⊎ (have_other_team_empty bg ≡ true)
      ⊎ ((is_dead bg.black_building
            || is_dead bg.white_building
            || leb (state_time_limit run) (cur - s.start_time))
          ≡ false)
    → rewards ((run_state cur now bg).1) ≡ 0
run_state-no_reward cur now bg s e why = go s.phase refl
  where
    quiet_run :
        s.phase ≡ run
        → (have_other_team_empty bg ≡ true)
          ⊎ (have_other_team_empty bg ≡ false)
            × ((s.wait_state ≡ true)
                ⊎ ((is_dead bg.black_building
                      || is_dead bg.white_building
                      || leb (state_time_limit run) (cur - s.start_time))
                    ≡ false))
        → rewards ((run_state cur now bg).1) ≡ 0
    quiet_run p (inl h) = rw (at_run s cur now bg e p) (empty_run s cur now bg h).quiet
    quiet_run p (inr (h, w)) = rw (at_run s cur now bg e p) (full_run s cur now bg h w).quiet

    both :
        (h : Bool)
        → have_other_team_empty bg ≡ h
        → s.phase ≡ run
        → rewards ((run_state cur now bg).1) ≡ 0
    both true h p = quiet_run p (inl h)
    both false h p = elim why [
      | inl n ↦ absurd (n p)
      | inr (inl w) ↦ quiet_run p (inr (h, inl w))
      | inr (inr (inl h')) ↦ quiet_run p (inl h')
      | inr (inr (inr l)) ↦ quiet_run p (inr (h, inr l))
    ]

    other : (q : Phase) → s.phase ≡ q → q ≢ run → rewards ((run_state cur now bg).1) ≡ 0
    other q p n =
        rw (at_phase s cur now bg e p)
          (run_phase-Quiet s cur now bg q n
            (ap (λ o. rewards (end o bg)) e ∙ quiet_end s bg q p n)).quiet

    go : (q : Phase) → s.phase ≡ q → rewards ((run_state cur now bg).1) ≡ 0
    go wait p = other wait p (λ x. cc)
    go count_down p = other count_down p (λ x. cc)
    go start p = other start p (λ x. cc)
    go exit p = other exit p (λ x. cc)
    go run p = both (have_other_team_empty bg) refl p
