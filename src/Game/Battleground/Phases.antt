-- ===== src/Game/Battleground/Phases.antt =====
-- The order of the states, and that each ends in time.
use cpp_game_frame.Prelude.{
  ℕ, ◌-◌, ◌≤◌, ◌<◌, ◌≡◌, ◌≢◌, refl, Bool, true, false, Option, none, some, List, [], ltb, leb,
  arith, if◌then◌else◌,
}
use cpp_game_frame.Game.Player.{draw_result}
use cpp_game_frame.Game.Battleground.{
  Phase, wait, count_down, start, run, exit, BattlegroundState, Battleground, Effect,
  have_other_team_empty, state_time_limit,
}
use cpp_game_frame.Game.Battleground.State.{
  after, set_battleground_state, close_battleground, run_state, run_phase, run_wait, run_count_down,
  run_start, run_waiting, run_run, run_exit, is_game_over,
}

abbrev pub phase_of : Option BattlegroundState → Option Phase
phase_of none = none
phase_of (some s) = some s.phase

-- Which phase can follow which when the state runs; `none` is a battleground that is closed.
pub data Next : Option Phase → Option Phase → Type 0 where
  stay : {p : Option Phase} → Next p p
  gathered : Next (some wait) (some count_down)
  deserted : Next (some wait) (some exit)
  lacking : Next (some count_down) (some start)
  complete : Next (some count_down) (some run)
  given_up : Next (some start) (some exit)
  filled : Next (some start) (some run)
  over : Next (some run) (some exit)
  closed : Next (some exit) none

record Goes (p : Option Phase) (r : Battleground × List Effect) : Type 0 where
  goes : Next p (phase_of (r.0.state))

if-Goes :
    {p : Option Phase} (c : Bool) {x y : Battleground × List Effect}
    → Goes p x
    → Goes p y
    → Goes p (if c then x else y)
if-Goes true a b = a
if-Goes false a b = b

switch-phase :
    (now : ℕ) (p : Phase) (bg : Battleground)
    → phase_of ((set_battleground_state now p bg).0.state) ≡ some p
unfolding set_battleground_state
switch-phase now p bg = refl

alike :
    {p : Phase} (s : BattlegroundState) (bg : Battleground) {es : List Effect}
    → s.phase ≡ p
    → Goes (some p) (record bg { state = some s }, es)
alike s bg q = record { goes = rw q stay }

after-Goes :
    {p : Option Phase} (e : Effect) (r : Battleground × List Effect) → Goes p r → Goes p (after e r)
after-Goes e r g = record { goes = g.goes }

closes : (bg : Battleground) → Goes (some exit) (close_battleground bg)
unfolding close_battleground
closes bg = record { goes = closed }

module _ (s : BattlegroundState) (cur now : ℕ) (bg : Battleground) (e : bg.state ≡ some s) where
  stays : {p : Phase} → s.phase ≡ p → Goes (some p) (bg, [])
  stays {p} q = record { goes = rw (e, q) stay }

  switches :
      {p q : Phase} (b : Battleground)
      → Next (some p) (some q)
      → Goes (some p) (set_battleground_state now q b)
  switches {p} {q} b n = record { goes = rw (switch-phase now q b) n }

  run_phase-Goes : (p : Phase) → s.phase ≡ p → Goes (some p) (run_phase p s cur now bg)
  unfolding run_phase run_wait run_count_down run_start run_run run_waiting run_exit
  run_phase-Goes wait q =
      if-Goes _ (switches bg gathered)
        (if-Goes _ (switches bg deserted) (if-Goes _ (switches bg gathered) (stays q)))
  run_phase-Goes count_down q =
      if-Goes _ (if-Goes _ (switches bg lacking) (switches bg complete)) (stays q)
  run_phase-Goes start q =
      if-Goes _ (after-Goes _ (set_battleground_state now exit bg) (switches bg given_up))
        (if-Goes _ (stays q) (switches bg filled))
  run_phase-Goes run q =
      if-Goes _
        (if-Goes _ (alike (record s { wait_state = false }) bg q)
          (if-Goes _ (switches bg over) (stays q)))
        (if-Goes _ (switches (is_game_over bg).1 over) (
          if-Goes _ (switches (record bg { result = draw_result }) over)
            (if-Goes _ (alike (record s { wait_state = true; wait_times = cur }) bg q) (stays q))))
  run_phase-Goes exit q = if-Goes _ (after-Goes _ (close_battleground bg) (closes bg)) (stays q)

-- Running a battleground leaves its phase as it is or takes it one step along the arrows: from
-- wait to the countdown or to the exit, from the countdown to the start or the run phase, from the
-- start to the run phase or to the exit, from the run phase to the exit, and from there to closed;
-- a closed battleground stays closed.
pub run_state-Next :
    (cur now : ℕ) (bg : Battleground)
    → Next (phase_of bg.state) (phase_of ((run_state cur now bg).0.state))
unfolding run_state
run_state-Next cur now bg = go bg.state refl
  where
    go :
        (o : Option BattlegroundState)
        → bg.state ≡ o
        → Next (phase_of o) (phase_of ((run_state cur now bg).0.state))
    go none e = rw (run_state, e, e) stay
    go (some s) e = rw (run_state, e) (run_phase-Goes s cur now bg e s.phase refl).goes

record Moves (p : Phase) (r : Battleground × List Effect) : Type 0 where
  moves : phase_of (r.0.state) ≢ some p

if-Moves :
    {p : Phase} (c : Bool) {x y : Battleground × List Effect}
    → Moves p x
    → Moves p y
    → Moves p (if c then x else y)
if-Moves true a b = a
if-Moves false a b = b

late_if-Moves :
    {p : Phase} (c : Bool) {x : Battleground × List Effect} (y : Battleground × List Effect)
    → c ≡ true
    → Moves p x
    → Moves p (if c then x else y)
late_if-Moves true y e a = a
late_if-Moves false y e a = cc

not_yet_if-Moves :
    {p : Phase} (c : Bool) (x : Battleground × List Effect) {y : Battleground × List Effect}
    → c ≡ false
    → Moves p y
    → Moves p (if c then x else y)
not_yet_if-Moves true x e a = cc
not_yet_if-Moves false x e a = a

set_battleground_state-Moves :
    {p : Phase} (now : ℕ) (q : Phase) (bg : Battleground)
    → q ≢ p
    → Moves p (set_battleground_state now q bg)
unfolding set_battleground_state
set_battleground_state-Moves now q bg n = record { moves = λ h. n cc }

after-Moves :
    {p : Phase} (e : Effect) (r : Battleground × List Effect) → Moves p r → Moves p (after e r)
after-Moves e r m = record { moves = m.moves }

close_battleground-Moves : (bg : Battleground) → Moves exit (close_battleground bg)
unfolding close_battleground
close_battleground-Moves bg = record { moves = λ h. cc }

module _ (s : BattlegroundState) (cur now : ℕ) (bg : Battleground) where
  run_phase-Moves :
      (p : Phase)
      → s.wait_state ≡ false
      → leb (state_time_limit p) (cur - s.start_time) ≡ true
      → Moves p (run_phase p s cur now bg)
  unfolding run_phase run_wait run_count_down run_start run_run run_waiting run_exit
  run_phase-Moves wait w l = if-Moves _ (set_battleground_state-Moves now count_down bg (λ h. cc)) (
      if-Moves _ (set_battleground_state-Moves now exit bg (λ h. cc))
        (late_if-Moves _ _ l (set_battleground_state-Moves now count_down bg (λ h. cc))))
  run_phase-Moves count_down w l = late_if-Moves _ _ l (
      if-Moves _ (set_battleground_state-Moves now start bg (λ h. cc))
        (set_battleground_state-Moves now run bg (λ h. cc)))
  run_phase-Moves start w l = late_if-Moves _ _ l (
      after-Moves _ (set_battleground_state now exit bg)
        (set_battleground_state-Moves now exit bg (λ h. cc)))
  run_phase-Moves run w l = not_yet_if-Moves _ _ w (
      if-Moves _ (set_battleground_state-Moves now exit (is_game_over bg).1 (λ h. cc)) (
        late_if-Moves _ _ l
          (set_battleground_state-Moves now exit (record bg { result = draw_result }) (λ h. cc))))
  run_phase-Moves exit w l =
      late_if-Moves _ _ l (after-Moves _ (close_battleground bg) (close_battleground-Moves bg))

-- No phase lasts longer than its time: once the time of the state has passed, and the state is not
-- waiting for a team to come back, running the battleground takes it out of the phase.
pub run_state-moves :
    (cur now : ℕ) (bg : Battleground) (s : BattlegroundState)
    → bg.state ≡ some s
    → s.wait_state ≡ false
    → state_time_limit s.phase ≤ cur - s.start_time
    → phase_of ((run_state cur now bg).0.state) ≢ some s.phase
unfolding run_state
run_state-moves cur now bg s e w l =
    rw (run_state, e) (run_phase-Moves s cur now bg s.phase w (ground arith)).moves

-- A run state that waits, with a team that is empty, has waited for more than ten seconds: the next
-- run goes to the exit.
pub run_state-waited :
    (cur now : ℕ) (bg : Battleground) (s : BattlegroundState)
    → bg.state ≡ some s
    → s.phase ≡ run
    → s.wait_state ≡ true
    → have_other_team_empty bg ≡ true
    → 10000 < cur - s.wait_times
    → phase_of ((run_state cur now bg).0.state) ≡ some exit
unfolding run_state run_phase run_run run_waiting set_battleground_state
run_state-waited cur now bg s e p w h l =
    let late : ltb 10000 (cur - s.wait_times) ≡ true = ground arith in
    rw (run_state, e, p, run_run, w, run_waiting, h, late) refl
