-- ===== src/Game/Schedule.antt =====
-- The manager of the battlegrounds, game/LoongBgSrv/BattlegroundMgr.cc: which battlegrounds a call of
-- `run` runs. The states run as in Battleground; what `Scene::run` does inside is not part of this.
pub mod Turns
mod Tests
use cpp_game_frame.Prelude.{
  ℕ, zero, suc, ◌+◌, Bool, true, false, Option, none, some, List, [], ◌∷◌, ◌++◌, length, get_elem?,
  set, ltb, leb, if◌then◌else◌,
}
use cpp_game_frame.Prelude.Int.{ℤ, pos}
use cpp_game_frame.Game.Battleground
use cpp_game_frame.Game.Battleground.{Battleground, Effect}
use cpp_game_frame.Game.Battleground.State.{run_state}

-- `start_index` is the static `sStartIndex` of `run`.
pub record BattlegroundMgr : Type 0 where
  pub bg_list : List Battleground
  pub start_index : ℕ

abbrev pub max_bg_num : ℕ
max_bg_num = 600

abbrev pub fragment : ℕ
fragment = 3

new_list : ℕ → ℕ → List Battleground
unfolding Battleground.new
new_list i zero = []
new_list i (suc n) = Battleground.new (pos (suc i)) ∷ new_list (suc i) n

-- `init`: the ids begin with 1.
unfoldable pub init : BattlegroundMgr
unfolding new_list
init = record { bg_list = new_list 0 max_bg_num; start_index = 0 }

-- A battleground without a state is left out.
unfoldable pub run_one : ℕ → ℕ → Battleground → Battleground × List Effect
run_one cur now bg = elim bg.state [ none ↦ (bg, []) | some s ↦ run_state cur now bg ]

-- The loop of `run` from index `i`, on fuel.
unfoldable pub run_from : ℕ → ℕ → ℕ → ℕ → List Battleground → List Battleground × List Effect
unfolding run_one
run_from zero cur now i bgs = (bgs, [])
run_from (suc fuel) cur now i bgs = elim (get_elem? bgs i) [
  | none ↦ (bgs, [])
  | some bg ↦
      let rest = run_from fuel cur now (i + fragment) (set bgs i (run_one cur now bg).0) in
      (rest.0, (run_one cur now bg).1 ++ rest.1)
]

-- `run`.
unfoldable pub run : ℕ → ℕ → BattlegroundMgr → BattlegroundMgr × List Effect
unfolding run_from
run cur now m =
    let ran = run_from max_bg_num cur now m.start_index m.bg_list in
    (
      record {
        bg_list = ran.0;
        start_index = if leb fragment (m.start_index + 1) then 0 else m.start_index + 1;
      },
      ran.1,
    )
