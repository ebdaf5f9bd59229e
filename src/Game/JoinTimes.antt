-- ===== src/Game/JoinTimes.antt =====
-- How often each player has joined a battle today, game/LoongBgSrv/JoinTimesMgr.cc, with the day test of
-- Util.h. Times are milliseconds since 1970.
pub mod Count
mod Tests
use cpp_game_frame.Prelude.{
  ℕ, ◌+◌, ◌/◌, Bool, true, false, not, Option, none, some, List, [], ◌∷◌, ◌==◌, if◌then◌else◌,
}
use cpp_game_frame.Prelude.Int.{ℤ, pos, ◌+ℤ◌, eqb_ℤ, to_int32}

pub record JoinTimesMgr : Type 0 where
  pub player_map : List (ℤ × ℤ)
  pub last_times : ℕ

-- Days begin at midnight in Beijing, eight hours before midnight in Greenwich.
unfoldable pub is_same_day : ℕ → ℕ → Bool
is_same_day day1 day2 = (day1 + 28800000) / 86400000 == (day2 + 28800000) / 86400000

find : ℤ → List (ℤ × ℤ) → Option ℤ
find id [] = none
find id ((k, n) ∷ rest) = if eqb_ℤ k id then some n else find id rest

-- Writing the entry of an id: the one that is there, or else a new one.
put : ℤ → ℤ → List (ℤ × ℤ) → List (ℤ × ℤ)
put id v [] = (id, v) ∷ []
put id v ((k, n) ∷ rest) = if eqb_ℤ k id then (k, v) ∷ rest else (k, n) ∷ put id v rest

times : Option ℤ → ℤ
times none = pos 0
times (some n) = n

unfoldable pub get_join_times : ℤ → JoinTimesMgr → ℤ
unfolding find times
get_join_times id m = times (find id m.player_map)

-- A new day clears the map.
new_day : ℕ → JoinTimesMgr → JoinTimesMgr
unfolding is_same_day
new_day cur m =
    if not (is_same_day m.last_times cur) then record { player_map = []; last_times = cur } else m

unfoldable pub inc_join_times : ℕ → ℤ → JoinTimesMgr → JoinTimesMgr
unfolding new_day find put
inc_join_times cur id m =
    let today = new_day cur m in
    record today {
      player_map = elim (find id today.player_map) [
        | some n ↦ put id (to_int32 (n +ℤ pos 1)) today.player_map
        | none ↦ put id (pos 1) today.player_map
      ];
    }
