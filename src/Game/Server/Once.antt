-- ===== src/Game/Server/Once.antt =====
-- At any time, whatever came before: one entry and one client for each player at most.
use cpp_game_frame.Prelude.{ℕ, ◌≤◌, List, arith}
use cpp_game_frame.Prelude.Int.{ℤ}
use cpp_game_frame.Game.JoinTimes.{JoinTimesMgr}
use cpp_game_frame.Game.Server.{Players, LoongBgSrv, new}
use cpp_game_frame.Game.Server.Steps.{Later}
use cpp_game_frame.Game.Server.Counts.{count, entries}
use cpp_game_frame.Game.Server.Held.{Later-Onward}

module _ {W : Type 0} where
  abbrev pub IsHeld : ℤ → LoongBgSrv W → Type 0
  IsHeld id s = (entries id s.bg_player_map ≤ 1) × (count id s.clients ≤ entries id s.bg_player_map)

  -- Whatever has happened since the server was started - connections and their ends, packets of any
  -- content, calls of onTimer, in any order at times that do not go back - each id stands in the map
  -- of players once at most, and at most as many clients play with an id as it has entries: no two
  -- clients play with the same id, and the player of every client is in the map.
  pub Later-IsHeld :
      (players : Players W) (token_of : ℤ → List ℕ → ℤ → ℤ → List ℕ) (joins : JoinTimesMgr)
      (world : W) (t : ℕ) (s : LoongBgSrv W)
      → Later players token_of 0 (new joins world) t s
      → (id : ℤ) → IsHeld id s
  unfolding new
  Later-IsHeld players token_of joins world t s history id =
      let (one, held, lost) =
        Later-Onward id players token_of history (omega arith) (omega arith) in
      (one, held)
