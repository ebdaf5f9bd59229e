-- ===== src/Game/Server/Steps.antt =====
-- What can happen to the battleground server, with the time of the last event.
use cpp_game_frame.Prelude.{ℕ, ◌≤◌, ◌≡◌, some, List}
use cpp_game_frame.Prelude.Int.{ℤ}
use cpp_game_frame.Kabu.Packet.{Packet}
use cpp_game_frame.Game.JoinTimes.{JoinTimesMgr}
use cpp_game_frame.Game.Server.{Players, LoongBgSrv, on_connected, on_disconnected}
use cpp_game_frame.Game.Server.Message.{Limits, on_kabu_message, on_timer}

module _ {W : Type 0} (players : Players W) (token_of : ℤ → List ℕ → ℤ → ℤ → List ℕ) where
  -- The last constructor is what the battlegrounds, the counts of joins and the statistics do.
  pub data Next : ℕ → LoongBgSrv W → ℕ → LoongBgSrv W → Type 0 where
    connects :
        (t now : ℕ) (s : LoongBgSrv W) (con : ℕ) → t ≤ now → Next t s now (on_connected now con s)
    disconnects :
        (t : ℕ) (s : LoongBgSrv W) (con : ℕ) → Next t s t (on_disconnected players con s).0
    says :
        (t now : ℕ) (s s' : LoongBgSrv W) (limits : Limits) (con : ℕ) (pb : Packet)
        (sends : List (ℕ × Packet))
        → t ≤ now
        → on_kabu_message players token_of limits con pb now s ≡ some (s', sends)
        → Next t s now s'
    rings : (t now : ℕ) (s : LoongBgSrv W) → t ≤ now → Next t s now (on_timer players now s).0
    other :
        (t : ℕ) (s : LoongBgSrv W) (world : W) (joins : JoinTimesMgr) (packets tmp total : ℕ)
        → Next t s t (record s {
          world = world;
          join_times = joins;
          packet_num = packets;
          tmp_transferred = tmp;
          transferred = total;
        })

  -- Any number of events.
  pub data Later (t : ℕ) (s : LoongBgSrv W) : ℕ → LoongBgSrv W → Type 0 where
    now : Later t s t s
    after :
        (t' t'' : ℕ) (s' s'' : LoongBgSrv W)
        → Later t s t' s'
        → Next t' s' t'' s''
        → Later t s t'' s''
