-- ===== src/Game/Server.antt =====
-- The battleground server, game/LoongBgSrv/LoongBgSrv.h and LoongBgSrv.cc: its connections, its limits and the login.
-- Times are microseconds. A client is the context of its connection as long as it is in the list; what the players do
-- is an interface, and what MD5String answers for the text of a login is a parameter.
pub mod Message
pub mod Counts
pub mod Walk
pub mod Held
pub mod Once
pub mod Lost
pub mod Idle
pub mod Steps
mod Tests
use cpp_game_frame.Prelude.{
  ℕ, ◌+◌, ◌-◌, ◌%◌, Bool, true, false, not, ◌&&◌, Option, none, some, List, [], ◌∷◌, ◌++◌, ltb,
  ◌==◌, if◌then◌else◌, ◌>>=◌,
}
use cpp_game_frame.Prelude.Int.{ℤ, pos, negsuc, signed32, bits32, ltb_ℤ, leb_ℤ, eqb_ℤ}
use cpp_game_frame.Kabu.Packet.{
  Packet, of_op, get_op, set_op, get_int32, get_utf, put_int32, get_content_len,
}
use cpp_game_frame.Game.Note.{op_login_request, op_ping_request, op_login, op_ping}
use cpp_game_frame.Game.JoinTimes.{JoinTimesMgr, get_join_times}

-- A player that has logged in, as far as the server looks at it; nothing sets the flag.
pub record Online : Type 0 where
  pub id : ℤ
  pub wait_close : Bool

pub record BgClient : Type 0 where
  pub con : ℕ
  pub last_recv : ℕ
  pub player : Option Online
  pub last_sec_packets : ℕ
  pub last_seconds_packets : ℕ

-- What the players and the battlegrounds do with a world of their own: a new player, a message for a player, and the
-- end of a player; the packets are sent on the connections with these numbers.
pub record Players (W : Type 0) : Type 0 where
  pub make : ℤ → List ℕ → ℤ → ℤ → ℕ → W → W
  pub on_msg_handler : ℤ → ℕ → Packet → W → W × List (ℕ × Packet)
  pub close_player : ℤ → ℕ → W → W × List (ℕ × Packet)

-- The clients are in the order of the list, the players by id with their connections.
pub record LoongBgSrv (W : Type 0) : Type 0 where
  pub clients : List BgClient
  pub bg_player_map : List (ℤ × ℕ)
  pub join_times : JoinTimesMgr
  pub packet_num : ℕ
  pub tmp_transferred : ℕ
  pub transferred : ℕ
  pub world : W

abbrev head_size : ℕ
head_size = 12

abbrev pub max_join_times : ℤ
max_join_times = pos 5

unfoldable pub get_context : ℕ → List BgClient → Option BgClient
get_context con [] = none
get_context con (c ∷ cs) = if c.con == con then some c else get_context con cs

unfoldable pub erase_client : ℕ → List BgClient → List BgClient
erase_client con [] = []
erase_client con (c ∷ cs) = if c.con == con then cs else c ∷ erase_client con cs

unfoldable pub has_bg_player : ℤ → List (ℤ × ℕ) → Bool
has_bg_player id [] = false
has_bg_player id ((k, con) ∷ rest) = if eqb_ℤ k id then true else has_bg_player id rest

unfoldable pub erase_player : ℤ → List (ℤ × ℕ) → List (ℤ × ℕ)
erase_player id [] = []
erase_player id ((k, con) ∷ rest) = if eqb_ℤ k id then rest else (k, con) ∷ erase_player id rest

-- A text in C ends before its first zero.
abbrev c_string : List ℕ → List ℕ
c_string [] = []
c_string (x ∷ xs) = let rest = c_string xs in if x == 0 then [] else x ∷ rest

abbrev pub same_text : List ℕ → List ℕ → Bool
same_text [] [] = true
same_text (x ∷ xs) (y ∷ ys) = x == y && same_text xs ys
same_text _ _ = false

-- An `int16` where 64 bits without a sign are wanted.
unfoldable pub wide : ℕ → ℕ
wide len = if ltb len 32768 then len else len + 18446744073709486080

module _ {W : Type 0} where
  unfoldable pub new : JoinTimesMgr → W → LoongBgSrv W
  new joins world = record {
    clients = [];
    bg_player_map = [];
    join_times = joins;
    packet_num = 0;
    tmp_transferred = 0;
    transferred = 0;
    world = world;
  }

  -- `send`: the statistics, in 64 bits; the packet goes to the codec.
  unfoldable pub send : Packet → LoongBgSrv W → LoongBgSrv W
  unfolding wide
  send pb s = record s {
    tmp_transferred =
        (s.tmp_transferred + wide (get_content_len pb) + head_size) % 18446744073709551616;
  }

  unfoldable pub send_all : List (ℕ × Packet) → LoongBgSrv W → LoongBgSrv W
  unfolding send
  send_all [] s = s
  send_all ((con, pb) ∷ rest) s = send_all rest (send pb s)

  unfoldable pub on_write_complete : LoongBgSrv W → LoongBgSrv W
  on_write_complete s = record s {
    transferred = (s.transferred + s.tmp_transferred) % 18446744073709551616;
    tmp_transferred = 0;
  }

  unfoldable pub print_throughput : LoongBgSrv W → LoongBgSrv W
  print_throughput s = record s { transferred = 0; packet_num = 0 }

  -- The branch of `onConnectionCallback` for a new connection.
  unfoldable pub on_connected : ℕ → ℕ → LoongBgSrv W → LoongBgSrv W
  on_connected now con s = record s {
    clients =
        s.clients
        ++ (record {
          con = con;
          last_recv = now;
          player = none;
          last_sec_packets = now;
          last_seconds_packets = 0;
        }
            ∷ []);
  }

module _ {W : Type 0} (players : Players W) where
  -- The end of the player of a client.
  unfoldable pub drop_player : ℕ → Option Online → LoongBgSrv W → LoongBgSrv W × List (ℕ × Packet)
  unfolding send_all
  drop_player con none s = (s, [])
  drop_player con (some p) s =
      let map = if not p.wait_close then erase_player p.id s.bg_player_map else s.bg_player_map in
      let (world, sends) = players.close_player p.id con s.world in
      (send_all sends (record s { bg_player_map = map; world = world }), sends)

  -- The branch for a connection that is down.
  unfoldable pub on_disconnected : ℕ → LoongBgSrv W → LoongBgSrv W × List (ℕ × Packet)
  unfolding drop_player
  on_disconnected con s = elim (get_context con s.clients) [
    | none ↦ (s, [])
    | some c ↦ drop_player con c.player (record s { clients = erase_client con s.clients })
  ]

  -- `TcpConnection::close` calls back at once.
  unfoldable pub close_con : ℕ → LoongBgSrv W → LoongBgSrv W × List (ℕ × Packet)
  unfolding on_disconnected
  close_con con s = on_disconnected con s
