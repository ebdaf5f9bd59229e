-- ===== src/Game/Server/Tests.antt =====
-- Witnesses for the battleground server: a client that has logged in as player 0 and logs in again as player 1.
use cpp_game_frame.Prelude.{ℕ, ◌+◌, ◌≡◌, refl, true, false, some, List, [], ◌∷◌, replicate, arith}
use cpp_game_frame.Prelude.Int.{ℤ, pos}
use cpp_game_frame.Net.Buffer
use cpp_game_frame.Net.Buffer.{
  Buffer, read_int32, read_int16, peek_int32, peek_int16, get, retrieve, append, append_int32,
}
use cpp_game_frame.Kabu.Packet.{
  Packet, of_op, get_op, get_int32, get_int16, get_utf, put_int32, get_content_len,
}
use cpp_game_frame.Game.Note.{op_login_request}
use cpp_game_frame.Game.JoinTimes.{JoinTimesMgr, get_join_times}
use cpp_game_frame.Game.Server.{
  BgClient, Players, LoongBgSrv, new, get_context, erase_client, has_bg_player, wide, on_connected,
  send,
}
use cpp_game_frame.Game.Server.Message.{
  Login, Limits, read_login, login_answer, log_in, moved, noted, dispatch, on_kabu_message,
  on_timer,
}
use cpp_game_frame.Game.Server.Steps.{Later, connects, says, now, after}
use cpp_game_frame.Game.Server.Once.{IsHeld, Later-IsHeld}
use cpp_game_frame.Game.Server.Lost.{IsLost, second_login_loses}
use cpp_game_frame.Game.Server.Idle.{on_timer-recent}

abbrev nobody : Players ℕ
nobody = record {
  make = λ id name role times con world. world + 1;
  on_msg_handler = λ id con pb world. (world, []);
  close_player = λ id con world. (world, []);
}

abbrev no_token : ℤ → List ℕ → ℤ → ℤ → List ℕ
no_token id name role times = []

abbrev no_joins : JoinTimesMgr
no_joins = record { player_map = []; last_times = 0 }

abbrev limits : Limits
limits = record { min_limit = 10; max_limit = 20 }

-- Player 0, without a name, a role, a count and a token.
abbrev login_packet : Packet
login_packet = record {
  head = record { magic = 21316; len = 28; op = op_login_request; param = 0 };
  buffer = record { bytes = replicate 28 0; reader = 12; writer = 28 };
}

abbrev idle_server : LoongBgSrv ℕ
unfolding new on_connected
idle_server = on_connected 5 7 (new no_joins 0)

abbrev playing : BgClient
playing = record {
  con = 7;
  last_recv = 9;
  player = some (record { id = pos 0; wait_close = false });
  last_sec_packets = 5;
  last_seconds_packets = 1;
}

abbrev entered : LoongBgSrv ℕ
unfolding idle_server new on_connected
entered = record idle_server {
  clients = playing ∷ [];
  bg_player_map = (pos 0, 7) ∷ [];
  packet_num = 1;
  tmp_transferred = 16;
  world = 1;
}

history : Later nobody no_token 0 (new no_joins 0) 9 entered
unfolding entered idle_server new on_connected on_kabu_message get_context erase_client noted moved
    dispatch get_op read_login get_int32 get_utf get_int16 Buffer.retrieve_int32
    Buffer.retrieve_int16 log_in get_join_times has_bg_player login_answer send wide put_int32 of_op
    get_content_len Buffer.new read_int32 read_int16 peek_int32 peek_int16 get retrieve append
    append_int32
history =
    after 5 9 idle_server entered
      (after 0 5 (new no_joins 0) idle_server now (connects 0 5 (new no_joins 0) 7 (omega arith)))
      (says 5 9 idle_server entered limits 7 login_packet _ (omega arith) refl)

Later-IsHeld_example : IsHeld (pos 0) entered
Later-IsHeld_example = Later-IsHeld nobody no_token no_joins 0 9 entered history (pos 0)

abbrev second_login : Login
second_login = record {
  player_id = pos 1;
  player_name = [];
  role_type = pos 0;
  times = pos 0;
  token = [];
}

abbrev as_second : LoongBgSrv ℕ
unfolding entered
as_second = record entered {
  clients = record playing { player = some (record { id = pos 1; wait_close = false }) } ∷ [];
  bg_player_map = (pos 1, 7) ∷ (pos 0, 7) ∷ [];
  tmp_transferred = 32;
  world = 2;
}

abbrev first_again : Login
first_again = record second_login { player_id = pos 0 }

second_login_loses_example :
    IsLost (pos 0) as_second
    × (log_in nobody no_token first_again 8 as_second ≡ some (false, as_second, []))
unfolding entered as_second get_context log_in get_join_times has_bg_player login_answer send wide
    put_int32 of_op get_content_len Buffer.new append append_int32
second_login_loses_example =
    second_login_loses nobody no_token no_joins 0 9 9 entered as_second as_second second_login 7
      playing (record { id = pos 0; wait_close = false }) true _ first_again 8 history refl refl
      (refl, refl) refl refl now refl (refl, refl)

-- Thirty seconds and a moment later the client is closed.
on_timer-recent_example : (on_timer nobody 30000010 entered).0.clients ≡ []
unfolding entered
on_timer-recent_example = on_timer-recent nobody no_token no_joins 0 9 30000010 entered history
