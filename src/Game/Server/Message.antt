-- ===== src/Game/Server/Message.antt =====
-- What the battleground server does with a packet: `onKaBuMessage` and `login` of LoongBgSrv.cc, and the timer that closes
-- idle connections. `none` is an access out of range in the packet.
use cpp_game_frame.Prelude.{
  ℕ, ◌+◌, ◌-◌, ◌%◌, Bool, true, false, not, Option, none, some, List, [], ◌∷◌, ◌++◌, ltb, ◌==◌,
  if◌then◌else◌, ◌>>=◌,
}
use cpp_game_frame.Prelude.Int.{ℤ, pos, negsuc, signed32, bits32, ltb_ℤ, leb_ℤ}
use cpp_game_frame.Kabu.Packet.{Packet, of_op, get_op, set_op, get_int32, get_utf, put_int32}
use cpp_game_frame.Game.Note.{op_login_request, op_ping_request, op_login, op_ping}
use cpp_game_frame.Game.JoinTimes.{get_join_times}
use cpp_game_frame.Game.Server.{
  Online, BgClient, Players, LoongBgSrv, get_context, erase_client, has_bg_player, c_string,
  same_text, max_join_times, send, send_all, close_con,
}

-- What a login says.
pub record Login : Type 0 where
  pub player_id : ℤ
  pub player_name : List ℕ
  pub role_type : ℤ
  pub times : ℤ
  pub token : List ℕ

-- The reads of `login`; the inner `none` is the answer false of `getUTF`. A text ends at its first zero, at the latest
-- at the one that getUTF puts behind it.
unfoldable pub read_login : Packet → Option (Option Login)
read_login pb = do
  (id, p) ← get_int32 pb
  (name, q) ← get_utf (pos 127) p
  elim name [
    | none ↦ some none
    | some player_name ↦ do
      (role, r) ← get_int32 q
      (times, t) ← get_int32 r
      (text, u) ← get_utf (pos 99) t
      elim text [
        | none ↦ some none
        | some token ↦ some (
            some (record {
              player_id = signed32 id;
              player_name = c_string player_name;
              role_type = signed32 role;
              times = signed32 times;
              token = c_string token;
            }))
      ]
  ]

abbrev pub set_player : ℕ → Online → List BgClient → List BgClient
set_player con p [] = []
set_player con p (c ∷ cs) =
    if c.con == con then record c { player = some p } ∷ cs else c ∷ set_player con p cs

-- The answer to a login.
unfoldable pub login_answer : ℤ → Option Packet
login_answer code = put_int32 (bits32 code) (of_op op_login 0)

-- The limits of the configuration.
pub record Limits : Type 0 where
  pub min_limit : ℕ
  pub max_limit : ℕ

-- The client that has sent something goes to the end of the list, and its packets are counted.
unfoldable pub noted : ℕ → BgClient → BgClient
noted timestamp c =
    if ltb (timestamp - c.last_sec_packets) 1000000
    then record c {
      last_recv = timestamp;
      last_seconds_packets = (c.last_seconds_packets + 1) % 4294967296;
    }
    else record c { last_recv = timestamp; last_sec_packets = timestamp; last_seconds_packets = 1 }

unfoldable pub moved : BgClient → List BgClient → List BgClient
moved c cs = erase_client c.con cs ++ (c ∷ [])

module _ {W : Type 0} (players : Players W) where
  unfoldable pub closing :
      ℕ → LoongBgSrv W × List (ℕ × Packet) → Option (LoongBgSrv W × List (ℕ × Packet))
  closing con (s, sends) =
      let (closed, more) = close_con players con s in some (closed, sends ++ more)

  -- The loop of `onTimer` over the list, from its first client on.
  unfoldable pub close_idle : ℕ → List BgClient → LoongBgSrv W → LoongBgSrv W × List (ℕ × Packet)
  close_idle now [] s = (s, [])
  close_idle now (c ∷ cs) s =
      let (closed, sends) = close_con players c.con s in
      let (after, more) = close_idle now cs closed in
      if ltb 30000000 (now - c.last_recv) then (after, sends ++ more) else (s, [])

  unfoldable pub on_timer : ℕ → LoongBgSrv W → LoongBgSrv W × List (ℕ × Packet)
  on_timer now s = close_idle now s.clients s

module _ {W : Type 0} (players : Players W) (token_of : ℤ → List ℕ → ℤ → ℤ → List ℕ) where
  -- `login` once the packet is read: whether the connection stays, and what is sent.
  unfoldable pub log_in :
      Login → ℕ → LoongBgSrv W → Option (Bool × LoongBgSrv W × List (ℕ × Packet))
  unfolding login_answer
  log_in l con s =
      if not (same_text (token_of l.player_id l.player_name l.role_type l.times) l.token)
      then some (false, s, [])
      else let join_times = get_join_times l.player_id s.join_times in
        if leb_ℤ max_join_times join_times
        then (do op ← login_answer (negsuc 1); some (true, send op s, (con, op) ∷ []))
        else if has_bg_player l.player_id s.bg_player_map
        then some (false, s, [])
        else let times = if ltb_ℤ l.times join_times then join_times else l.times in
          let entered = record s {
            world = players.make l.player_id l.player_name l.role_type times con s.world;
            bg_player_map = (l.player_id, con) ∷ s.bg_player_map;
            clients = set_player con (record { id = l.player_id; wait_close = false }) s.clients;
          } in
          elim (get_context con s.clients) [
            | none ↦ some (false, entered, [])
            | some c ↦ do op ← login_answer (pos 0); some (true, send op entered, (con, op) ∷ [])
          ]

  -- What is done with the packet of a client within its limits.
  unfoldable pub dispatch :
      BgClient → Packet → LoongBgSrv W → Option (LoongBgSrv W × List (ℕ × Packet))
  unfolding closing
  dispatch c pb s =
      if get_op pb == op_ping_request
      then (let pong = set_op op_ping pb in some (send pong s, (c.con, pong) ∷ []))
      else if get_op pb == op_login_request
      then (do
        read ← read_login pb
        elim read [
          | none ↦ closing players c.con (s, [])
          | some l ↦ do
            (stays, t, sends) ← log_in l c.con s
            if stays then some (t, sends) else closing players c.con (t, sends)
        ])
      else elim c.player [
        | none ↦ some (s, [])
        | some p ↦
            let (world, sends) = players.on_msg_handler p.id c.con pb s.world in
            some (send_all sends (record s { world = world }), sends)
      ]

  -- `onKaBuMessage`.
  unfoldable pub on_kabu_message :
      Limits → ℕ → Packet → ℕ → LoongBgSrv W → Option (LoongBgSrv W × List (ℕ × Packet))
  unfolding closing
  on_kabu_message limits con pb timestamp s = elim (get_context con s.clients) [
    | none ↦ some (s, [])
    | some old ↦
        let c = noted timestamp old in
        let t = record s {
          clients = moved c s.clients;
          packet_num = (s.packet_num + 1) % 18446744073709551616;
        } in
        if ltb limits.min_limit c.last_seconds_packets
        then (if ltb limits.max_limit c.last_seconds_packets
            then closing players con (t, [])
            else some (t, []))
        else dispatch c pb t
  ]
