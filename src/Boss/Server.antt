-- ===== src/Boss/Server.antt =====
-- The server of the boss, game/bosssrv/BossSrv.h and BossSrv.cc. What a call puts into the queue of the
-- thread that tells the web server, sends and broadcasts is its list of effects; a line of the queue
-- is kept as what it says. The values of the configuration, of `random` and of the clock are
-- arguments; that a share of the hurt is worth a reward is a comparison of floats, and a parameter.
pub mod Award
pub mod Once
pub mod Hits
mod Tests
use cpp_game_frame.Prelude.{
  ℕ, suc, ◌+◌, ◌-◌, ◌%◌, Bool, true, false, ◌&&◌, Option, none, some, List, [], ◌∷◌, ◌++◌,
  get_elem?, ltb, leb, ◌==◌, if◌then◌else◌, ◌>>=◌, ◌>>◌, assert,
}
use cpp_game_frame.Prelude.Int.{ℤ, pos, bits32, signed32, ltb_ℤ, leb_ℤ}
use cpp_game_frame.Kabu.Packet.{Packet, get_op, get_param, get_int32, get_utf}
use cpp_game_frame.Game.Note.{Note, int}
use cpp_game_frame.Boss.UrlEncode.{url_encode}
use cpp_game_frame.Boss.HurtMgr.{Player, HurtMgr, add_hurt, serialize_top}
use cpp_game_frame.Boss.HurtMgr

abbrev pub op_update_data : ℕ
op_update_data = 0x123E2A

-- `ThreadParam`: the first three have command 1, the mails 2, the last 3. A top mail names the
-- reward by its index, a mail has the hurt of which it prints the share.
pub data ThreadParam : Type 0 where
  boss_elem_line : (elem : ℕ) (hp : ℤ) → ThreadParam
  hurt_line : (uid hurtvalue : ℕ) (name : List ℕ) (flag : ℕ) (hp : ℤ) → ThreadParam
  win_line : (uid : ℕ) (name : List ℕ) (hurtvalue : ℕ) (hp : ℤ) → ThreadParam
  top_mail : (uid award place : ℕ) → ThreadParam
  mail : (uid hurtvalue : ℕ) (hp : ℤ) → ThreadParam
  stop_line : ThreadParam

pub data Effect : Type 0 where
  put : ThreadParam → Effect
  broad_msg : Note → Effect
  send_note : Note → Effect
  send : Packet → Effect
  quit : Effect

-- `is_jiesuan` and `shutdown` are static variables.
pub record BossSrv : Type 0 where
  pub have_award : Bool
  pub update_flag : Bool
  pub boss_id : ℕ
  pub boss_hp : ℤ
  pub boss_elem : ℕ
  pub init_boss_hp : ℤ
  pub boss_hurt_mgr : HurtMgr
  pub is_jiesuan : Bool
  pub shutdown : Bool

unfoldable pub new : BossSrv
new = record {
  have_award = false;
  update_flag = false;
  boss_id = 0;
  boss_hp = pos 0;
  boss_elem = 0;
  init_boss_hp = pos 1;
  boss_hurt_mgr = HurtMgr.new;
  is_jiesuan = false;
  shutdown = false;
}

unfoldable pub update_hp : BossSrv → BossSrv × List Effect
update_hp s =
    if s.update_flag
    then (
      record s { update_flag = false },
      broad_msg (record {
        op = op_update_data;
        param = pos 2;
        words = int (if ltb_ℤ s.boss_hp (pos 0) then pos 0 else s.boss_hp) ∷ [];
      })
          ∷ [],
    )
    else (s, [])

unfoldable pub on_connection : Bool → BossSrv → List Effect
on_connection connected s =
    if connected
    then send_note (record {
      op = op_update_data;
      param = pos 1;
      words = int (pos s.boss_id) ∷ int s.boss_hp ∷ int (pos s.boss_elem) ∷ int s.init_boss_hp ∷ [];
    })
      ∷ []
    else []

unfoldable pub tell_php_boss_elem : BossSrv → List Effect
tell_php_boss_elem s = put (boss_elem_line s.boss_elem s.init_boss_hp) ∷ []

unfoldable pub tell_php_player_hurt : ℕ → ℕ → List ℕ → ℕ → BossSrv → List Effect
tell_php_player_hurt uid hurt username flag s = elim (url_encode username 128) [
  | none ↦ []
  | some name ↦ put (hurt_line uid hurt name flag s.init_boss_hp) ∷ []
]

-- A name that cannot be encoded ends the whole function.
unfoldable pub tell_php_top : ℤ → List Player → List Effect
tell_php_top hp [] = []
tell_php_top hp (x ∷ xs) = elim (url_encode x.username 128) [
  | none ↦ []
  | some name ↦ put (win_line x.uid name x.hurtvalue hp) ∷ tell_php_top hp xs
]

-- The mails to the players of the board; `random i` is the value for the i-th.
unfoldable pub top_mails : (ℕ → ℕ) → ℕ → List Player → List Effect
top_mails random i [] = []
top_mails random i (x ∷ xs) =
    put (top_mail x.uid (random i % 5) (i + 1)) ∷ top_mails random (i + 1) xs

-- The bytes of a text in C: those before the first zero.
unfoldable pub c_str : List ℕ → List ℕ
c_str [] = []
c_str (c ∷ cs) = if c == 0 then [] else c ∷ c_str cs

-- A message about a hit: the player, his name, the hurt and a flag.
pub record Hit : Type 0 where
  pub uid : ℕ
  pub username : List ℕ
  pub hurtvalue : ℕ
  pub flag : ℕ

-- The reads of the message, `none` inside if the name cannot be read.
unfoldable pub read_hit : Packet → Option (Option Hit)
read_hit pb = do
  (uid, p) ← get_int32 pb
  (text, q) ← get_utf (pos 512) p
  elim text [
    | none ↦ some none
    | some username ↦ do
      (hurt, r) ← get_int32 q
      (flag, t) ← get_int32 r
      some (some (record { uid = uid; username = c_str username; hurtvalue = hurt; flag = flag }))
  ]

-- `bossHp_ -= hurtValue` of an `int32` and a `uint32`.
unfoldable pub sub_hp : ℤ → ℕ → ℤ
sub_hp hp hurt = signed32 ((bits32 hp + 4294967296 - hurt) % 4294967296)

module _ (deserves : ℕ → ℤ → Bool) where
  -- The mails to all who have done enough.
  unfoldable pub mails : ℤ → List (ℕ × ℕ) → List Effect
  mails hp [] = []
  mails hp ((uid, hurt) ∷ rest) =
      (if deserves hurt hp then put (mail uid hurt hp) ∷ [] else []) ++ mails hp rest

  unfoldable pub awards : (ℕ → ℕ) → ℤ → HurtMgr → List Effect
  awards random hp m =
      top_mails random 0 m.top_players ++ (mails hp m.player_map ++ tell_php_top hp m.top_players)

  unfoldable pub tell_php_act_over : (ℕ → ℕ) → BossSrv → BossSrv × List Effect
  tell_php_act_over random s =
      if s.have_award
      then (s, [])
      else (record s { have_award = true }, awards random s.init_boss_hp s.boss_hurt_mgr)

  -- The settlement at a time of the day, for the hour and minute of the configuration.
  unfoldable pub jiesuan : (ℕ → ℕ) → ℕ → ℕ → ℕ → ℕ → BossSrv → BossSrv × List Effect
  jiesuan random hour minutes tm_hour tm_min s =
      if s.is_jiesuan
      then (s, [])
      else if (tm_hour == hour) && leb minutes tm_min
      then (let (over, rewards) = tell_php_act_over random s in
          (record over { is_jiesuan = true }, rewards))
      else (s, [])

  unfoldable pub stop : (ℕ → ℕ) → BossSrv → BossSrv × List Effect
  stop random s =
      let (over, rewards) = tell_php_act_over random s in (over, rewards ++ (put stop_line ∷ []))

module _ (sort : List Player → List Player) (deserves : ℕ → ℤ → Bool) where
  -- The branch of `onKaBuMessage` for a hit that has been read.
  unfoldable pub on_hit : (ℕ → ℕ) → Hit → BossSrv → BossSrv × List Effect
  on_hit random h s =
      let told = tell_php_player_hurt h.uid h.hurtvalue h.username h.flag s in
      let hp = sub_hp s.boss_hp h.hurtvalue in
      let hit = record s {
        boss_hurt_mgr = add_hurt sort h.uid h.hurtvalue h.username s.boss_hurt_mgr;
        boss_hp = hp;
        update_flag = true;
      } in
      if leb_ℤ hp (pos 0)
      then (let (shown, broad) = update_hp hit in
          let (over, rewards) =
            tell_php_act_over deserves random (record shown { boss_hp = pos 0 }) in
          (over, told ++ (broad ++ rewards)))
      else (hit, told)

  unfoldable pub on_message : (ℕ → ℕ) → Packet → BossSrv → Option (BossSrv × List Effect)
  on_message random pb s =
      if get_op pb == op_update_data
      then (if get_param pb == 0
          then (if leb_ℤ s.boss_hp (pos 0) then some (s, []) else do
            read ← read_hit pb
            elim read [ none ↦ some (s, []) | some h ↦ some (on_hit random h s) ])
          else if get_param pb == 3
          then (do reply ← serialize_top s.boss_hurt_mgr pb; some (s, send reply ∷ []))
          else some (s, []))
      else some (s, [])

-- The elements that a boss can have.
elements : List ℕ
elements = 0 ∷ 1 ∷ 2 ∷ 3 ∷ 4 ∷ 5 ∷ 6 ∷ 7 ∷ 9 ∷ 10 ∷ 11 ∷ 12 ∷ 13 ∷ []

-- `start`, with the number and hp of the configuration and one value of `random`.
unfoldable pub start : ℕ → ℤ → ℕ → BossSrv → Option (BossSrv × List Effect)
unfolding elements
start id hp random s = do
  assert (leb_ℤ (pos 0) hp)
  elem ← get_elem? elements (random % 13)
  let started = record s { boss_id = id; boss_hp = hp; init_boss_hp = hp; boss_elem = elem }
  some (started, tell_php_boss_elem started)

unfoldable pub sigterm_handler : BossSrv → BossSrv
sigterm_handler s = record s { shutdown = true }

unfoldable pub tick_me : BossSrv → List Effect
tick_me s = if s.shutdown then quit ∷ [] else []

-- The thread takes lines and loads their addresses until the one that stops it.
unfoldable pub php_thread_handler : List ThreadParam → List ThreadParam
php_thread_handler [] = []
php_thread_handler (stop_line ∷ rest) = []
php_thread_handler (line ∷ rest) = line ∷ php_thread_handler rest
