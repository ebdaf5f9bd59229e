-- ===== src/Game/Note.antt =====
-- The packets that the server sends to its clients, game/LoongBgSrv/protocol/GameProtocol.h: the
-- operation, the parameter and the words and texts of the content.
use cpp_game_frame.Prelude.{ℕ, List}
use cpp_game_frame.Prelude.Int.{ℤ}

pub data Word : Type 0 where
  int : ℤ → Word
  utf : List ℕ → Word

pub record Note : Type 0 where
  pub op : ℕ
  pub param : ℤ
  pub words : List Word

abbrev pub op_enter_battle : ℕ
op_enter_battle = 0x00140002

abbrev pub op_add_buf : ℕ
op_add_buf = 0x0014000C

abbrev pub op_remove_buf : ℕ
op_remove_buf = 0x0014000D

abbrev pub op_on_hurt : ℕ
op_on_hurt = 0x0014000E

abbrev pub op_pickup_item : ℕ
op_pickup_item = 0x00140011

abbrev pub op_tellclient_state : ℕ
op_tellclient_state = 0x00140013

abbrev pub op_drop_item : ℕ
op_drop_item = 0x00140014

abbrev pub op_pet_dead : ℕ
op_pet_dead = 0x00140016

abbrev pub op_member_insufficient : ℕ
op_member_insufficient = 0x0014001A

abbrev pub op_plant_flower : ℕ
op_plant_flower = 0x0014001B

abbrev pub op_get_title : ℕ
op_get_title = 0x0014001C

abbrev pub op_disappear_flower : ℕ
op_disappear_flower = 0x0014001D

abbrev pub op_settlement : ℕ
op_settlement = 0x00140019

abbrev pub op_add_player : ℕ
op_add_player = 0x00140007

abbrev pub op_remove_player : ℕ
op_remove_player = 0x00140008

abbrev pub op_get_battleground_award : ℕ
op_get_battleground_award = 0x00201A07

abbrev pub op_use_item : ℕ
op_use_item = 0x00140012

abbrev pub op_add_hp : ℕ
op_add_hp = 0x00140017

abbrev pub op_alert_code : ℕ
op_alert_code = 0x00140015

abbrev pub op_use_skill : ℕ
op_use_skill = 0x0014000B

abbrev pub op_login_request : ℕ
op_login_request = 0x00120001

abbrev pub op_ping_request : ℕ
op_ping_request = 0x00120018

abbrev pub op_login : ℕ
op_login = 0x00140001

abbrev pub op_ping : ℕ
op_ping = 0x00140018
