-- ===== src/Boss/Server/Tests.antt =====
-- The boss and the encoding of texts on concrete values.
use cpp_game_frame.Prelude.{
  ℕ, ◌+◌, ◌-◌, ◌*◌, ◌≤◌, ◌<◌, ◌≡◌, ◌↔◌, refl, Bool, some, List, [], ◌∷◌, ◌++◌, map, length,
  replicate, leb, arith,
}
use cpp_game_frame.Prelude.Int.{ℤ, pos}
use cpp_game_frame.Net.Buffer.{
  read_int16, read_int32, retrieve, get, peek_int16, peek_int32, retrieve_int16, retrieve_int32,
}
use cpp_game_frame.Kabu.Packet.{Packet, get_op, get_param, get_int32, get_utf}
use cpp_game_frame.Boss.UrlEncode.{url_encode}
use cpp_game_frame.Boss.UrlEncode.Room.{url_encode_fits}
use cpp_game_frame.Boss.HurtMgr.{Player}
use cpp_game_frame.Boss.Server.{
  Effect, put, win_line, BossSrv, new, start, read_hit, c_str, sub_hp, tell_php_top, jiesuan,
  op_update_data, tell_php_boss_elem,
}
use cpp_game_frame.Boss.Server.Once.{begin, next, settle, GivenOnce, rewards_once}
use cpp_game_frame.Boss.Server.Hits.{Stands, IsHit, run_messages, sum, run_messages_add_up}

-- A space is kept; the characters of the list become their hexadecimal digits.
encoded :
    url_encode (b'a' ∷ b' ' ∷ b'&' ∷ b'Z' ∷ []) 128
    ≡ some (b'a' ∷ b' ' ∷ b'%' ∷ b'2' ∷ b'6' ∷ b'Z' ∷ [])
unfolding url_encode
encoded = refl

url_encode_fits_example :
    (((out : List ℕ) × (url_encode (38 ∷ []) 4 ≡ some out)) ↔ ((0 < 4) × (1 * 4 ≤ 4)))
    × ((out : List ℕ) → url_encode (38 ∷ []) 4 ≡ some out → length out + 1 ≤ 4)
url_encode_fits_example = url_encode_fits (38 ∷ []) 4 (omega arith)

-- A hit of player 7, called "a", with this hurt.
abbrev hit_bytes : ℕ → List ℕ
hit_bytes hurt = 7 ∷ 0 ∷ 0 ∷ 0 ∷ 1 ∷ 0 ∷ 97 ∷ hurt ∷ 0 ∷ 0 ∷ 0 ∷ 2 ∷ 0 ∷ 0 ∷ 0 ∷ []

abbrev hit_packet : ℕ → Packet
hit_packet hurt = record {
  head = record { magic = 0; len = 15; op = op_update_data; param = 0 };
  buffer = record { bytes = hit_bytes hurt; reader = 0; writer = 15 };
}

small-IsHit : IsHit (hit_packet 30) 30
unfolding get_op get_param read_hit get_int32 get_utf read_int32 read_int16 get retrieve c_str
    peek_int32 peek_int16 retrieve_int16 retrieve_int32
small-IsHit = record {
  op = refl;
  param = refl;
  hit = record { uid = 7; username = 97 ∷ []; hurtvalue = 30; flag = 2 };
  reads = refl;
  value = refl;
  small = omega arith;
}

big-IsHit : IsHit (hit_packet 90) 90
unfolding get_op get_param read_hit get_int32 get_utf read_int32 read_int16 get retrieve c_str
    peek_int32 peek_int16 retrieve_int16 retrieve_int32
big-IsHit = record {
  op = refl;
  param = refl;
  hit = record { uid = 7; username = 97 ∷ []; hurtvalue = 90; flag = 2 };
  reads = refl;
  value = refl;
  small = omega arith;
}

-- A server whose boss has 100 left.
abbrev started : BossSrv
unfolding new
started = record new { boss_hp = pos 100; init_boss_hp = pos 100; boss_id = 10283 }

started-Stands : Stands 100 started
unfolding new
started-Stands = record {
  hp = refl;
  small = omega arith;
  award = (λ e. cc, λ e. absurd (omega arith));
}

abbrev same_order : List Player → List Player
same_order top = top

abbrev tenth : ℕ → ℤ → Bool
tenth hurt hp = leb 10 hurt

abbrev three_hits : List (Packet × ℕ)
three_hits = (hit_packet 30, 30) ∷ (hit_packet 90, 90) ∷ (hit_packet 30, 30) ∷ []

run_messages_add_up_example :
    (after : BossSrv) × (run_messages same_order tenth (λ i. i) (map (λ h. h.0) three_hits) started
      ≡ some after)
    × Stands (100 - sum (map (λ h. h.1) three_hits)) after
run_messages_add_up_example =
    run_messages_add_up same_order tenth (λ i. i) 100 three_hits started
      (small-IsHit, (big-IsHit, (small-IsHit, tt))) started-Stands

start_example :
    start 10283 (pos 100) 3 new
    ≡ some (record started { boss_elem = 3 }, tell_php_boss_elem (record started { boss_elem = 3 }))
unfolding start new
start_example = refl

abbrev settled : BossSrv × List Effect
settled = jiesuan tenth (λ i. i) 23 40 23 41 (record started { boss_elem = 3 })

rewards_once_example :
    GivenOnce same_order tenth settled.0
      (tell_php_boss_elem (record started { boss_elem = 3 }) ++ settled.1)
rewards_once_example =
    rewards_once same_order tenth
      (next (begin 10283 (pos 100) 3 start_example) (settle (λ i. i) 23 40 23 41))

-- A hurt of 2 ^ 31 or more adds to the hp: 4294967286 is -10.
boss_heals : sub_hp (pos 100) 4294967286 ≡ pos 110
unfolding sub_hp
boss_heals = refl

-- A name of 33 bytes ends the lines about the winners.
winners_end :
    tell_php_top (pos 9) (
      record { uid = 1; hurtvalue = 8; username = 97 ∷ [] }
      ∷ record { uid = 2; hurtvalue = 7; username = replicate 33 97 }
      ∷ record { uid = 3; hurtvalue = 6; username = 98 ∷ [] }
      ∷ [])
    ≡ put (win_line 1 (97 ∷ []) 8 (pos 9)) ∷ []
unfolding tell_php_top url_encode
winners_end = refl
