-- ===== src/Game/Buf/Tests.antt =====
-- Witnesses for damage and buffs: a player with 100 hit points that burns for 7 a second.
use cpp_game_frame.Prelude.{
  ◌+◌, ◌-◌, ◌*◌, ◌/◌, ◌≤◌, ◌≡◌, ◌↔◌, refl, true, false, some, List, [], ◌∷◌, arith,
}
use cpp_game_frame.Prelude.Int.{ℤ, pos, ◌+ℤ◌, eqb_ℤ}
use cpp_game_frame.Game.Note.{Note}
use cpp_game_frame.Game.Base.{BufBase, param, get_buf_base_info}
use cpp_game_frame.Game.Body
use cpp_game_frame.Game.Body.{
  Body, Kind, player, building, black, is_dead, on_hurt, on_buf_hurt, can_skill_hurt,
}
use cpp_game_frame.Game.Body.Hurt.{on_hurt_lem}
use cpp_game_frame.Game.Buf.{
  Buf, burn, Running, Actor, run, run_buf, get_buf, buf_handler, seconds_of,
}
use cpp_game_frame.Game.Buf.Burn.{run_burns, run_buf_total}
use cpp_game_frame.Game.Buf.Apply.{copies, buf_handler_lem}

abbrev hero : Body
unfolding Body.new
hero = record (Body.new player (pos 9) (pos 1) black) { hp = pos 100; max_hp = pos 100 }

abbrev rows : List BufBase
rows = record { id = pos 1; type = pos 2; param_list = pos 7 ∷ pos 5000 ∷ [] } ∷ []

abbrev flames : Buf
flames = record {
  kind = burn;
  buf_id = pos 1;
  wait_del = false;
  tick_time = 1000;
  last_time = 10000;
  buffer_time = pos 15000;
}

abbrev burning : Running
unfolding hero
burning = record { me = hero; buf = flames; notes = [] }

abbrev actor : Actor
unfolding hero
actor = record { body = hero; bufs = flames ∷ [] }

on_hurt_lem_example :
    let (after, notes, killed) = on_hurt (pos 3) (pos 120) (pos 7) (pos 1) hero in
    (after.hp ≡ pos (100 - 120))
    × ((is_dead after ≡ true) ↔ (100 ≤ 120))
    × ((killed ≡ true) ↔ ((hero.kind ≡ player) × (100 ≤ 120)))
unfolding hero Body.new
on_hurt_lem_example = on_hurt_lem (pos 3) (pos 7) (pos 1) 120 100 hero refl (omega arith)

run_burns_example :
    let ticks = (13500 - 10000) / 1000 in
    (s : Running) × (run rows 13500 burning ≡ some s)
    × (s.me ≡ record hero { hp = pos (100 - ticks * 7) })
    × (s.buf.last_time ≡ 10000 + 1000 * ticks)
unfolding hero Body.new burning get_buf_base_info param can_skill_hurt
run_burns_example =
    run_burns rows 13500 7 100 burning refl refl (λ e. cc) refl refl (omega arith) refl
      (omega arith)

run_buf_total_example : (out : Actor × List Note) × (run_buf rows 13500 actor ≡ some out)
run_buf_total_example = run_buf_total rows 13500 actor

buf_handler_lem_example :
    let after = (buf_handler burn rows (pos 1) 12000 actor).0.bufs in
    ((b : Buf) × (get_buf (pos 1) after ≡ some b)
      × (b.last_time ≡ 12000)
      × (b.buffer_time ≡ pos 12000 +ℤ param (get_buf_base_info rows (pos 1)) (seconds_of burn)))
    × (copies (pos 1) after ≡ 1)
    × ((j : ℤ)
        → eqb_ℤ (pos 1) j ≡ false
        → (get_buf j after ≡ get_buf j actor.bufs) × (copies j after ≡ copies j actor.bufs))
unfolding hero Body.new actor
buf_handler_lem_example = buf_handler_lem burn rows (pos 1) 12000 actor (λ e. cc) (omega arith)
