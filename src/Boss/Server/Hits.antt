-- ===== src/Boss/Server/Hits.antt =====
-- The hp of the boss under the hits of the players.
use mathlib.Core.Path.{subst}
use cpp_game_frame.Prelude.{
  ℕ, zero, suc, ◌+◌, ◌-◌, ◌<◌, ◌≡◌, refl, ap, ◌∙◌, ◌↔◌, Bool-cases, inl, inr, Bool, true, false,
  Option, some, List, [], ◌∷◌, leb, if◌then◌else◌, ◌>>=◌, map, arith,
}
use cpp_game_frame.Prelude.Int.{ℤ, pos, negsuc, leb_ℤ}
use cpp_game_frame.Kabu.Packet.{Packet, get_op, get_param}
use cpp_game_frame.Boss.HurtMgr.{Player}
use cpp_game_frame.Boss.HurtMgr.Order.{All}
use cpp_game_frame.Boss.Server.{
  Effect, BossSrv, Hit, op_update_data, tell_php_act_over, read_hit, sub_hp, on_hit, on_message,
}

pub sum : List ℕ → ℕ
sum [] = 0
sum (x ∷ xs) = x + sum xs

-- Subtraction from a positive hp of a hurt below 2 ^ 31 does not wrap.
sub_hp_lem :
    (n hurt : ℕ)
    → n < 2147483648
    → hurt < 2147483648
    → sub_hp (pos n) hurt ≡ (if leb hurt n then pos (n - hurt) else negsuc (hurt - n - 1))
unfolding sub_hp
sub_hp_lem n hurt h k = ground arith

-- The boss has this hp left, and the rewards have been given if it is dead and only then.
pub record Stands (n : ℕ) (s : BossSrv) : Type 0 where
  pub hp : s.boss_hp ≡ pos n
  pub small : n < 2147483648
  pub award : (s.have_award ≡ true) ↔ (n ≡ 0)

-- A packet that is read as a hit of that hurt, which is below 2 ^ 31.
pub record IsHit (pb : Packet) (hurt : ℕ) : Type 0 where
  pub op : get_op pb ≡ op_update_data
  pub param : get_param pb ≡ 0
  pub hit : Hit
  pub reads : read_hit pb ≡ some (some hit)
  pub value : hit.hurtvalue ≡ hurt
  pub small : hurt < 2147483648

module _ (sort : List Player → List Player) (deserves : ℕ → ℤ → Bool) (random : ℕ → ℕ) where
  have_award-over : (s : BossSrv) → (tell_php_act_over deserves random s).0.have_award ≡ true
  unfolding tell_php_act_over
  have_award-over s = ground arith

  boss_hp-over : (s : BossSrv) → (tell_php_act_over deserves random s).0.boss_hp ≡ s.boss_hp
  unfolding tell_php_act_over
  boss_hp-over s = ground arith

  on_hit-Stands :
      (n : ℕ) (h : Hit) (s : BossSrv)
      → h.hurtvalue < 2147483648
      → 0 < n
      → Stands n s
      → Stands (n - h.hurtvalue) (on_hit sort deserves random h s).0
  unfolding on_hit
  on_hit-Stands n h s k a v = elim (Bool-cases (leb_ℤ (sub_hp s.boss_hp h.hurtvalue) (pos 0))) [
    | inl dies ↦ rw dies (record {
      hp = boss_hp-over _ ∙ ground (arith, left, dies);
      small = omega (arith, v.small);
      award = (λ e. ground (arith, left, dies), λ e. have_award-over _);
    })
    | inr lives ↦
        let more : h.hurtvalue < n = ground (arith, left, lives) in
        simp lives (record {
          hp = left ∙ ground arith;
          small = omega (arith, v.small);
          award = (λ e. absurd (omega (arith, v.award.0 e)), λ e. absurd (omega arith));
        })
  ]
    where
      left :
          sub_hp s.boss_hp h.hurtvalue
          ≡ (if leb h.hurtvalue n then pos (n - h.hurtvalue) else negsuc (h.hurtvalue - n - 1))
      left = ap (λ z. sub_hp z h.hurtvalue) v.hp ∙ sub_hp_lem n h.hurtvalue v.small k

  on_message-Stands :
      (n hurt : ℕ) (pb : Packet) (s : BossSrv)
      → IsHit pb hurt
      → Stands n s
      → (r : BossSrv × List Effect) × (on_message sort deserves random pb s ≡ some r)
        × Stands (n - hurt) r.0
  unfolding on_message
  on_message-Stands zero hurt pb s i v =
      let dead : leb_ℤ s.boss_hp (pos 0) ≡ true = ap (λ z. leb_ℤ z (pos 0)) v.hp in
      (
        (s, []),
        rw (i.op, i.param, dead),
        record {
          hp = v.hp ∙ ap pos (omega arith);
          small = omega arith;
          award = (λ e. omega arith, λ e. v.award.1 refl);
        },
      )
  on_message-Stands (suc n) hurt pb s i v =
      let alive : leb_ℤ s.boss_hp (pos 0) ≡ false = ap (λ z. leb_ℤ z (pos 0)) v.hp ∙ ground arith in
      (
        on_hit sort deserves random i.hit s,
        rw (i.op, i.param, alive, i.reads),
        subst (λ k. Stands (suc n - k) (on_hit sort deserves random i.hit s).0) i.value
            (on_hit-Stands (suc n) i.hit s (rw i.value i.small) (omega arith) v),
      )

  -- The messages one after the other.
  unfoldable pub run_messages : List Packet → BossSrv → Option BossSrv
  run_messages [] s = some s
  run_messages (pb ∷ pbs) s = do
    (after, es) ← on_message sort deserves random pb s
    run_messages pbs after

  -- For a boss with some hp left, dead exactly if the rewards are given, and any sequence of
  -- messages that are read as hits, each below 2^31: all of them are answered, the hp afterwards is
  -- what the sum of the hurts leaves of it, 0 if that is more, and the rewards have been given
  -- exactly if nothing is left.
  pub run_messages_add_up :
      (n : ℕ) (hits : List (Packet × ℕ)) (s : BossSrv)
      → All (λ h. IsHit h.0 h.1) hits
      → Stands n s
      → (after : BossSrv) × (run_messages (map (λ h. h.0) hits) s ≡ some after)
        × Stands (n - sum (map (λ h. h.1) hits)) after
  unfolding run_messages sum
  run_messages_add_up n [] s h v = (s, refl, subst (λ k. Stands k s) (omega arith) v)
  run_messages_add_up n ((pb, hurt) ∷ hits) s h v =
      let (r, e, w) = on_message-Stands n hurt pb s h.0 v in
      let (after, f, x) = run_messages_add_up (n - hurt) hits r.0 h.1 w in
      (after, rw e f, subst (λ k. Stands k after) (omega arith) x)
