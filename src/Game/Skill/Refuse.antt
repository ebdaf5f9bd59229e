-- ===== src/Game/Skill/Refuse.antt =====
-- When a skill is refused, and that nothing happens then.
use cpp_game_frame.Prelude.{
  ℕ, ◌≡◌, refl, Each, Each-if, Each-bind, Each-cases, Each-then, Each-imp, Bool, true, false, not,
  some, List, [], arith,
}
use cpp_game_frame.Prelude.Int.{ℤ, pos_part}
use cpp_game_frame.Game.Base.{SkillBase, get_skill_base_info, check_skill_id}
use cpp_game_frame.Game.Body.{can_skill_hurt, can_buf_hurt}
use cpp_game_frame.Game.Buf.{Actor}
use cpp_game_frame.Game.Battleground.{Effect}
use cpp_game_frame.Game.Skill.Objects.{Field, Ref, actor_at}
use cpp_game_frame.Game.Skill.Strike.{Tables, attack_value, hurt, handle_bufs, strike}
use cpp_game_frame.Game.Skill.{has_skill, can_use_skill, use_skill, on_emit_skill}

abbrev Struck : Bool × Field × List Effect → Type 0
Struck (answer, g, es) = answer ≡ true

-- A blow that comes to an end is a success.
pub strike-Struck :
    (t : Tables) (cur random : ℕ) (skill : SkillBase) (me target : Ref) (f : Field)
    → Each Struck (strike t cur random skill me target f)
unfolding strike
strike-Struck t cur random skill me target f = Each-bind Struck (actor_at me f) _ (λ a.
    Each-bind Struck (actor_at target f) _ (λ b.
      Each-bind Struck (attack_value random skill a.body b.body) _ (λ attack.
        Each-bind Struck (hurt attack skill a.body me target f) _ (λ r.
          Each-bind Struck (actor_at target r.0) _ (λ c.
            Each-if Struck (not (can_buf_hurt c.body)) _ _ refl (
              Each-bind Struck
                (handle_bufs (pos_part skill.buf_num) 0 skill.buf_list t cur attack me target r.0) _
                (λ r'. refl)))))))

-- What an answer says: after a refusal the objects are as before; a success was allowed by every test.
pub record Decided (t : Tables) (cur : ℕ) (id : ℤ) (me target : Ref) (f : Field)
    (r : Bool × Field × List Effect) : Type 0 where
  pub unchanged : r.0 ≡ false → r.1 ≡ f
  pub known : r.0 ≡ true → check_skill_id t.skills id ≡ true
  pub had : r.0 ≡ true → has_skill t id me f ≡ true
  pub open_to_it :
      r.0 ≡ true → (b : Actor) → actor_at target f ≡ some b → can_skill_hurt b.body ≡ true
  pub cool :
      r.0 ≡ true → can_use_skill id (get_skill_base_info t.skills id).cooldown_time cur me f ≡ true

refused :
    (t : Tables) (cur : ℕ) (id : ℤ) (me target : Ref) (f : Field) (es : List Effect)
    → Decided t cur id me target f (false, f, es)
refused t cur id me target f es = record {
  unchanged = λ e. refl;
  known = λ e. cc;
  had = λ e. cc;
  open_to_it = λ e. cc;
  cool = λ e. cc;
}

-- An answer of onEmitSkill after a refusal has left every object as it was; an answer that says
-- that the skill was used was possible only with a known skill that the object has and may use
-- again, on a target that can be hurt.
pub on_emit_skill-Decided :
    (t : Tables) (cur random : ℕ) (id : ℤ) (me target : Ref) (f : Field)
    → Each (Decided t cur id me target f) (on_emit_skill t cur random id me target f)
unfolding on_emit_skill
on_emit_skill-Decided t cur random id me target f =
    Each-cases D (not (check_skill_id t.skills id)) _ _ (λ e. no_use [])
      (λ known.
        Each-cases D (not (has_skill t id me f)) _ _ (λ e. no_use [])
          (λ had. Each-then D (actor_at target f) _ (λ b e.
            Each-cases D (not (can_skill_hurt b.body)) _ _ (λ n. no_use _)
              (λ open_to_it.
                Each-cases D (not (can_use_skill id skill.cooldown_time cur me f)) _ _
                  (λ n. no_use [])
                  (λ cool.
                    Each-imp Struck D (strike t cur random skill me target (use_skill id cur me f))
                      (λ r struck. record {
                        unchanged = λ n. cc;
                        known = λ n. ground arith;
                        had = λ n. ground arith;
                        open_to_it = λ n c k. ground arith;
                        cool = λ n. ground arith;
                      })
                      (strike-Struck t cur random skill me target (use_skill id cur me f)))))))
  where
    skill : SkillBase
    skill = get_skill_base_info t.skills id

    D : Bool × Field × List Effect → Type 0
    D = Decided t cur id me target f

    no_use : (es : List Effect) → D (false, f, es)
    no_use es = refused t cur id me target f es
