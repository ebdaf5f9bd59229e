-- ===== src/Game/Skill/Order/Spare.antt =====
-- No order to use a skill hurts the player's own team.
use cpp_game_frame.Prelude.{
  ℕ, ◌≡◌, refl, sym, ◌∙◌, Each, Each-eq, Each-if, Each-then, Each-cases, Bool, true, false, not,
  ◌||◌, Option, none, some, List, ◌>>=◌, ◌++◌, arith,
}
use cpp_game_frame.Prelude.Int.{ℤ, pos, ltb_ℤ, to_int16}
use cpp_game_frame.Game.Body.{is_dead}
use cpp_game_frame.Game.Player.{Player, get_team}
use cpp_game_frame.Game.Battleground.{Effect}
use cpp_game_frame.Game.Battleground.Players.{check_battleground_id}
use cpp_game_frame.Game.Skill.Objects.{Field, Ref, at_player, find_player, actor_at}
use cpp_game_frame.Game.Skill.Strike.{Tables, same_team}
use cpp_game_frame.Game.Skill.Strike.View.{view, side_of-actor_at}
use cpp_game_frame.Game.Skill.Spare.{Unhurt, on_emit_skill-Spares}
use cpp_game_frame.Game.Skill.{on_emit_skill}
use cpp_game_frame.Game.Skill.Order.{Order, get_target_unit, aim, order_of, on_use_skill}

or_false : (a b : Bool) → (a || b) ≡ false → b ≡ false
or_false true b e = ground arith
or_false false b e = e

aim-Spares :
    (t : Tables) (cur random : ℕ) (id me : ℤ) (p : Player) (target : Ref) (f : Field)
    → find_player me f.players ≡ some p
    → Each (Unhurt (get_team p) f) (aim t cur random id me p target f)
unfolding aim actor_at
aim-Spares t cur random id me p target f s = Each-then P (actor_at target f) _ (λ a e.
    Each-cases P (is_dead a.body || same_team a.body.team (get_team p)) _ _ (λ y. refl)
      (λ n. Each-then P (on_emit_skill t cur random id (at_player me) target f) _ (λ r done.
        Each-eq (λ r. view (get_team p) r.1 ≡ view (get_team p) f) done
          (on_emit_skill-Spares t cur random id (at_player me) target (get_team p) f
            (side_of-actor_at (get_team p) (at_player me) f p.actor (here s))
            (λ b e'.
              let same : some a ≡ some b = sym e ∙ e' in
              let sided : a.body.team ≡ b.body.team = cc in
              let either = or_false (is_dead a.body) _ n in cc)))))
  where
    P : Field × List Effect → Type 0
    P = Unhurt (get_team p) f

    here : find_player me f.players ≡ some p → actor_at (at_player me) f ≡ some p.actor
    here s = rw (actor_at, s) refl

-- The rest of `onUseSkill`, for a target that may be missing.
aimed-Spares :
    (t : Tables) (cur random : ℕ) (id me : ℤ) (p : Player) (f : Field) (notes : List Effect)
    (o : Option Ref)
    → find_player me f.players ≡ some p
    → Each (Unhurt (get_team p) f) (elim o [
      | none ↦ some (f, notes)
      | some target ↦ do (g, es) ← aim t cur random id me p target f; some (g, notes ++ es)
    ])
aimed-Spares t cur random id me p f notes none s = refl
aimed-Spares t cur random id me p f notes (some target) s =
    Each-then (Unhurt (get_team p) f) (aim t cur random id me p target f) _
      (λ r e. Each-eq (Unhurt (get_team p) f) e (aim-Spares t cur random id me p target f s))

order_of-Spares :
    (t : Tables) (cur random : ℕ) (o : Order) (me : ℤ) (p : Player) (f : Field)
    → find_player me f.players ≡ some p
    → Each (Unhurt (get_team p) f) (order_of t cur random o me p f)
unfolding order_of
order_of-Spares t cur random o me p f s =
    let P = Unhurt (get_team p) f in
    Each-if P (not (ltb_ℤ (pos 0) p.pet_id) || is_dead p.actor.body || not p.actor.body.operation) _
      _ refl
      (Each-if P (not (check_battleground_id p.battleground_id)) _ _ refl (
        aimed-Spares t cur random (to_int16 o.param) me p f _
          (get_target_unit o.player_id o.unit_type f) s))

-- Whatever a player orders a skill to do: afterwards every player, throne and flower of the field
-- is still there and in its team, and those of the team of the player, the player included, have
-- the same hit points.
pub on_use_skill-spares :
    (t : Tables) (cur random : ℕ) (o : Order) (me : ℤ) (p : Player) (f : Field)
    → find_player me f.players ≡ some p
    → Each (Unhurt (get_team p) f) (on_use_skill t cur random o me f)
unfolding on_use_skill
on_use_skill-spares t cur random o me p f s =
    rw (on_use_skill, s) (order_of-Spares t cur random o me p f s)
