-- ===== src/Game/Skill/Flowers/Spare.antt =====
-- A flower strikes the other side only.
use cpp_game_frame.Prelude.{
  ℕ, ◌-◌, ◌≡◌, refl, sym, ap, ◌∙◌, Each, Each-eq, Each-if, Each-then, Bool-cases, Option-cases, inl,
  inr, Bool, true, false, Option, none, some, List, [], ◌∷◌, ltb, if◌then◌else◌, arith,
}
use mathlib.Core.Path.{subst}
use cpp_game_frame.Prelude.Int.{ℤ, pos}
use cpp_game_frame.Game.Body.{Body, Team, none_team, black, white, is_dead}
use cpp_game_frame.Game.Buf.{Actor}
use cpp_game_frame.Game.Player.{Player, get_id, get_team}
use cpp_game_frame.Game.Flower.{BgFlower, get_flower}
use cpp_game_frame.Game.Skill.Objects.{Field, Ref, at_player, at_flower, find_player, actor_at}
use cpp_game_frame.Game.Skill.Strike.{Tables, same_team}
use cpp_game_frame.Game.Skill.Strike.View.{
  view, with_flowers, show_flowers-change_flower, side_of-actor_at,
}
use cpp_game_frame.Game.Skill.Spare.{Unhurt, on_emit_skill-Spares}
use cpp_game_frame.Game.Skill.{on_emit_skill}
use cpp_game_frame.Game.Skill.Flowers.{
  near, find_prey, Target, enemy_throne, find_target, attack, on_ai_handle, flower_skill,
  use_skill_interval,
}

-- Each of these players is found under its id.
abbrev pub Keyed : List Player → List Player → Type 0
Keyed all [] = Unit
Keyed all (p ∷ ps) = (find_player (get_id p) all ≡ some p) × Keyed all ps

-- The players have different ids, and each throne is of its own team, as a scene begins.
abbrev pub IsArranged : Field → Type 0
IsArranged f =
    Keyed f.players f.players × (f.black_building.team ≡ black) × (f.white_building.team ≡ white)

-- What stands at a place is of another team.
abbrev Other : Team → Field → Ref → Type 0
Other team f r = (a : Actor) → actor_at r f ≡ some a → same_team a.body.team team ≡ false

found-Other :
    (team : Team) (f : Field) (id : ℤ) (p : Player)
    → find_player id f.players ≡ some p
    → same_team (get_team p) team ≡ false
    → Other team f (at_player id)
unfolding actor_at
found-Other team f id p s n a at =
    let own : some p.actor ≡ some a = ground arith in let sided : p.actor ≡ a = cc in cc

throne-Other :
    (team : Team) (f : Field) (close : Bool) (b : Body) (there target : Target)
    → actor_at there.place f ≡ some (record { body = b; bufs = [] })
    → same_team b.team team ≡ false
    → (if close then some there else none) ≡ some target
    → Other team f target.place
throne-Other team f true b there target here n e a at =
    let same : there ≡ target = cc in
    let own : some (record { body = b; bufs = [] }) ≡ some a =
      sym here ∙ ap (λ x. actor_at x.place f) same ∙ at in
    let sided : record { body = b; bufs = [] } ≡ a = cc in
    subst (λ x. same_team x.body.team team ≡ false) sided n
throne-Other team f false b there target here n e a at = cc

find_prey-Other :
    (me : Body) (f : Field) (ps : List Player) (id : ℤ)
    → Keyed f.players ps
    → find_prey me ps ≡ some id
    → Other me.team f (at_player id)
unfolding find_prey actor_at
find_prey-Other me f [] id k e = cc
find_prey-Other me f (p ∷ ps) id (here, k) e = elim (Bool-cases (is_dead p.actor.body)) [
  | inl dead ↦ find_prey-Other me f ps id k (ground arith)
  | inr alive ↦ elim (Bool-cases (same_team (get_team p) me.team)) [
    | inl friend ↦ find_prey-Other me f ps id k (ground arith)
    | inr foe ↦ elim (Bool-cases (near me p.actor.body)) [
      | inr far ↦ find_prey-Other me f ps id k (ground arith)
      | inl close ↦
          let named : some (get_id p) ≡ some id = ground arith in
          let same : get_id p ≡ id = cc in
          found-Other me.team f id p (subst (λ x. find_player x f.players ≡ some p) same here) foe
    ]
  ]
]

enemy_throne-Other :
    (me : Body) (f : Field) (side : Team) (target : Target)
    → me.team ≡ side
    → IsArranged f
    → enemy_throne side me f ≡ some target
    → Other me.team f target.place
unfolding enemy_throne actor_at same_team
enemy_throne-Other me f black target s (k, b, w) e =
    throne-Other me.team f (near me f.white_building) f.white_building _ target refl
      (rw (w, s) refl) e
enemy_throne-Other me f white target s (k, b, w) e =
    throne-Other me.team f (near me f.black_building) f.black_building _ target refl
      (rw (b, s) refl) e
enemy_throne-Other me f none_team target s k e = cc

find_target-Other :
    (me : Body) (f : Field) (target : Target)
    → IsArranged f
    → find_target me f ≡ some target
    → Other me.team f target.place
unfolding find_target
find_target-Other me f target k e = elim (Option-cases (find_prey me f.players)) [
  | inl n ↦ enemy_throne-Other me f me.team target refl k (ground arith)
  | inr (id, s) ↦
      let found : some (record { unit_type = pos 0; id = id; place = at_player id }) ≡ some target =
        ground arith in
      let same : record { unit_type = pos 0; id = id; place = at_player id } ≡ target = cc in
      subst (λ x. Other me.team f x.place) same (find_prey-Other me f f.players id k.0 s)
]

attack-Unhurt :
    (t : Tables) (cur random : ℕ) (id : ℤ) (x : BgFlower) (target : Target) (f : Field)
    → get_flower id f.flowers ≡ some x
    → Other x.actor.body.team f target.place
    → Each (Unhurt x.actor.body.team f) (attack t cur random id x.actor.body target f)
unfolding attack actor_at
attack-Unhurt t cur random id x target f here other =
    let team = x.actor.body.team in
    Each-then (Unhurt team f)
      (on_emit_skill t cur random flower_skill (at_flower id) target.place f) _
      (λ r e.
        let spared : view team r.1 ≡ view team f =
          Each-eq (λ r. view team r.1 ≡ view team f) e
            (on_emit_skill-Spares t cur random flower_skill (at_flower id) target.place team f
              (side_of-actor_at team (at_flower id) f x.actor (rw (actor_at, here) refl)) other) in
        ap (with_flowers team r.1) (show_flowers-change_flower team id _ r.1.flowers (λ y at. refl))
        ∙ spared)

-- Where the players have different ids and each throne is of its own team: whatever a flower does
-- by itself, afterwards every player, throne and flower of the field is still there and in its
-- team, and those of the team of the flower have the same hit points.
pub on_ai_handle-spares :
    (t : Tables) (cur random : ℕ) (id : ℤ) (x : BgFlower) (f : Field)
    → IsArranged f
    → get_flower id f.flowers ≡ some x
    → Each (Unhurt x.actor.body.team f) (on_ai_handle t cur random id x f)
unfolding on_ai_handle
on_ai_handle-spares t cur random id x f k here =
    Each-if (Unhurt x.actor.body.team f) (ltb use_skill_interval (cur - x.use_skill_times)) _ _
      (strikes (find_target x.actor.body f)
        (λ target e. find_target-Other x.actor.body f target k e))
      refl
  where
    strikes :
        (o : Option Target)
        → ((target : Target) → o ≡ some target → Other x.actor.body.team f target.place)
        → Each (Unhurt x.actor.body.team f) (elim o [
          | none ↦ some (f, [])
          | some target ↦ attack t cur random id x.actor.body target f
        ])
    strikes none h = refl
    strikes (some target) h = attack-Unhurt t cur random id x target f here (h target refl)
