-- ===== src/Game/Skill/Spare.antt =====
-- No skill that is aimed at another team hurts the own one.
use cpp_game_frame.Prelude.{
  ℕ, ◌≡◌, refl, sym, ap, ◌∙◌, Each, Each-if, Each-bind, Each-imp, Bool-cases, inl, inr, Bool, false,
  not, Option, none, some, List, [], ◌∷◌,
}
use cpp_game_frame.Prelude.Int.{ℤ, eqb_ℤ}
use cpp_game_frame.Game.Base.{SkillBase, get_skill_base_info, check_skill_id}
use cpp_game_frame.Game.Body.{can_skill_hurt, Team}
use cpp_game_frame.Game.Buf.{Actor}
use cpp_game_frame.Game.Player.{Player, get_id}
use cpp_game_frame.Game.Battleground.{Effect}
use cpp_game_frame.Game.Skill.Objects.{
  Field, Ref, at_player, at_black, at_white, at_flower, find_player, change_player, actor_at,
}
use cpp_game_frame.Game.Skill.Strike.{Tables, same_team, strike}
use cpp_game_frame.Game.Skill.Strike.View.{view, show-change_player, with_players, Own, side_of}
use cpp_game_frame.Game.Skill.Strike.Spare.{strike-Spares}
use cpp_game_frame.Game.Skill.{has_skill, can_use_skill, set_use, use_skill, on_emit_skill}

abbrev found_actor : Option Player → Option Actor
found_actor o = elim o [ none ↦ none | some p ↦ some p.actor ]

found_actor-change_player :
    (id me : ℤ) (g : Player → Player) (ps : List Player)
    → ((p : Player) → (g p).actor ≡ p.actor)
    → found_actor (find_player id (change_player me g ps)) ≡ found_actor (find_player id ps)
unfolding find_player change_player
found_actor-change_player id me g [] h = refl
found_actor-change_player id me g (p ∷ ps) h = elim (Bool-cases (eqb_ℤ (get_id p) me)) [
  | inl y ↦ rw y (head (h p))
  | inr n ↦ rw n (elim (Bool-cases (eqb_ℤ (get_id p) id)) [
    | inl y ↦ rw y refl
    | inr m ↦ rw m (found_actor-change_player id me g ps h)
  ])
]
  where
    head :
        (g p).actor ≡ p.actor
        → found_actor (find_player id (g p ∷ ps)) ≡ found_actor (find_player id (p ∷ ps))
    head same = elim (Bool-cases (eqb_ℤ (get_id p) id)) [
      | inl y ↦ rw (same, y) refl
      | inr n ↦ rw (same, n) refl
    ]

-- Dating a use moves no object.
actor_at-use_skill :
    (r : Ref) (id : ℤ) (cur : ℕ) (me : Ref) (f : Field)
    → actor_at r (use_skill id cur me f) ≡ actor_at r f
unfolding actor_at use_skill
actor_at-use_skill (at_player x) id cur (at_player me) f =
    found_actor-change_player x me
      (λ p. record p { use_skill_map = set_use id cur p.use_skill_map }) f.players (λ p. refl)
actor_at-use_skill at_black id cur (at_player me) f = refl
actor_at-use_skill at_white id cur (at_player me) f = refl
actor_at-use_skill (at_flower x) id cur (at_player me) f = refl
actor_at-use_skill r id cur at_black f = refl
actor_at-use_skill r id cur at_white f = refl
actor_at-use_skill r id cur (at_flower x) f = refl

view-use_skill :
    (team : Team) (id : ℤ) (cur : ℕ) (me : Ref) (f : Field)
    → view team (use_skill id cur me f) ≡ view team f
unfolding use_skill
view-use_skill team id cur (at_player me) f =
    ap (with_players team f) (show-change_player team me _ f.players (λ p e. refl))
view-use_skill team id cur at_black f = refl
view-use_skill team id cur at_white f = refl
view-use_skill team id cur (at_flower x) f = refl

-- A skill that is aimed at another team spares the own one.
pub on_emit_skill-Spares :
    (t : Tables) (cur random : ℕ) (id : ℤ) (me target : Ref) (team : Team) (f : Field)
    → Own team me f
    → ((a : Actor) → actor_at target f ≡ some a → same_team a.body.team team ≡ false)
    → Each (λ r. view team r.1 ≡ view team f) (on_emit_skill t cur random id me target f)
unfolding on_emit_skill
on_emit_skill-Spares t cur random id me target team f own other =
    Each-if P (not (check_skill_id t.skills id)) _ _ refl (
      Each-if P (not (has_skill t id me f)) _ _ refl (
        Each-bind P (actor_at target f) _ (λ b. Each-if P (not (can_skill_hurt b.body)) _ _ refl (
          Each-if P (not (can_use_skill id skill.cooldown_time cur me f)) _ _ refl (
            Each-imp (λ r. view team r.1 ≡ view team now) P
              (strike t cur random skill me target now) (λ r e. e ∙ dated)
              (strike-Spares t cur random skill me target team now (ap (side_of me) dated ∙ own)
                (λ a e. other a (sym (actor_at-use_skill target id cur me f) ∙ e))))))))
  where
    skill : SkillBase
    skill = get_skill_base_info t.skills id

    now : Field
    now = use_skill id cur me f

    dated : view team now ≡ view team f
    dated = view-use_skill team id cur me f

    P : Bool × Field × List Effect → Type 0
    P r = view team r.1 ≡ view team f

-- Every object is still there and on its side, and those of this team are as well as before.
abbrev pub Unhurt : Team → Field → Field × List Effect → Type 0
Unhurt team f (g, es) = view team g ≡ view team f
