-- ===== src/Game/Skill/Cooldown.antt =====
-- The time a player waits between two uses of a skill.
use cpp_game_frame.Prelude.{
  ℕ, ◌≡◌, refl, sym, ap, ◌∙◌, ◌≤◌, inl, inr, Bool-cases, Option-cases, Each, Each-eq, Each-bind,
  Each-if, Each-cases, Each-imp, Bool, true, false, not, some, List, [], arith,
}
use cpp_game_frame.Prelude.Int.{ℤ, pos, ◌-ℤ◌, leb_ℤ, eqb_ℤ, eqb_ℤ→eq}
use cpp_game_frame.Game.Base.{SkillBase, get_skill_base_info, check_skill_id}
use cpp_game_frame.Game.Body.{can_skill_hurt}
use cpp_game_frame.Game.Buf.{Actor}
use cpp_game_frame.Game.Player.{Player}
use cpp_game_frame.Game.Battleground.{Effect}
use cpp_game_frame.Game.Skill.Objects.{
  Field, Ref, at_player, at_black, at_white, at_flower, find_player, actor_at, send_to,
}
use cpp_game_frame.Game.Skill.Strike.{Tables, strike}
use cpp_game_frame.Game.Skill.Strike.Uses.{uses, uses-strike}
use cpp_game_frame.Game.Skill.Dates.{use_of, use_of-used, use_of-find_player, use_of-other}
use cpp_game_frame.Game.Skill.{
  has_skill, last_use, player_can_use_skill, can_use_skill, use_skill, on_emit_skill, cannot_hurt,
}

leb_ℤ_sooner :
    (cur c later : ℕ) (k : ℤ)
    → c ≤ later
    → leb_ℤ (pos later -ℤ pos cur) k ≡ true
    → leb_ℤ (pos c -ℤ pos cur) k ≡ true
unfolding ◌-ℤ◌
leb_ℤ_sooner cur c later k sooner early = ground arith

waits :
    (me id cooldown : ℤ) (cur later : ℕ) (g : Field)
    → use_of me id (uses g.players) ≡ some cur
    → leb_ℤ (pos later -ℤ pos cur) cooldown ≡ true
    → can_use_skill id cooldown later (at_player me) g ≡ false
unfolding can_use_skill player_can_use_skill
waits me id cooldown cur later g used early = elim (Option-cases (find_player me g.players)) [
  | inl n ↦ rw (can_use_skill, n) refl
  | inr (p, s) ↦
      let last : last_use id p.use_skill_map ≡ some cur =
        sym (use_of-find_player me id g.players p s) ∙ used in
      rw (can_use_skill, s, player_can_use_skill, last, early) refl
]

-- The skill that was used is dated.
abbrev Dated : ℤ → ℤ → ℕ → Bool × Field × List Effect → Type 0
Dated me id cur r = r.0 ≡ true → use_of me id (uses r.1.players) ≡ some cur

use_of-use_skill :
    (t : Tables) (cur : ℕ) (id me : ℤ) (f : Field)
    → has_skill t id (at_player me) f ≡ true
    → use_of me id (uses (use_skill id cur (at_player me) f).players) ≡ some cur
unfolding has_skill use_skill
use_of-use_skill t cur id me f had = elim (Option-cases (find_player me f.players)) [
  | inl n ↦ ground arith
  | inr (p, s) ↦ use_of-used me id cur f.players p s
]

on_emit_skill-Dated :
    (t : Tables) (cur random : ℕ) (id me : ℤ) (target : Ref) (f : Field)
    → Each (Dated me id cur) (on_emit_skill t cur random id (at_player me) target f)
unfolding on_emit_skill
on_emit_skill-Dated t cur random id me target f =
    Each-cases D (not (check_skill_id t.skills id)) _ _ (λ e no. cc)
      (λ known.
        Each-cases D (not (has_skill t id (at_player me) f)) _ _ (λ e no. cc)
          (λ had. Each-bind D (actor_at target f) _ (λ b.
            Each-cases D (not (can_skill_hurt b.body)) _ _ (λ e no. cc)
              (λ hurts.
                Each-cases D (not (can_use_skill id skill.cooldown_time cur (at_player me) f)) _ _
                  (λ e no. cc)
                  (λ cool.
                    Each-imp (λ r. uses r.1.players ≡ uses now.players) D
                      (strike t cur random skill (at_player me) target now)
                      (λ r kept yes.
                        ap (use_of me id) kept ∙ use_of-use_skill t cur id me f (ground arith))
                      (uses-strike t cur random skill (at_player me) target now))))))
  where
    skill : SkillBase
    skill = get_skill_base_info t.skills id

    now : Field
    now = use_skill id cur (at_player me) f

    D : Bool × Field × List Effect → Type 0
    D = Dated me id cur

-- What may come between two uses, up to the time `later`: any skill that anyone uses at any target,
-- with whatever comes of it; and any other change of the field, players that come and go among it,
-- that leaves the player there with the times of his own uses, which only `useSkill` writes.
pub data Meanwhile (t : Tables) (me : ℤ) (later : ℕ) (f : Field) : Field → Type 0 where
  nothing : Meanwhile t me later f f
  emits :
      {g : Field} (h : Field) (c random : ℕ) (id : ℤ) (who target : Ref) (ok : Bool)
      (es : List Effect)
      → Meanwhile t me later f g
      → c ≤ later
      → on_emit_skill t c random id who target g ≡ some (ok, h, es)
      → Meanwhile t me later f h
  changes :
      {g : Field} (h : Field) (p q : Player)
      → Meanwhile t me later f g
      → find_player me g.players ≡ some p
      → find_player me h.players ≡ some q
      → q.use_skill_map ≡ p.use_skill_map
      → Meanwhile t me later f h

-- A use that goes through is not that of the player and the skill that wait.
use_skill-keeps :
    (me id other cooldown : ℤ) (cur c : ℕ) (who : Ref) (f : Field)
    → use_of me id (uses f.players) ≡ some cur
    → (who ≡ at_player me → other ≡ id → can_use_skill other cooldown c who f ≡ false)
    → can_use_skill other cooldown c who f ≡ true
    → use_of me id (uses (use_skill other c who f).players) ≡ some cur
unfolding use_skill
use_skill-keeps me id other cooldown cur c (at_player k) f dated refused able =
    elim (Bool-cases (eqb_ℤ k me)) [
      | inr n ↦ use_of-other me id k other c f.players (inl n) ∙ dated
      | inl y ↦ elim (Bool-cases (eqb_ℤ other id)) [
        | inr n ↦ use_of-other me id k other c f.players (inr n) ∙ dated
        | inl same ↦
            ground (arith, refused (ap at_player (eqb_ℤ→eq k me y)) (eqb_ℤ→eq other id same))
      ]
    ]
use_skill-keeps me id other cooldown cur c at_black f dated refused able = dated
use_skill-keeps me id other cooldown cur c at_white f dated refused able = dated
use_skill-keeps me id other cooldown cur c (at_flower k) f dated refused able = dated

-- Whatever skill is used up to the time `later`, the time of the use that is waited for stays.
emit-keeps :
    (t : Tables) (me id : ℤ) (cur later c random : ℕ) (other : ℤ) (who target : Ref) (f : Field)
    → use_of me id (uses f.players) ≡ some cur
    → leb_ℤ (pos later -ℤ pos cur) (get_skill_base_info t.skills id).cooldown_time ≡ true
    → c ≤ later
    → Each
        (λ r. use_of me id (uses r.1.players) ≡ some cur)
        (on_emit_skill t c random other who target f)
unfolding on_emit_skill
emit-keeps t me id cur later c random other who target f dated early sooner =
    Each-if D (not (check_skill_id t.skills other)) _ _ dated (
      Each-if D (not (has_skill t other who f)) _ _ dated (
        Each-bind D (actor_at target f) _ (λ b. Each-if D (not (can_skill_hurt b.body)) _ _ dated (
          Each-cases D (not (can_use_skill other skill.cooldown_time c who f)) _ _ (λ wait. dated)
            (λ able.
              Each-imp (λ r. uses r.1.players ≡ uses now.players) D
                (strike t c random skill who target now)
                (λ r kept.
                  ap (use_of me id) kept
                  ∙ use_skill-keeps me id other skill.cooldown_time cur c who f dated
                      (λ w same.
                        rw (w, same)
                          (waits me id _ cur c f dated (leb_ℤ_sooner cur c later _ sooner early)))
                      (ground arith))
                (uses-strike t c random skill who target now))))))
  where
    skill : SkillBase
    skill = get_skill_base_info t.skills other

    now : Field
    now = use_skill other c who f

    D : Bool × Field × List Effect → Type 0
    D r = use_of me id (uses r.1.players) ≡ some cur

-- And whatever else comes meanwhile.
Meanwhile-keeps :
    (t : Tables) (me id : ℤ) (cur later : ℕ) (f g : Field)
    → Meanwhile t me later f g
    → leb_ℤ (pos later -ℤ pos cur) (get_skill_base_info t.skills id).cooldown_time ≡ true
    → use_of me id (uses f.players) ≡ some cur
    → use_of me id (uses g.players) ≡ some cur
Meanwhile-keeps t me id cur later f g nothing early dated = dated
Meanwhile-keeps t me id cur later f g (emits {g = h} _ c random other who target ok es m sooner e)
      early dated =
    Each-eq (λ r. use_of me id (uses r.1.players) ≡ some cur) e
      (emit-keeps t me id cur later c random other who target h
        (Meanwhile-keeps t me id cur later f h m early dated) early sooner)
Meanwhile-keeps t me id cur later f g (changes {g = h} _ p q m was is same) early dated =
    use_of-find_player me id g.players q is
    ∙ ap (last_use id) same
    ∙ sym (use_of-find_player me id h.players p was)
    ∙ Meanwhile-keeps t me id cur later f h m early dated

-- A skill that a player has used is refused to him at every time at which no more than its
-- cooldown time has passed since, whatever he aims at, if the target is there, and the objects
-- stay as they are: whatever skills he and others use in between, at times up to then, and however
-- the field changes besides, as long as these changes keep him there with the times of his uses.
pub on_emit_skill-cools :
    (t : Tables) (cur random later random' : ℕ) (id me : ℤ) (target target' : Ref) (f g h : Field)
    (es : List Effect) (b : Actor)
    → on_emit_skill t cur random id (at_player me) target f ≡ some (true, g, es)
    → Meanwhile t me later g h
    → leb_ℤ (pos later -ℤ pos cur) (get_skill_base_info t.skills id).cooldown_time ≡ true
    → actor_at target' h ≡ some b
    → (es' : List Effect) × (on_emit_skill t later random' id (at_player me) target' h
        ≡ some (false, h, es'))
unfolding on_emit_skill
on_emit_skill-cools t cur random later random' id me target target' f g h es b e between early
      there =
    let dated =
      Each-eq (Dated me id cur) e (on_emit_skill-Dated t cur random id me target f) refl in
    let wait =
      waits me id (get_skill_base_info t.skills id).cooldown_time cur later h
        (Meanwhile-keeps t me id cur later g h between early dated) early in
    elim (Bool-cases (check_skill_id t.skills id)) [
      | inr n ↦ ([], rw n refl)
      | inl y ↦ elim (Bool-cases (has_skill t id (at_player me) h)) [
        | inr n ↦ ([], rw (y, n) refl)
        | inl had ↦ elim (Bool-cases (can_skill_hurt b.body)) [
          | inr n ↦ (send_to (at_player me) cannot_hurt, rw (y, had, there, n) refl)
          | inl c ↦ ([], rw (y, had, there, c, wait) refl)
        ]
      ]
    ]
