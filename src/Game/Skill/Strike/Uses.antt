-- ===== src/Game/Skill/Strike/Uses.antt =====
-- The times at which the players have used their skills, and that a blow changes none of them.
use cpp_game_frame.Prelude.{
  ℕ, zero, suc, ◌≡◌, refl, sym, ap, ◌∙◌, Each, Each-eq, Each-if, Each-bind, Each-then, ◌+◌,
  Bool-cases, Option-cases, inl, inr, Bool, true, false, not, ◌||◌, Option, none, some, List, [],
  ◌∷◌, ◌++◌, if◌then◌else◌, ◌>>=◌, get_elem?, arith,
}
use cpp_game_frame.Prelude.Int.{ℤ, pos, pos_part, eqb_ℤ, eqb_ℤ→eq}
use cpp_game_frame.Game.Note.{Note}
use cpp_game_frame.Game.Base.{BufBase, SkillBase, get_buf_base_info}
use cpp_game_frame.Game.Body.{Body, Team, on_hurt, on_buf_hurt, can_buf_hurt, is_dead, get_distance}
use cpp_game_frame.Game.Body.Hurt.{unit_id-on_hurt, unit_id-on_buf_hurt}
use cpp_game_frame.Game.Buf.Apply.{buf_handler-keeps, unit_id-on_cacl}
use cpp_game_frame.Game.Player.Title.{inc_kill_enemy_time-keeps}
use cpp_game_frame.Game.Buf.{Actor, BufKind, stun, burn, immune, add_speed, buf_handler}
use cpp_game_frame.Game.Player.{Player, get_id, get_team, inc_kill_enemy_time}
use cpp_game_frame.Game.Battleground.{Effect}
use cpp_game_frame.Game.Skill.Objects.{
  Field, Ref, at_player, at_black, at_white, at_flower, find_player, change_player, actor_at,
  put_actor, broad_notes,
}
use cpp_game_frame.Game.Skill.Strike.{
  Tables, attack_value, count_kill, inc_kill, hurt, is_me, same_team, splash_damage, splash_one,
  splash, lasting, handle_buf, handle_bufs, strike,
}

-- The players by id and the times of their last uses.
abbrev pub uses : List Player → List (ℤ × List (ℤ × ℕ))
uses [] = []
uses (p ∷ ps) = (get_id p, p.use_skill_map) ∷ uses ps

find_player-id :
    (id : ℤ) (ps : List Player) (p : Player) → find_player id ps ≡ some p → get_id p ≡ id
unfolding find_player
find_player-id id [] p e = cc
find_player-id id (q ∷ ps) p e = elim (Bool-cases (eqb_ℤ (get_id q) id)) [
  | inl y ↦
      let same : some q ≡ some p = ground arith in
      let at : get_id q ≡ id = eqb_ℤ→eq (get_id q) id y in cc
  | inr n ↦ find_player-id id ps p (ground arith)
]

abbrev SameUses : Player → Player → Type 0
SameUses q p = (get_id q ≡ get_id p) × (q.use_skill_map ≡ p.use_skill_map)

-- A change that keeps ids and uses.
pub uses-change_player :
    (id : ℤ) (g : Player → Player) (ps : List Player)
    → ((p : Player) → get_id p ≡ id → SameUses (g p) p)
    → uses (change_player id g ps) ≡ uses ps
unfolding change_player
uses-change_player id g [] h = refl
uses-change_player id g (p ∷ ps) h = elim (Bool-cases (eqb_ℤ (get_id p) id)) [
  | inl y ↦ let k = h p (eqb_ℤ→eq (get_id p) id y) in rw y (cc (k.0, k.1))
  | inr n ↦ rw n (ap (λ xs. (get_id p, p.use_skill_map) ∷ xs) (uses-change_player id g ps h))
]

-- The object that is written to this place keeps the id of the place.
abbrev Fits : Ref → Actor → Type 0
Fits (at_player id) a = a.body.unit_id ≡ id
Fits at_black a = Unit
Fits at_white a = Unit
Fits (at_flower id) a = Unit

actor_at-Fits : (r : Ref) (f : Field) (a : Actor) → actor_at r f ≡ some a → Fits r a
unfolding actor_at
actor_at-Fits (at_player id) f a e = elim (Option-cases (find_player id f.players)) [
  | inl n ↦ ground arith
  | inr (p, s) ↦
      let own : some p.actor ≡ some a = ground arith in
      let named = find_player-id id f.players p s in ground arith
]
actor_at-Fits at_black f a e = tt
actor_at-Fits at_white f a e = tt
actor_at-Fits (at_flower id) f a e = tt

uses-put_actor :
    (r : Ref) (a : Actor) (f : Field) → Fits r a → uses (put_actor r a f).players ≡ uses f.players
unfolding put_actor
uses-put_actor (at_player id) a f h =
    uses-change_player id (λ p. record p { actor = a }) f.players (λ p e. (h ∙ sym e, refl))
uses-put_actor at_black a f h = refl
uses-put_actor at_white a f h = refl
uses-put_actor (at_flower id) a f h = refl

Fits-same : (r : Ref) (a b : Actor) → b.body.unit_id ≡ a.body.unit_id → Fits r a → Fits r b
Fits-same (at_player id) a b e h = e ∙ h
Fits-same at_black a b e h = tt
Fits-same at_white a b e h = tt
Fits-same (at_flower id) a b e h = tt

uses-count_kill :
    (me : ℤ) (f : Field) (o : Option Player) → uses (count_kill me f o).0.players ≡ uses f.players
unfolding count_kill
uses-count_kill me f none = refl
uses-count_kill me f (some p) =
    uses-change_player me (λ q. (inc_kill_enemy_time q).0) f.players
      (λ q named.
        let keeps = inc_kill_enemy_time-keeps q in (ap (λ a. a.body.unit_id) keeps.0, keeps.1))

uses-inc_kill : (me : Ref) (f : Field) → uses (inc_kill me f).0.players ≡ uses f.players
unfolding inc_kill
uses-inc_kill (at_player me) f = uses-count_kill me f (find_player me f.players)
uses-inc_kill at_black f = refl
uses-inc_kill at_white f = refl
uses-inc_kill (at_flower id) f = refl

-- Whatever comes of it, the ids and uses are as before.
abbrev Keeps : Field → Field × List Effect → Type 0
Keeps f (g, es) = uses g.players ≡ uses f.players

hurt-Keeps :
    (attack : ℤ) (skill : SkillBase) (attacker : Body) (me target : Ref) (f : Field)
    → Each (Keeps f) (hurt attack skill attacker me target f)
unfolding hurt
hurt-Keeps attack skill attacker me target f = Each-then (Keeps f) (actor_at target f) _ (λ a e.
    let struck = on_hurt attacker.unit_id attack skill.skill_id skill.type a.body in
    let b : Actor = record a { body = struck.0 } in
    let fits =
      Fits-same target a b
        (unit_id-on_hurt attacker.unit_id attack skill.skill_id skill.type a.body)
        (actor_at-Fits target f a e) in
    ended struck.2 (put_actor target b f) ∙ uses-put_actor target b f fits)
  where
    ended :
        (killed : Bool) (g : Field)
        → uses (if killed then inc_kill me g else (g, [])).0.players ≡ uses g.players
    ended true g = uses-inc_kill me g
    ended false g = refl

lasting-Keeps :
    (kind : BufKind) (t : Tables) (id : ℤ) (cur : ℕ) (r : Ref) (f : Field)
    → Each (Keeps f) (lasting kind t id cur r f)
unfolding lasting
lasting-Keeps kind t id cur r f = Each-then (Keeps f) (actor_at r f) _ (λ a e.
    uses-put_actor r (buf_handler kind t.bufs id cur a).0 f (
      Fits-same r a (buf_handler kind t.bufs id cur a).0
        (buf_handler-keeps (λ b. b.unit_id) (unit_id-on_cacl) kind t.bufs id cur a)
        (actor_at-Fits r f a e)))

splash_one-SameUses :
    (base : BufBase) (attack : ℤ) (me : Ref) (team : Team) (target : Body) (p : Player)
    → SameUses (splash_one base attack me team target p).0 p
unfolding splash_one
splash_one-SameUses base attack me team target p =
    splashed (is_me me p || is_dead p.actor.body || same_team (get_team p) team)
      (splash_damage base attack (get_distance target p.actor.body))
  where
    splashed :
        (spared : Bool) (o : Option ℤ)
        → SameUses
            (if◌then◌else◌ {A = Player × List Note} spared
              (p, [])
              (elim o [
                | none ↦ (p, [])
                | some damage ↦
                    let (body, notes) = on_buf_hurt damage base.id p.actor.body in
                    (record p { actor = record (p.actor) { body = body } }, notes)
              ])).0
            p
    splashed true o = (refl, refl)
    splashed false none = (refl, refl)
    splashed false (some d) = (unit_id-on_buf_hurt d base.id p.actor.body, refl)

uses-splash :
    (base : BufBase) (attack : ℤ) (me : Ref) (team : Team) (target : Body) (ps : List Player)
    → uses (splash base attack me team target ps).0 ≡ uses ps
unfolding splash
uses-splash base attack me team target [] = refl
uses-splash base attack me team target (p ∷ ps) =
    let k = splash_one-SameUses base attack me team target p in
    cc (k.0, k.1, uses-splash base attack me team target ps)

handle_buf-Keeps :
    (t : Tables) (cur : ℕ) (attack id : ℤ) (me target : Ref) (f : Field)
    → Each (Keeps f) (handle_buf t cur attack id me target f)
unfolding handle_buf
handle_buf-Keeps t cur attack id me target f = Each-if (Keeps f) (is 0 || is 6) _ _ refl (
    Each-if (Keeps f) (is 1) _ _ (lasting-Keeps stun t id cur target f) (
      Each-if (Keeps f) (is 2) _ _ (lasting-Keeps burn t id cur target f) (
        Each-if (Keeps f) (is 3) _ _ splashed (
          Each-if (Keeps f) (is 4) _ _ (lasting-Keeps immune t id cur me f)
            (Each-if (Keeps f) (is 5) _ _ (lasting-Keeps add_speed t id cur me f) tt)))))
  where
    is : ℕ → Bool
    is k = eqb_ℤ (get_buf_base_info t.bufs id).type (pos k)

    splashed : Each (Keeps f) (do
      a ← actor_at me f
      b ← actor_at target f
      let (players, notes) =
          splash (get_buf_base_info t.bufs id) attack me a.body.team b.body f.players
      some (record f { players = players }, broad_notes f notes))
    splashed = Each-bind (Keeps f) (actor_at me f) _ (λ a.
        Each-bind (Keeps f) (actor_at target f) _
          (λ b. uses-splash (get_buf_base_info t.bufs id) attack me a.body.team b.body f.players))

handle_bufs-Keeps :
    (n i : ℕ) (buf_list : List ℤ) (t : Tables) (cur : ℕ) (attack : ℤ) (me target : Ref) (f : Field)
    → Each (Keeps f) (handle_bufs n i buf_list t cur attack me target f)
unfolding handle_bufs
handle_bufs-Keeps zero i buf_list t cur attack me target f = refl
handle_bufs-Keeps (suc n) i buf_list t cur attack me target f =
    Each-bind (Keeps f) (get_elem? buf_list i) _ (λ id.
      Each-then (Keeps f) (handle_buf t cur attack id me target f) _ (λ r e.
        Each-then (Keeps f) (handle_bufs n (i + 1) buf_list t cur attack me target r.0) _ (λ r' e'.
          Each-eq (Keeps r.0) e' (handle_bufs-Keeps n (i + 1) buf_list t cur attack me target r.0)
          ∙ Each-eq (Keeps f) e (handle_buf-Keeps t cur attack id me target f))))

-- The blow of a skill keeps the ids of the players and the times of their uses.
pub uses-strike :
    (t : Tables) (cur random : ℕ) (skill : SkillBase) (me target : Ref) (f : Field)
    → Each (λ r. uses r.1.players ≡ uses f.players) (strike t cur random skill me target f)
unfolding strike
uses-strike t cur random skill me target f = Each-bind P (actor_at me f) _ (λ a.
    Each-bind P (actor_at target f) _ (λ b.
      Each-bind P (attack_value random skill a.body b.body) _ (λ attack.
        Each-then P (hurt attack skill a.body me target f) _ (λ r e.
          let first = Each-eq (Keeps f) e (hurt-Keeps attack skill a.body me target f) in
          Each-bind P (actor_at target r.0) _
            (λ c. Each-if P (not (can_buf_hurt c.body)) _ _ first (after attack r.0 r.1 first))))))
  where
    P : Bool × Field × List Effect → Type 0
    P r = uses r.1.players ≡ uses f.players

    after :
        (attack : ℤ) (g : Field) (es : List Effect)
        → uses g.players ≡ uses f.players
        → Each P (do
          (h, es') ← handle_bufs (pos_part skill.buf_num) 0 skill.buf_list t cur attack me target g
          some (true, h, es ++ es'))
    after attack g es first =
        let n = pos_part skill.buf_num in
        Each-then P (handle_bufs n 0 skill.buf_list t cur attack me target g) _ (λ r e.
          Each-eq (Keeps g) e (handle_bufs-Keeps n 0 skill.buf_list t cur attack me target g)
          ∙ first)
