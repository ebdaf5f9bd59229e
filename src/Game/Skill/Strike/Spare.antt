-- ===== src/Game/Skill/Strike/Spare.antt =====
-- What a blow does to the attacker's own side: nothing that counts.
use cpp_game_frame.Prelude.{
  ℕ, zero, suc, ◌+◌, ◌≡◌, refl, ap, ◌∙◌, Each, Each-eq, Each-if, Each-bind, Each-then, Bool, true,
  false, not, ◌||◌, Option, none, some, List, [], ◌∷◌, ◌++◌, if◌then◌else◌, ◌>>=◌, get_elem?, arith,
}
use cpp_game_frame.Prelude.Int.{ℤ, pos, pos_part, eqb_ℤ}
use cpp_game_frame.Game.Note.{Note}
use cpp_game_frame.Game.Base.{BufBase, SkillBase, get_buf_base_info}
use cpp_game_frame.Game.Body.{
  Body, Team, on_hurt, on_buf_hurt, dec_hp, can_buf_hurt, is_dead, get_distance,
}
use cpp_game_frame.Game.Body.Hurt.{only_hp-on_buf_hurt}
use cpp_game_frame.Game.Buf.Apply.{buf_handler-keeps, unit_id-on_cacl, hp-on_cacl, team-on_cacl}
use cpp_game_frame.Game.Player.Title.{inc_kill_enemy_time-keeps}
use cpp_game_frame.Game.Buf.{Actor, BufKind, stun, burn, immune, add_speed, buf_handler}
use cpp_game_frame.Game.Player.{Player, get_team, inc_kill_enemy_time}
use cpp_game_frame.Game.Battleground.{Effect}
use cpp_game_frame.Game.Skill.Objects.{
  Field, Ref, at_player, at_black, at_white, at_flower, find_player, actor_at, put_actor,
  broad_notes,
}
use cpp_game_frame.Game.Skill.Strike.{
  Tables, attack_value, count_kill, inc_kill, hurt, is_me, same_team, splash_damage, splash_one,
  splash, lasting, handle_buf, handle_bufs, strike,
}
use cpp_game_frame.Game.Skill.Strike.View.{
  shown, show, view, show-change_player, with_players, view-put_actor, Own, Own-team, side_of,
}

view-count_kill :
    (team : Team) (me : ℤ) (f : Field) (o : Option Player)
    → view team (count_kill me f o).0 ≡ view team f
unfolding count_kill
view-count_kill team me f none = refl
view-count_kill team me f (some p) = ap (with_players team f) (
    show-change_player team me (λ q. (inc_kill_enemy_time q).0) f.players
      (λ q named. ap (λ a. shown team a.body) (inc_kill_enemy_time-keeps q).0))

view-inc_kill : (team : Team) (me : Ref) (f : Field) → view team (inc_kill me f).0 ≡ view team f
unfolding inc_kill
view-inc_kill team (at_player me) f = view-count_kill team me f (find_player me f.players)
view-inc_kill team at_black f = refl
view-inc_kill team at_white f = refl
view-inc_kill team (at_flower id) f = refl

-- A body of another team shows no hit points.
shown-other :
    (team : Team) (b : Body) (h : ℤ)
    → same_team b.team team ≡ false
    → shown team (record b { hp = h }) ≡ shown team b
shown-other team b h n = rw n refl

abbrev Spares : Team → Field → Field × List Effect → Type 0
Spares team f (g, es) = view team g ≡ view team f

hurt-Spares :
    (team : Team) (attack : ℤ) (skill : SkillBase) (attacker : Body) (me target : Ref) (f : Field)
    → ((a : Actor) → actor_at target f ≡ some a → same_team a.body.team team ≡ false)
    → Each (Spares team f) (hurt attack skill attacker me target f)
unfolding hurt on_hurt dec_hp
hurt-Spares team attack skill attacker me target f other =
    Each-then (Spares team f) (actor_at target f) _ (λ a e.
      let struck = on_hurt attacker.unit_id attack skill.skill_id skill.type a.body in
      let b : Actor = record a { body = struck.0 } in
      ended struck.2 (put_actor target b f)
      ∙ view-put_actor team target a b f e (shown-other team a.body _ (other a e)))
  where
    ended :
        (killed : Bool) (g : Field)
        → view team (if killed then inc_kill me g else (g, [])).0 ≡ view team g
    ended true g = view-inc_kill team me g
    ended false g = refl

shown-buf_handler :
    (team : Team) (kind : BufKind) (rows : List BufBase) (id : ℤ) (cur : ℕ) (a : Actor)
    → shown team (buf_handler kind rows id cur a).0.body ≡ shown team a.body
shown-buf_handler team kind rows id cur a =
    let named = buf_handler-keeps (λ b. b.unit_id) unit_id-on_cacl kind rows id cur a in
    let sided = buf_handler-keeps (λ b. b.team) team-on_cacl kind rows id cur a in
    let well = buf_handler-keeps (λ b. b.hp) hp-on_cacl kind rows id cur a in cc

lasting-Spares :
    (team : Team) (kind : BufKind) (t : Tables) (id : ℤ) (cur : ℕ) (r : Ref) (f : Field)
    → Each (Spares team f) (lasting kind t id cur r f)
unfolding lasting
lasting-Spares team kind t id cur r f = Each-then (Spares team f) (actor_at r f) _ (λ a e.
    view-put_actor team r a (buf_handler kind t.bufs id cur a).0 f e
      (shown-buf_handler team kind t.bufs id cur a))

any_of_three : (a b c : Bool) → c ≡ true → (a || b || c) ≡ true
any_of_three true b c e = ground arith
any_of_three false b c e = ground arith

splash_one-shown :
    (base : BufBase) (attack : ℤ) (me : Ref) (team : Team) (target : Body) (p : Player)
    → shown team (splash_one base attack me team target p).0.actor.body ≡ shown team p.actor.body
unfolding splash_one
splash_one-shown base attack me team target p =
    splashed (is_me me p || is_dead p.actor.body || same_team (get_team p) team)
      (any_of_three (is_me me p) (is_dead p.actor.body) (same_team (get_team p) team))
      (splash_damage base attack (get_distance target p.actor.body))
  where
    splashed :
        (spared : Bool) (own : same_team (get_team p) team ≡ true → spared ≡ true) (o : Option ℤ)
        → shown team
            (if◌then◌else◌ {A = Player × List Note} spared
              (p, [])
              (elim o [
                | none ↦ (p, [])
                | some damage ↦
                    let (body, notes) = on_buf_hurt damage base.id p.actor.body in
                    (record p { actor = record (p.actor) { body = body } }, notes)
              ])).0.actor.body
          ≡ shown team p.actor.body
    splashed true own o = refl
    splashed false own none = refl
    splashed false own (some d) =
        let (h, e) = only_hp-on_buf_hurt d base.id p.actor.body in
        ap (shown team) e ∙ shown-other team p.actor.body h (ground arith)

show-splash :
    (base : BufBase) (attack : ℤ) (me : Ref) (team : Team) (target : Body) (ps : List Player)
    → show team (splash base attack me team target ps).0 ≡ show team ps
unfolding splash
show-splash base attack me team target [] = refl
show-splash base attack me team target (p ∷ ps) =
    let first = splash_one-shown base attack me team target p in
    let rest = show-splash base attack me team target ps in cc

handle_buf-Spares :
    (t : Tables) (cur : ℕ) (attack id : ℤ) (me : Ref) (target : Ref) (team : Team) (f : Field)
    → Own team me f
    → Each (Spares team f) (handle_buf t cur attack id me target f)
unfolding handle_buf
handle_buf-Spares t cur attack id me target team f own = Each-if S (is 0 || is 6) _ _ refl (
    Each-if S (is 1) _ _ (lasting-Spares team stun t id cur target f) (
      Each-if S (is 2) _ _ (lasting-Spares team burn t id cur target f) (
        Each-if S (is 3) _ _ splashed (
          Each-if S (is 4) _ _ (lasting-Spares team immune t id cur me f)
            (Each-if S (is 5) _ _ (lasting-Spares team add_speed t id cur me f) tt)))))
  where
    S : Field × List Effect → Type 0
    S = Spares team f

    is : ℕ → Bool
    is k = eqb_ℤ (get_buf_base_info t.bufs id).type (pos k)

    splashed : Each S (do
      a ← actor_at me f
      b ← actor_at target f
      let (players, notes) =
          splash (get_buf_base_info t.bufs id) attack me a.body.team b.body f.players
      some (record f { players = players }, broad_notes f notes))
    splashed = Each-then S (actor_at me f) _ (λ a e. Each-bind S (actor_at target f) _ (λ b.
        rw (Own-team team me f a own e) (
          ap (with_players team f)
            (show-splash (get_buf_base_info t.bufs id) attack me team b.body f.players))))

handle_bufs-Spares :
    (n i : ℕ) (buf_list : List ℤ) (t : Tables) (cur : ℕ) (attack : ℤ) (me : Ref) (target : Ref)
    (team : Team) (f : Field)
    → Own team me f
    → Each (Spares team f) (handle_bufs n i buf_list t cur attack me target f)
unfolding handle_bufs
handle_bufs-Spares zero i buf_list t cur attack me target team f own = refl
handle_bufs-Spares (suc n) i buf_list t cur attack me target team f own =
    Each-bind (Spares team f) (get_elem? buf_list i) _ (λ id.
      Each-then (Spares team f) (handle_buf t cur attack id me target f) _ (λ r e.
        let first =
          Each-eq (Spares team f) e (handle_buf-Spares t cur attack id me target team f own) in
        Each-then (Spares team f) (handle_bufs n (i + 1) buf_list t cur attack me target r.0) _
          (λ r' e'.
            Each-eq (Spares team r.0) e' (
              handle_bufs-Spares n (i + 1) buf_list t cur attack me target team r.0
                (ap (side_of me) first ∙ own))
            ∙ first)))

-- A blow of a player on a target of another team spares the player's own team.
pub strike-Spares :
    (t : Tables) (cur random : ℕ) (skill : SkillBase) (me : Ref) (target : Ref) (team : Team)
    (f : Field)
    → Own team me f
    → ((a : Actor) → actor_at target f ≡ some a → same_team a.body.team team ≡ false)
    → Each (λ r. view team r.1 ≡ view team f) (strike t cur random skill me target f)
unfolding strike
strike-Spares t cur random skill me target team f own other = Each-bind P (actor_at me f) _ (λ a.
    Each-bind P (actor_at target f) _ (λ b.
      Each-bind P (attack_value random skill a.body b.body) _ (λ attack.
        Each-then P (hurt attack skill a.body me target f) _ (λ r e.
          let first =
            Each-eq (Spares team f) e (hurt-Spares team attack skill a.body me target f other) in
          Each-bind P (actor_at target r.0) _
            (λ c. Each-if P (not (can_buf_hurt c.body)) _ _ first (after attack r.0 r.1 first))))))
  where
    P : Bool × Field × List Effect → Type 0
    P r = view team r.1 ≡ view team f

    after :
        (attack : ℤ) (g : Field) (es : List Effect)
        → view team g ≡ view team f
        → Each P (do
          (h, es') ← handle_bufs (pos_part skill.buf_num) 0 skill.buf_list t cur attack me target g
          some (true, h, es ++ es'))
    after attack g es first =
        let n = pos_part skill.buf_num in
        Each-then P (handle_bufs n 0 skill.buf_list t cur attack me target g) _ (λ r e.
          Each-eq (Spares team g) e (
            handle_bufs-Spares n 0 skill.buf_list t cur attack me target team g
              (ap (side_of me) first ∙ own))
          ∙ first)
