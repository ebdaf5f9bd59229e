-- ===== src/Game/Skill/Strike/View.antt =====
-- What a team sees of a field: who is there, on which side, and how well its own are.
use cpp_game_frame.Prelude.{
  ◌≡◌, refl, sym, ap, ◌∙◌, Bool-cases, Option-cases, inl, inr, Option, none, some, List, [], ◌∷◌,
  if◌then◌else◌, arith,
}
use cpp_game_frame.Prelude.Int.{ℤ, eqb_ℤ}
use cpp_game_frame.Game.Body.{Body, Team}
use cpp_game_frame.Game.Buf.{Actor}
use cpp_game_frame.Game.Player.{Player, get_id, get_team}
use cpp_game_frame.Game.Flower.{BgFlower, flower_id, get_flower}
use cpp_game_frame.Game.Skill.Objects.{
  Field, Ref, at_player, at_black, at_white, at_flower, find_player, change_player, change_flower,
  actor_at, put_actor,
}
use cpp_game_frame.Game.Skill.Strike.{same_team}

-- The id and team of a body, and the hit points if it is of this team.
abbrev pub shown : Team → Body → ℤ × Team × Option ℤ
shown team b = (b.unit_id, b.team, if same_team b.team team then some b.hp else none)

abbrev pub show : Team → List Player → List (ℤ × Team × Option ℤ)
show team [] = []
show team (p ∷ ps) = shown team p.actor.body ∷ show team ps

abbrev pub show_flowers : Team → List BgFlower → List (ℤ × Team × Option ℤ)
show_flowers team [] = []
show_flowers team (x ∷ xs) = shown team x.actor.body ∷ show_flowers team xs

abbrev pub View : Type 0
View =
    List (ℤ × Team × Option ℤ)
    × (ℤ × Team × Option ℤ)
    × (ℤ × Team × Option ℤ)
    × List (ℤ × Team × Option ℤ)

-- Every object of a field with its id and team, and the hit points of those of this team.
abbrev pub view : Team → Field → View
view team f = (
  show team f.players,
  shown team f.black_building,
  shown team f.white_building,
  show_flowers team f.flowers,
)

pub show-change_player :
    (team : Team) (id : ℤ) (g : Player → Player) (ps : List Player)
    → ((p : Player)
        → find_player id ps ≡ some p
        → shown team (g p).actor.body ≡ shown team p.actor.body)
    → show team (change_player id g ps) ≡ show team ps
unfolding change_player find_player
show-change_player team id g [] h = refl
show-change_player team id g (p ∷ ps) h = elim (Bool-cases (eqb_ℤ (get_id p) id)) [
  | inl y ↦ rw y (ap (λ x. x ∷ show team ps) (h p (rw y refl)))
  | inr n ↦ rw n (
      ap (λ xs. shown team p.actor.body ∷ xs)
        (show-change_player team id g ps (λ q e. h q (rw n e))))
]

pub show_flowers-change_flower :
    (team : Team) (id : ℤ) (g : BgFlower → BgFlower) (xs : List BgFlower)
    → ((x : BgFlower)
        → get_flower id xs ≡ some x
        → shown team (g x).actor.body ≡ shown team x.actor.body)
    → show_flowers team (change_flower id g xs) ≡ show_flowers team xs
unfolding change_flower get_flower
show_flowers-change_flower team id g [] h = refl
show_flowers-change_flower team id g (x ∷ xs) h = elim (Bool-cases (eqb_ℤ (flower_id x) id)) [
  | inl y ↦ rw y (ap (λ v. v ∷ show_flowers team xs) (h x (rw y refl)))
  | inr n ↦ rw n (
      ap (λ vs. shown team x.actor.body ∷ vs)
        (show_flowers-change_flower team id g xs (λ q e. h q (rw n e))))
]

abbrev pub with_players : Team → Field → List (ℤ × Team × Option ℤ) → View
with_players team f players =
    (players, shown team f.black_building, shown team f.white_building, show_flowers team f.flowers)

abbrev pub with_flowers : Team → Field → List (ℤ × Team × Option ℤ) → View
with_flowers team f flowers =
    (show team f.players, shown team f.black_building, shown team f.white_building, flowers)

pub view-put_actor :
    (team : Team) (r : Ref) (a b : Actor) (f : Field)
    → actor_at r f ≡ some a
    → shown team b.body ≡ shown team a.body
    → view team (put_actor r b f) ≡ view team f
unfolding put_actor actor_at
view-put_actor team (at_player id) a b f e h = ap (with_players team f) (
    show-change_player team id (λ p. record p { actor = b }) f.players
      (λ p s.
        let own : some p.actor ≡ some a = ground arith in
        let same : p.actor ≡ a = cc in h ∙ ap (λ x. shown team x.body) (sym same)))
view-put_actor team at_black a b f e h =
    let own : some (record { body = f.black_building; bufs = [] }) ≡ some a = e in
    let same : record { body = f.black_building; bufs = [] } ≡ a = cc in
    ap (λ v. (show team f.players, v, shown team f.white_building, show_flowers team f.flowers))
      (h ∙ ap (λ y. shown team y.body) (sym same))
view-put_actor team at_white a b f e h =
    let own : some (record { body = f.white_building; bufs = [] }) ≡ some a = e in
    let same : record { body = f.white_building; bufs = [] } ≡ a = cc in
    ap (λ v. (show team f.players, shown team f.black_building, v, show_flowers team f.flowers))
      (h ∙ ap (λ y. shown team y.body) (sym same))
view-put_actor team (at_flower id) a b f e h =
    ap (λ xs. (show team f.players, shown team f.black_building, shown team f.white_building, xs))
      (show_flowers-change_flower team id (λ x. record x { actor = b }) f.flowers
        (λ x s.
          let own : some x.actor ≡ some a = ground arith in
          let same : x.actor ≡ a = cc in h ∙ ap (λ y. shown team y.body) (sym same)))

-- The team of an object, read from what is shown.
abbrev pub team_of : ℤ → List (ℤ × Team × Option ℤ) → Option Team
team_of id [] = none
team_of id ((k, team, hp) ∷ rest) = if eqb_ℤ k id then some team else team_of id rest

abbrev pub side_of : Ref → View → Option Team
side_of (at_player id) v = team_of id v.0
side_of at_black v = some v.1.1
side_of at_white v = some v.2.1
side_of (at_flower id) v = team_of id v.3

team_of-find_player :
    (team : Team) (id : ℤ) (ps : List Player) (p : Player)
    → find_player id ps ≡ some p
    → team_of id (show team ps) ≡ some (get_team p)
unfolding find_player
team_of-find_player team id [] p e = cc
team_of-find_player team id (q ∷ ps) p e = elim (Bool-cases (eqb_ℤ (get_id q) id)) [
  | inl y ↦ let same : some q ≡ some p = ground arith in rw y cc
  | inr n ↦ rw n (team_of-find_player team id ps p (ground arith))
]

team_of-get_flower :
    (team : Team) (id : ℤ) (xs : List BgFlower) (x : BgFlower)
    → get_flower id xs ≡ some x
    → team_of id (show_flowers team xs) ≡ some x.actor.body.team
unfolding get_flower
team_of-get_flower team id [] x e = cc
team_of-get_flower team id (y ∷ xs) x e = elim (Bool-cases (eqb_ℤ (flower_id y) id)) [
  | inl there ↦ let same : some y ≡ some x = ground arith in rw there cc
  | inr n ↦ rw n (team_of-get_flower team id xs x (ground arith))
]

pub side_of-actor_at :
    (team : Team) (r : Ref) (f : Field) (a : Actor)
    → actor_at r f ≡ some a
    → side_of r (view team f) ≡ some a.body.team
unfolding actor_at
side_of-actor_at team (at_player id) f a e = elim (Option-cases (find_player id f.players)) [
  | inl n ↦ ground arith
  | inr (p, s) ↦
      let at : some p.actor ≡ some a = ground arith in
      let side = team_of-find_player team id f.players p s in cc
]
side_of-actor_at team at_black f a e = cc
side_of-actor_at team at_white f a e = cc
side_of-actor_at team (at_flower id) f a e = elim (Option-cases (get_flower id f.flowers)) [
  | inl n ↦ ground arith
  | inr (x, s) ↦
      let at : some x.actor ≡ some a = ground arith in
      let side = team_of-get_flower team id f.flowers x s in cc
]

-- The attacker is of this team.
abbrev pub Own : Team → Ref → Field → Type 0
Own team me f = side_of me (view team f) ≡ some team

pub Own-team :
    (team : Team) (me : Ref) (f : Field) (a : Actor)
    → Own team me f
    → actor_at me f ≡ some a
    → a.body.team ≡ team
Own-team team me f a own e = let side = side_of-actor_at team me f a e in cc
