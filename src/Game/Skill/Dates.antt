-- ===== src/Game/Skill/Dates.antt =====
-- The times of the last uses of skills, and what a use does to them.
use cpp_game_frame.Prelude.{
  ℕ, ◌≡◌, refl, ◌⊎◌, inl, inr, Bool-cases, false, Option, none, some, List, [], ◌∷◌, if◌then◌else◌,
  arith,
}
use cpp_game_frame.Prelude.Int.{ℤ, eqb_ℤ, eqb_ℤ-refl, ltb_ℤ}
use cpp_game_frame.Game.Player.{Player, get_id}
use cpp_game_frame.Game.Skill.Objects.{find_player, change_player}
use cpp_game_frame.Game.Skill.Strike.Uses.{uses}
use cpp_game_frame.Game.Skill.{last_use, set_use}

-- The last use of a skill by a player, read from the players' uses.
abbrev pub use_of : ℤ → ℤ → List (ℤ × List (ℤ × ℕ)) → Option ℕ
use_of me id [] = none
use_of me id ((k, m) ∷ rest) = if eqb_ℤ k me then last_use id m else use_of me id rest

last_use-set_use : (id : ℤ) (cur : ℕ) (m : List (ℤ × ℕ)) → last_use id (set_use id cur m) ≡ some cur
unfolding last_use set_use
last_use-set_use id cur [] = rw (eqb_ℤ-refl id) refl
last_use-set_use id cur ((k, time) ∷ rest) = elim (Bool-cases (ltb_ℤ id k)) [
  | inl y ↦ rw (y, eqb_ℤ-refl id) refl
  | inr n ↦ elim (Bool-cases (eqb_ℤ k id)) [
    | inl same ↦ rw (n, same, eqb_ℤ-refl id) refl
    | inr other ↦ rw (n, other, other) (last_use-set_use id cur rest)
  ]
]

abbrev pub used_now : (id : ℤ) (cur : ℕ) → Player → Player
used_now id cur p = record p { use_skill_map = set_use id cur p.use_skill_map }

pub use_of-used :
    (me id : ℤ) (cur : ℕ) (ps : List Player) (p : Player)
    → find_player me ps ≡ some p
    → use_of me id (uses (change_player me (used_now id cur) ps)) ≡ some cur
unfolding find_player change_player
use_of-used me id cur [] p e = cc
use_of-used me id cur (q ∷ ps) p e = elim (Bool-cases (eqb_ℤ (get_id q) me)) [
  | inl y ↦ rw (y, y) (last_use-set_use id cur q.use_skill_map)
  | inr n ↦ rw (n, n) (use_of-used me id cur ps p (ground arith))
]

pub use_of-find_player :
    (me id : ℤ) (ps : List Player) (p : Player)
    → find_player me ps ≡ some p
    → use_of me id (uses ps) ≡ last_use id p.use_skill_map
unfolding find_player
use_of-find_player me id [] p e = cc
use_of-find_player me id (q ∷ ps) p e = elim (Bool-cases (eqb_ℤ (get_id q) me)) [
  | inl y ↦ let same : some q ≡ some p = ground arith in rw y cc
  | inr n ↦ rw n (use_of-find_player me id ps p (ground arith))
]

-- A use of one skill leaves the times of the others.
last_use-set_use_other :
    (id other : ℤ) (cur : ℕ) (m : List (ℤ × ℕ))
    → eqb_ℤ other id ≡ false
    → last_use id (set_use other cur m) ≡ last_use id m
unfolding last_use set_use
last_use-set_use_other id other cur [] e = rw e refl
last_use-set_use_other id other cur ((k, time) ∷ rest) e = elim (Bool-cases (ltb_ℤ other k)) [
  | inl y ↦ rw (y, e) refl
  | inr n ↦ elim (Bool-cases (eqb_ℤ k other)) [
    | inl same ↦ let away : eqb_ℤ k id ≡ false = ground arith in rw (n, same, e, away) refl
    | inr apart ↦ rw (n, apart) (ground (arith, last_use-set_use_other id other cur rest e))
  ]
]

-- So does a use by another player, or of another skill.
pub use_of-other :
    (me id who other : ℤ) (cur : ℕ) (ps : List Player)
    → (eqb_ℤ who me ≡ false) ⊎ (eqb_ℤ other id ≡ false)
    → use_of me id (uses (change_player who (used_now other cur) ps)) ≡ use_of me id (uses ps)
unfolding change_player
use_of-other me id who other cur [] e = refl
use_of-other me id who other cur (p ∷ ps) e = elim (Bool-cases (eqb_ℤ (get_id p) who)) [
  | inr n ↦ rw n (ground (arith, use_of-other me id who other cur ps e))
  | inl y ↦ elim (Bool-cases (eqb_ℤ (get_id p) me)) [
    | inr away ↦ rw (y, away) refl
    | inl mine ↦
        rw (y, mine)
          (elim e [
            | inl apart ↦ absurd (ground arith)
            | inr skill ↦ last_use-set_use_other id other cur p.use_skill_map skill
          ])
  ]
]
