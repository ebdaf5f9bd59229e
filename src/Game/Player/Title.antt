-- ===== src/Game/Player/Title.antt =====
-- The titles that kills in a row give.
use cpp_game_frame.Game.Note.{Note}
use cpp_game_frame.Prelude.{
  refl, Bool, true, false, List, if◌then◌else◌, ℕ, zero, suc, ◌+◌, ◌/◌, ◌≤◌, ◌<◌, ◌≡◌, ap, ◌∙◌,
  arith, min, max,
}
use cpp_game_frame.Prelude.Int.{ℤ, pos, ◌+ℤ◌, eqb_ℤ, to_int16}
use cpp_game_frame.Game.Player.{Player, set_title, on_title_handle, inc_kill_enemy_time}

-- The highest title that k kills in a row have passed by.
abbrev pub title_of : ℕ → ℕ
title_of k = min 8 ((k + 1) / 2)

-- `n` kills one after the other.
abbrev pub kills : ℕ → Player → Player
kills zero p = p
kills (suc n) p = kills n (inc_kill_enemy_time p).0

set_title-title :
    (p : Player) (m t : ℕ) → p.title ≡ pos t → (set_title (pos m) p).0.title ≡ pos (max t m)
unfolding set_title
set_title-title p m t e = ground arith

set_title-keeps :
    (p : Player) (m : ℤ) → (set_title m p).0.last_kill_enemy_times ≡ p.last_kill_enemy_times
unfolding set_title
set_title-keeps p m = ground arith

on_title_handle-keeps :
    (p : Player) → (on_title_handle p).0.last_kill_enemy_times ≡ p.last_kill_enemy_times
unfolding on_title_handle
on_title_handle-keeps p = ground (
  arith,
  set_title-keeps p (pos 1),
  set_title-keeps p (pos 2),
  set_title-keeps p (pos 3),
  set_title-keeps p (pos 4),
  set_title-keeps p (pos 5),
  set_title-keeps p (pos 6),
  set_title-keeps p (pos 7),
  set_title-keeps p (pos 8),
)

on_title_handle-title :
    (p : Player) (k t : ℕ)
    → p.last_kill_enemy_times ≡ pos (suc k)
    → p.title ≡ pos t
    → title_of k ≤ t
    → (on_title_handle p).0.title ≡ pos (max t (title_of (suc k)))
unfolding on_title_handle
on_title_handle-title p k t e f h = ground (
  arith,
  set_title-title p 1 t f,
  set_title-title p 2 t f,
  set_title-title p 3 t f,
  set_title-title p 4 t f,
  set_title-title p 5 t f,
  set_title-title p 6 t f,
  set_title-title p 7 t f,
  set_title-title p 8 t f,
)

-- The counter of kills in a row goes up by one, as it does not wrap.
count_up : (n : ℤ) (k : ℕ) → n ≡ pos k → k < 32767 → to_int16 (n +ℤ pos 1) ≡ pos (suc k)
unfolding ◌+ℤ◌
count_up n k e h = ground arith

-- A player with k kills in a row so far and a title t that is not below the one for k, after n
-- kills more that do not wrap the counter: k + n kills in a row, and the title is the higher one
-- of t and the one for k + n, which is half of k + n + 1, rounded down, and at most 8.
pub kills-title :
    (n : ℕ) (p : Player) (k t : ℕ)
    → p.last_kill_enemy_times ≡ pos k
    → p.title ≡ pos t
    → title_of k ≤ t
    → n + k < 32768
    → ((kills n p).last_kill_enemy_times ≡ pos (n + k))
      × ((kills n p).title ≡ pos (max t (title_of (n + k))))
unfolding inc_kill_enemy_time
kills-title zero p k t e f l h = (e ∙ ap pos (omega arith), f ∙ ap pos (omega arith))
kills-title (suc n) p k t e f l h =
    let counted = record p {
      kill_enemy_times = to_int16 (p.kill_enemy_times +ℤ pos 1);
      last_kill_enemy_times = to_int16 (p.last_kill_enemy_times +ℤ pos 1);
    } in
    let up = count_up p.last_kill_enemy_times k e (omega arith) in
    let (last, title) =
      kills-title n (on_title_handle counted).0 (suc k) (max t (title_of (suc k)))
        (on_title_handle-keeps counted ∙ up) (on_title_handle-title counted k t up f l)
        (omega arith) (omega arith) in
    (last ∙ ap pos (omega arith), title ∙ ap pos (omega arith))

-- The same object, with the same times of his skills.
abbrev Same : Player → Player → Type 0
Same q p = (q.actor ≡ p.actor) × (q.use_skill_map ≡ p.use_skill_map)

set_title-Same : (m : ℤ) (p : Player) → Same (set_title m p).0 p
unfolding set_title
set_title-Same m p = ground arith

if-Same :
    (b : Bool) (x y : Player × List Note) (p : Player)
    → Same x.0 p
    → Same y.0 p
    → Same (if b then x else y).0 p
if-Same true x y p h k = h
if-Same false x y p h k = k

on_title_handle-Same : (p : Player) → Same (on_title_handle p).0 p
unfolding on_title_handle
on_title_handle-Same p =
    at 1 1 _
      (at 3 2 _ (at 5 3 _ (at 7 4 _ (at 9 5 _ (at 11 6 _ (at 13 7 _ (at 15 8 _ (refl, refl))))))))
  where
    at :
        (k m : ℕ) (y : Player × List Note)
        → Same y.0 p
        → Same (if eqb_ℤ p.last_kill_enemy_times (pos k) then set_title (pos m) p else y).0 p
    at k m y h = if-Same (eqb_ℤ p.last_kill_enemy_times (pos k)) _ y p (set_title-Same (pos m) p) h

-- A kill changes neither the body of a player nor the times of the skills.
pub inc_kill_enemy_time-keeps :
    (p : Player)
    → ((inc_kill_enemy_time p).0.actor ≡ p.actor)
      × ((inc_kill_enemy_time p).0.use_skill_map ≡ p.use_skill_map)
unfolding inc_kill_enemy_time
inc_kill_enemy_time-keeps p = on_title_handle-Same (record p {
  kill_enemy_times = to_int16 (p.kill_enemy_times +ℤ pos 1);
  last_kill_enemy_times = to_int16 (p.last_kill_enemy_times +ℤ pos 1);
})
