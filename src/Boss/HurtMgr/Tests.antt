-- ===== src/Boss/HurtMgr/Tests.antt =====
-- The board on concrete players, with an insertion sort for `std::sort`.
use mathlib.Core.List.{Permᴰ}
use mathlib.Core.List.Permᴰ
use cpp_game_frame.Prelude.{
  ℕ, ◌≤◌, ◌≡◌, refl, Bool-cases, inl, inr, List, [], ◌∷◌, ltb, if◌then◌else◌, arith,
}
use cpp_game_frame.Boss.HurtMgr.{Player, HurtMgr, new, get_hurt_value, add_hurt}
use cpp_game_frame.Boss.HurtMgr.Order.{All, IsSorted, IsSort, All-perm}
use cpp_game_frame.Boss.HurtMgr.TopTen.{IsTopTen, IsReachable, begin, hurt, reachable-IsTopTen}

insert : Player → List Player → List Player
insert p [] = p ∷ []
insert p (x ∷ xs) = if ltb x.hurtvalue p.hurtvalue then p ∷ x ∷ xs else x ∷ insert p xs

sort : List Player → List Player
unfolding insert
sort [] = []
sort (x ∷ xs) = insert x (sort xs)

insert-perm : (p : Player) (xs : List Player) → Permᴰ (p ∷ xs) (insert p xs)
unfolding insert
insert-perm p [] = Permᴰ.refl _
insert-perm p (x ∷ xs) = elim (Bool-cases (ltb x.hurtvalue p.hurtvalue)) [
  | inl e ↦ rw e (Permᴰ.refl _)
  | inr e ↦ rw e (Permᴰ.trans (Permᴰ.swap refl refl) (Permᴰ.cons refl (insert-perm p xs)))
]

sort-perm : (xs : List Player) → Permᴰ xs (sort xs)
unfolding sort
sort-perm [] = Permᴰ.nil
sort-perm (x ∷ xs) = Permᴰ.trans (Permᴰ.cons refl (sort-perm xs)) (insert-perm x (sort xs))

All-le :
    (a b : ℕ) (xs : List Player)
    → a ≤ b
    → All (λ y. y.hurtvalue ≤ a) xs
    → All (λ y. y.hurtvalue ≤ b) xs
All-le a b [] h k = tt
All-le a b (x ∷ xs) h k = (omega arith, All-le a b xs h k.1)

insert-IsSorted : (p : Player) (xs : List Player) → IsSorted xs → IsSorted (insert p xs)
unfolding insert
insert-IsSorted p [] s = (tt, tt)
insert-IsSorted p (x ∷ xs) s = elim (Bool-cases (ltb x.hurtvalue p.hurtvalue)) [
  | inl e ↦
      let h : x.hurtvalue ≤ p.hurtvalue = ground arith in
      rw e ((h, All-le x.hurtvalue p.hurtvalue xs h s.0), s)
  | inr e ↦
      let h : p.hurtvalue ≤ x.hurtvalue = ground arith in
      rw e (
        All-perm (λ y. y.hurtvalue ≤ x.hurtvalue) (insert-perm p xs) (h, s.0),
        insert-IsSorted p xs s.1,
      )
]

sort-IsSorted : (xs : List Player) → IsSorted (sort xs)
unfolding sort
sort-IsSorted [] = tt
sort-IsSorted (x ∷ xs) = insert-IsSorted x (sort xs) (sort-IsSorted xs)

sort-IsSort : IsSort sort
sort-IsSort = record { sorted = sort-IsSorted; perm = sort-perm }

abbrev name : List ℕ
name = 97 ∷ []

add_many : List (ℕ × ℕ) → HurtMgr → HurtMgr
unfolding add_hurt sort
add_many [] m = m
add_many ((uid, value) ∷ rest) m = add_many rest (add_hurt sort uid value name m)

uids : List Player → List ℕ
uids [] = []
uids (x ∷ xs) = x.uid ∷ uids xs

-- Eleven players; the sixth and then the first are taken off and come back.
eleven_players :
    uids
      (add_many
        ((1, 10)
          ∷ (2, 20)
          ∷ (3, 30)
          ∷ (4, 40)
          ∷ (5, 50)
          ∷ (6, 5)
          ∷ (7, 70)
          ∷ (8, 80)
          ∷ (9, 90)
          ∷ (10, 100)
          ∷ (11, 55)
          ∷ (6, 20)
          ∷ (1, 25)
          ∷ [])
        new).top_players
    ≡ 10 ∷ 9 ∷ 8 ∷ 7 ∷ 11 ∷ 5 ∷ 4 ∷ 1 ∷ 3 ∷ 6 ∷ []
unfolding add_many uids new
eleven_players = refl

abbrev two_hurts : HurtMgr
two_hurts = add_hurt sort 2 9 name (add_hurt sort 1 7 name new)

two_hurts-IsReachable : IsReachable sort two_hurts
unfolding new get_hurt_value add_hurt
two_hurts-IsReachable = hurt 2 9 name (hurt 1 7 name begin (omega arith)) (omega arith)

reachable-IsTopTen_example : IsTopTen two_hurts.player_map two_hurts.top_players
reachable-IsTopTen_example = reachable-IsTopTen sort sort-IsSort two_hurts-IsReachable

-- A sum that leaves 32 bits starts from 0 again, and the player goes down the board.
sum_wraps : uids (add_many ((1, 4294967295) ∷ (2, 5) ∷ (1, 2) ∷ []) new).top_players ≡ 2 ∷ 1 ∷ []
unfolding add_many uids new
sum_wraps = refl
