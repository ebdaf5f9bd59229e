-- ===== src/Game/Flower/Ids.antt =====
-- How many flowers there are, and whether their ids are theirs alone.
use cpp_game_frame.Prelude.{
  ℕ, suc, ◌+◌, ◌%◌, ◌≤◌, ◌<◌, ◌≡◌, refl, ◌⊎◌, inl, inr, true, false, Bool-cases, some, List, [],
  ◌∷◌, ◌++◌, length, length-append, ltb, arith,
}
use cpp_game_frame.Prelude.Int.{ℤ, pos}
use cpp_game_frame.Game.Body
use cpp_game_frame.Game.Body.{Team}
use cpp_game_frame.Game.Flower.{
  BgFlower, new_flower, init, flower_id, max_flower_num, plant_flower, planted, get_flower,
}

-- All flowers have ids that were given before the next one.
abbrev pub AllBelow : ℕ → List BgFlower → Type 0
AllBelow n [] = Unit
AllBelow n (f ∷ fs) = ((i : ℕ) × (flower_id f ≡ pos i) × (i < n)) × AllBelow n fs

get_flower-append :
    (n : ℕ) (fs : List BgFlower) (f : BgFlower)
    → AllBelow n fs
    → flower_id f ≡ pos n
    → get_flower (pos n) (fs ++ (f ∷ [])) ≡ some f
unfolding get_flower
get_flower-append n [] f b e = ground arith
get_flower-append n (g ∷ fs) f ((i, p, l), b) e = ground (arith, get_flower-append n fs f b e)

-- A flower is found where it was, when another is planted behind.
get_flower-first :
    (n : ℕ) (fs : List BgFlower) (g f : BgFlower)
    → get_flower (pos n) fs ≡ some g
    → get_flower (pos n) (fs ++ (f ∷ [])) ≡ some g
unfolding get_flower
get_flower-first n [] g f h = cc
get_flower-first n (x ∷ fs) g f h = ground (arith, get_flower-first n fs g f)

AllBelow-append :
    (n : ℕ) (fs : List BgFlower) (f : BgFlower)
    → AllBelow n fs
    → flower_id f ≡ pos n
    → AllBelow (suc n) (fs ++ (f ∷ []))
AllBelow-append n [] f b e = ((n, e, omega arith), tt)
AllBelow-append n (g ∷ fs) f ((i, p, l), b) e = ((i, p, omega arith), AllBelow-append n fs f b e)

planted-id :
    (n now : ℕ) (team : Team) (x y : ℤ)
    → n < 2147483648
    → flower_id (planted n now team x y) ≡ pos n
unfolding planted new_flower Body.new
planted-id n now team x y h = ground arith

-- Where all ids are below the next one, which is below 2^31, and there are at most six flowers:
-- planting refuses exactly when there are six; else the flower, with that next id, is put behind
-- the others, which stay as they are, and is the one that getFlower finds under this id; there are
-- six at most afterwards, and all ids are below the next one.
pub plant_flower_lem :
    (now : ℕ) (player : ℤ) (team : Team) (x y : ℤ) (n : ℕ) (fs : List BgFlower)
    → AllBelow n fs
    → n < 2147483648
    → length fs ≤ 6
    → let (answer, next, after, notes) = plant_flower now player team x y n fs in
      (length after ≤ 6)
      × AllBelow next after
      × ((answer ≡ false) × (length fs ≡ 6) × (after ≡ fs)
          ⊎ (answer ≡ true)
            × (after ≡ fs ++ (planted n now team x y ∷ []))
            × (length after ≡ suc (length fs))
            × (get_flower (pos n) after ≡ some (planted n now team x y)))
unfolding plant_flower
plant_flower_lem now player team x y n fs b h six =
    elim (Bool-cases (ltb max_flower_num (length fs))) [
      | inl full ↦ rw (plant_flower, full) (six, b, inl (refl, ground arith, refl))
      | inr room ↦
          let f = planted n now team x y in
          let id = planted-id n now team x y h in
          let longer : length (fs ++ (f ∷ [])) ≡ suc (length fs) =
            omega (arith, length-append fs (f ∷ [])) in
          let next : (n + 1) % 4294967296 ≡ suc n = omega arith in
          rw (plant_flower, room)
            (
              ground (arith, longer),
              rw next (AllBelow-append n fs f b id),
              inr (refl, refl, longer, get_flower-append n fs f b id),
            )
    ]

-- After the manager of any battleground was initialised, the next flower has id 1. Where a flower
-- with this id stands already and there are at most five, the new flower is put behind the others
-- with the same id, and getFlower still finds the old one.
pub plant_flower-init :
    (now : ℕ) (player : ℤ) (team : Team) (x y : ℤ) (fs : List BgFlower) (g : BgFlower)
    → get_flower (pos 1) fs ≡ some g
    → length fs ≤ 5
    → let (answer, next, after, notes) = plant_flower now player team x y init.0 fs in
      let f = planted init.0 now team x y in
      (after ≡ fs ++ (f ∷ [])) × (flower_id f ≡ pos 1) × (get_flower (pos 1) after ≡ some g)
unfolding plant_flower init
plant_flower-init now player team x y fs g h room =
    let roomy : ltb max_flower_num (length fs) ≡ false = ground arith in
    rw (plant_flower, roomy)
      (refl, planted-id 1 now team x y (omega arith), get_flower-first 1 fs g _ h)
