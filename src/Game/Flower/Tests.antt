-- ===== src/Game/Flower/Tests.antt =====
-- Witnesses for the flowers: one that stands already.
use cpp_game_frame.Prelude.{
  suc, ◌≤◌, ◌≡◌, refl, ◌⊎◌, true, false, some, [], ◌∷◌, ◌++◌, length, arith,
}
use cpp_game_frame.Prelude.Int.{pos}
use cpp_game_frame.Game.Body
use cpp_game_frame.Game.Body.{black}
use cpp_game_frame.Game.Flower.{
  BgFlower, init, flower_id, new_flower, planted, plant_flower, get_flower,
}
use cpp_game_frame.Game.Flower.Ids.{AllBelow, plant_flower_lem, plant_flower-init}

abbrev rose : BgFlower
unfolding new_flower Body.new
rose = new_flower (pos 1) black

plant_flower_lem_example :
    let (answer, next, after, notes) =
      plant_flower 5000 (pos 9) black (pos 10) (pos 20) 2 (rose ∷ []) in
    (length after ≤ 6)
    × AllBelow next after
    × ((answer ≡ false) × (length (rose ∷ []) ≡ 6) × (after ≡ rose ∷ [])
        ⊎ (answer ≡ true)
          × (after ≡ rose ∷ [] ++ (planted 2 5000 black (pos 10) (pos 20) ∷ []))
          × (length after ≡ suc (length (rose ∷ [])))
          × (get_flower (pos 2) after ≡ some (planted 2 5000 black (pos 10) (pos 20))))
unfolding rose new_flower Body.new
plant_flower_lem_example =
    plant_flower_lem 5000 (pos 9) black (pos 10) (pos 20) 2 (rose ∷ []) ((1, refl, omega arith), tt)
      (omega arith) (omega arith)

plant_flower-init_example :
    let (answer, next, after, notes) =
      plant_flower 5000 (pos 9) black (pos 10) (pos 20) init.0 (rose ∷ []) in
    let f = planted init.0 5000 black (pos 10) (pos 20) in
    (after ≡ rose ∷ [] ++ (f ∷ [])) × (flower_id f ≡ pos 1) × (get_flower (pos 1) after ≡ some rose)
unfolding rose new_flower Body.new get_flower
plant_flower-init_example =
    plant_flower-init 5000 (pos 9) black (pos 10) (pos 20) (rose ∷ []) rose refl (omega arith)
