-- ===== src/Game/DropItem/Tests.antt =====
-- Witnesses for the items: three points, on one of which an item lies.
use cpp_game_frame.Prelude.{◌+◌, ◌≡◌, [], ◌∷◌, arith}
use cpp_game_frame.Prelude.Int.{ℤ, pos}
use cpp_game_frame.Game.DropItem.{Point, DropItemMgr, make_int32, run}
use cpp_game_frame.Game.DropItem.Points.{IsValid, free, held, run_keeps_points}

abbrev spot : ℤ → ℤ → Point
spot x y = record { x = x; y = y }

abbrev ground_items : DropItemMgr
unfolding make_int32
ground_items = record {
  point_list = spot (pos 10) (pos 20) ∷ spot (pos 30) (pos 40) ∷ [];
  item_list =
      (make_int32 (pos 50) (pos 60), record { point = spot (pos 50) (pos 60); item_id = pos 2 })
      ∷ [];
  random_item_list = 5 ∷ 6 ∷ [];
  last_time = 1000;
}

ground_items-IsValid : IsValid ground_items
unfolding make_int32 ground_items
ground_items-IsValid k = ground arith

run_keeps_points_example :
    let after = (run 40000 7 3 ground_items).0 in
    IsValid after
    × ((k : ℤ)
        → free k after.point_list + held k after.item_list
          ≡ free k ground_items.point_list + held k ground_items.item_list)
run_keeps_points_example = run_keeps_points 40000 7 3 ground_items ground_items-IsValid
