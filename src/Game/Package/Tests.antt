-- ===== src/Game/Package/Tests.antt =====
-- A test of the package.
use cpp_game_frame.Prelude.{◌≡◌, refl}
use cpp_game_frame.Prelude.Int.{pos, ◌-ℤ◌, ◌+ℤ◌}
use cpp_game_frame.Game.Package.{new, add_item, del_item}

-- Adding to an empty package and deleting again.
add_then_delete : del_item (pos 4) (add_item (pos 4) new).1 ≡ new
unfolding add_item del_item new ◌-ℤ◌ ◌+ℤ◌
add_then_delete = refl
