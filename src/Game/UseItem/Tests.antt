-- ===== src/Game/UseItem/Tests.antt =====
-- Witnesses for the use of items: a player with a seed of item 4 that used an item a second ago.
use cpp_game_frame.Prelude.{◌≡◌, refl, none, some, List, [], ◌∷◌, arith}
use cpp_game_frame.Prelude.Int.{pos}
use cpp_game_frame.Game.Package.{empty_item, has_item, del_item, is_full}
use cpp_game_frame.Game.Package.Count.{IsValid}
use cpp_game_frame.Game.Player
use cpp_game_frame.Game.Player.{Player}
use cpp_game_frame.Game.Battleground.{Effect}
use cpp_game_frame.Game.UseItem.{Tables, cooling_down, on_use_item}
use cpp_game_frame.Game.UseItem.Cooldown.{on_use_item-no_cooldown, on_use_item_zero}

abbrev tables : Tables
tables = record {
  bufs = [];
  items =
      record { item_id = pos 1; function_type = pos 1; buf_num = pos 0; buf_list = [] }
      ∷ record { item_id = pos 2; function_type = pos 0; buf_num = pos 0; buf_list = [] }
      ∷ [];
  pets = [];
}

abbrev carrier : Player
unfolding Player.new
carrier = record (Player.new (pos 9) [] (pos 1) (pos 0)) {
  items = record {
    cur_item_num = pos 1;
    item_list = record { item_id = pos 2; num = pos 1 } ∷ empty_item ∷ empty_item ∷ [];
  };
  use_item_timestamp = 1333292400000000;
}

carrier_items-IsValid : IsValid carrier.items
unfolding carrier
carrier_items-IsValid = record { places = refl; counted = refl }

on_use_item-no_cooldown_example :
    on_use_item tables 1333292401000000 1333292401000 none
      (pos 2)
      (record carrier { use_item_timestamp = 1333292400000000 })
    ≡ on_use_item tables 1333292401000000 1333292401000 none
        (pos 2)
        (record carrier { use_item_timestamp = 1 })
unfolding has_item carrier
on_use_item-no_cooldown_example =
    on_use_item-no_cooldown tables 1333292401000000 1333292401000 none (pos 2) carrier
      1333292400000000 1 (omega arith) (omega arith) refl

on_use_item_zero_example :
    (q : Player) × (es : List Effect) × (on_use_item tables 1333292401000000 1333292401000 none
        (pos 0)
        carrier
      ≡ some (q, es))
    × (q.items ≡ del_item (pos 0) carrier.items)
    × ¬ IsValid q.items
unfolding is_full cooling_down carrier
on_use_item_zero_example =
    on_use_item_zero tables 1333292401000000 1333292401000 none carrier carrier_items-IsValid refl
      refl
