-- ===== src/Game/Package.antt =====
-- A player's item package, game/LoongBgSrv/package. An `int16` is an integer, with the wrap of its
-- casts written out.
pub mod Count
mod Tests
use cpp_game_frame.Prelude.{ℕ, suc, ◌+◌, Bool, true, false, List, [], ◌∷◌, if◌then◌else◌}
use cpp_game_frame.Prelude.Int.{ℤ, pos, negsuc, ◌+ℤ◌, ◌-ℤ◌, eqb_ℤ, leb_ℤ, ltb_ℤ, to_int16}

pub record Item : Type 0 where
  pub item_id : ℤ
  pub num : ℤ

pub record Package : Type 0 where
  pub cur_item_num : ℤ
  pub item_list : List Item

abbrev pub max_item_num : ℤ
max_item_num = pos 3

pub data AddItemRtn : Type 0 where
  none_rtn success package_full error : AddItemRtn

abbrev pub empty_item : Item
empty_item = record { item_id = pos 0; num = pos 0 }

unfoldable pub new : Package
new = record { cur_item_num = pos 0; item_list = empty_item ∷ empty_item ∷ empty_item ∷ [] }

unfoldable pub has_item_from : ℤ → List Item → Bool
has_item_from id [] = false
has_item_from id (x ∷ xs) = if eqb_ℤ x.item_id id then true else has_item_from id xs

unfoldable pub has_item : ℤ → Package → Bool
unfolding has_item_from
has_item id p = has_item_from id p.item_list

-- The array with its first item of this id cleared, and the number of items taken out.
del_item_from : ℤ → List Item → List Item
del_item_from id [] = []
del_item_from id (x ∷ xs) = if eqb_ℤ x.item_id id then empty_item ∷ xs else x ∷ del_item_from id xs

unfoldable pub del_item : ℤ → Package → Package
unfolding del_item_from has_item_from
del_item id p =
    if has_item_from id p.item_list
    then record {
      cur_item_num = to_int16 (p.cur_item_num -ℤ pos 1);
      item_list = del_item_from id p.item_list;
    }
    else p

put_item : ℤ → List Item → List Item
put_item id [] = []
put_item id (x ∷ xs) =
    if eqb_ℤ x.item_id (pos 0)
    then record { item_id = id; num = pos 1 } ∷ xs
    else x ∷ put_item id xs

unfoldable pub add_item : ℤ → Package → AddItemRtn × Package
unfolding has_item_from put_item
add_item id p =
    if leb_ℤ max_item_num p.cur_item_num
    then (package_full, p)
    else if has_item_from (pos 0) p.item_list
    then (
      success,
      record {
        cur_item_num = to_int16 (p.cur_item_num +ℤ pos 1);
        item_list = put_item id p.item_list;
      },
    )
    else (error, p)

clear_from : List Item → List Item
clear_from [] = []
clear_from (x ∷ xs) = empty_item ∷ clear_from xs

unfoldable pub clear : Package → Package
unfolding clear_from
clear p = record { cur_item_num = pos 0; item_list = clear_from p.item_list }

unfoldable pub is_full : Package → Bool
is_full p = leb_ℤ max_item_num p.cur_item_num

serialize_from : List Item → List ℤ
serialize_from [] = []
serialize_from (x ∷ xs) =
    if ltb_ℤ (pos 0) x.item_id then x.item_id ∷ serialize_from xs else serialize_from xs

-- The words that `serialize` puts into the packet.
unfoldable pub serialize : Package → List ℤ
unfolding serialize_from
serialize p = p.cur_item_num ∷ serialize_from p.item_list
