-- ===== src/Game/DropItem.antt =====
-- The items that lie on a battleground, game/LoongBgSrv/scene/DropItemMgr.cc, with `MakeInt32` and
-- `getRandomBetween` of Util.h. The values that `random` gives are arguments.
pub mod Points
mod Tests
use cpp_game_frame.Prelude.{
  ℕ, ◌+◌, ◌-◌, ◌*◌, ◌%◌, Bool, true, false, Option, none, some, List, [], ◌∷◌, ◌++◌, length,
  get_elem?, set, take, ltb, ◌==◌, if◌then◌else◌,
}
use cpp_game_frame.Prelude.Int.{ℤ, pos, negsuc, bits16, signed32, eqb_ℤ, ltb_ℤ, to_int16}
use cpp_game_frame.Game.Note.{Note, int, op_drop_item, op_pickup_item}
use cpp_game_frame.Game.Package.{Package, AddItemRtn, success, add_item}

pub record Point : Type 0 where
  pub x : ℤ
  pub y : ℤ

pub record DropItem : Type 0 where
  pub point : Point
  pub item_id : ℤ

-- `item_list` is the map from keys to items; `random_item_list` holds the numbers from which the kinds
-- of the items are drawn.
pub record DropItemMgr : Type 0 where
  pub point_list : List Point
  pub item_list : List (ℤ × DropItem)
  pub random_item_list : List ℕ
  pub last_time : ℕ

abbrev pub ten_seconds : ℕ
ten_seconds = 30000

abbrev pub max_item_num : ℕ
max_item_num = 20

abbrev pub item_num : ℕ
item_num = 4

abbrev pub random_item_num : ℕ
random_item_num = 20

-- `MakeInt32` of two `int16`, which it takes as `uint16`.
unfoldable pub make_int32 : ℤ → ℤ → ℤ
make_int32 height low = signed32 (bits16 height * 65536 + bits16 low)

up_to : ℕ → ℕ → List ℕ
up_to i Prim.Native.Nat.zero = []
up_to i (Prim.Native.Nat.suc n) = i ∷ up_to (i + 1) n

-- `init`, with the points of the configuration.
unfoldable pub init : ℕ → List Point → DropItemMgr
unfolding up_to
init now points = record {
  point_list = points;
  item_list = [];
  random_item_list = up_to 0 random_item_num;
  last_time = now;
}

-- `insert` of a map does not write over an entry.
unfoldable pub insert : ℤ → DropItem → List (ℤ × DropItem) → List (ℤ × DropItem)
insert key item [] = (key, item) ∷ []
insert key item ((k, i) ∷ rest) =
    if ltb_ℤ key k
    then (key, item) ∷ (k, i) ∷ rest
    else if eqb_ℤ key k
    then (k, i) ∷ rest
    else (k, i) ∷ insert key item rest

unfoldable pub find : ℤ → List (ℤ × DropItem) → Option DropItem
find key [] = none
find key ((k, i) ∷ rest) = if eqb_ℤ k key then some i else find key rest

unfoldable pub erase : ℤ → List (ℤ × DropItem) → List (ℤ × DropItem)
erase key [] = []
erase key ((k, i) ∷ rest) = if eqb_ℤ k key then rest else (k, i) ∷ erase key rest

-- Taking a point out of the vector: the last one is moved to its place.
unfoldable pub take_point : ℕ → Point → List Point → List Point
take_point i last points = take (length points - 1) (set points i last)

-- Erasing from a vector by index.
erase_at {ℓ} : {A : Type ℓ} → ℕ → List A → List A
erase_at i [] = []
erase_at Prim.Native.Nat.zero (x ∷ xs) = xs
erase_at (Prim.Native.Nat.suc i) (x ∷ xs) = x ∷ erase_at i xs

drop_note : ℕ → Point → Note
drop_note item_id p = record {
  op = op_drop_item;
  param = pos 0;
  words = int (pos item_id) ∷ int p.x ∷ int p.y ∷ [];
}

-- `run`: the random values choose the point and the kind of the item.
unfoldable pub run : ℕ → ℕ → ℕ → DropItemMgr → DropItemMgr × List Note
unfolding insert take_point erase_at drop_note
run cur random1 random2 m =
    let points = length m.point_list in
    let numbers = length m.random_item_list in
    if ltb ten_seconds (cur - m.last_time)
    then (if ltb max_item_num (length m.item_list)
        then (m, [])
        else elim (get_elem? m.random_item_list (random2 % numbers)) [
          | none ↦ (m, [])
          | some number ↦ elim (get_elem? m.point_list (random1 % points)) [
            | none ↦ (m, [])
            | some p ↦ elim (get_elem? m.point_list (points - 1)) [
              | none ↦ (m, [])
              | some last ↦
                  let item_id = number % item_num + 1 in
                  (
                    record {
                      point_list = take_point (random1 % points) last m.point_list;
                      item_list =
                          insert (make_int32 p.x p.y) (record { point = p; item_id = pos item_id })
                            m.item_list;
                      random_item_list = erase_at (random2 % numbers) m.random_item_list;
                      last_time = cur;
                    },
                    drop_note item_id p ∷ [],
                  )
            ]
          ]
        ])
    else (m, [])

pick_note : ℤ → ℤ → Point → Note
pick_note player_id item_id p = record {
  op = op_pickup_item;
  param = pos 0;
  words = int player_id ∷ int item_id ∷ int p.x ∷ int p.y ∷ [];
}

no_item_note : Note
no_item_note = record { op = op_pickup_item; param = negsuc 0; words = [] }

-- `BgPlayer::addItem`.
unfoldable pub add_succeeds : AddItemRtn → Bool
add_succeeds success = true
add_succeeds _ = false

-- `pickUpItem`: the answer, the items, the package of the player and what is sent to all or, if there
-- is no item, to the player.
unfoldable pub pick_up_item :
    ℤ → Point → Package → DropItemMgr → Bool × DropItemMgr × Package × List Note
unfolding find erase add_item pick_note no_item_note add_succeeds
pick_up_item player_id p items m = elim (find (make_int32 p.x p.y) m.item_list) [
  | none ↦ (false, m, items, no_item_note ∷ [])
  | some item ↦
      let (answer, filled) = add_item (to_int16 item.item_id) items in
      if add_succeeds answer
      then (
        true,
        record m {
          item_list = erase (make_int32 p.x p.y) m.item_list;
          point_list = m.point_list ++ (p ∷ []);
        },
        filled,
        pick_note player_id item.item_id p ∷ [],
      )
      else (true, m, filled, [])
]

item_words : List (ℤ × DropItem) → List ℤ
item_words [] = []
item_words ((k, i) ∷ rest) = i.point.x ∷ i.point.y ∷ i.item_id ∷ item_words rest

-- The words that `serialize` puts into a packet.
unfoldable pub serialize : DropItemMgr → List ℤ
unfolding item_words
serialize m = pos (length m.item_list) ∷ item_words m.item_list
