-- ===== src/Game/UseItem/Cooldown.antt =====
-- The cooldown of items, and the item id 0.
use cpp_game_frame.Prelude.{ℕ, ◌<◌, ◌≡◌, refl, true, false, Option, some, List, [], ◌∷◌, ltb, arith}
use cpp_game_frame.Prelude.Int.{ℤ, pos}
use cpp_game_frame.Game.Note.{op_use_item, int}
use cpp_game_frame.Game.Base.{check_item_id}
use cpp_game_frame.Game.Package.{Package, has_item, del_item, is_full}
use cpp_game_frame.Game.Package.Count.{IsValid, del_item_zero, free_iff}
use cpp_game_frame.Game.Player.{Player, get_id}
use cpp_game_frame.Game.Battleground.{Effect, send}
use cpp_game_frame.Game.UseItem.{Tables, handle_item, cooling_down, on_use_item}

-- For a player that has the item, what onUseItem does is the same whenever an item was used last,
-- be it just now: any two valid times of the last use give the same result.
pub on_use_item-no_cooldown :
    (t : Tables) (now cur : ℕ) (scene : Option (List Player)) (id : ℤ) (p : Player) (a b : ℕ)
    → 0 < a
    → 0 < b
    → has_item id p.items ≡ true
    → on_use_item t now cur scene id (record p { use_item_timestamp = a })
      ≡ on_use_item t now cur scene id (record p { use_item_timestamp = b })
unfolding on_use_item cooling_down
on_use_item-no_cooldown t now cur scene id p a b h k has =
    let va : ltb 0 a ≡ true = ground arith in
    let vb : ltb 0 b ≡ true = ground arith in rw (has, va, vb) refl

-- A package that is valid and not full has an item of id 0.
has_item_zero : (p : Package) → IsValid p → is_full p ≡ false → has_item (pos 0) p ≡ true
unfolding has_item is_full
has_item_zero p v n = (free_iff p.item_list).1 (ground (arith, v.places, v.counted))

-- A player whose package is valid and not full and whom the cooldown does not stop can use the
-- item id 0, whatever the tables are: onUseItem succeeds, deletes the id from the package, and the
-- package is valid no longer.
pub on_use_item_zero :
    (t : Tables) (now cur : ℕ) (scene : Option (List Player)) (p : Player)
    → IsValid p.items
    → is_full p.items ≡ false
    → cooling_down now p ≡ false
    → (q : Player) × (es : List Effect) × (on_use_item t now cur scene (pos 0) p ≡ some (q, es))
      × (q.items ≡ del_item (pos 0) p.items)
      × ¬ IsValid q.items
unfolding on_use_item handle_item check_item_id
on_use_item_zero t now cur scene p v n c = (
  record p { use_item_timestamp = now; items = del_item (pos 0) p.items },
  send (get_id p) (record { op = op_use_item; param = pos 0; words = int (pos 0) ∷ [] }) ∷ [],
  rw (has_item_zero p.items v n, c) refl,
  refl,
  del_item_zero v n,
)
