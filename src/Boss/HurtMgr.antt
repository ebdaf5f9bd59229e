-- ===== src/Boss/HurtMgr.antt =====
-- The hurt that players have done and the board of the first ten, game/bosssrv/BossHurtMgr.h and
-- BossHurtMgr.cc. `std::sort` by `cmp` is a parameter: it is not stable, so the order of players of
-- equal hurt is open.
pub mod Order
pub mod Board
pub mod TopTen
mod Tests
use cpp_game_frame.Prelude.{
  ℕ, ◌+◌, Bool, true, false, ◌||◌, Option, none, some, List, [], ◌∷◌, ◌++◌, length, ltb, ◌==◌,
  if◌then◌else◌, ◌>>=◌,
}
use cpp_game_frame.Prelude.Words.{u32}
use cpp_game_frame.Kabu.Packet.{Packet, put_int32, put_utf}

pub record Player : Type 0 where
  pub uid : ℕ
  pub hurtvalue : ℕ
  pub username : List ℕ

-- `player_map` is a `std::map`: its entries are in the order of the ids.
pub record HurtMgr : Type 0 where
  pub player_map : List (ℕ × ℕ)
  pub top_players : List Player

abbrev pub max_top_num : ℕ
max_top_num = 10

unfoldable pub new : HurtMgr
new = record { player_map = []; top_players = [] }

unfoldable pub find : ℕ → List (ℕ × ℕ) → Option ℕ
find uid [] = none
find uid ((k, v) ∷ rest) = if k == uid then some v else find uid rest

-- `playerMap_[uid] = value`.
unfoldable pub assign : ℕ → ℕ → List (ℕ × ℕ) → List (ℕ × ℕ)
assign uid value [] = (uid, value) ∷ []
assign uid value ((k, v) ∷ rest) =
    if ltb uid k
    then (uid, value) ∷ (k, v) ∷ rest
    else if k == uid
    then (uid, value) ∷ rest
    else (k, v) ∷ assign uid value rest

unfoldable pub get_hurt_value : ℕ → HurtMgr → ℕ
unfolding find
get_hurt_value uid m = elim (find uid m.player_map) [ none ↦ 0 | some v ↦ v ]

unfoldable pub listed : ℕ → List Player → Bool
listed uid [] = false
listed uid (x ∷ xs) = x.uid == uid || listed uid xs

-- The loop that looks for the player on the board and writes his entry.
unfoldable pub write_entry : Player → List Player → List Player
write_entry p [] = []
write_entry p (x ∷ xs) = if x.uid == p.uid then p ∷ xs else x ∷ write_entry p xs

unfoldable pub pop_back : List Player → List Player
pop_back [] = []
pop_back (x ∷ []) = []
pop_back (x ∷ y ∷ xs) = x ∷ pop_back (y ∷ xs)

module _ (sort : List Player → List Player) where
  unfoldable pub add_top : Player → List Player → List Player
  unfolding listed write_entry pop_back
  add_top p top =
      if listed p.uid top
      then sort (write_entry p top)
      else if length top == max_top_num
      then pop_back (sort (top ++ (p ∷ [])))
      else sort (top ++ (p ∷ []))

  unfoldable pub add_hurt : ℕ → ℕ → List ℕ → HurtMgr → HurtMgr
  unfolding get_hurt_value assign add_top
  add_hurt uid hurt username m =
      let total = u32 (hurt + get_hurt_value uid m) in
      record {
        player_map = assign uid total m.player_map;
        top_players =
            add_top (record { uid = uid; hurtvalue = total; username = username }) m.top_players;
      }

serialize_from : List Player → Packet → Option Packet
serialize_from [] op = some op
serialize_from (x ∷ xs) op = do
  a ← put_int32 x.uid op
  b ← put_utf x.username a
  c ← put_int32 x.hurtvalue b
  serialize_from xs c

unfoldable pub serialize_top : HurtMgr → Packet → Option Packet
unfolding serialize_from
serialize_top m op = do
  a ← put_int32 (u32 (length m.top_players)) op
  serialize_from m.top_players a
