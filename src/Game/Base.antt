-- ===== src/Game/Base.antt =====
-- The tables of buffs, skills, items and pets, game/LoongBgSrv/base. An array that the code fills
-- from the database is a list of the rows that are filled.
use cpp_game_frame.Prelude.{
  Bool, true, false, ◌&&◌, ℕ, ◌-◌, List, [], ◌∷◌, Option, none, some, get_elem?, length,
  if◌then◌else◌, ◌||◌,
}
use cpp_game_frame.Prelude.Int.{ℤ, pos, pos_part, ltb_ℤ, leb_ℤ}

pub record BufBase : Type 0 where
  pub id : ℤ
  pub type : ℤ
  pub param_list : List ℤ

-- `param_list` and `buf_list` are arrays of a fixed size.
pub record ItemBase : Type 0 where
  pub item_id : ℤ
  pub function_type : ℤ
  pub buf_num : ℤ
  pub buf_list : List ℤ

pub record PetBase : Type 0 where
  pub pet_id : ℤ
  pub hp : ℤ
  pub unit_type : ℤ
  pub skill_num : ℤ
  pub skill_list : List ℤ

pub record SkillBase : Type 0 where
  pub skill_id : ℤ
  pub max_attack_value : ℤ
  pub min_attack_value : ℤ
  pub cooldown_time : ℤ
  pub type : ℤ
  pub buf_num : ℤ
  pub buf_list : List ℤ

abbrev null_buf : BufBase
null_buf = record { id = pos 0; type = pos 0; param_list = [] }

row {ℓ} : {A : Type ℓ} → A → Option A → A
row d none = d
row d (some a) = a

-- Parameter `i` of a buff; the array is cleared before it is filled.
unfoldable pub param : BufBase → ℕ → ℤ
unfolding row
param b i = row (pos 0) (get_elem? b.param_list i)

unfoldable pub get_buf_base_info : List BufBase → ℤ → BufBase
unfolding row
get_buf_base_info rows buf_id =
    if leb_ℤ buf_id (pos 0) || ltb_ℤ (pos (length rows)) buf_id
    then null_buf
    else row null_buf (get_elem? rows (pos_part buf_id - 1))

null_item : ItemBase
null_item = record { item_id = pos 0; function_type = pos 0; buf_num = pos 0; buf_list = [] }

null_pet : PetBase
null_pet = record {
  pet_id = pos 0;
  hp = pos 0;
  unit_type = pos 0;
  skill_num = pos 0;
  skill_list = [];
}

-- The test is against the size of the array, not against the number of rows that are filled.
unfoldable pub get_item_base_info : List ItemBase → ℤ → ItemBase
unfolding row null_item
get_item_base_info rows item_id =
    if leb_ℤ item_id (pos 0) || ltb_ℤ (pos 10) item_id
    then null_item
    else row null_item (get_elem? rows (pos_part item_id - 1))

unfoldable pub check_item_id : List ItemBase → ℤ → Bool
check_item_id rows item_id = ltb_ℤ (pos 0) item_id && leb_ℤ item_id (pos (length rows))

unfoldable pub get_pet_base_info : List PetBase → ℤ → PetBase
unfolding row null_pet
get_pet_base_info rows pet_id =
    if leb_ℤ pet_id (pos 0) || ltb_ℤ (pos 10) pet_id
    then null_pet
    else row null_pet (get_elem? rows (pos_part pet_id - 1))

-- Unlike the other checks, this one accepts 0.
unfoldable pub check_pet_id : List PetBase → ℤ → Bool
check_pet_id rows pet_id =
    if ltb_ℤ pet_id (pos 0) || ltb_ℤ (pos (length rows)) pet_id then false else true

null_skill : SkillBase
null_skill = record {
  skill_id = pos 0;
  max_attack_value = pos 0;
  min_attack_value = pos 0;
  cooldown_time = pos 0;
  type = pos 0;
  buf_num = pos 0;
  buf_list = pos 0 ∷ pos 0 ∷ [];
}

unfoldable pub get_skill_base_info : List SkillBase → ℤ → SkillBase
unfolding row null_skill
get_skill_base_info rows skill_id =
    if leb_ℤ skill_id (pos 0) || ltb_ℤ (pos 10) skill_id
    then null_skill
    else row null_skill (get_elem? rows (pos_part skill_id - 1))

unfoldable pub check_skill_id : List SkillBase → ℤ → Bool
check_skill_id rows skill_id = ltb_ℤ (pos 0) skill_id && leb_ℤ skill_id (pos (length rows))
