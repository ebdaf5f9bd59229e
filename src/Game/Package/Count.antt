-- ===== src/Game/Package/Count.antt =====
-- The package as a bag of items, and the counter as the size of the bag.
use cpp_game_frame.Prelude.{
  ◌⊎◌, inl, inr, Bool-cases, ℕ, suc, ◌≤◌, ◌<◌, ◌≡◌, ◌≢◌, ◌↔◌, refl, ap, sym, ◌∙◌, true, false, List,
  [], ◌∷◌, arith, length, if◌then◌else◌,
}
use cpp_game_frame.Prelude.Int.{ℤ, pos, ◌+ℤ◌, ◌-ℤ◌, eqb_ℤ, to_int16}
use cpp_game_frame.Game.Package.{
  Item, Package, success, package_full, has_item_from, del_item_from, put_item, has_item, del_item,
  add_item, is_full,
}

-- How many items of an id a package holds, and how many of its places are taken.
abbrev pub copies : ℤ → List Item → ℕ
copies id [] = 0
copies id (x ∷ xs) = let rest = copies id xs in if eqb_ℤ x.item_id id then suc rest else rest

abbrev pub used : List Item → ℕ
used [] = 0
used (x ∷ xs) = let rest = used xs in if eqb_ℤ x.item_id (pos 0) then rest else suc rest

pub record IsValid (p : Package) : Type 0 where
  pub places : length p.item_list ≡ 3
  pub counted : p.cur_item_num ≡ pos (used p.item_list)

used-le : (xs : List Item) → used xs ≤ length xs
used-le [] = omega arith
used-le (x ∷ xs) = ground (arith, used-le xs)

-- There is a free place exactly when not all are taken.
pub free_iff : (xs : List Item) → (has_item_from (pos 0) xs ≡ true) ↔ (used xs < length xs)
unfolding has_item_from
free_iff [] = ground arith
free_iff (x ∷ xs) = ground (arith, free_iff xs, used-le xs)

length-put_item : (id : ℤ) (xs : List Item) → length (put_item id xs) ≡ length xs
unfolding put_item
length-put_item id [] = refl
length-put_item id (x ∷ xs) = ground (arith, length-put_item id xs)

used-put_item :
    (id : ℤ) (xs : List Item)
    → eqb_ℤ id (pos 0) ≡ false
    → has_item_from (pos 0) xs ≡ true
    → used (put_item id xs) ≡ suc (used xs)
unfolding put_item has_item_from
used-put_item id [] n h = cc
used-put_item id (x ∷ xs) n h = ground (arith, used-put_item id xs)

copies-put_item :
    (id j : ℤ) (xs : List Item)
    → eqb_ℤ j (pos 0) ≡ false
    → has_item_from (pos 0) xs ≡ true
    → copies j (put_item id xs) ≡ (if eqb_ℤ id j then suc (copies j xs) else copies j xs)
unfolding put_item has_item_from
copies-put_item id j [] n h = cc
copies-put_item id j (x ∷ xs) n h = ground (arith, copies-put_item id j xs)

length-del_item : (id : ℤ) (xs : List Item) → length (del_item_from id xs) ≡ length xs
unfolding del_item_from
length-del_item id [] = refl
length-del_item id (x ∷ xs) = ground (arith, length-del_item id xs)

used-del_item :
    (id : ℤ) (xs : List Item)
    → eqb_ℤ id (pos 0) ≡ false
    → has_item_from id xs ≡ true
    → suc (used (del_item_from id xs)) ≡ used xs
unfolding del_item_from has_item_from
used-del_item id [] n h = cc
used-del_item id (x ∷ xs) n h = ground (arith, used-del_item id xs)

copies-del_item :
    (id j : ℤ) (xs : List Item)
    → eqb_ℤ j (pos 0) ≡ false
    → has_item_from id xs ≡ true
    → copies j xs ≡ (
        if eqb_ℤ id j then suc (copies j (del_item_from id xs)) else copies j (del_item_from id xs))
unfolding del_item_from has_item_from
copies-del_item id j [] n h = cc
copies-del_item id j (x ∷ xs) n h = ground (arith, copies-del_item id j xs)

used-del_item_zero : (xs : List Item) → used (del_item_from (pos 0) xs) ≡ used xs
unfolding del_item_from
used-del_item_zero [] = refl
used-del_item_zero (x ∷ xs) = ground (arith, used-del_item_zero xs)

count_up : (u : ℕ) → u ≤ 3 → to_int16 (pos u +ℤ pos 1) ≡ pos (suc u)
unfolding ◌+ℤ◌
count_up u h = ground arith

count_down : (u : ℕ) → suc u ≤ 3 → to_int16 (pos (suc u) -ℤ pos 1) ≡ pos u
unfolding ◌-ℤ◌
count_down u h = ground arith

lower : (u : ℕ) → u ≤ 3 → to_int16 (pos u -ℤ pos 1) ≢ pos u
unfolding ◌-ℤ◌
lower u h = ground arith

abbrev added : ℤ → Package → Package
added id p = record {
  cur_item_num = to_int16 (p.cur_item_num +ℤ pos 1);
  item_list = put_item id p.item_list;
}

abbrev deleted : ℤ → Package → Package
deleted id p = record {
  cur_item_num = to_int16 (p.cur_item_num -ℤ pos 1);
  item_list = del_item_from id p.item_list;
}

-- Adding an item with an id other than 0 to a valid package: it is refused exactly when three
-- places are taken, and then nothing changes; else it succeeds, the package stays valid, and holds
-- one item more of this id and as many of every other.
pub add_item_lem :
    (id : ℤ) {p : Package}
    → IsValid p
    → eqb_ℤ id (pos 0) ≡ false
    → let (r, q) = add_item id p in
      IsValid q
      × ((r ≡ package_full) × (used p.item_list ≡ 3) × (q ≡ p)
          ⊎ (r ≡ success)
            × (used p.item_list < 3)
            × ((j : ℤ)
                → eqb_ℤ j (pos 0) ≡ false
                → copies j q.item_list
                  ≡ (if eqb_ℤ id j then suc (copies j p.item_list) else copies j p.item_list)))
unfolding add_item
add_item_lem id {p} v n = elim (Bool-cases (has_item_from (pos 0) p.item_list)) [
  | inl free ↦
      let room : used p.item_list < 3 = omega (arith, (free_iff p.item_list).0 free) in
      let up = count_up (used p.item_list) (omega arith) in
      let more = used-put_item id p.item_list n free in
      let e : add_item id p ≡ (success, added id p) = ground (arith, free, room) in
      rw e (
        record {
          places = length-put_item id p.item_list ∙ v.places;
          counted = ap (λ c. to_int16 (c +ℤ pos 1)) v.counted ∙ up ∙ ap pos (sym more);
        },
        inr (refl, room, λ j nj. copies-put_item id j p.item_list nj free),
      )
  | inr taken ↦
      let all : used p.item_list ≡ 3 = ground (arith, free_iff p.item_list, used-le p.item_list) in
      let e : add_item id p ≡ (package_full, p) = ground (arith, all) in
      rw e (v, inl (refl, all, refl))
]

-- Deleting an item with an id other than 0 keeps a valid package valid; if there is one of this
-- id, one is gone and the others are all there, else nothing changes.
pub del_item_lem :
    (id : ℤ) {p : Package}
    → IsValid p
    → eqb_ℤ id (pos 0) ≡ false
    → let q = del_item id p in
      IsValid q
      × ((has_item id p ≡ false) × (q ≡ p)
          ⊎ (has_item id p ≡ true)
            × ((j : ℤ)
                → eqb_ℤ j (pos 0) ≡ false
                → copies j p.item_list
                  ≡ (if eqb_ℤ id j then suc (copies j q.item_list) else copies j q.item_list)))
unfolding del_item has_item
del_item_lem id {p} v n = elim (Bool-cases (has_item_from id p.item_list)) [
  | inl here ↦
      let less = used-del_item id p.item_list n here in
      let e : del_item id p ≡ deleted id p = ground (arith, here) in
      rw e (
        record {
          places = length-del_item id p.item_list ∙ v.places;
          counted =
              ap (λ c. to_int16 (c -ℤ pos 1)) (v.counted ∙ ap pos (sym less))
              ∙ count_down (used (del_item_from id p.item_list))
                  (omega (arith, used-le p.item_list));
        },
        inr (here, λ j nj. copies-del_item id j p.item_list nj here),
      )
  | inr none_here ↦
      let e : del_item id p ≡ p = ground (arith, none_here) in rw e (v, inl (none_here, refl))
]

-- Id 0 marks a free place: deleting it from a valid package that is not full lowers the counter
-- and frees nothing, so the package is valid no longer.
pub del_item_zero : {p : Package} → IsValid p → is_full p ≡ false → ¬ IsValid (del_item (pos 0) p)
unfolding del_item is_full
del_item_zero {p} v n w =
    let room : used p.item_list < 3 = ground arith in
    ground (
      arith,
      (free_iff p.item_list).1 (omega arith),
      used-del_item_zero p.item_list,
      lower (used p.item_list) (omega arith),
    )
