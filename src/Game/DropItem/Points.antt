-- ===== src/Game/DropItem/Points.antt =====
-- Where items lie: every point is free or has one item on it.
use cpp_game_frame.Prelude.{
  ℕ, zero, suc, ◌+◌, ◌-◌, ◌*◌, ◌%◌, ◌≤◌, ◌<◌, ◌≡◌, ◌↔◌, refl, ap, sym, ◌∙◌, inl, inr, true, false,
  Bool-cases, none, some, Option-cases, List, [], ◌∷◌, ◌++◌, length, get_elem?, set, take, ltb,
  arith, if◌then◌else◌,
}
use cpp_game_frame.Prelude.Int.{ℤ, pos, negsuc, eqb_ℤ, bits16, signed16, signed32, to_int16}
use cpp_game_frame.Game.Package.{Package, add_item}
use cpp_game_frame.Game.DropItem.{
  add_succeeds, ten_seconds, max_item_num, Point, DropItem, DropItemMgr, make_int32, insert, find,
  erase, take_point, run, pick_up_item,
}

abbrev pub key : Point → ℤ
key p = make_int32 p.x p.y

-- How many free points have a key, and how many items lie under it.
abbrev pub free : ℤ → List Point → ℕ
free k [] = 0
free k (p ∷ ps) = let rest = free k ps in if eqb_ℤ (key p) k then suc rest else rest

abbrev pub held : ℤ → List (ℤ × DropItem) → ℕ
held k [] = 0
held k (e ∷ es) = let rest = held k es in if eqb_ℤ e.0 k then suc rest else rest

abbrev one : ℤ → ℤ → ℕ
one a k = if eqb_ℤ a k then 1 else 0

free-front :
    (k : ℤ) (p : Point) (ps : List Point) (last : Point)
    → get_elem? (p ∷ ps) (length ps) ≡ some last
    → free k (take (length ps) (p ∷ ps)) + one (key last) k ≡ free k (p ∷ ps)
free-front k p [] last h = let same : p ≡ last = cc in rw (sym same) (ground arith)
free-front k p (q ∷ ps) last h = ground (arith, free-front k q ps last h)

-- A point that is taken out of the vector, and nothing else, is no longer free.
free-take_point :
    (k : ℤ) (i : ℕ) (p : Point) (ps : List Point) (x last : Point)
    → get_elem? (p ∷ ps) i ≡ some x
    → get_elem? (p ∷ ps) (length ps) ≡ some last
    → free k (take (length ps) (set (p ∷ ps) i last)) + one (key x) k ≡ free k (p ∷ ps)
free-take_point k zero p [] x last h l = let same : p ≡ x = cc in rw (sym same) (ground arith)
free-take_point k zero p (q ∷ ps) x last h l =
    let same : p ≡ x = cc in rw (sym same) (ground (arith, free-front k q ps last l))
free-take_point k (suc i) p [] x last h l = cc
free-take_point k (suc i) p (q ∷ ps) x last h l =
    ground (arith, free-take_point k i q ps x last h l)

held-insert :
    (k at : ℤ) (item : DropItem) (es : List (ℤ × DropItem))
    → held at es ≡ 0
    → held k (insert at item es) ≡ held k es + one at k
unfolding insert
held-insert k at item [] h = ground arith
held-insert k at item (e ∷ es) h = ground (arith, held-insert k at item es)

held-erase :
    (k at : ℤ) (es : List (ℤ × DropItem)) (item : DropItem)
    → find at es ≡ some item
    → held k (erase at es) + one at k ≡ held k es
unfolding find erase
held-erase k at [] item h = cc
held-erase k at (e ∷ es) item h = ground (arith, held-erase k at es item)

free-append :
    (k : ℤ) (ps : List Point) (p : Point) → free k (ps ++ (p ∷ [])) ≡ free k ps + one (key p) k
free-append k [] p = ground arith
free-append k (q ∷ ps) p = ground (arith, free-append k ps p)

-- No point is there twice, be it free or with an item on it.
abbrev pub IsValid : DropItemMgr → Type 0
IsValid m = (k : ℤ) → free k m.point_list + held k m.item_list ≤ 1

-- The same for any vector.
free-take_out :
    (k : ℤ) (i : ℕ) (points : List Point) (x last : Point)
    → get_elem? points i ≡ some x
    → get_elem? points (length points - 1) ≡ some last
    → free k (take_point i last points) + one (key x) k ≡ free k points
unfolding take_point
free-take_out k i [] x last h l = cc
free-take_out k i (p ∷ ps) x last h l =
    let e : suc (length ps) - 1 ≡ length ps = omega arith in
    rw e (free-take_point k i p ps x last h (rw e at l))

one_self : (k : ℤ) → one k k ≡ 1
one_self k = ground arith

abbrev points_of : ℤ → DropItemMgr → ℕ
points_of k m = free k m.point_list + held k m.item_list

module _ (cur random1 random2 : ℕ) (m : DropItemMgr) (v : IsValid m) (k : ℤ) where
  -- The state after a drop.
  run_drops :
      (number : ℕ) (p last : Point)
      → get_elem? m.point_list (random1 % length m.point_list) ≡ some p
      → get_elem? m.point_list (length m.point_list - 1) ≡ some last
      → (item : DropItem)
      → free k (take_point (random1 % length m.point_list) last m.point_list)
          + held k (insert (key p) item m.item_list)
        ≡ points_of k m
  run_drops number p last h l item =
      let i = random1 % length m.point_list in
      let out = free-take_out k i m.point_list p last h l in
      let self = free-take_out (key p) i m.point_list p last h l in
      let alone : held (key p) m.item_list ≡ 0 = omega (arith, v (key p), self, one_self (key p)) in
      omega (arith, out, held-insert k (key p) item m.item_list alone)

  run-points_of : points_of k (run cur random1 random2 m).0 ≡ points_of k m
  unfolding run
  run-points_of = elim (Bool-cases (ltb ten_seconds (cur - m.last_time))) [
    | inr early ↦ rw early refl
    | inl due ↦ elim (Bool-cases (ltb max_item_num (length m.item_list))) [
      | inl full ↦ rw (due, full) refl
      | inr room ↦
          elim (Option-cases (get_elem? m.random_item_list (random2 % length m.random_item_list))) [
            | inl e ↦ rw (due, room, e) refl
            | inr (number, e) ↦
                elim (Option-cases (get_elem? m.point_list (random1 % length m.point_list))) [
                  | inl f ↦ rw (due, room, e, f) refl
                  | inr (p, f) ↦
                      elim (Option-cases (get_elem? m.point_list (length m.point_list - 1))) [
                        | inl g ↦ rw (due, room, e, f, g) refl
                        | inr (last, g) ↦ rw (due, room, e, f, g) (run_drops number p last f g _)
                      ]
                ]
          ]
    ]
  ]

-- Where no point is there twice, be it free or with an item on it, dropping an item keeps it so,
-- and keeps every point: as many points under each key are free or have an item on them as before.
pub run_keeps_points :
    (cur random1 random2 : ℕ) (m : DropItemMgr)
    → IsValid m
    → let after = (run cur random1 random2 m).0 in
      IsValid after
      × ((k : ℤ)
          → free k after.point_list + held k after.item_list
            ≡ free k m.point_list + held k m.item_list)
run_keeps_points cur random1 random2 m v = (
  λ k. omega (arith, run-points_of cur random1 random2 m v k, v k),
  λ k. run-points_of cur random1 random2 m v k,
)

held-find : (at : ℤ) (es : List (ℤ × DropItem)) → (find at es ≡ none) ↔ (held at es ≡ 0)
unfolding find
held-find at [] = (λ h. refl, λ h. refl)
held-find at (e ∷ es) = ground (arith, held-find at es)

module _ (player_id : ℤ) (p : Point) (items : Package) (m : DropItemMgr) where
  pick_up-points_of : (k : ℤ) → points_of k (pick_up_item player_id p items m).1 ≡ points_of k m
  unfolding pick_up_item
  pick_up-points_of k = elim (Option-cases (find (key p) m.item_list)) [
    | inl e ↦ rw (pick_up_item, e) refl
    | inr (item, e) ↦ elim (Bool-cases (add_succeeds (add_item (to_int16 item.item_id) items).0)) [
      | inl s ↦
          rw (pick_up_item, e, s)
            (omega (arith, free-append k m.point_list p, held-erase k (key p) m.item_list item e))
      | inr s ↦ rw (pick_up_item, e, s) refl
    ]
  ]

  pick_up-answer : ((pick_up_item player_id p items m).0 ≡ false) ↔ (held (key p) m.item_list ≡ 0)
  unfolding pick_up_item
  pick_up-answer = elim (Option-cases (find (key p) m.item_list)) [
    | inl e ↦ rw (pick_up_item, e) (λ h. (held-find (key p) m.item_list).0 e, λ h. refl)
    | inr (item, e) ↦
        let there : held (key p) m.item_list ≡ 0 → true ≡ false =
          λ h. let q : none ≡ some item = sym ((held-find (key p) m.item_list).1 h) ∙ e in cc in
        elim (Bool-cases (add_succeeds (add_item (to_int16 item.item_id) items).0)) [
          | inl s ↦ rw (pick_up_item, e, s) (λ h. cc, there)
          | inr s ↦ rw (pick_up_item, e, s) (λ h. cc, there)
        ]
  ]

-- Where no point is there twice, picking up an item keeps it so, and keeps every point, and it
-- says that there is none exactly when no item lies at the point.
pub pick_up_keeps_points :
    (player_id : ℤ) (p : Point) (items : Package) (m : DropItemMgr)
    → IsValid m
    → let (answer, after, filled, notes) = pick_up_item player_id p items m in
      IsValid after
      × ((k : ℤ)
          → free k after.point_list + held k after.item_list
            ≡ free k m.point_list + held k m.item_list)
      × ((answer ≡ false) ↔ (held (key p) m.item_list ≡ 0))
pick_up_keeps_points player_id p items m v =
    let kept = λ (k : ℤ). pick_up-points_of player_id p items m k in
    (λ k. omega (arith, kept k, v k), kept, pick_up-answer player_id p items m)

bits16-lt : (a : ℤ) → bits16 a < 65536
bits16-lt (pos n) = omega arith
bits16-lt (negsuc n) = omega arith

signed32-injective : (a b : ℕ) → a < 4294967296 → b < 4294967296 → signed32 a ≡ signed32 b → a ≡ b
signed32-injective a b h k e = ground arith

-- Different points of the map, with coordinates that are int16 values, have different keys.
pub make_int32-injective :
    (p q : Point)
    → to_int16 p.x ≡ p.x
    → to_int16 p.y ≡ p.y
    → to_int16 q.x ≡ q.x
    → to_int16 q.y ≡ q.y
    → make_int32 p.x p.y ≡ make_int32 q.x q.y
    → p ≡ q
unfolding make_int32
make_int32-injective p q px py qx qy e =
    let whole =
      signed32-injective (bits16 p.x * 65536 + bits16 p.y) (bits16 q.x * 65536 + bits16 q.y)
        (omega (arith, bits16-lt p.x, bits16-lt p.y)) (omega (arith, bits16-lt q.x, bits16-lt q.y))
        e in
    let high : bits16 p.x ≡ bits16 q.x = omega (arith, whole, bits16-lt p.y, bits16-lt q.y) in
    let low : bits16 p.y ≡ bits16 q.y = omega (arith, whole, bits16-lt p.y, bits16-lt q.y) in
    point (sym px ∙ ap signed16 high ∙ qx) (sym py ∙ ap signed16 low ∙ qy)
  where
    point : p.x ≡ q.x → p.y ≡ q.y → p ≡ q
    point a b = cc
