-- ===== src/Game/Server/Counts.antt =====
-- How many clients play with an id, and how often it stands in the map of players.
use cpp_game_frame.Prelude.{
  ℕ, ◌+◌, ◌-◌, ◌≤◌, ◌≡◌, refl, ap, ◌∙◌, inl, inr, Bool-cases, Bool, true, false, Option, none, some,
  List, [], ◌∷◌, ◌++◌, ◌==◌, ltb, arith,
}
use cpp_game_frame.Prelude.Int.{ℤ, eqb_ℤ}
use cpp_game_frame.Game.Server.{
  Online, BgClient, get_context, erase_client, has_bg_player, erase_player,
}
use cpp_game_frame.Game.Server.Message.{set_player, noted, moved}

abbrev pub one_if : Bool → ℕ
one_if true = 1
one_if false = 0

abbrev pub plays : ℤ → Option Online → ℕ
plays id none = 0
plays id (some p) = one_if (eqb_ℤ p.id id)

abbrev pub count : ℤ → List BgClient → ℕ
count id [] = 0
count id (c ∷ cs) = plays id c.player + count id cs

abbrev pub entries : ℤ → List (ℤ × ℕ) → ℕ
entries id [] = 0
entries id ((k, con) ∷ rest) = one_if (eqb_ℤ k id) + entries id rest

pub get_context-con :
    (con : ℕ) (cs : List BgClient) (c : BgClient) → get_context con cs ≡ some c → c.con ≡ con
unfolding get_context
get_context-con con [] c e = absurd (ground arith)
get_context-con con (x ∷ xs) c e = elim (Bool-cases (x.con == con)) [
  | inl here ↦ (let f : some x ≡ some c = simp here at e in ground arith)
  | inr away ↦ get_context-con con xs c (simp away at e)
]

pub noted-con : (t : ℕ) (c : BgClient) → (noted t c).con ≡ c.con
unfolding noted
noted-con t c = elim (Bool-cases (ltb (t - c.last_sec_packets) 1000000)) [
  | inl soon ↦ rw soon refl
  | inr late ↦ rw late refl
]

noted-player : (t : ℕ) (c : BgClient) → (noted t c).player ≡ c.player
unfolding noted
noted-player t c = elim (Bool-cases (ltb (t - c.last_sec_packets) 1000000)) [
  | inl soon ↦ rw soon refl
  | inr late ↦ rw late refl
]

module _ (id : ℤ) where
  pub count-append : (xs ys : List BgClient) → count id (xs ++ ys) ≡ count id xs + count id ys
  count-append [] ys = omega arith
  count-append (x ∷ xs) ys = omega (arith, count-append xs ys)

  pub count-erase_client :
      (con : ℕ) (cs : List BgClient) (c : BgClient)
      → get_context con cs ≡ some c
      → count id cs ≡ plays id c.player + count id (erase_client con cs)
  unfolding get_context erase_client
  count-erase_client con [] c e = absurd (ground arith)
  count-erase_client con (x ∷ xs) c e = elim (Bool-cases (x.con == con)) [
    | inl here ↦
        (let f : some x ≡ some c = simp here at e in let g : x ≡ c = cc in rw (here, g) refl)
    | inr away ↦ rw away (omega (arith, count-erase_client con xs c (simp away at e)))
  ]

  pub count-set_player :
      (con : ℕ) (p : Online) (cs : List BgClient)
      → count id (set_player con p cs) ≤ count id cs + one_if (eqb_ℤ p.id id)
  count-set_player con p [] = omega arith
  count-set_player con p (x ∷ xs) = elim (Bool-cases (x.con == con)) [
    | inl here ↦ rw here (omega arith)
    | inr away ↦ rw away (omega (arith, count-set_player con p xs))
  ]

  pub count-set_player-there :
      (con : ℕ) (p : Online) (cs : List BgClient) (c : BgClient)
      → get_context con cs ≡ some c
      → count id (set_player con p cs) + plays id c.player ≡ count id cs + one_if (eqb_ℤ p.id id)
  unfolding get_context
  count-set_player-there con p [] c e = absurd (ground arith)
  count-set_player-there con p (x ∷ xs) c e = elim (Bool-cases (x.con == con)) [
    | inl here ↦
        let f : some x ≡ some c = simp here at e in let g : x ≡ c = cc in rw (here, g) (omega arith)
    | inr away ↦ rw away (omega (arith, count-set_player-there con p xs c (simp away at e)))
  ]

  pub entries-erase_player :
      (k : ℤ) (m : List (ℤ × ℕ))
      → entries id (erase_player k m) ≡ entries id m - one_if (eqb_ℤ k id)
  unfolding erase_player
  entries-erase_player k [] = ground arith
  entries-erase_player k ((k', con) ∷ rest) =
      let before : entries id (erase_player k rest) ≡ entries id rest - one_if (eqb_ℤ k id) =
        entries-erase_player k rest in
      ground arith

  pub absent-entries :
      (k : ℤ) (m : List (ℤ × ℕ)) → has_bg_player k m ≡ false → eqb_ℤ k id ≡ true → entries id m ≡ 0
  unfolding has_bg_player
  absent-entries k [] e same = refl
  absent-entries k ((k', con) ∷ rest) e same =
      let before : eqb_ℤ k' k ≡ false → has_bg_player k rest ≡ false → entries id rest ≡ 0 =
        λ _ h. absent-entries k rest h same in
      ground arith

  -- A client that has sent something only changes its place.
  pub count-moved :
      (t con : ℕ) (c : BgClient) (cs : List BgClient)
      → get_context con cs ≡ some c
      → count id (moved (noted t c) cs) ≡ count id cs
  unfolding moved
  count-moved t con c cs here =
      let at_con = noted-con t c ∙ get_context-con con cs c here in
      omega (
        arith,
        count-append (erase_client (noted t c).con cs) (noted t c ∷ []),
        ap (λ k. count id (erase_client k cs)) at_con,
        ap (plays id) (noted-player t c),
        count-erase_client con cs c here,
      )

  pub entries-present : (m : List (ℤ × ℕ)) → 1 ≤ entries id m → has_bg_player id m ≡ true
  unfolding has_bg_player
  entries-present [] h = absurd (omega (arith, h))
  entries-present ((k, con) ∷ rest) h = elim (Bool-cases (eqb_ℤ k id)) [
    | inl here ↦ rw here refl
    | inr away ↦ rw away (entries-present rest (ground (arith, h)))
  ]
