-- ===== src/Boss/HurtMgr/TopTen.antt =====
-- The board holds the ten players who have done the most.
use mathlib.Core.List.{Permᴰ}
use cpp_game_frame.Prelude.{
  ℕ, suc, ◌+◌, ◌≤◌, ◌<◌, ◌≡◌, sym, ap, ◌≢◌, ◌∙◌, Bool-cases, inl, inr, true, false, ◌||◌, some,
  List, [], ◌∷◌, ◌++◌, length, length-append, ◌==◌, arith,
}
use cpp_game_frame.Prelude.Words.{u32}
use cpp_game_frame.Boss.HurtMgr.{
  Player, HurtMgr, max_top_num, new, find, assign, get_hurt_value, listed, write_entry, pop_back,
  add_top, add_hurt,
}
use cpp_game_frame.Boss.HurtMgr.Order.{
  All, IsSorted, IsSort, Once, All-perm, length-perm, listed-perm, below-perm, Once-perm,
}
use cpp_game_frame.Boss.HurtMgr.Board.{
  find-assign, Right, Right-assign, listed-write_entry, length-write_entry, Once-write_entry,
  Right-write_entry, bound-write_entry, All-append, listed-append, Once-append, below-append,
  All-pop_back, IsSorted-pop_back, Once-pop_back, length-pop_back, bound-pop_back, popped-bound,
  listed-found,
}

-- Nobody off the board has done more than anybody on it, and it is full if anybody is off it.
abbrev pub Excludes : List (ℕ × ℕ) → List Player → Type 0
Excludes m top =
    (u v : ℕ)
    → find u m ≡ some v
    → listed u top ≡ false
    → (length top ≡ max_top_num) × All (λ p. v ≤ p.hurtvalue) top

-- The board as the first ten of the map: in order, each player once with the hurt that the map holds.
pub record IsTopTen (m : List (ℕ × ℕ)) (top : List Player) : Type 0 where
  pub sorted : IsSorted top
  pub short : length top ≤ max_top_num
  pub once : Once top
  pub right : All (Right m) top
  pub excludes : Excludes m top

module _ (p : Player) (m : List (ℕ × ℕ)) where
  -- The new value is not less than the one before.
  abbrev pub Grows : Type 0
  Grows = (old : ℕ) → find p.uid m ≡ some old → old ≤ p.hurtvalue

  abbrev after : List (ℕ × ℕ)
  after = assign p.uid p.hurtvalue m

  apart : (u v : ℕ) → p.uid ≢ u → find u after ≡ some v → find u m ≡ some v
  apart u v n e = ground (arith, find-assign u p.uid p.hurtvalue m)

  written-IsTopTen :
      (top sorted : List Player)
      → Grows
      → IsTopTen m top
      → listed p.uid top ≡ true
      → IsSorted sorted
      → Permᴰ (write_entry p top) sorted
      → IsTopTen after sorted
  written-IsTopTen top sorted g t on s d =
      let long : length sorted ≡ length top = sym (length-perm d) ∙ length-write_entry p top in
      let (old, f) = listed-found p.uid m top on t.right in
      record {
        sorted = s;
        short = rw long t.short;
        once = Once-perm d (Once-write_entry p top t.once);
        right = All-perm (Right after) d (Right-write_entry p m top t.once t.right);
        excludes = λ u v e n.
            let off : listed u top ≡ false =
              sym (listed-write_entry u p top) ∙ listed-perm u d ∙ n in
            let other : find u m ≡ some v = apart u v (λ h. cc (ap (λ x. listed x top) h)) e in
            let full = t.excludes u v other off in
            (
              long ∙ full.0,
              All-perm (λ x. v ≤ x.hurtvalue) d
                  (bound-write_entry v old p m top f (g old f) t.right full.1),
            );
      }

  module _ (top sorted : List Player) (t : IsTopTen m top) (off : listed p.uid top ≡ false)
      (s : IsSorted sorted) (d : Permᴰ (top ++ (p ∷ [])) sorted) where
    whole-Once : Once sorted
    whole-Once = Once-perm d (Once-append top p off t.once)

    whole-Right : All (Right after) sorted
    whole-Right = All-perm (Right after) d (
        All-append (Right after) top p (Right-assign p.uid p.hurtvalue m top off t.right)
          (ground (arith, find-assign p.uid p.uid p.hurtvalue m)))

    whole_length : length sorted ≡ suc (length top)
    whole_length = omega (arith, length-perm d, length-append top (p ∷ []))

    -- Who is off the new list is another player, and was off the old one.
    whole_off :
        (u v : ℕ)
        → find u after ≡ some v
        → listed u sorted ≡ false
        → (find u m ≡ some v) × (listed u top ≡ false)
    whole_off u v e n =
        let l : (listed u top || p.uid == u) ≡ false =
          sym (listed-append u top p) ∙ listed-perm u d ∙ n in
        (ground (arith, find-assign u p.uid p.hurtvalue m), ground arith)

    appended-IsTopTen : length top < max_top_num → IsTopTen after sorted
    appended-IsTopTen room = record {
      sorted = s;
      short = omega (arith, whole_length);
      once = whole-Once;
      right = whole-Right;
      excludes = λ u v e n.
          let (f, l) = whole_off u v e n in absurd (omega (arith, (t.excludes u v f l).0));
    }

    popped-IsTopTen : length top ≡ max_top_num → IsTopTen after (pop_back sorted)
    popped-IsTopTen full = record {
      sorted = IsSorted-pop_back sorted s;
      short = omega (arith, ten);
      once = Once-pop_back sorted whole-Once;
      right = All-pop_back (Right after) sorted whole-Right;
      excludes = λ u v e n. (
        ten,
        elim (Bool-cases (listed u sorted)) [
          | inl l ↦ popped-bound u v after sorted l n e whole-Right s
          | inr l ↦
              let (f, k) = whole_off u v e l in
              bound-pop_back v sorted s
                (rw (← below-perm v d) (below-append v top p (t.excludes u v f k).1))
        ],
      );
    }
      where
        ten : length (pop_back sorted) ≡ max_top_num
        ten = length-pop_back max_top_num sorted (omega (arith, whole_length))

module _ (sort : List Player → List Player) where
  -- What is reached from a new manager by players hurting the boss, as long as no player's sum
  -- leaves the 32 bits.
  pub data IsReachable : HurtMgr → Type 0 where
    begin : IsReachable new
    hurt :
        (uid value : ℕ) (username : List ℕ) {m : HurtMgr}
        → IsReachable m
        → value + get_hurt_value uid m < 4294967296
        → IsReachable (add_hurt sort uid value username m)

module _ (sort : List Player → List Player) (sorts : IsSort sort) where
  add_top-IsTopTen :
      (p : Player) (m : List (ℕ × ℕ)) (top : List Player)
      → Grows p m
      → IsTopTen m top
      → IsTopTen (assign p.uid p.hurtvalue m) (add_top sort p top)
  unfolding add_top
  add_top-IsTopTen p m top g t = elim (Bool-cases (listed p.uid top)) [
    | inl on ↦
        rw on (written-IsTopTen p m top _ g t on (sorts.sorted _) (sorts.perm (write_entry p top)))
    | inr off ↦
        let s = sorts.sorted (top ++ (p ∷ [])) in
        let d = sorts.perm (top ++ (p ∷ [])) in
        elim (Bool-cases (length top == max_top_num)) [
          | inl full ↦ rw (off, full) (popped-IsTopTen p m top _ t off s d (ground arith))
          | inr room ↦
              let short = t.short in
              rw (off, room) (appended-IsTopTen p m top _ t off s d (ground arith))
        ]
  ]

  -- With any sort that keeps the contract of std::sort: after any sequence of hurts in which no
  -- player's sum leaves 32 bits, the board goes down in hurt, has at most ten players, each once and
  -- with the sum that the map holds for him, and whoever has a sum in the map and is not on the
  -- board is off it because ten players have done at least as much.
  pub reachable-IsTopTen : {m : HurtMgr} → IsReachable sort m → IsTopTen m.player_map m.top_players
  unfolding new find listed add_hurt get_hurt_value
  reachable-IsTopTen begin = record {
    sorted = tt;
    short = omega arith;
    once = tt;
    right = tt;
    excludes = λ u v e n. cc;
  }
  reachable-IsTopTen (hurt uid value username {m} r k) =
      add_top-IsTopTen
        (record { uid = uid; hurtvalue = u32 (value + get_hurt_value uid m); username = username })
        m.player_map m.top_players (λ old f. ground arith) (reachable-IsTopTen r)
