-- ===== src/Game/Schedule/Turns.antt =====
-- Every third battleground has its turn.
use cpp_game_frame.Prelude.{
  ℕ, zero, suc, ◌+◌, ◌-◌, ◌*◌, ◌%◌, ◌≤◌, ◌<◌, ◌≡◌, refl, ap, sym, ◌∙◌, inl, inr, Bool, true, false,
  ◌&&◌, Bool-cases, Option, none, some, Option-cases, List, [], ◌∷◌, length, length-set, get_elem?,
  set, ltb, leb, ◌==◌, arith, if◌then◌else◌,
}
use cpp_game_frame.Game.Battleground.{Battleground}
use cpp_game_frame.Game.Schedule.{BattlegroundMgr, run_one, run_from, run}

abbrev pub map_option :
    Bool → (Battleground → Battleground) → Option Battleground → Option Battleground
map_option c f none = none
map_option true f (some bg) = some (f bg)
map_option false f (some bg) = some bg

get_elem?-none : (bgs : List Battleground) (i : ℕ) → get_elem? bgs i ≡ none → length bgs ≤ i
get_elem?-none [] i h = omega arith
get_elem?-none (b ∷ bs) zero h = cc
get_elem?-none (b ∷ bs) (suc i) h = omega (arith, get_elem?-none bs i h)

get_elem?-beyond : (bgs : List Battleground) (i : ℕ) → length bgs ≤ i → get_elem? bgs i ≡ none
get_elem?-beyond [] i h = refl
get_elem?-beyond (b ∷ bs) zero h = absurd (omega arith)
get_elem?-beyond (b ∷ bs) (suc i) h = get_elem?-beyond bs i (omega arith)

eq_suc : (i j : ℕ) → (i == j) ≡ (suc i == suc j)
eq_suc i j = ground arith

get_elem?-set :
    (bgs : List Battleground) (i j : ℕ) (v : Battleground) {old : Battleground}
    → get_elem? bgs i ≡ some old
    → get_elem? (set bgs i v) j ≡ (if i == j then some v else get_elem? bgs j)
get_elem?-set [] i j v h = cc
get_elem?-set (b ∷ bs) zero zero v h = refl
get_elem?-set (b ∷ bs) zero (suc j) v h = ground arith
get_elem?-set (b ∷ bs) (suc i) zero v h = ground arith
get_elem?-set (b ∷ bs) (suc i) (suc j) v h =
    get_elem?-set bs i j v h ∙ ap (λ c. if c then some v else get_elem? bs j) (eq_suc i j)

-- Whether the loop that starts at i comes to j.
abbrev pub turn : ℕ → ℕ → Bool
turn i j = leb i j && ((j - i) % 3 == 0)

-- Nothing is there from i on.
untouched :
    (f : Battleground → Battleground) (i j : ℕ) (bgs : List Battleground)
    → length bgs ≤ i
    → get_elem? bgs j ≡ map_option (turn i j) f (get_elem? bgs j)
untouched f i j bgs h = elim (Option-cases (get_elem? bgs j)) [
  | inl e ↦ rw e refl
  | inr (b, e) ↦ elim (Bool-cases (ltb j i)) [
    | inl less ↦ let no : turn i j ≡ false = ground arith in rw (no, e) refl
    | inr more ↦
        let gone : none ≡ some b = sym (get_elem?-beyond bgs j (ground arith)) ∙ e in
        absurd (apart gone)
  ]
]
  where
    apart : {b : Battleground} → none ≡ some b → ⊥
    apart q = cc

same_index : (j : ℕ) → (j == j) ≡ true
same_index j = ground arith

turn_self : (i : ℕ) → (turn (i + 3) i ≡ false) × (turn i i ≡ true)
turn_self i = ground arith

turn_next : (i j : ℕ) → (i == j) ≡ false → turn (i + 3) j ≡ turn i j
turn_next i j h =
    let cycle : (j - (i + 3) + 3) % 3 ≡ (j - (i + 3)) % 3 = omega arith in ground arith

-- The loop from i runs the battlegrounds i, i + 3, i + 6 and so on.
module _ (cur now : ℕ) where
  abbrev ran : Battleground → Battleground
  ran bg = (run_one cur now bg).0

  run_from-turns :
      (fuel i j : ℕ) (bgs : List Battleground)
      → length bgs ≤ i + 3 * fuel
      → get_elem? (run_from fuel cur now i bgs).0 j ≡ map_option (turn i j) ran (get_elem? bgs j)
  unfolding run_from
  run_from-turns zero i j bgs h = untouched ran i j bgs (omega arith)
  run_from-turns (suc fuel) i j bgs h = elim (Option-cases (get_elem? bgs i)) [
    | inl e ↦ rw (run_from, e) (untouched ran i j bgs (get_elem?-none bgs i e))
    | inr (b, e) ↦
        let rest =
          run_from-turns fuel (i + 3) j (set bgs i (ran b))
            (omega (arith, length-set bgs i (ran b))) in
        let there = get_elem?-set bgs i j (ran b) e in
        rw (run_from, e) (rest ∙ ap (map_option (turn (i + 3) j) ran) there ∙ step b e)
  ]
    where
      step :
          (b : Battleground)
          → get_elem? bgs i ≡ some b
          → map_option (turn (i + 3) j) ran (if i == j then some (ran b) else get_elem? bgs j)
            ≡ map_option (turn i j) ran (get_elem? bgs j)
      step b e = elim (Bool-cases (i == j)) [
        | inl same ↦
            let here : i ≡ j = ground arith in
            let self = turn_self j in
            let found : get_elem? bgs j ≡ some b = ap (get_elem? bgs) (sym here) ∙ e in
            rw (here, same_index j, self.0, self.1, found) refl
        | inr other ↦ rw (other, turn_next i j other) refl
      ]

residue : (s j : ℕ) → s < 3 → turn s j ≡ (j % 3 == s)
residue zero j h = ground arith
residue (suc zero) j h = elim (Bool-cases (leb 1 j)) [ inl e ↦ ground arith | inr e ↦ ground arith ]
residue (suc (suc zero)) j h = ground arith
residue (suc (suc (suc s))) j h = absurd (omega arith)

length-run_from :
    (fuel cur now i : ℕ) (bgs : List Battleground)
    → length (run_from fuel cur now i bgs).0 ≡ length bgs
unfolding run_from
length-run_from zero cur now i bgs = refl
length-run_from (suc fuel) cur now i bgs = elim (Option-cases (get_elem? bgs i)) [
  | inl e ↦ rw (run_from, e) refl
  | inr (b, e) ↦
      rw (run_from, e)
        (length-run_from fuel cur now (i + 3) (set bgs i (run_one cur now b).0)
          ∙ length-set bgs i (run_one cur now b).0)
]

-- Of three turns in a row, one is the turn of a residue.
one_of_three :
    (f : ℕ → Battleground → Battleground) (o : Option Battleground) (r s : ℕ)
    → r < 3
    → s < 3
    → map_option
        (r == ((s + 1) % 3 + 1) % 3)
        (f 2)
        (map_option (r == (s + 1) % 3) (f 1) (map_option (r == s) (f 0) o))
      ≡ map_option true (f ((r + 3 - s) % 3)) o
one_of_three f none r s h k = refl
one_of_three f (some b) zero zero h k = refl
one_of_three f (some b) zero (suc zero) h k = refl
one_of_three f (some b) zero (suc (suc zero)) h k = refl
one_of_three f (some b) (suc zero) zero h k = refl
one_of_three f (some b) (suc zero) (suc zero) h k = refl
one_of_three f (some b) (suc zero) (suc (suc zero)) h k = refl
one_of_three f (some b) (suc (suc zero)) zero h k = refl
one_of_three f (some b) (suc (suc zero)) (suc zero) h k = refl
one_of_three f (some b) (suc (suc zero)) (suc (suc zero)) h k = refl
one_of_three f (some b) (suc (suc (suc r))) s h k = absurd (omega arith)
one_of_three f (some b) zero (suc (suc (suc s))) h k = absurd (omega arith)
one_of_three f (some b) (suc zero) (suc (suc (suc s))) h k = absurd (omega arith)
one_of_three f (some b) (suc (suc zero)) (suc (suc (suc s))) h k = absurd (omega arith)

-- What a call does to the battleground at an index.
run-turns :
    (cur now j : ℕ) (m : BattlegroundMgr)
    → length m.bg_list ≤ 600
    → m.start_index < 3
    → (get_elem? (run cur now m).0.bg_list j
        ≡ map_option (j % 3 == m.start_index) (ran cur now) (get_elem? m.bg_list j))
      × ((run cur now m).0.start_index ≡ (m.start_index + 1) % 3)
      × (length (run cur now m).0.bg_list ≤ 600)
unfolding run
run-turns cur now j m h k = (
  run_from-turns cur now 600 m.start_index j m.bg_list (omega arith)
      ∙ ap (λ c. map_option c (ran cur now) (get_elem? m.bg_list j)) (residue m.start_index j k),
  ground arith,
  omega (arith, length-run_from 600 cur now m.start_index m.bg_list),
)

-- In three calls of run in a row, whatever the times are, on at most 600 battlegrounds and with a
-- start index below 3: each battleground is run exactly once, the one at index j in the call that
-- is (j + 3 - start index) mod 3, with the times of that call, and in the other two it stays as it
-- is; the start index is then the first one again.
pub three_runs :
    (cur now : ℕ → ℕ) (j : ℕ) (m : BattlegroundMgr)
    → length m.bg_list ≤ 600
    → m.start_index < 3
    → let third = (run (cur 2) (now 2) (run (cur 1) (now 1) (run (cur 0) (now 0) m).0).0).0 in
      let k = (j + 3 - m.start_index) % 3 in
      (get_elem? third.bg_list j
        ≡ map_option true (λ bg. (run_one (cur k) (now k) bg).0) (get_elem? m.bg_list j))
      × (third.start_index ≡ m.start_index)
three_runs cur now j m h s =
    let m1 = (run (cur 0) (now 0) m).0 in
    let m2 = (run (cur 1) (now 1) m1).0 in
    let (g0, i0, l0) = run-turns (cur 0) (now 0) j m h s in
    let (g1, i1, l1) = run-turns (cur 1) (now 1) j m1 l0 (omega (arith, i0)) in
    let (g2, i2, l2) = run-turns (cur 2) (now 2) j m2 l1 (omega (arith, i1)) in
    let f : ℕ → Battleground → Battleground = λ k bg. (run_one (cur k) (now k) bg).0 in
    let i1' : m2.start_index ≡ ((m.start_index + 1) % 3 + 1) % 3 = omega (arith, i0, i1) in
    let k : (j % 3 + 3 - m.start_index) % 3 ≡ (j + 3 - m.start_index) % 3 = omega arith in
    (
      g2
          ∙ ap (map_option (j % 3 == m2.start_index) (f 2)) g1
          ∙ ap
              (λ o.
                map_option (j % 3 == m2.start_index) (f 2)
                  (map_option (j % 3 == m1.start_index) (f 1) o))
              g0
          ∙ ap
              (λ x. map_option (j % 3 == x) (f 2) (
                map_option (j % 3 == m1.start_index) (f 1)
                  (map_option (j % 3 == m.start_index) (f 0) (get_elem? m.bg_list j))))
              i1'
          ∙ ap
              (λ x. map_option (j % 3 == ((m.start_index + 1) % 3 + 1) % 3) (f 2) (
                map_option (j % 3 == x) (f 1)
                  (map_option (j % 3 == m.start_index) (f 0) (get_elem? m.bg_list j))))
              i0
          ∙ one_of_three f (get_elem? m.bg_list j) (j % 3) m.start_index (omega arith) s
          ∙ ap (λ x. map_option true (f x) (get_elem? m.bg_list j)) k,
      omega (arith, i0, i1, i2),
    )
