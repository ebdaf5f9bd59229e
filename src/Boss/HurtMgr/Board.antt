-- ===== src/Boss/HurtMgr/Board.antt =====
-- What a call does to the list of the board and to the map: the writing of an entry, the removal of the
-- last one, the assignment in the map.
use cpp_game_frame.Prelude.{
  ℕ, suc, ◌≤◌, ◌≡◌, refl, Bool-cases, inl, inr, true, false, ◌||◌, some, List, [], ◌∷◌, ◌++◌,
  length, ◌==◌, if◌then◌else◌, arith,
}
use cpp_game_frame.Boss.HurtMgr.{Player, find, assign, listed, write_entry, pop_back}
use cpp_game_frame.Boss.HurtMgr.Order.{All, IsSorted, Once, below}

pub find-assign :
    (j k v : ℕ) (m : List (ℕ × ℕ)) → find j (assign k v m) ≡ (if k == j then some v else find j m)
unfolding find assign
find-assign j k v [] = refl
find-assign j k v ((i, w) ∷ m) = ground (arith, find-assign j k v m)

-- The entry holds what the map holds for its player.
abbrev pub Right : List (ℕ × ℕ) → Player → Type 0
Right m p = find p.uid m ≡ some p.hurtvalue

-- Writing for another player leaves the entries right.
pub Right-assign :
    (uid v : ℕ) (m : List (ℕ × ℕ)) (xs : List Player)
    → listed uid xs ≡ false
    → All (Right m) xs
    → All (Right (assign uid v m)) xs
unfolding listed
Right-assign uid v m [] n h = tt
Right-assign uid v m (x ∷ xs) n h =
    (ground (arith, find-assign x.uid uid v m), Right-assign uid v m xs (ground arith) h.1)

pub listed-write_entry :
    (u : ℕ) (p : Player) (xs : List Player) → listed u (write_entry p xs) ≡ listed u xs
unfolding listed write_entry
listed-write_entry u p [] = refl
listed-write_entry u p (x ∷ xs) = ground (arith, listed-write_entry u p xs)

pub length-write_entry : (p : Player) (xs : List Player) → length (write_entry p xs) ≡ length xs
unfolding write_entry
length-write_entry p [] = refl
length-write_entry p (x ∷ xs) = ground (arith, length-write_entry p xs)

pub Once-write_entry : (p : Player) (xs : List Player) → Once xs → Once (write_entry p xs)
unfolding listed write_entry
Once-write_entry p [] h = h
Once-write_entry p (x ∷ xs) h = elim (Bool-cases (x.uid == p.uid)) [
  | inl e ↦ rw e (ground arith)
  | inr e ↦ rw e (rw (listed-write_entry x.uid p xs) h.0, Once-write_entry p xs h.1)
]

-- With the new value in the map and on the board, the whole board is right.
pub Right-write_entry :
    (p : Player) (m : List (ℕ × ℕ)) (xs : List Player)
    → Once xs
    → All (Right m) xs
    → All (Right (assign p.uid p.hurtvalue m)) (write_entry p xs)
unfolding listed write_entry
Right-write_entry p m [] o h = tt
Right-write_entry p m (x ∷ xs) o h = elim (Bool-cases (x.uid == p.uid)) [
  | inl e ↦ rw e (
    ground (arith, find-assign p.uid p.uid p.hurtvalue m),
    Right-assign p.uid p.hurtvalue m xs (ground arith) h.1,
  )
  | inr e ↦
      rw e (ground (arith, find-assign x.uid p.uid p.hurtvalue m), Right-write_entry p m xs o.1 h.1)
]

-- A bound below all entries stays one when an entry grows.
pub bound-write_entry :
    (v old : ℕ) (p : Player) (m : List (ℕ × ℕ)) (xs : List Player)
    → find p.uid m ≡ some old
    → old ≤ p.hurtvalue
    → All (Right m) xs
    → All (λ x. v ≤ x.hurtvalue) xs
    → All (λ x. v ≤ x.hurtvalue) (write_entry p xs)
unfolding write_entry
bound-write_entry v old p m [] f g r h = tt
bound-write_entry v old p m (x ∷ xs) f g r h = elim (Bool-cases (x.uid == p.uid)) [
  | inl e ↦ let same : some x.hurtvalue ≡ some old = ground arith in rw e (ground arith)
  | inr e ↦ rw e (h.0, bound-write_entry v old p m xs f g r.1 h.1)
]

pub All-append {ℓ κ} :
    {A : Type ℓ} (P : A → Type κ) (xs : List A) (y : A) → All P xs → P y → All P (xs ++ (y ∷ []))
All-append P [] y h k = (k, tt)
All-append P (x ∷ xs) y h k = (h.0, All-append P xs y h.1 k)

pub listed-append :
    (u : ℕ) (xs : List Player) (p : Player)
    → listed u (xs ++ (p ∷ [])) ≡ (listed u xs || p.uid == u)
unfolding listed
listed-append u [] p = ground arith
listed-append u (x ∷ xs) p = ground (arith, listed-append u xs p)

pub Once-append :
    (xs : List Player) (p : Player) → listed p.uid xs ≡ false → Once xs → Once (xs ++ (p ∷ []))
unfolding listed
Once-append [] p n h = (refl, tt)
Once-append (x ∷ xs) p n h =
    (ground (arith, listed-append x.uid xs p), Once-append xs p (ground arith) h.1)

pub below-append :
    (v : ℕ) (xs : List Player) (p : Player)
    → All (λ x. v ≤ x.hurtvalue) xs
    → below v (xs ++ (p ∷ [])) ≤ 1
below-append v [] p h = ground arith
below-append v (x ∷ xs) p h = ground (arith, below-append v xs p)

pub All-pop_back {κ} : (P : Player → Type κ) (xs : List Player) → All P xs → All P (pop_back xs)
unfolding pop_back
All-pop_back P [] h = tt
All-pop_back P (x ∷ []) h = tt
All-pop_back P (x ∷ y ∷ xs) h = (h.0, All-pop_back P (y ∷ xs) h.1)

pub IsSorted-pop_back : (xs : List Player) → IsSorted xs → IsSorted (pop_back xs)
unfolding pop_back
IsSorted-pop_back [] h = tt
IsSorted-pop_back (x ∷ []) h = tt
IsSorted-pop_back (x ∷ y ∷ xs) h =
    (All-pop_back (λ z. z.hurtvalue ≤ x.hurtvalue) (y ∷ xs) h.0, IsSorted-pop_back (y ∷ xs) h.1)

listed-pop_back : (u : ℕ) (xs : List Player) → listed u xs ≡ false → listed u (pop_back xs) ≡ false
unfolding listed pop_back
listed-pop_back u [] h = refl
listed-pop_back u (x ∷ []) h = refl
listed-pop_back u (x ∷ y ∷ xs) h = ground (arith, listed-pop_back u (y ∷ xs))

pub Once-pop_back : (xs : List Player) → Once xs → Once (pop_back xs)
unfolding pop_back
Once-pop_back [] h = tt
Once-pop_back (x ∷ []) h = tt
Once-pop_back (x ∷ y ∷ xs) h = (listed-pop_back x.uid (y ∷ xs) h.0, Once-pop_back (y ∷ xs) h.1)

pub length-pop_back : (n : ℕ) (xs : List Player) → length xs ≡ suc n → length (pop_back xs) ≡ n
unfolding pop_back
length-pop_back n [] h = absurd (omega arith)
length-pop_back n (x ∷ []) h = omega arith
length-pop_back n (x ∷ y ∷ xs) h =
    let rest = length-pop_back (length xs) (y ∷ xs) refl in omega arith

-- If at most one entry is below the bound, the last one is it.
pub bound-pop_back :
    (v : ℕ) (xs : List Player)
    → IsSorted xs
    → below v xs ≤ 1
    → All (λ x. v ≤ x.hurtvalue) (pop_back xs)
unfolding pop_back
bound-pop_back v [] s h = tt
bound-pop_back v (x ∷ []) s h = tt
bound-pop_back v (x ∷ y ∷ xs) s h = (ground arith, bound-pop_back v (y ∷ xs) s.1 (ground arith))

-- A player on the list has no more than a bound on all of it.
listed-bound :
    (u v c : ℕ) (m : List (ℕ × ℕ)) (xs : List Player)
    → listed u xs ≡ true
    → find u m ≡ some v
    → All (Right m) xs
    → All (λ x. x.hurtvalue ≤ c) xs
    → v ≤ c
unfolding listed
listed-bound u v c m [] l f r h = cc
listed-bound u v c m (x ∷ xs) l f r h = elim (Bool-cases (x.uid == u)) [
  | inl e ↦ let same : some x.hurtvalue ≡ some v = ground arith in ground arith
  | inr e ↦ listed-bound u v c m xs (ground arith) f r.1 h.1
]

-- The player who is taken off the board has no more than those who stay.
pub popped-bound :
    (u v : ℕ) (m : List (ℕ × ℕ)) (xs : List Player)
    → listed u xs ≡ true
    → listed u (pop_back xs) ≡ false
    → find u m ≡ some v
    → All (Right m) xs
    → IsSorted xs
    → All (λ x. v ≤ x.hurtvalue) (pop_back xs)
unfolding listed pop_back
popped-bound u v m [] l n f r s = tt
popped-bound u v m (x ∷ []) l n f r s = tt
popped-bound u v m (x ∷ y ∷ xs) l n f r s =
    let later : listed u (y ∷ xs) ≡ true = ground arith in
    (
      listed-bound u v x.hurtvalue m (y ∷ xs) later f r.1 s.0,
      popped-bound u v m (y ∷ xs) later (ground arith) f r.1 s.1,
    )

pub listed-found :
    (u : ℕ) (m : List (ℕ × ℕ)) (xs : List Player)
    → listed u xs ≡ true
    → All (Right m) xs
    → (v : ℕ) × (find u m ≡ some v)
unfolding listed
listed-found u m [] l r = cc
listed-found u m (x ∷ xs) l r = elim (Bool-cases (x.uid == u)) [
  | inl e ↦ (x.hurtvalue, ground arith)
  | inr e ↦ listed-found u m xs (ground arith) r.1
]
