-- ===== src/Boss/HurtMgr/Order.antt =====
-- What `std::sort` by `cmp` promises of the board, and what a permutation keeps.
use mathlib.Core.List.{Permᴰ}
use mathlib.Core.Path.{subst}
use cpp_game_frame.Prelude.{
  ℕ, suc, ◌+◌, ◌≤◌, ◌≡◌, refl, ap, ◌∙◌, false, List, [], ◌∷◌, length, ltb, if◌then◌else◌, arith,
}
use cpp_game_frame.Boss.HurtMgr.{Player, listed}

abbrev pub All {ℓ κ} : {A : Type ℓ} → (A → Type κ) → List A → Type κ
All P [] = Unit
All P (x ∷ xs) = P x × All P xs

-- The hurt goes down the list, players of equal hurt in any order.
abbrev pub IsSorted : List Player → Type 0
IsSorted [] = Unit
IsSorted (x ∷ xs) = All (λ y. y.hurtvalue ≤ x.hurtvalue) xs × IsSorted xs

-- The contract of `std::sort` with the comparison `cmp`.
pub record IsSort (sort : List Player → List Player) : Type 0 where
  pub sorted : (xs : List Player) → IsSorted (sort xs)
  pub perm : (xs : List Player) → Permᴰ xs (sort xs)

-- No id stands twice on the list.
abbrev pub Once : List Player → Type 0
Once [] = Unit
Once (x ∷ xs) = (listed x.uid xs ≡ false) × Once xs

-- How many have done less than that.
abbrev pub below : ℕ → List Player → ℕ
below v [] = 0
below v (x ∷ xs) = (if ltb x.hurtvalue v then 1 else 0) + below v xs

pub All-perm {ℓ κ} :
    {A : Type ℓ} (P : A → Type κ) {xs ys : List A} → Permᴰ xs ys → All P xs → All P ys
All-perm P Permᴰ.nil h = h
All-perm P (Permᴰ.cons e d) h = (subst P e h.0, All-perm P d h.1)
All-perm P (Permᴰ.swap e f) h = (subst P f h.1.0, (subst P e h.0, h.1.1))
All-perm P (Permᴰ.trans d e) h = All-perm P e (All-perm P d h)

pub length-perm {ℓ} : {A : Type ℓ} {xs ys : List A} → Permᴰ xs ys → length xs ≡ length ys
length-perm Permᴰ.nil = refl
length-perm (Permᴰ.cons e d) = ap suc (length-perm d)
length-perm (Permᴰ.swap e f) = refl
length-perm (Permᴰ.trans d e) = length-perm d ∙ length-perm e

pub listed-perm : (uid : ℕ) {xs ys : List Player} → Permᴰ xs ys → listed uid xs ≡ listed uid ys
unfolding listed
listed-perm uid Permᴰ.nil = refl
listed-perm uid (Permᴰ.cons e d) = rw (e, listed-perm uid d)
listed-perm uid (Permᴰ.swap e f) = rw (e, f) (ground arith)
listed-perm uid (Permᴰ.trans d e) = listed-perm uid d ∙ listed-perm uid e

pub below-perm : (v : ℕ) {xs ys : List Player} → Permᴰ xs ys → below v xs ≡ below v ys
below-perm v Permᴰ.nil = refl
below-perm v (Permᴰ.cons e d) = rw (e, below-perm v d)
below-perm v (Permᴰ.swap e f) = rw (e, f) (omega arith)
below-perm v (Permᴰ.trans d e) = below-perm v d ∙ below-perm v e

Once-swap : (a b : Player) (l : List Player) → Once (a ∷ b ∷ l) → Once (b ∷ a ∷ l)
unfolding listed
Once-swap a b l h = (ground arith, (ground arith, h.1.1))

pub Once-perm : {xs ys : List Player} → Permᴰ xs ys → Once xs → Once ys
unfolding listed
Once-perm Permᴰ.nil h = h
Once-perm (Permᴰ.cons {a} {b} {l₁ = xs} {l₂ = ys} e d) h = (
  rw (← listed-perm b.uid d) (subst (λ (p : Player). listed p.uid xs ≡ false) e h.0),
  Once-perm d h.1,
)
Once-perm (Permᴰ.swap {a} {b} {a'} {b'} {l} e f) h =
    subst (λ z. Once (z ∷ b' ∷ l)) f (subst (λ z. Once (b ∷ z ∷ l)) e (Once-swap a b l h))
Once-perm (Permᴰ.trans d e) h = Once-perm e (Once-perm d h)
