-- ===== src/Prelude/Windows.antt =====
-- Writing a block of cells into a list, and what a window of the list shows afterwards.
use mathlib.Core.List.{List, [], ◌∷◌, ◌++◌}
use Prim.Native.Nat.{ℕ, zero, suc, ◌+◌, ◌≤◌}
use mathlib.Core.Path.{◌≡◌, refl, ap}
use native.Mathlib.Omega.{arith}
use cpp_game_frame.Prelude.Lists.{length, take, drop, length-take, length-drop}

module _ {ℓ} {A : Type ℓ} where
  -- `std::copy` to index `i`; cells past the end of the list are not written.
  abbrev pub overwrite : List A → ℕ → List A → List A
  overwrite [] i ds = []
  overwrite (x ∷ xs) (suc i) ds = x ∷ overwrite xs i ds
  overwrite (x ∷ xs) zero [] = x ∷ xs
  overwrite (x ∷ xs) zero (d ∷ ds) = d ∷ overwrite xs zero ds

  -- `n` cells from index `i`.
  abbrev pub window : ℕ → ℕ → List A → List A
  window i n xs = take n (drop i xs)

  pub length-overwrite :
      (xs : List A) (i : ℕ) (ds : List A) → length (overwrite xs i ds) ≡ length xs
  length-overwrite [] i ds = refl
  length-overwrite (x ∷ xs) (suc i) ds = ap suc (length-overwrite xs i ds)
  length-overwrite (x ∷ xs) zero [] = refl
  length-overwrite (x ∷ xs) zero (d ∷ ds) = ap suc (length-overwrite xs zero ds)

  -- Written at the start, a block is what the start shows, and the rest stays.
  take-overwrite-zero :
      (xs ds : List A) (m : ℕ) → m ≡ length ds → m ≤ length xs → take m (overwrite xs 0 ds) ≡ ds
  take-overwrite-zero xs [] zero e h = refl
  take-overwrite-zero xs [] (suc m) e h = absurd (omega arith)
  take-overwrite-zero xs (d ∷ ds) zero e h = absurd (omega arith)
  take-overwrite-zero [] (d ∷ ds) (suc m) e h = absurd (omega arith)
  take-overwrite-zero (x ∷ xs) (d ∷ ds) (suc m) e h =
      ap (◌∷◌ d) (take-overwrite-zero xs ds m (omega arith) (omega arith))

  -- Written just past a window, a block extends it.
  pub window-overwrite :
      (xs : List A) (r n w m : ℕ) (ds : List A)
      → w ≡ r + n
      → m ≡ n + length ds
      → r + m ≤ length xs
      → window r m (overwrite xs w ds) ≡ window r n xs ++ ds
  window-overwrite [] zero zero w zero [] e f h = refl
  window-overwrite [] zero zero w zero (d ∷ ds) e f h = absurd (omega arith)
  window-overwrite [] zero zero w (suc m) ds e f h = absurd (omega arith)
  window-overwrite [] zero (suc n) w m ds e f h = absurd (omega arith)
  window-overwrite [] (suc r) n w m ds e f h = absurd (omega arith)
  window-overwrite (x ∷ xs) (suc r) n zero m ds e f h = absurd (omega arith)
  window-overwrite (x ∷ xs) (suc r) n (suc w) m ds e f h =
      window-overwrite xs r n w m ds (omega arith) (omega arith) (omega arith)
  window-overwrite (x ∷ xs) zero zero zero m ds e f h =
      take-overwrite-zero (x ∷ xs) ds m (omega arith) (omega arith)
  window-overwrite (x ∷ xs) zero zero (suc w) m ds e f h = absurd (omega arith)
  window-overwrite (x ∷ xs) zero (suc n) zero m ds e f h = absurd (omega arith)
  window-overwrite (x ∷ xs) zero (suc n) (suc w) zero ds e f h = absurd (omega arith)
  window-overwrite (x ∷ xs) zero (suc n) (suc w) (suc m) ds e f h =
      ap (◌∷◌ x) (window-overwrite xs zero n w m ds (omega arith) (omega arith) (omega arith))

  overwrite-nil : (xs : List A) (i : ℕ) → overwrite xs i [] ≡ xs
  overwrite-nil [] i = refl
  overwrite-nil (x ∷ xs) zero = refl
  overwrite-nil (x ∷ xs) (suc i) = ap (◌∷◌ x) (overwrite-nil xs i)

  take_past-overwrite :
      (xs ds : List A) (n m : ℕ)
      → m ≡ length ds + n
      → m ≤ length xs
      → take m (overwrite xs 0 ds) ≡ ds ++ take n (drop (length ds) xs)
  take_past-overwrite xs [] n m e h = let e' : m ≡ n = omega arith in rw (overwrite-nil, e')
  take_past-overwrite [] (d ∷ ds) n m e h = absurd (omega arith)
  take_past-overwrite (x ∷ xs) (d ∷ ds) n zero e h = absurd (omega arith)
  take_past-overwrite (x ∷ xs) (d ∷ ds) n (suc m) e h =
      ap (◌∷◌ d) (take_past-overwrite xs ds n m (omega arith) (omega arith))

  -- Written just in front of a window, a block is put before what it shows.
  pub window-overwrite_front :
      (xs : List A) (w r n m : ℕ) (ds : List A)
      → r ≡ w + length ds
      → m ≡ length ds + n
      → w + m ≤ length xs
      → window w m (overwrite xs w ds) ≡ ds ++ window r n xs
  window-overwrite_front xs zero r n m ds e f h =
      let e' : r ≡ length ds = omega arith in rw e' (take_past-overwrite xs ds n m f (omega arith))
  window-overwrite_front [] (suc w) r n m [] e f h = absurd (omega arith)
  window-overwrite_front [] (suc w) r n m (d ∷ ds) e f h = absurd (omega arith)
  window-overwrite_front (x ∷ xs) (suc w) zero n m ds e f h = absurd (omega arith)
  window-overwrite_front (x ∷ xs) (suc w) (suc r) n m ds e f h =
      window-overwrite_front xs w r n m ds (omega arith) f (omega arith)

  -- A window that ends inside a list does not see what is appended to the list.
  pub window-append :
      (xs ys : List A) (r n : ℕ) → r + n ≤ length xs → window r n (xs ++ ys) ≡ window r n xs
  window-append xs ys zero zero h = refl
  window-append [] ys zero (suc n) h = absurd (omega arith)
  window-append (x ∷ xs) ys zero (suc n) h = ap (◌∷◌ x) (window-append xs ys zero n (omega arith))
  window-append [] ys (suc r) n h = absurd (omega arith)
  window-append (x ∷ xs) ys (suc r) n h = window-append xs ys r n (omega arith)

  pub length-window : (r n : ℕ) (xs : List A) → r + n ≤ length xs → length (window r n xs) ≡ n
  length-window r n xs h = omega (arith, length-take n (drop r xs), length-drop r xs)

  -- Dropping the head of a window is the window that starts later.
  pub drop-window :
      (r n k r' n' : ℕ) (xs : List A)
      → r' ≡ r + k
      → n ≡ k + n'
      → r + n ≤ length xs
      → drop k (window r n xs) ≡ window r' n' xs
  drop-window zero n zero zero n' xs e f h = let e' : n ≡ n' = omega arith in rw e'
  drop-window zero n zero (suc r') n' xs e f h = absurd (omega arith)
  drop-window zero n (suc k) zero n' xs e f h = absurd (omega arith)
  drop-window zero zero (suc k) (suc r') n' xs e f h = absurd (omega arith)
  drop-window zero (suc n) (suc k) (suc r') n' [] e f h = absurd (omega arith)
  drop-window zero (suc n) (suc k) (suc r') n' (x ∷ xs) e f h =
      drop-window zero n k r' n' xs (omega arith) (omega arith) (omega arith)
  drop-window (suc r) n k zero n' xs e f h = absurd (omega arith)
  drop-window (suc r) zero zero (suc r') zero [] e f h = refl
  drop-window (suc r) zero zero (suc r') (suc n') [] e f h = absurd (omega arith)
  drop-window (suc r) zero (suc k) (suc r') n' [] e f h = absurd (omega arith)
  drop-window (suc r) (suc n) k (suc r') n' [] e f h = absurd (omega arith)
  drop-window (suc r) n k (suc r') n' (x ∷ xs) e f h =
      drop-window r n k r' n' xs (omega arith) f (omega arith)

  -- The head of a window is the shorter window.
  pub take-window : (r n k : ℕ) (xs : List A) → k ≤ n → take k (window r n xs) ≡ window r k xs
  take-window r n k xs h = take-take k n (drop r xs) h
    where
      take-take : (k n : ℕ) (ys : List A) → k ≤ n → take k (take n ys) ≡ take k ys
      take-take zero n ys h = refl
      take-take (suc k) zero ys h = absurd (omega arith)
      take-take (suc k) (suc n) [] h = refl
      take-take (suc k) (suc n) (y ∷ ys) h = ap (◌∷◌ y) (take-take k n ys (omega arith))
