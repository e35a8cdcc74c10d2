-- ===== src/Base/Slices.antt =====
-- Slices `s[a:b]` by `take` and `drop`, and how they meet `append` and indexing.
use Prim.Native.Nat.{ℕ, zero, suc, ◌+◌, ◌≤◌, ◌<◌}
use mathlib.Core.Path.{◌≡◌, refl, ap}
use mathlib.Core.List.{List, [], ◌∷◌, ◌++◌}
use mathlib.Core.Option.{none, some}
use native.Mathlib.Omega.{arith}
use share.Base.Lists.{length, get_elem?, take, drop}

module _ {ℓ} {A : Type ℓ} where
  pub get_elem?-append_right :
      (xs ys : List A) (i n : ℕ) → n ≡ length xs + i → get_elem? (xs ++ ys) n ≡ get_elem? ys i
  get_elem?-append_right [] ys i n e = ap (get_elem? ys) (omega arith)
  get_elem?-append_right (x ∷ xs) ys i zero e = absurd (omega arith)
  get_elem?-append_right (x ∷ xs) ys i (suc n) e = get_elem?-append_right xs ys i n (omega arith)

  pub get_elem?-append_left :
      (xs ys : List A) (i : ℕ) → i < length xs → get_elem? (xs ++ ys) i ≡ get_elem? xs i
  get_elem?-append_left [] ys i h = absurd (omega arith)
  get_elem?-append_left (x ∷ xs) ys zero h = refl
  get_elem?-append_left (x ∷ xs) ys (suc i) h = get_elem?-append_left xs ys i (omega arith)

  pub get_elem?-drop :
      (xs : List A) (n i m : ℕ) → m ≡ n + i → get_elem? (drop n xs) i ≡ get_elem? xs m
  get_elem?-drop xs zero i m e = ap (get_elem? xs) (omega arith)
  get_elem?-drop [] (suc n) i m e = refl
  get_elem?-drop (x ∷ xs) (suc n) i zero e = absurd (omega arith)
  get_elem?-drop (x ∷ xs) (suc n) i (suc m) e = get_elem?-drop xs n i m (omega arith)

  pub get_elem?-none : (xs : List A) (i : ℕ) → length xs ≤ i → get_elem? xs i ≡ none
  get_elem?-none [] i h = refl
  get_elem?-none (x ∷ xs) zero h = absurd (omega arith)
  get_elem?-none (x ∷ xs) (suc i) h = get_elem?-none xs i (omega arith)

  pub get_elem?-some : (xs : List A) (i : ℕ) → i < length xs → (b : A) × (get_elem? xs i ≡ some b)
  get_elem?-some [] i h = absurd (omega arith)
  get_elem?-some (x ∷ xs) zero h = (x, refl)
  get_elem?-some (x ∷ xs) (suc i) h = get_elem?-some xs i (omega arith)

  pub take-append_exact : (xs ys : List A) (n : ℕ) → n ≡ length xs → take n (xs ++ ys) ≡ xs
  take-append_exact [] ys zero e = refl
  take-append_exact [] ys (suc n) e = absurd (omega arith)
  take-append_exact (x ∷ xs) ys zero e = absurd (omega arith)
  take-append_exact (x ∷ xs) ys (suc n) e = ap (◌∷◌ x) (take-append_exact xs ys n (omega arith))

  pub drop-append_exact : (xs ys : List A) (n : ℕ) → n ≡ length xs → drop n (xs ++ ys) ≡ ys
  drop-append_exact [] ys zero e = refl
  drop-append_exact [] ys (suc n) e = absurd (omega arith)
  drop-append_exact (x ∷ xs) ys zero e = absurd (omega arith)
  drop-append_exact (x ∷ xs) ys (suc n) e = drop-append_exact xs ys n (omega arith)

  -- A cut past the end of the first part goes on in the second.
  pub take-append_past :
      (xs ys : List A) (n m : ℕ) → n ≡ length xs + m → take n (xs ++ ys) ≡ xs ++ take m ys
  take-append_past [] ys n m e = ap (λ (t : ℕ). take t ys) (omega arith)
  take-append_past (x ∷ xs) ys zero m e = absurd (omega arith)
  take-append_past (x ∷ xs) ys (suc n) m e = ap (◌∷◌ x) (take-append_past xs ys n m (omega arith))

  pub drop-append_past :
      (xs ys : List A) (n m : ℕ) → n ≡ length xs + m → drop n (xs ++ ys) ≡ drop m ys
  drop-append_past [] ys n m e = ap (λ (t : ℕ). drop t ys) (omega arith)
  drop-append_past (x ∷ xs) ys zero m e = absurd (omega arith)
  drop-append_past (x ∷ xs) ys (suc n) m e = drop-append_past xs ys n m (omega arith)

  pub take-append_within : (xs ys : List A) (n : ℕ) → n ≤ length xs → take n (xs ++ ys) ≡ take n xs
  take-append_within xs ys zero h = refl
  take-append_within [] ys (suc n) h = absurd (omega arith)
  take-append_within (x ∷ xs) ys (suc n) h = ap (◌∷◌ x) (take-append_within xs ys n (omega arith))

  pub drop-append_within :
      (xs ys : List A) (n : ℕ) → n ≤ length xs → drop n (xs ++ ys) ≡ drop n xs ++ ys
  drop-append_within xs ys zero h = refl
  drop-append_within [] ys (suc n) h = absurd (omega arith)
  drop-append_within (x ∷ xs) ys (suc n) h = drop-append_within xs ys n (omega arith)

  pub take_all : (xs : List A) (n : ℕ) → length xs ≤ n → take n xs ≡ xs
  take_all [] zero h = refl
  take_all [] (suc n) h = refl
  take_all (x ∷ xs) zero h = absurd (omega arith)
  take_all (x ∷ xs) (suc n) h = ap (◌∷◌ x) (take_all xs n (omega arith))

  pub drop_all : (xs : List A) (n : ℕ) → length xs ≤ n → drop n xs ≡ []
  drop_all [] zero h = refl
  drop_all [] (suc n) h = refl
  drop_all (x ∷ xs) zero h = absurd (omega arith)
  drop_all (x ∷ xs) (suc n) h = drop_all xs n (omega arith)

  pub drop-drop : (xs : List A) (n m k : ℕ) → k ≡ n + m → drop m (drop n xs) ≡ drop k xs
  drop-drop xs zero m k e = ap (λ (t : ℕ). drop t xs) (omega arith)
  drop-drop [] (suc n) zero zero e = refl
  drop-drop [] (suc n) zero (suc k) e = refl
  drop-drop [] (suc n) (suc m) zero e = refl
  drop-drop [] (suc n) (suc m) (suc k) e = refl
  drop-drop (x ∷ xs) (suc n) m zero e = absurd (omega arith)
  drop-drop (x ∷ xs) (suc n) m (suc k) e = drop-drop xs n m k (omega arith)
