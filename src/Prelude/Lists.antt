-- ===== src/Prelude/Lists.antt =====
-- Lists measured and cut by native numbers, under the library's names.
use Prim.Native.Nat.{ℕ, zero, suc, ◌+◌, ◌≤◌, ◌<◌}
use mathlib.Core.Path.{◌≡◌, refl, ap, ◌∙◌}
use mathlib.Core.List.{List, [], ◌∷◌, ◌++◌}
use native.Mathlib.Nat.{suc-add, zero-add}
use native.Mathlib.Omega.{arith}

module _ {ℓ} {A : Type ℓ} where
  abbrev pub length : List A → ℕ
  length [] = 0
  length (x ∷ xs) = suc (length xs)

  abbrev pub take : ℕ → List A → List A
  take zero xs = []
  take (suc n) [] = []
  take (suc n) (x ∷ xs) = x ∷ take n xs

  abbrev pub drop : ℕ → List A → List A
  drop zero xs = xs
  drop (suc n) [] = []
  drop (suc n) (x ∷ xs) = drop n xs

  abbrev pub concat : List (List A) → List A
  concat [] = []
  concat (x ∷ xs) = x ++ concat xs

module _ {ℓ} {A : Type ℓ} where
  pub length-append : (xs ys : List A) → length (xs ++ ys) ≡ length xs + length ys
  length-append [] ys = omega arith
  length-append (x ∷ xs) ys = omega (arith, length-append xs ys)

  pub take-append-drop : (n : ℕ) (xs : List A) → take n xs ++ drop n xs ≡ xs
  take-append-drop zero xs = refl
  take-append-drop (suc n) [] = refl
  take-append-drop (suc n) (x ∷ xs) = rw (take-append-drop n xs)

  pub length-take-le : (n : ℕ) (xs : List A) → length (take n xs) ≤ n
  length-take-le zero xs = omega arith
  length-take-le (suc n) [] = omega arith
  length-take-le (suc n) (x ∷ xs) = omega (arith, length-take-le n xs)

  -- A nonempty rest gives a nonempty piece.
  pub take-eq-nil : (n : ℕ) (xs : List A) → 0 < n → take n xs ≡ [] → xs ≡ []
  take-eq-nil zero xs h e = absurd (omega arith)
  take-eq-nil (suc n) [] h e = refl
  take-eq-nil (suc n) (x ∷ xs) h e = cc

  drop-length-take : (n : ℕ) (xs : List A) → drop (length (take n xs)) xs ≡ drop n xs
  drop-length-take zero xs = refl
  drop-length-take (suc n) [] = refl
  drop-length-take (suc n) (x ∷ xs) = drop-length-take n xs

  drop-drop-take :
      (p n : ℕ) (xs : List A) → drop (p + length (take n (drop p xs))) xs ≡ drop n (drop p xs)
  drop-drop-take zero n xs = rw zero-add (drop-length-take n xs)
  drop-drop-take (suc p) zero [] = rw suc-add
  drop-drop-take (suc p) (suc n) [] = rw suc-add
  drop-drop-take (suc p) n (x ∷ xs) = rw suc-add (drop-drop-take p n xs)

  -- Two pieces that follow one another, cut from the rest at `p`.
  pub take-append-drop_at :
      (p n : ℕ) (xs : List A)
      → take n (drop p xs) ++ drop (p + length (take n (drop p xs))) xs ≡ drop p xs
  take-append-drop_at p n xs =
      ap (λ t. take n (drop p xs) ++ t) (drop-drop-take p n xs) ∙ take-append-drop n (drop p xs)
