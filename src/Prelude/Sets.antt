-- ===== src/Prelude/Sets.antt =====
-- Python's sets, as lists without an element twice, in the order in which the elements came.
use mathlib.Core.Path.{◌≡◌, refl}
use mathlib.Core.Logic.{◌↔◌}
use mathlib.Core.Bool.{Bool, true, false, ◌||◌}
use mathlib.Core.List.{List, [], ◌∷◌, ◌++◌}
use hiyori.Prelude.Tests.{if◌then◌else◌}

-- `==` on the elements
pub record Equal (R : Type 0) : Type 0 where
  pub same : R → R → Bool
  pub same_iff : (x y : R) → (same x y ≡ true) ↔ (x ≡ y)

module _ {R : Type 0} ⦃eq : Equal R⦄ where
  unfoldable pub member : R → List R → Bool
  member x [] = false
  member x (y ∷ s) = eq.same y x || member x s

  -- `s.add(x)`
  unfoldable pub add : List R → R → List R
  unfolding member
  add s x = if member x s then s else s ++ x ∷ []

  -- `s |= more`
  unfoldable pub add_all : List R → List R → List R
  unfolding add
  add_all s [] = s
  add_all s (x ∷ more) = add_all (add s x) more

  -- `set(xs)`
  abbrev pub set_of : List R → List R
  set_of xs = add_all [] xs

  pub add_all-append : (s xs ys : List R) → add_all s (xs ++ ys) ≡ add_all (add_all s xs) ys
  unfolding add_all
  add_all-append s [] ys = refl
  add_all-append s (x ∷ xs) ys = add_all-append (add s x) xs ys
