-- ===== src/Prelude/SetOrder.antt =====
-- The order in which elements come into a set changes nothing but the order of the list.
use mathlib.Core.Path.{◌≡◌, refl, ap, ◌∙◌, sym, subst}
use mathlib.Core.Logic.{inl, inr}
use mathlib.Core.Bool.{Bool, true, false, ◌||◌}
use mathlib.Core.List.{List, [], ◌∷◌, ◌++◌, append_assoc, append-nil}
use mathlib.Core.List.{Permᴰ}
use mathlib.Core.List.Permᴰ
use native.Mathlib.Omega.{arith}
use hiyori.Prelude.Tests.{Bool-cases}
use hiyori.Prelude.Sets.{Equal, member, add, add_all, add_all-append}

or_swap : (a b c : Bool) → (a || (b || c)) ≡ (b || (a || c))
or_swap true true c = refl
or_swap true false c = refl
or_swap false b c = refl

module _ {R : Type 0} ⦃eq : Equal R⦄ where
  of_eq : {s t : List R} → s ≡ t → Permᴰ s t
  of_eq {s = s} e = subst (Permᴰ s) e (Permᴰ.refl s)

  member-Permᴰ : (x : R) {s t : List R} → Permᴰ s t → member x s ≡ member x t
  unfolding member
  member-Permᴰ x Permᴰ.nil = refl
  member-Permᴰ x (Permᴰ.cons {a = a} {b = b} e p) = rw (e, member-Permᴰ x p) refl
  member-Permᴰ x (Permᴰ.swap {a = a} {b = b} {l = l} e e') =
      or_swap (eq.same a x) (eq.same b x) (member x l) ∙ rw (e, e') refl
  member-Permᴰ x (Permᴰ.trans p q) = member-Permᴰ x p ∙ member-Permᴰ x q

  member-append :
      (x : R) (s : List R) (y : R) → member x (s ++ y ∷ []) ≡ (member x s || eq.same y x)
  unfolding member
  member-append x [] y = ground arith
  member-append x (z ∷ s) y = rw (member-append x s y) (ground arith)

  same_comm : (x y : R) → eq.same x y ≡ eq.same y x
  same_comm x y = elim (Bool-cases (eq.same x y)) [
    | inl equal ↦ equal ∙ sym ((eq.same_iff y x).1 (sym ((eq.same_iff x y).0 equal)))
    | inr other ↦ elim (Bool-cases (eq.same y x)) [
      | inr other' ↦ other ∙ sym other'
      | inl equal ↦ (eq.same_iff x y).1 (sym ((eq.same_iff y x).0 equal)) ∙ sym equal
    ]
  ]

  add-Permᴰ : {s t : List R} (x : R) → Permᴰ s t → Permᴰ (add s x) (add t x)
  unfolding add
  add-Permᴰ {s = s} {t = t} x p = elim (Bool-cases (member x t)) [
    | inl old ↦ rw (member-Permᴰ x p, old) p
    | inr new ↦ rw (member-Permᴰ x p, new) (Permᴰ.append_right (x ∷ []) p)
  ]

  add_all-Permᴰ : {s t : List R} (xs : List R) → Permᴰ s t → Permᴰ (add_all s xs) (add_all t xs)
  unfolding add_all
  add_all-Permᴰ {s = s} {t = t} [] p = p
  add_all-Permᴰ {s = s} {t = t} (x ∷ xs) p =
      add_all-Permᴰ {s = add s x} {t = add t x} xs (add-Permᴰ x p)

  add_swap_same : (s : List R) (x y : R) → eq.same x y ≡ true → add (add s x) y ≡ add (add s y) x
  add_swap_same s x y h = rw ((eq.same_iff x y).0 h) refl

  add_swap : (s : List R) (x y : R) → Permᴰ (add (add s x) y) (add (add s y) x)
  unfolding add
  add_swap s x y = elim (Bool-cases (eq.same x y)) [
    | inl equal ↦ of_eq (add_swap_same s x y equal)
    | inr other ↦ elim (Bool-cases (member x s)) [
      | inl old ↦ elim (Bool-cases (member y s)) [
        | inl old' ↦ rw (old, old', old) (Permᴰ.refl s)
        | inr new' ↦ rw (old, new', member-append x s y, old) (Permᴰ.refl (s ++ y ∷ []))
      ]
      | inr new ↦ elim (Bool-cases (member y s)) [
        | inl old' ↦ rw (new, old', member-append y s x, old', new) (Permᴰ.refl (s ++ x ∷ []))
        | inr new' ↦
            rw
              (
                new,
                new',
                member-append y s x,
                member-append x s y,
                new,
                new',
                other,
                sym (same_comm x y),
                other,
              )
              (Permᴰ.trans (of_eq (append_assoc s (x ∷ []) (y ∷ []))) (
                Permᴰ.trans (Permᴰ.append_left s (Permᴰ.swap refl refl))
                  (of_eq (sym (append_assoc s (y ∷ []) (x ∷ []))))))
      ]
    ]
  ]

  add_all-add :
      (s : List R) (x : R) (xs : List R) → Permᴰ (add_all (add s x) xs) (add (add_all s xs) x)
  unfolding add_all
  add_all-add s x [] = Permᴰ.refl (add s x)
  add_all-add s x (y ∷ xs) =
      Permᴰ.trans (add_all-Permᴰ xs (add_swap s x y)) (add_all-add (add s y) x xs)

  pub add_all_comm : (s p q : List R) → Permᴰ (add_all s (p ++ q)) (add_all s (q ++ p))
  unfolding add_all
  add_all_comm s [] q = of_eq (ap (add_all s) (sym (append-nil q)))
  add_all_comm s (x ∷ p) q = Permᴰ.trans (add_all_comm (add s x) p q) (
      Permᴰ.trans (of_eq (add_all-append (add s x) q p)) (
        Permᴰ.trans (add_all-Permᴰ p (add_all-add s x q))
          (of_eq (sym (add_all-append s q (x ∷ p))))))
