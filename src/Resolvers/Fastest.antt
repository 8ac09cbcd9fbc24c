-- ===== src/Resolvers/Fastest.antt =====
-- The race of `connect_fastest` is won by the first connection that opens.
use hiyori.Prelude.{
  ℕ, zero, suc, ◌≤◌, ◌<◌, ◌≡◌, refl, ap, sym, true, Option, none, some, List, [], ◌∷◌, length, leb,
  ◌&&◌, if◌then◌else◌, arith, inl, inr, ◌⊎◌, Bool-cases, Option-cases,
}
use mathlib.Core.Path.{subst}
use hiyori.Outcome.{Outcome, ok, raise, Outcome-cases}
use hiyori.Exceptions.{Error, unresolvable_host, is_exception}
use hiyori.Resolvers.Race.{at, result_of, read_result, next_done, returned, race}

abbrev pub Among : {R : Type 0} → R → List R → Type 0
Among r [] = ⊥
Among r (x ∷ xs) = (x ≡ r) ⊎ Among r xs

abbrev pub All : {R : Type 0} → (R → Type 0) → List R → Type 0
All F [] = Unit
All F (x ∷ xs) = F x × All F xs

All-Among : {R : Type 0} {F : R → Type 0} (xs : List R) → ((x : R) → Among x xs → F x) → All F xs
All-Among [] f = tt
All-Among (x ∷ xs) f = (f x (inl refl), All-Among xs (λ y m. f y (inr m)))

module _ {R P : Type 0} (opens : R → ℕ × Outcome Error P) where
  -- how many attempts end at `from` or later
  abbrev count : ℕ → List R → ℕ
  count from [] = 0
  count from (r ∷ rs) = let rest = count from rs in if leb from (at opens r) then suc rest else rest

  count-le : (from : ℕ) (rs : List R) → count from rs ≤ length rs
  count-le from [] = omega arith
  count-le from (r ∷ rs) = ground (arith, count-le from rs)

  count_mono : (a b : ℕ) (rs : List R) → a ≤ b → count b rs ≤ count a rs
  count_mono a b [] h = omega arith
  count_mono a b (r ∷ rs) h = ground (arith, count_mono a b rs h)

  count-drop :
      (a b : ℕ) (q : R) (rs : List R)
      → Among q rs
      → a ≤ at opens q
      → at opens q < b
      → count b rs < count a rs
  count-drop a b q [] m h l = elim m [ ]
  count-drop a b q (r ∷ rs) (inl e) h l =
      let same = ap (λ x. at opens x) e in ground (arith, count_mono a b rs, same)
  count-drop a b q (r ∷ rs) (inr m) h l = ground (arith, count-drop a b q rs m h l)

  next_done-none :
      (from : ℕ) (rs : List R)
      → next_done opens from rs ≡ none
      → (q : R) → Among q rs
      → at opens q < from
  unfolding next_done
  next_done-none from [] h q m = elim m [ ]
  next_done-none from (r ∷ rs) h q (inl e) = let same = ap (λ x. at opens x) e in ground arith
  next_done-none from (r ∷ rs) h q (inr m) = next_done-none from rs (ground arith) q m

  next_done-le :
      (from t : ℕ) (rs : List R)
      → next_done opens from rs ≡ some t
      → (q : R) → Among q rs
      → from ≤ at opens q
      → t ≤ at opens q
  unfolding next_done
  next_done-le from t [] h q m g = elim m [ ]
  next_done-le from t (r ∷ rs) h q (inl e) g = let same = ap (λ x. at opens x) e in ground arith
  next_done-le from t (r ∷ rs) h q (inr m) g = elim (Option-cases (next_done opens from rs)) [
    | inl none_left ↦ absurd (omega (arith, next_done-none from rs none_left q m))
    | inr (t', e) ↦ let l = next_done-le from t' rs e q m g in ground arith
  ]

  next_done-Among :
      (from t : ℕ) (rs : List R)
      → next_done opens from rs ≡ some t
      → (q : R) × Among q rs × (at opens q ≡ t) × (from ≤ t)
  unfolding next_done
  next_done-Among from t [] h = cc
  next_done-Among from t (r ∷ rs) h = elim (Option-cases (next_done opens from rs)) [
    | inl none_left ↦ (r, inl refl, ground arith, ground arith)
    | inr (t', e) ↦
        let (q, m, same, le) = next_done-Among from t' rs e in
        elim (Bool-cases (leb from (at opens r) && leb (at opens r) t')) [
          | inl first ↦ (r, inl refl, ground arith, ground arith)
          | inr later ↦ (q, inr m, ground arith, ground arith)
        ]
  ]

  -- The attempt has failed.
  abbrev pub Failed : R → Type 0
  Failed q = (e : Error) × ((opens q).1 ≡ raise e)

  -- The outcome of a race: a connection that opens first, or none.
  abbrev pub Fastest : List R → Outcome Error (R × P) → Type 0
  Fastest rs x =
      ((r : R) × (p : P) × (x ≡ ok (r, p))
        × Among r rs
        × ((opens r).1 ≡ ok p)
        × All (λ q. Failed q ⊎ (at opens r ≤ at opens q)) rs)
      ⊎ ((x ≡ raise unresolvable_host) × All Failed rs)

  module _ (plain : (r : R) (e : Error) → (opens r).1 ≡ raise e → is_exception e ≡ true) where
    -- What `read_result` finds is an attempt that has ended with a connection; if it finds none, all that
    -- have ended have failed.
    abbrev Found : ℕ → List R → Outcome Error (Option (R × P)) → Type 0
    Found t rs (ok (some (r, p))) = Among r rs × ((opens r).1 ≡ ok p) × (at opens r ≤ t)
    Found t rs (ok none) = (q : R) → Among q rs → at opens q ≤ t → Failed q
    Found t rs (raise e) = ⊥

    Found-more :
        (t : ℕ) (x : R) (rs : List R) (o : Outcome Error (Option (R × P)))
        → (at opens x ≤ t → Failed x)
        → Found t rs o
        → Found t (x ∷ rs) o
    Found-more t x rs (ok (some (r, p))) failed (m, e, l) = (inr m, e, l)
    Found-more t x rs (ok none) failed f = λ q m l. elim m [
      | inl e ↦ subst (λ y. Failed y) e (failed (subst (λ y. at opens y ≤ t) (sym e) l))
      | inr m' ↦ f q m' l
    ]
    Found-more t x rs (raise e) failed f = elim f [ ]

    read_result-Found : (t : ℕ) (rs : List R) → Found t rs (read_result opens t rs)
    unfolding read_result result_of
    read_result-Found t [] = λ q m. elim m [ ]
    read_result-Found t (r ∷ rs) = elim (Bool-cases (leb (at opens r) t)) [
      | inr later ↦ rw later (
          Found-more t r rs (read_result opens t rs) (λ l. absurd (ground arith))
            (read_result-Found t rs))
      | inl ended ↦ elim (Outcome-cases (opens r).1) [
        | inl (p, e) ↦ rw (ended, e) (inl refl, e, ground arith)
        | inr (x, e) ↦
            rw (ended, e, plain r x e)
              (Found-more t r rs (read_result opens t rs) (λ l. (x, e)) (read_result-Found t rs))
      ]
    ]

    -- The invariant of the loop: what has ended before `from` has failed.
    abbrev Past : ℕ → List R → Type 0
    Past from rs = (q : R) → Among q rs → at opens q < from → Failed q

    race_step :
        (fuel from t : ℕ) (rs : List R) (o : Outcome Error (Option (R × P)))
        → Past from rs
        → ((q : R) → Among q rs → from ≤ at opens q → t ≤ at opens q)
        → Found t rs o
        → (Past (suc t) rs → Fastest rs (race opens fuel (suc t) rs))
        → Fastest rs (returned opens (race opens fuel (suc t) rs) o)
    race_step fuel from t rs (ok (some (r, p))) past least (m, e, l) ih = inl (
      r,
      p,
      refl,
      m,
      e,
      All-Among rs (λ q n. elim (Bool-cases (leb from (at opens q))) [
        | inl pending ↦ inr (let a = least q n (ground arith) in omega arith)
        | inr ended ↦ inl (past q n (ground arith))
      ]),
    )
    race_step fuel from t rs (ok none) past least found ih = ih (λ q n l. found q n (omega arith))
    race_step fuel from t rs (raise e) past least found ih = elim found [ ]

    race-Past :
        (fuel from : ℕ) (rs : List R)
        → count from rs < fuel
        → Past from rs
        → Fastest rs (race opens fuel from rs)
    unfolding race
    race-Past zero from rs enough past = absurd (omega arith)
    race-Past (suc fuel) from rs enough past = elim (Option-cases (next_done opens from rs)) [
      | inl over ↦
          rw over (inr (refl, All-Among rs (λ q n. past q n (next_done-none from rs over q n))))
      | inr (t, e) ↦
          let (q, n, same, le) = next_done-Among from t rs e in
          rw e (
            race_step fuel from t rs (read_result opens t rs) past (next_done-le from t rs e)
              (read_result-Found t rs)
              (race-Past fuel (suc t) rs (
                let d = count-drop from (suc t) q rs n (omega arith) (omega arith) in omega arith)))
    ]

    -- With fuel above the number of records, and if the attempts raise nothing but subclasses of
    -- Exception, the race ends: with the connection of a record than which no other opens earlier,
    -- or with UnresolvableHost if all fail.
    pub race-Fastest :
        (records : List R) (fuel : ℕ)
        → length records < fuel
        → Fastest records (race opens fuel 0 records)
    race-Fastest records fuel enough =
        race-Past fuel 0 records (let l = count-le 0 records in omega arith)
          (λ q n l. absurd (omega arith))
