-- ===== src/Prelude/Search.antt =====
-- `s.partition(p)` and `s.split(p)` for a separator of more than one character.
use Prim.Native.Nat.{ℕ, zero, suc}
use mathlib.Core.Option.{Option, none, some}
use mathlib.Core.Path.{◌≡◌, refl, ap, ◌∙◌}
use mathlib.Core.Bool.{true, false}
use mathlib.Core.List.{List, [], ◌∷◌, ◌++◌}
use native.Mathlib.Omega.{arith}
use hiyori.Prelude.Lists.{length, drop}
use hiyori.Prelude.Text.{Str, Lacks, starts_with}

-- A character in front of the first piece.
abbrev pub onto_front : ℕ → Option (Str × Str) → Option (Str × Str)
onto_front x none = none
onto_front x (some (front, rest)) = some (x ∷ front, rest)

abbrev pub onto_first : ℕ → List Str → List Str
onto_first x [] = (x ∷ []) ∷ []
onto_first x (first ∷ rest) = (x ∷ first) ∷ rest

-- What stands in front of the first `p` and behind it, where `p` occurs.
unfoldable pub partition : Str → Str → Option (Str × Str)
unfolding starts_with
partition p [] = none
partition p (x ∷ s) = elim (starts_with p (x ∷ s)) [
  | true ↦ some ([], drop (length p) (x ∷ s))
  | false ↦ onto_front x (partition p s)
]

-- The pieces between the occurrences of `p`; `skip` characters of one are still to pass.
unfoldable pub split_after : Str → ℕ → Str → List Str
unfolding starts_with
split_after p skip [] = [] ∷ []
split_after p (suc skip) (x ∷ s) = split_after p skip s
split_after p zero (x ∷ s) = elim (starts_with p (x ∷ s)) [
  | true ↦ [] ∷ split_after p (length (drop 1 p)) s
  | false ↦ onto_first x (split_after p 0 s)
]

abbrev pub split : Str → Str → List Str
split p s = split_after p 0 s

-- `p not in s`
abbrev pub Absent : Str → Str → Type 0
Absent p [] = Unit
Absent p (x ∷ s) = (starts_with p (x ∷ s) ≡ false) × Absent p s

starts_with-append : (p t : Str) → starts_with p (p ++ t) ≡ true
unfolding starts_with
starts_with-append [] t = refl
starts_with-append (c ∷ p) t = ground (arith, starts_with-append p t)

drop-append : (p t : Str) → drop (length p) (p ++ t) ≡ t
drop-append [] t = refl
drop-append (c ∷ p) t = drop-append p t

-- A text that does not start with `p` does not do so for what follows, if this begins with a character
-- that `p` lacks.
starts_with-longer :
    (p s t : Str) (c : ℕ) → Lacks c p → starts_with p s ≡ false → starts_with p (s ++ c ∷ t) ≡ false
unfolding starts_with
starts_with-longer [] s t c h e = absurd cc
starts_with-longer (q ∷ p) [] t c h e = ground arith
starts_with-longer (q ∷ p) (x ∷ s) t c h e = ground (arith, starts_with-longer p s t c h.1)

-- One step of each search.
module _ (p : Str) (x : ℕ) (s : Str) where
  partition_here :
      starts_with p (x ∷ s) ≡ true → partition p (x ∷ s) ≡ some ([], drop (length p) (x ∷ s))
  unfolding partition
  partition_here e = rw (partition, e) refl

  partition_later :
      starts_with p (x ∷ s) ≡ false → partition p (x ∷ s) ≡ onto_front x (partition p s)
  unfolding partition
  partition_later e = rw (partition, e) refl

  split_here :
      starts_with p (x ∷ s) ≡ true → split p (x ∷ s) ≡ [] ∷ split_after p (length (drop 1 p)) s
  unfolding split_after
  split_here e = rw (split_after, e) refl

  split_later : starts_with p (x ∷ s) ≡ false → split p (x ∷ s) ≡ onto_first x (split p s)
  unfolding split_after
  split_later e = rw (split_after, e) refl

module _ (c : ℕ) (p : Str) where
  -- A text that lacks the first character of `p`, in front of one without `p`.
  pub Absent-Lacks : (s t : Str) → Lacks c s → Absent (c ∷ p) t → Absent (c ∷ p) (s ++ t)
  unfolding starts_with
  Absent-Lacks [] t h k = k
  Absent-Lacks (x ∷ s) t h k = (ground arith, Absent-Lacks s t h.1 k)

  pub partition-Lacks :
      (s t : Str) → Lacks c s → partition (c ∷ p) (s ++ (c ∷ (p ++ t))) ≡ some (s, t)
  unfolding starts_with
  partition-Lacks [] t h =
      partition_here (c ∷ p) c (p ++ t) (starts_with-append (c ∷ p) t)
      ∙ ap (λ rest. some ([], rest)) (drop-append p t)
  partition-Lacks (x ∷ s) t h =
      partition_later (c ∷ p) x (s ++ (c ∷ (p ++ t))) (ground arith)
      ∙ ap (onto_front x) (partition-Lacks s t h.1)

  split_after-passed : (q t : Str) → split_after (c ∷ p) (length q) (q ++ t) ≡ split (c ∷ p) t
  unfolding split_after
  split_after-passed [] t = refl
  split_after-passed (x ∷ q) t = split_after-passed q t

  pub split-Absent : (s : Str) → Absent (c ∷ p) s → split (c ∷ p) s ≡ s ∷ []
  unfolding split_after
  split-Absent [] h = refl
  split-Absent (x ∷ s) h = split_later (c ∷ p) x s h.0 ∙ ap (onto_first x) (split-Absent s h.1)

  -- The first piece ends where `p` begins, if its first character is not in the rest of it.
  pub split-append :
      (s t : Str)
      → Lacks c p
      → Absent (c ∷ p) s
      → split (c ∷ p) (s ++ (c ∷ (p ++ t))) ≡ s ∷ split (c ∷ p) t
  unfolding starts_with
  split-append [] t l h =
      split_here (c ∷ p) c (p ++ t) (starts_with-append (c ∷ p) t)
      ∙ ap (λ rest. [] ∷ rest) (split_after-passed p t)
  split-append (x ∷ s) t l h =
      split_later (c ∷ p) x (s ++ (c ∷ (p ++ t)))
        (ground (arith, starts_with-longer p s (p ++ t) c l))
      ∙ ap (onto_first x) (split-append s t l h.1)
