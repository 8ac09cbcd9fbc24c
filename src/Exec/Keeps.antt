-- ===== src/Exec/Keeps.antt =====
-- What an action leaves true of the state, whether it returns or raises, and what is known of a chain of
-- actions that returns.
use hiyori.Prelude.{◌≡◌, refl, ap, Bool, true, false, if◌then◌else◌}
use mathlib.Core.Path.{subst}
use hiyori.Outcome.{Outcome, ok, raise}
use hiyori.Exceptions.{Error}
use hiyori.Exec.{Exec, continue, handle, attempt, throw, gets, ◌>>=◌}

pub record Keeps {S A : Type 0} (I : S → Type 0) (m : Exec S A) : Type 0 where
  pub at : (s : S) → I s → I (m s).1

module _ {S A B : Type 0} {I : S → Type 0} where
  Keeps-continue :
      (r : Outcome Error A) (f : A → Exec S B) (s : S)
      → I s
      → ((a : A) → Keeps I (f a))
      → I (continue r f s).1
  Keeps-continue (ok a) f s h k = (k a).at s h
  Keeps-continue (raise e) f s h k = h

  pub Keeps-bind :
      {m : Exec S A} {f : A → Exec S B} → Keeps I m → ((a : A) → Keeps I (f a)) → Keeps I (m >>= f)
  unfolding ◌>>=◌
  Keeps-bind {m} {f} h k = record { at = λ s i. Keeps-continue (m s).0 f (m s).1 (h.at s i) k }

  Keeps-handle :
      (r : Outcome Error A) (f : A → Exec S B) (g : Error → Exec S B) (s : S)
      → I s
      → ((a : A) → Keeps I (f a))
      → ((e : Error) → Keeps I (g e))
      → I (handle r f g s).1
  Keeps-handle (ok a) f g s h hf hg = (hf a).at s h
  Keeps-handle (raise e) f g s h hf hg = (hg e).at s h

  pub Keeps-attempt :
      {m : Exec S A} {f : A → Exec S B} {g : Error → Exec S B}
      → Keeps I m
      → ((a : A) → Keeps I (f a))
      → ((e : Error) → Keeps I (g e))
      → Keeps I (attempt m f g)
  unfolding attempt
  Keeps-attempt {m} {f} {g} h hf hg = record {
    at = λ s i. Keeps-handle (m s).0 f g (m s).1 (h.at s i) hf hg;
  }

pub Keeps-if :
    {S A : Type 0} {I : S → Type 0} (b : Bool) {m n : Exec S A}
    → Keeps I m
    → Keeps I n
    → Keeps I (if b then m else n)
Keeps-if true hm hn = hm
Keeps-if false hm hn = hn

-- An action that returns, and the state that it leaves.
abbrev pub Returns : {S A : Type 0} → Exec S A → S → A → S → Type 0
Returns m s a t = m s ≡ (ok a, t)

module _ {S A B : Type 0} where
  continue-Returns :
      {b : B} (r : Outcome Error A) (f : A → Exec S B) (s t : S)
      → continue r f s ≡ (ok b, t)
      → (a : A) × (r ≡ ok a) × Returns (f a) s b t
  continue-Returns (ok a) f s t h = (a, refl, h)
  continue-Returns (raise e) f s t h = (let bad = ap (λ x. x.0) h in absurd cc)

  -- A chain that returns goes on from a first action that returned.
  pub bind-Returns :
      {b : B} (m : Exec S A) (f : A → Exec S B) (s t : S)
      → Returns (m >>= f) s b t
      → (a : A) × (u : S) × Returns m s a u × Returns (f a) u b t
  unfolding ◌>>=◌
  bind-Returns m f s t h =
      let (a, e, rest) = continue-Returns (m s).0 f (m s).1 t h in
      (a, (m s).1, ap (λ r. (r, (m s).1)) e, rest)

  handle-Returns :
      {b : B} (r : Outcome Error A) (f : A → Exec S B) (t : Error → Error) (s u : S)
      → handle r f (λ e. throw (t e)) s ≡ (ok b, u)
      → (a : A) × (r ≡ ok a) × Returns (f a) s b u
  handle-Returns (ok a) f t s u h = (a, refl, h)
  handle-Returns (raise e) f t s u h = (let bad = ap (λ x. x.0) h in absurd cc)

  -- The same where exceptions are translated.
  pub attempt-Returns :
      {b : B} (m : Exec S A) (f : A → Exec S B) (t : Error → Error) (s u : S)
      → Returns (attempt m f (λ e. throw (t e))) s b u
      → (a : A) × (v : S) × Returns m s a v × Returns (f a) v b u
  unfolding attempt
  attempt-Returns m f t s u h =
      let (a, e, rest) = handle-Returns (m s).0 f t (m s).1 u h in
      (a, (m s).1, ap (λ r. (r, (m s).1)) e, rest)

module _ {S A : Type 0} where
  pub Keeps-Returns :
      {I : S → Type 0} {m : Exec S A} {s t : S} {a : A} → Keeps I m → Returns m s a t → I s → I t
  Keeps-Returns {I} h run i = subst I (ap (λ x. x.1) run) (h.at _ i)

  pub gets-Returns : (f : S → A) {s t : S} {a : A} → Returns (gets f) s a t → (f s ≡ a) × (s ≡ t)
  gets-Returns f run = (let same = ap (λ x. x.0) run in cc, ap (λ x. x.1) run)
