-- ===== src/Exec/Post.antt =====
-- What holds of the value that an action returns, if it returns one; rules for the ways to build
-- an action.
use hiyori.Prelude.{◌≡◌, refl, Bool, true, false, if◌then◌else◌}
use hiyori.Outcome.{Outcome, ok, raise}
use hiyori.Exceptions.{Error}
use hiyori.Exec.{Exec, continue, handle, attempt, pure, throw, ◌>>=◌}

-- A returned value satisfies `Q`, a raised exception `R`.
abbrev pub Post {ℓ} : {A : Type 0} → (A → Type ℓ) → (Error → Type ℓ) → Outcome Error A → Type ℓ
Post Q R (ok a) = Q a
Post Q R (raise e) = R e

-- What an action ensures from every state.
pub record Ensures {S A : Type 0} (Q : A → Type 0) (R : Error → Type 0) (m : Exec S A)
    : Type 0 where
  pub at : (s : S) → Post Q R (m s).0

module _ {S A B : Type 0} {P : A → Type 0} {Q : B → Type 0} {R : Error → Type 0} where
  Post-continue :
      (r : Outcome Error A) (f : A → Exec S B) (s : S)
      → Post P R r
      → ((a : A) → P a → Ensures Q R (f a))
      → Post Q R (continue r f s).0
  Post-continue (ok a) f s h k = (k a h).at s
  Post-continue (raise e) f s h k = h

  pub Ensures-bind :
      {m : Exec S A} {f : A → Exec S B}
      → Ensures P R m
      → ((a : A) → P a → Ensures Q R (f a))
      → Ensures Q R (m >>= f)
  unfolding ◌>>=◌
  Ensures-bind {m} {f} h k = record { at = λ s. Post-continue (m s).0 f (m s).1 (h.at s) k }

module _ {S A B : Type 0} {P : A → Type 0} {T : Error → Type 0} {Q : B → Type 0}
    {R : Error → Type 0} where
  Post-handle :
      (r : Outcome Error A) (f : A → Exec S B) (g : Error → Exec S B) (s : S)
      → Post P T r
      → ((a : A) → P a → Ensures Q R (f a))
      → ((e : Error) → T e → Ensures Q R (g e))
      → Post Q R (handle r f g s).0
  Post-handle (ok a) f g s h hf hg = (hf a h).at s
  Post-handle (raise e) f g s h hf hg = (hg e h).at s

  pub Ensures-attempt :
      {m : Exec S A} {f : A → Exec S B} {g : Error → Exec S B}
      → Ensures P T m
      → ((a : A) → P a → Ensures Q R (f a))
      → ((e : Error) → T e → Ensures Q R (g e))
      → Ensures Q R (attempt m f g)
  unfolding attempt
  Ensures-attempt {m} {f} {g} h hf hg = record {
    at = λ s. Post-handle (m s).0 f g (m s).1 (h.at s) hf hg;
  }

-- A step of whose value nothing is needed.
pub Ensures-then :
    {S A B : Type 0} {Q : B → Type 0} {R : Error → Type 0} {m : Exec S A} {f : A → Exec S B}
    → Ensures (λ _. Unit) R m
    → ((a : A) → Ensures Q R (f a))
    → Ensures Q R (m >>= f)
Ensures-then h k = Ensures-bind h (λ a _. k a)

module _ {S A : Type 0} {Q : A → Type 0} {R : Error → Type 0} where
  pub Ensures-pure : {a : A} → Q a → Ensures {S = S} Q R (pure a)
  Ensures-pure h = record { at = λ s. h }

  pub Ensures-throw : {e : Error} → R e → Ensures {S = S} Q R (throw e)
  Ensures-throw h = record { at = λ s. h }

  pub Ensures-if :
      (b : Bool) {m n : Exec S A}
      → (b ≡ true → Ensures Q R m)
      → (b ≡ false → Ensures Q R n)
      → Ensures Q R (if b then m else n)
  Ensures-if true hm hn = hm refl
  Ensures-if false hm hn = hn refl

-- What is known of an outcome that is known.
pub Post-ok :
    {A : Type 0} (Q : A → Type 0) (R : Error → Type 0) {r : Outcome Error A} {a : A}
    → r ≡ ok a
    → Post Q R r
    → Q a
Post-ok Q R e h = rw e at h

pub Post-raise :
    {A : Type 0} (Q : A → Type 0) (R : Error → Type 0) {r : Outcome Error A} {e : Error}
    → r ≡ raise e
    → Post Q R r
    → R e
Post-raise Q R p h = rw p at h

Post-any : {A : Type 0} (r : Outcome Error A) → Post (λ _. Unit {0}) (λ _. Unit {0}) r
Post-any (ok a) = tt
Post-any (raise e) = tt

pub Ensures-any : {S A : Type 0} (m : Exec S A) → Ensures (λ _. Unit) (λ _. Unit) m
Ensures-any m = record { at = λ s. Post-any (m s).0 }
