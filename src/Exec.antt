-- ===== src/Exec.antt =====
-- Methods that change their object and may raise: what was changed before an exception stays changed.
pub mod Post
pub mod Keeps
use hiyori.Outcome.{Outcome, ok, raise}
use hiyori.Exceptions.{Error}

abbrev pub Exec : Type 0 → Type 0 → Type 0
Exec S A = S → Outcome Error A × S

module _ {S A B : Type 0} where
  abbrev pub continue : Outcome Error A → (A → Exec S B) → Exec S B
  continue (ok a) f s = f a s
  continue (raise e) f s = (raise e, s)

  infixl 5 ◌>>=◌ ◌>>◌
  abbrev pub handle : Outcome Error A → (A → Exec S B) → (Error → Exec S B) → Exec S B
  handle (ok a) f g s = f a s
  handle (raise e) f g s = g e s

  -- `try: m except …: g`, with `f` where nothing is raised
  unfoldable pub attempt : Exec S A → (A → Exec S B) → (Error → Exec S B) → Exec S B
  attempt m f g s = let (r, s') = m s in handle r f g s'

  unfoldable pub ◌>>=◌ : Exec S A → (A → Exec S B) → Exec S B
  ◌>>=◌ m f s = let (r, s') = m s in continue r f s'

  abbrev pub ◌>>◌ : Exec S A → Exec S B → Exec S B
  m >> n = m >>= λ _. n

module _ {S A : Type 0} where
  abbrev pub pure : A → Exec S A
  pure a s = (ok a, s)

  abbrev pub throw : Error → Exec S A
  throw e s = (raise e, s)

  abbrev pub gets : (S → A) → Exec S A
  gets f s = (ok (f s), s)

abbrev pub modify : {S : Type 0} → (S → S) → Exec S (Unit {0})
modify f s = (ok tt, f s)
