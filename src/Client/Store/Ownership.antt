-- ===== src/Client/Store/Ownership.antt =====
-- Who has which reference: the tasks and the pool of Client/Store/Tasks.
use hiyori.Prelude.{
  ℕ, ◌+◌, ◌<◌, ◌≡◌, ◌≢◌, ap, sym, ◌∙◌, none, some, [], ◌∷◌, ◌++◌, ◌==◌, arith, inl, inr, Bool-cases,
}
use hiyori.Messages.{HttpConnectionId}
use hiyori.Client.Pool.{same_id, lookup, remove}
use hiyori.Client.Store.{Refs, assign}
use hiyori.Client.Store.Tasks.{Task, conn_of}

-- The pool does not have the reference.
abbrev pub Absent : ℕ → Refs → Type 0
Absent r [] = Unit
Absent r ((k, q) ∷ m) = (r ≢ q) × Absent r m

abbrev pub AreDistinct : Refs → Type 0
AreDistinct [] = Unit
AreDistinct ((k, q) ∷ m) = Absent q m × AreDistinct m

abbrev pub AreBelow : ℕ → Refs → Type 0
AreBelow n [] = Unit
AreBelow n ((k, q) ∷ m) = (q < n) × AreBelow n m

pub Absent-remove : (r : ℕ) (id : HttpConnectionId) (m : Refs) → Absent r m → Absent r (remove id m)
unfolding remove
Absent-remove r id [] h = tt
Absent-remove r id ((k, q) ∷ m) h = ground (arith, Absent-remove r id m h.1)

AreDistinct-remove : (id : HttpConnectionId) (m : Refs) → AreDistinct m → AreDistinct (remove id m)
unfolding remove
AreDistinct-remove id [] h = tt
AreDistinct-remove id ((k, q) ∷ m) h =
    ground (arith, Absent-remove q id m h.0, AreDistinct-remove id m h.1)

pub AreBelow-remove :
    (n : ℕ) (id : HttpConnectionId) (m : Refs) → AreBelow n m → AreBelow n (remove id m)
unfolding remove
AreBelow-remove n id [] h = tt
AreBelow-remove n id ((k, q) ∷ m) h = ground (arith, AreBelow-remove n id m h.1)

AreBelow-lookup :
    (n : ℕ) (id : HttpConnectionId) (m : Refs) (r : ℕ) → AreBelow n m → lookup id m ≡ some r → r < n
unfolding lookup
AreBelow-lookup n id [] r h e = cc
AreBelow-lookup n id ((k, q) ∷ m) r h e = ground (arith, AreBelow-lookup n id m r h.1)

pub Absent-lookup : (id : HttpConnectionId) (m : Refs) (r : ℕ) → Absent r m → lookup id m ≢ some r
unfolding lookup
Absent-lookup id [] r h e = cc
Absent-lookup id ((k, q) ∷ m) r h e = ground (arith, Absent-lookup id m r h.1)

-- What is taken is no longer there.
pub Absent-remove_self :
    (id : HttpConnectionId) (m : Refs) (r : ℕ)
    → AreDistinct m
    → lookup id m ≡ some r
    → Absent r (remove id m)
unfolding lookup remove
Absent-remove_self id [] r h e = tt
Absent-remove_self id ((k, q) ∷ m) r h e = elim (Bool-cases (same_id id k)) [
  | inl same ↦ ground (arith, Absent-remove q id m h.0)
  | inr differs ↦
      let found : lookup id m ≡ some r = ground arith in
      ground (
        arith,
        Absent-remove_self id m r h.1 found,
        λ (p : r ≡ q). Absent-lookup id m q h.0 (found ∙ ap some p),
      )
]

Absent-append :
    (r : ℕ) (m : Refs) (k : HttpConnectionId) (q : ℕ)
    → Absent r m
    → r ≢ q
    → Absent r (m ++ (k, q) ∷ [])
Absent-append r [] k q h n = (n, tt)
Absent-append r ((k', q') ∷ m) k q (n', h) n = (n', Absent-append r m k q h n)

AreDistinct-append :
    (m : Refs) (k : HttpConnectionId) (q : ℕ)
    → AreDistinct m
    → Absent q m
    → AreDistinct (m ++ (k, q) ∷ [])
AreDistinct-append [] k q h a = (tt, tt)
AreDistinct-append ((k', q') ∷ m) k q (a', h) (n, a) =
    (Absent-append q' m k q a' (λ e. n (sym e)), AreDistinct-append m k q h a)

AreBelow-append :
    (n : ℕ) (m : Refs) (k : HttpConnectionId) (q : ℕ)
    → AreBelow n m
    → q < n
    → AreBelow n (m ++ (k, q) ∷ [])
AreBelow-append n [] k q h l = (l, tt)
AreBelow-append n ((k', q') ∷ m) k q (l', h) l = (l', AreBelow-append n m k q h l)

AreBelow-suc : (n : ℕ) (m : Refs) → AreBelow n m → AreBelow (n + 1) m
AreBelow-suc n [] h = tt
AreBelow-suc n ((k, q) ∷ m) (l, h) = (omega arith, AreBelow-suc n m h)

pub AreBelow-Absent : (n : ℕ) (m : Refs) → AreBelow n m → Absent n m
AreBelow-Absent n [] h = tt
AreBelow-Absent n ((k, q) ∷ m) (l, h) = ((λ e. omega arith), AreBelow-Absent n m h)

-- Each reference that was given out is with one task, or in the pool once, or nowhere.
pub record Owned (fresh : ℕ) (refs : Refs) (tasks : ℕ → Task) : Type 0 where
  pub below_refs : AreBelow fresh refs
  pub distinct : AreDistinct refs
  pub below : (i r : ℕ) → conn_of (tasks i) ≡ some r → r < fresh
  pub apart : (i r : ℕ) → conn_of (tasks i) ≡ some r → Absent r refs
  pub unique : (i j r : ℕ) → conn_of (tasks i) ≡ some r → conn_of (tasks j) ≡ some r → i ≡ j

module _ {fresh : ℕ} {refs : Refs} {tasks : ℕ → Task} (o : Owned fresh refs tasks) (i : ℕ)
    (t : Task) where
  -- The task goes on with the connection that it has.
  pub keep-Owned : conn_of t ≡ conn_of (tasks i) → Owned fresh refs (assign tasks i t)
  keep-Owned same = record {
    below_refs = o.below_refs;
    distinct = o.distinct;
    below = λ j r e. ground (arith, o.below j r, o.below i r);
    apart = λ j r e. ground (arith, o.apart j r, o.apart i r);
    unique = λ j k r e e'. ground (arith, o.unique j k r, o.unique i k r, o.unique j i r);
  }

  -- It leaves its connection.
  pub leave-Owned : conn_of t ≡ none → Owned fresh refs (assign tasks i t)
  leave-Owned gone = record {
    below_refs = o.below_refs;
    distinct = o.distinct;
    below = λ j r e. ground (arith, o.below j r);
    apart = λ j r e. ground (arith, o.apart j r);
    unique = λ j k r e e'. ground (arith, o.unique j k r);
  }

  -- It gives its connection to the pool.
  pub give-Owned :
      (r : ℕ) (k : HttpConnectionId)
      → conn_of (tasks i) ≡ some r
      → conn_of t ≡ none
      → Owned fresh (refs ++ (k, r) ∷ []) (assign tasks i t)
  give-Owned r k mine gone = record {
    below_refs = AreBelow-append fresh refs k r o.below_refs (o.below i r mine);
    distinct = AreDistinct-append refs k r o.distinct (o.apart i r mine);
    below = λ j q e. ground (arith, o.below j q);
    apart = λ j q e. elim (Bool-cases (i == j)) [
      | inl here ↦ ground arith
      | inr elsewhere ↦
          let theirs : conn_of (tasks j) ≡ some q = ground arith in
          Absent-append q refs k r (o.apart j q theirs)
            (λ p. ground (arith, o.unique j i r (theirs ∙ ap some p) mine))
    ];
    unique = λ j l q e e'. ground (arith, o.unique j l q);
  }

  -- It gets an object that is new.
  pub allocate-Owned :
      conn_of (tasks i) ≡ none → conn_of t ≡ some fresh → Owned (fresh + 1) refs (assign tasks i t)
  allocate-Owned free mine = record {
    below_refs = AreBelow-suc fresh refs o.below_refs;
    distinct = o.distinct;
    below = λ j r e. ground (arith, o.below j r);
    apart = λ j r e. elim (Bool-cases (i == j)) [
      | inl here ↦
          let new : r ≡ fresh = ground arith in rw new (AreBelow-Absent fresh refs o.below_refs)
      | inr elsewhere ↦ o.apart j r (ground arith)
    ];
    unique = λ j k r e e'. ground (arith, o.unique j k r, o.below j r, o.below k r);
  }

  -- It gets one from the pool.
  pub reuse-Owned :
      (id : HttpConnectionId) (r : ℕ)
      → lookup id refs ≡ some r
      → conn_of (tasks i) ≡ none
      → conn_of t ≡ some r
      → Owned fresh (remove id refs) (assign tasks i t)
  reuse-Owned id r found free mine = record {
    below_refs = AreBelow-remove fresh id refs o.below_refs;
    distinct = AreDistinct-remove id refs o.distinct;
    below =
        λ j q e. ground (arith, o.below j q, AreBelow-lookup fresh id refs r o.below_refs found);
    apart = λ j q e. elim (Bool-cases (i == j)) [
      | inl here ↦
          let same : q ≡ r = ground arith in rw same (Absent-remove_self id refs r o.distinct found)
      | inr elsewhere ↦ Absent-remove q id refs (o.apart j q (ground arith))
    ];
    unique = λ j k q e e'.
        let free_elsewhere : (l : ℕ) → conn_of (tasks l) ≢ some r =
          λ l held. Absent-lookup id refs r (o.apart l r held) found in
        ground (arith, o.unique j k q, free_elsewhere j, free_elsewhere k);
  }

module _ {fresh : ℕ} {refs : Refs} {tasks : ℕ → Task} (o : Owned fresh refs tasks) where
  -- The pool drops an entry.
  pub remove-Owned : (id : HttpConnectionId) → Owned fresh (remove id refs) tasks
  remove-Owned id = record {
    below_refs = AreBelow-remove fresh id refs o.below_refs;
    distinct = AreDistinct-remove id refs o.distinct;
    below = o.below;
    apart = λ j r e. Absent-remove r id refs (o.apart j r e);
    unique = o.unique;
  }

  pub empty-Owned : Owned fresh [] tasks
  empty-Owned = record {
    below_refs = tt;
    distinct = tt;
    below = o.below;
    apart = λ j r e. tt;
    unique = o.unique;
  }
