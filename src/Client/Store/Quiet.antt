-- ===== src/Client/Store/Quiet.antt =====
-- A step leaves a connection on which a request is sent (hiyori/http_client.py) as it is.
use hiyori.Prelude.{
  ℕ, ◌<◌, ◌≡◌, ◌≢◌, refl, ap, sym, ◌∙◌, false, some, [], ◌∷◌, ◌==◌, arith, inl, inr, Bool-cases,
  Option-cases,
}
use hiyori.Headers.{HeaderDict}
use hiyori.Bodies.{RequestBody}
use hiyori.Messages.{HttpConnectionId}
use hiyori.Connection.Http.{HttpProtocol}
use hiyori.Connection.Object.{cancel_idle_timeout}
use hiyori.Client.Pool.{HttpClient, lookup}
use hiyori.Client.Store.{
  Store, Refs, assign, allocate, get_ref, put_ref, shut_ref, shut_refs, close_refs,
}
use hiyori.Client.Store.Tasks.{
  Task, outside, waiting, sending, ended, conn_of, World, Step, take, begin, finish, give, shut,
  leave, fire, close_pool,
}
use hiyori.Client.Store.Ownership.{Absent, Absent-lookup}
use hiyori.Client.Store.Held.{Holds, get_ref-absent, get_ref-closing, get_ref-open}

-- Which object an exchange is on, and that its timer does not run.
abbrev pub IsQuiet : {P : Type 0} → World P → Type 0
IsQuiet w = (i r : ℕ) → w.tasks i ≡ sending r → (w.store.objects r).idle_timer ≡ false

module _ {P H B : Type 0} ⦃d : HeaderDict H⦄ (http : HttpProtocol P H) (body : RequestBody B)
    (c : HttpClient P) where
  get_ref-objects :
      (id : HttpConnectionId) (s : Store P) (r : ℕ)
      → r < s.fresh
      → Absent r s.refs
      → (get_ref http c id s).1.objects r ≡ s.objects r
  unfolding allocate shut_ref
  get_ref-objects id s r below apart = elim (Option-cases (lookup id s.refs)) [
    | inl absent ↦ rw (get_ref-absent http c id s absent) (ground arith)
    | inr (q, found) ↦
        let other : r ≢ q = λ e. Absent-lookup id s.refs r apart (found ∙ ap some (sym e)) in
        elim (Bool-cases (s.objects q).closing) [
          | inl closing ↦ rw (get_ref-closing http c id s q found closing) (ground arith)
          | inr open_ ↦ rw (get_ref-open http c id s q found open_) refl
        ]
  ]

  put_ref-objects :
      (q : ℕ) (s : Store P) (r : ℕ) → r ≢ q → (put_ref http c q s).objects r ≡ s.objects r
  unfolding put_ref shut_ref
  put_ref-objects q s r other = ground arith

  shut_refs-objects :
      (m : Refs) (s : Store P) (r : ℕ) → Absent r m → (shut_refs http c m s).objects r ≡ s.objects r
  unfolding shut_refs shut_ref
  shut_refs-objects [] s r h = refl
  shut_refs-objects ((k, q) ∷ m) s r (other, h) = ground (arith, shut_refs-objects m s r h)

  -- Another task has another connection.
  differs :
      (w : World P)
      → Holds w
      → (i j r q : ℕ) → w.tasks i ≡ sending r
      → conn_of (w.tasks j) ≡ some q
      → i ≢ j
      → r ≢ q
  differs w o i j r q mine theirs other e =
      other (o.unique i j r (ap conn_of mine) (theirs ∙ ap some (sym e)))

  begin-other : (w : World P) (i j r q : ℕ) → w.tasks i ≡ sending r → w.tasks j ≡ waiting q → i ≢ j
  begin-other w i j r q at there e = ground arith

  moved-other :
      (w : World P) (i j r q : ℕ) (t : Task)
      → ((q : ℕ) → t ≢ sending q)
      → assign w.tasks j t i ≡ sending r
      → i ≢ j
  moved-other w i j r q t away still e = ground (arith, away r)

  -- A step that leaves a task at its exchange leaves the connection of this exchange as it was.
  pub Step-objects :
      {w v : World P}
      → Step http body c w v
      → Holds w
      → IsQuiet w
      → (i r : ℕ) → w.tasks i ≡ sending r
      → v.tasks i ≡ sending r
      → v.store.objects r ≡ w.store.objects r
  unfolding shut_ref close_refs
  Step-objects {w} (take j id free) o quiet i r at still =
      get_ref-objects id w.store r (o.below i r (ap conn_of at)) (o.apart i r (ap conn_of at))
  Step-objects {w} (begin j q there) o quiet i r at still =
      ground (arith, differs w o i j r q at (ap conn_of there) (begin-other w i j r q at there))
  Step-objects {w} (finish j q dial fuel read max request there) o quiet i r at still = ground (
    arith,
    differs w o i j r q at (ap conn_of there) (moved-other w i j r q (ended q) (λ q e. cc) still),
  )
  Step-objects {w} (give j q there) o quiet i r at still =
      put_ref-objects q w.store r (
        differs w o i j r q at (ap conn_of there) (moved-other w i j r q outside (λ q e. cc) still))
  Step-objects {w} (shut j q there) o quiet i r at still = ground (
    arith,
    differs w o i j r q at (ap conn_of there) (moved-other w i j r q outside (λ q e. cc) still),
  )
  Step-objects {w} (leave j q there) o quiet i r at still = refl
  Step-objects {w} (fire q due) o quiet i r at still = ground (arith, quiet i r at)
  Step-objects {w} close_pool o quiet i r at still =
      shut_refs-objects w.store.refs w.store r (o.apart i r (ap conn_of at))

  was_sending :
      (w : World P) (i j r : ℕ) (t : Task)
      → ((q : ℕ) → t ≢ sending q)
      → assign w.tasks j t i ≡ sending r
      → w.tasks i ≡ sending r
  was_sending w i j r t away still = ground (arith, away r)

  stays_quiet :
      (w : World P) {v : World P}
      → Step http body c w v
      → Holds w
      → IsQuiet w
      → (i r : ℕ) → v.tasks i ≡ sending r
      → w.tasks i ≡ sending r
      → (v.store.objects r).idle_timer ≡ false
  stays_quiet w st o quiet i r still at =
      ap (λ conn. conn.idle_timer) (Step-objects st o quiet i r at still) ∙ quiet i r at

  pub Step-IsQuiet : {w v : World P} → Step http body c w v → Holds w → IsQuiet w → IsQuiet v
  unfolding cancel_idle_timeout
  Step-IsQuiet {w} (take j id free) o quiet i r still =
      stays_quiet w (take j id free) o quiet i r still
        (was_sending w i j r (waiting _) (λ q e. cc) still)
  Step-IsQuiet {w} (begin j q there) o quiet i r still = elim (Bool-cases (j == i)) [
    | inl same ↦ ground arith
    | inr elsewhere ↦ stays_quiet w (begin j q there) o quiet i r still (ground arith)
  ]
  Step-IsQuiet {w} (finish j q dial fuel read max request there) o quiet i r still =
      stays_quiet w (finish j q dial fuel read max request there) o quiet i r still
        (was_sending w i j r (ended q) (λ q e. cc) still)
  Step-IsQuiet {w} (give j q there) o quiet i r still =
      stays_quiet w (give j q there) o quiet i r still
        (was_sending w i j r outside (λ q e. cc) still)
  Step-IsQuiet {w} (shut j q there) o quiet i r still =
      stays_quiet w (shut j q there) o quiet i r still
        (was_sending w i j r outside (λ q e. cc) still)
  Step-IsQuiet {w} (leave j q there) o quiet i r still =
      stays_quiet w (leave j q there) o quiet i r still
        (was_sending w i j r outside (λ q e. cc) still)
  Step-IsQuiet {w} (fire q due) o quiet i r still =
      stays_quiet w (fire q due) o quiet i r still still
  Step-IsQuiet {w} close_pool o quiet i r still = stays_quiet w close_pool o quiet i r still still
