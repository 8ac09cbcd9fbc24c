-- ===== src/Client/Store/Held.antt =====
-- Who has which connection object of the client (hiyori/http_client.py) after a step.
use hiyori.Prelude.{
  ℕ, ◌≡◌, refl, ap, sym, true, false, not, ◌||◌, none, some, [], ◌∷◌, arith, inl, inr, Bool-cases,
  Option-cases,
}
use hiyori.Headers.{HeaderDict}
use hiyori.Bodies.{RequestBody}
use hiyori.Messages.{HttpConnectionId}
use hiyori.Connection.Http.{HttpProtocol}
use hiyori.Client.Pool.{HttpClient, lookup, remove}
use hiyori.Client.Store.{
  Store, Refs, assign, allocate, get_ref, put_ref, shut_ref, shut_refs, close_refs,
}
use hiyori.Client.Store.Tasks.{
  Task, outside, waiting, sending, ended, conn_of, World, Step, take, begin, finish, give, shut,
  leave, fire, close_pool,
}
use hiyori.Client.Store.Ownership.{
  Owned, keep-Owned, leave-Owned, give-Owned, allocate-Owned, reuse-Owned, remove-Owned,
  empty-Owned,
}

abbrev pub Holds : {P : Type 0} → World P → Type 0
Holds w = Owned w.store.fresh w.store.refs w.tasks

module _ {P H : Type 0} (http : HttpProtocol P H) (c : HttpClient P) where
  pub shut_refs-refs : (m : Refs) (s : Store P) → (shut_refs http c m s).refs ≡ s.refs
  unfolding shut_refs shut_ref
  shut_refs-refs [] s = refl
  shut_refs-refs ((k, r) ∷ m) s = shut_refs-refs m s

  pub shut_refs-fresh : (m : Refs) (s : Store P) → (shut_refs http c m s).fresh ≡ s.fresh
  unfolding shut_refs shut_ref
  shut_refs-fresh [] s = refl
  shut_refs-fresh ((k, r) ∷ m) s = shut_refs-fresh m s

  pub get_ref-absent :
      (id : HttpConnectionId) (s : Store P)
      → lookup id s.refs ≡ none
      → get_ref http c id s ≡ allocate http c id s
  unfolding get_ref
  get_ref-absent id s absent = ground arith

  pub get_ref-closing :
      (id : HttpConnectionId) (s : Store P) (r : ℕ)
      → lookup id s.refs ≡ some r
      → (s.objects r).closing ≡ true
      → get_ref http c id s
        ≡ allocate http c id (shut_ref http c r (record s { refs = remove id s.refs }))
  unfolding get_ref
  get_ref-closing id s r found closing = ground arith

  pub get_ref-open :
      (id : HttpConnectionId) (s : Store P) (r : ℕ)
      → lookup id s.refs ≡ some r
      → (s.objects r).closing ≡ false
      → get_ref http c id s ≡ (r, record s { refs = remove id s.refs })
  unfolding get_ref
  get_ref-open id s r found open_ = ground arith

  get_ref-Owned :
      (id : HttpConnectionId) (s : Store P) (tasks : ℕ → Task) (i : ℕ)
      → Owned s.fresh s.refs tasks
      → tasks i ≡ outside
      → Owned
          (get_ref http c id s).1.fresh
          (get_ref http c id s).1.refs
          (assign tasks i (waiting (get_ref http c id s).0))
  unfolding allocate shut_ref
  get_ref-Owned id s tasks i o free = elim (Option-cases (lookup id s.refs)) [
    | inl absent ↦
        rw (get_ref-absent id s absent)
          (allocate-Owned o i (waiting s.fresh) (ap conn_of free) refl)
    | inr (r, found) ↦ elim (Bool-cases (s.objects r).closing) [
      | inl closing ↦
          rw (get_ref-closing id s r found closing)
            (allocate-Owned (remove-Owned o id) i (waiting s.fresh) (ap conn_of free) refl)
      | inr open_ ↦
          rw (get_ref-open id s r found open_)
            (reuse-Owned o i (waiting r) id r found (ap conn_of free) refl)
    ]
  ]

  put_ref-Owned :
      (r : ℕ) (s : Store P) (tasks : ℕ → Task) (i : ℕ)
      → Owned s.fresh s.refs tasks
      → tasks i ≡ ended r
      → Owned (put_ref http c r s).fresh (put_ref http c r s).refs (assign tasks i outside)
  unfolding put_ref shut_ref
  put_ref-Owned r s tasks i o mine =
      elim (Bool-cases ((s.objects r).closing || not c.allow_keep_alive)) [
        | inl refused ↦ rw refused (leave-Owned o i outside refl)
        | inr welcome ↦ elim (Option-cases (lookup (s.objects r).conn_id s.refs)) [
          | inl free ↦
              rw (welcome, free)
                (give-Owned o i outside r (s.objects r).conn_id (ap conn_of mine) refl)
          | inr (other, there) ↦ rw (welcome, there) (leave-Owned o i outside refl)
        ]
      ]

module _ {P H B : Type 0} ⦃d : HeaderDict H⦄ (http : HttpProtocol P H) (body : RequestBody B)
    (c : HttpClient P) where
  pub Step-Owned : {w v : World P} → Step http body c w v → Holds w → Holds v
  unfolding put_ref shut_ref close_refs
  Step-Owned {w} (take i id free) o = get_ref-Owned http c id w.store w.tasks i o free
  Step-Owned (begin i r at) o = keep-Owned o i (sending r) (ap conn_of (sym at))
  Step-Owned (finish i r dial fuel read max request at) o =
      keep-Owned o i (ended r) (ap conn_of (sym at))
  Step-Owned {w} (give i r at) o = put_ref-Owned http c r w.store w.tasks i o at
  Step-Owned (shut i r at) o = leave-Owned o i outside refl
  Step-Owned (leave i r at) o = leave-Owned o i outside refl
  Step-Owned (fire r due) o = o
  Step-Owned {w} close_pool o = rw (shut_refs-fresh http c w.store.refs w.store) (empty-Owned o)
