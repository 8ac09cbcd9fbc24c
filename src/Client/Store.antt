-- ===== src/Client/Store.antt =====
-- The connections of hiyori/http_client.py as objects: a reference is a number, the pool holds references,
-- and what is changed through one reference is seen through every other. `_get_conn`, `_put_conn` and
-- `close` of Client/Pool, on references.
pub mod Tasks
pub mod Ownership
pub mod Held
pub mod Quiet
pub mod Exclusive
use hiyori.Prelude.{
  ℕ, ◌+◌, Bool, not, ◌||◌, Option, none, some, List, [], ◌∷◌, ◌++◌, ◌==◌, if◌then◌else◌,
}
use hiyori.Messages.{HttpConnectionId}
use hiyori.Connection.Http.{HttpProtocol}
use hiyori.Connection.Object.{HttpConnection}
use hiyori.Client.Pool.{HttpClient, lookup, remove, new_conn, shut}

-- The references of the pool, by the ids of their connections.
abbrev pub Refs : Type 0
Refs = List (HttpConnectionId × ℕ)

pub record Store (P : Type 0) : Type 0 where
  pub objects : ℕ → HttpConnection P
  -- the next reference that is given to an object
  pub fresh : ℕ
  pub refs : Refs

abbrev pub assign : {A : Type 0} → (ℕ → A) → ℕ → A → ℕ → A
assign f i a j = if i == j then a else f j

module _ {P : Type 0} where
  -- An object is changed in place.
  abbrev pub write : ℕ → HttpConnection P → Store P → Store P
  write r conn s = record s { objects = assign s.objects r conn }

module _ {P H : Type 0} (http : HttpProtocol P H) (c : HttpClient P) where
  -- an object that is constructed
  unfoldable pub allocate : HttpConnectionId → Store P → ℕ × Store P
  unfolding new_conn
  allocate id s = (s.fresh, record (write s.fresh (new_conn http c id) s) { fresh = s.fresh + 1 })

  -- `conn.close()` and `await conn.wait_closed()`
  unfoldable pub shut_ref : ℕ → Store P → Store P
  unfolding shut
  shut_ref r s = write r (shut http (s.objects r)) s

  -- `_get_conn`
  unfoldable pub get_ref : HttpConnectionId → Store P → ℕ × Store P
  unfolding lookup remove allocate shut_ref
  get_ref id s = elim (lookup id s.refs) [
    | none ↦ allocate id s
    | some r ↦
        let s' = record s { refs = remove id s.refs } in
        if (s.objects r).closing then allocate id (shut_ref r s') else (r, s')
  ]

  -- `_put_conn`
  unfoldable pub put_ref : ℕ → Store P → Store P
  unfolding lookup shut_ref
  put_ref r s =
      if (s.objects r).closing || not c.allow_keep_alive
      then shut_ref r s
      else elim (lookup (s.objects r).conn_id s.refs) [
        | none ↦ record s { refs = s.refs ++ ((s.objects r).conn_id, r) ∷ [] }
        | some other ↦ shut_ref r s
      ]

  unfoldable pub shut_refs : Refs → Store P → Store P
  unfolding shut_ref
  shut_refs [] s = s
  shut_refs ((_, r) ∷ m) s = shut_ref r (shut_refs m s)

  -- the loop of `close`, from the last entry on
  unfoldable pub close_refs : Store P → Store P
  unfolding shut_refs
  close_refs s = record (shut_refs s.refs s) { refs = [] }
