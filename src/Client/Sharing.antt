-- ===== src/Client/Sharing.antt =====
-- A pooled connection is handed to one caller at a time.
use hiyori.Prelude.{
  ◌≡◌, refl, ◌↔◌, true, false, none, some, List, [], ◌∷◌, ◌++◌, =s=_iff, if◌then◌else◌, arith, inl,
  inr, Option-cases,
}
use hiyori.Messages.{HttpConnectionId}
use hiyori.Connection.Http.{HttpProtocol}
use hiyori.Connection.Object.{HttpConnection, http_connection, set_idle_timeout}
use hiyori.Client.Pool.{
  same_scheme, same_version, same_id, Conns, lookup, remove, HttpClient, new_conn, get_conn,
  put_conn,
}

pub same_id_iff : (a b : HttpConnectionId) → (same_id a b ≡ true) ↔ (a ≡ b)
unfolding same_id same_scheme same_version
same_id_iff a b = ground (arith, =s=_iff a.authority b.authority)

-- Every entry stands under the id of its connection, and no id stands twice.
abbrev pub IsKeyed : {P : Type 0} → Conns P → Type 0
IsKeyed [] = Unit
IsKeyed ((k, c) ∷ m) = (c.conn_id ≡ k) × (lookup k m ≡ none) × IsKeyed m

module _ {V : Type 0} where
  pub lookup-remove :
      (id j : HttpConnectionId) (m : List (HttpConnectionId × V))
      → lookup j (remove id m) ≡ (if same_id id j then none else lookup j m)
  unfolding lookup remove
  lookup-remove id j [] = ground arith
  lookup-remove id j ((k, c) ∷ m) =
      ground (arith, lookup-remove id j m, same_id_iff id k, same_id_iff j k, same_id_iff id j)

  pub lookup-append :
      (j id : HttpConnectionId) (c : V) (m : List (HttpConnectionId × V))
      → lookup j (m ++ (id, c) ∷ []) ≡ (elim (lookup j m) [
        | some found ↦ some found
        | none ↦ if same_id j id then some c else none
      ])
  unfolding lookup
  lookup-append j id c [] = refl
  lookup-append j id c ((k, c') ∷ m) = ground (arith, lookup-append j id c m)

module _ {P : Type 0} where
  remove-IsKeyed : (id : HttpConnectionId) (m : Conns P) → IsKeyed m → IsKeyed (remove id m)
  unfolding remove
  remove-IsKeyed id [] h = tt
  remove-IsKeyed id ((k, c) ∷ m) h = ground (arith, remove-IsKeyed id m h.2, lookup-remove id k m)

  lookup-conn_id :
      (id : HttpConnectionId) (m : Conns P) (c : HttpConnection P)
      → IsKeyed m
      → lookup id m ≡ some c
      → c.conn_id ≡ id
  unfolding lookup
  lookup-conn_id id [] c h e = cc
  lookup-conn_id id ((k, c') ∷ m) c h e =
      ground (arith, lookup-conn_id id m c h.2, same_id_iff id k)

  append-IsKeyed :
      (id : HttpConnectionId) (c : HttpConnection P) (m : Conns P)
      → c.conn_id ≡ id
      → lookup id m ≡ none
      → IsKeyed m
      → IsKeyed (m ++ (id, c) ∷ [])
  unfolding lookup
  append-IsKeyed id c [] e absent h = (e, refl, tt)
  append-IsKeyed id c ((k, c') ∷ m) e absent h =
      ground
        (arith, append-IsKeyed id c m e, lookup-append k id c m, same_id_iff k id, same_id_iff id k)

  remove-append :
      (id : HttpConnectionId) (c : HttpConnection P) (m : Conns P)
      → lookup id m ≡ none
      → remove id (m ++ (id, c) ∷ []) ≡ m
  unfolding lookup remove
  remove-append id c [] absent = ground (arith, same_id_iff id id)
  remove-append id c ((k, c') ∷ m) absent = ground (arith, remove-append id c m)

module _ {P H : Type 0} (http_protocol : HttpProtocol P H) where
  -- What `_get_conn` gives out, from a pool keyed by the ids of its connections: a connection with
  -- the id that was asked for, which is not closing and which nobody else can get, since its id is
  -- no longer in the pool. The rest of the pool is as it was, and the pool is still keyed.
  pub get_conn-unshared :
      (id : HttpConnectionId) (c : HttpClient P)
      → IsKeyed c.conns
      → ((get_conn http_protocol id c).0.conn_id ≡ id)
        × ((get_conn http_protocol id c).0.closing ≡ false)
        × ((j : HttpConnectionId)
            → lookup j (get_conn http_protocol id c).1.conns
              ≡ (if same_id id j then none else lookup j c.conns))
        × IsKeyed (get_conn http_protocol id c).1.conns
  unfolding get_conn new_conn http_connection set_idle_timeout
  get_conn-unshared id c h = elim (Option-cases (lookup id c.conns)) [
    | inl absent ↦ (ground arith, ground arith, λ j. ground (arith, same_id_iff id j), ground arith)
    | inr (conn, found) ↦ (
      ground (arith, lookup-conn_id id c.conns conn h found),
      ground arith,
      λ j. ground (arith, lookup-remove id j c.conns),
      ground (arith, remove-IsKeyed id c.conns h),
    )
  ]

  -- `_put_conn` keeps the pool keyed by the ids of its connections, with each id once.
  pub put_conn-IsKeyed :
      (conn : HttpConnection P) (c : HttpClient P)
      → IsKeyed c.conns
      → IsKeyed (put_conn http_protocol conn c).1.conns
  unfolding put_conn
  put_conn-IsKeyed conn c h = ground (arith, append-IsKeyed conn.conn_id conn c.conns refl)

  -- Where keep-alive is allowed, an open connection that is put back under a free id is the one
  -- that the next request for its id gets, and the pool is then as before.
  pub get_conn-put_conn :
      (conn : HttpConnection P) (c : HttpClient P)
      → conn.closing ≡ false
      → c.allow_keep_alive ≡ true
      → lookup conn.conn_id c.conns ≡ none
      → get_conn http_protocol conn.conn_id (put_conn http_protocol conn c).1 ≡ (conn, c)
  unfolding put_conn get_conn
  get_conn-put_conn conn c live keep absent = ground (
    arith,
    remove-append conn.conn_id conn c.conns,
    lookup-append conn.conn_id conn.conn_id conn c.conns,
    same_id_iff conn.conn_id conn.conn_id,
  )
