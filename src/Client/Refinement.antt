-- ===== src/Client/Refinement.antt =====
-- The pool of idle connections as a partial function from ids to connections, and any sequence of calls
-- of `_get_conn` and `_put_conn` on it.
use hiyori.Prelude.{
  ◌≡◌, refl, ap, ◌∙◌, sym, Bool, false, not, ◌||◌, Option, none, some, List, [], ◌∷◌, ◌++◌,
  if◌then◌else◌, arith, inl, inr, Bool-cases, Option-cases,
}
use mathlib.Core.Path.{ap₂, fun_ext}
use hiyori.Messages.{HttpConnectionId}
use hiyori.Connection.Http.{HttpProtocol}
use hiyori.Connection.Object.{HttpConnection}
use hiyori.Client.Pool.{
  same_id, Conns, lookup, remove, HttpClient, new_conn, get_conn, shut, put_conn,
}
use hiyori.Client.Sharing.{same_id_iff, lookup-remove, lookup-append}

-- A call, and the connection that it gives back: the one that is handed out, or the one that was put in,
-- as it is afterwards.
pub data PoolOp (P : Type 0) : Type 0 where
  take_conn : HttpConnectionId → PoolOp P
  give_conn : HttpConnection P → PoolOp P

abbrev pub Pool : Type 0 → Type 0
Pool P = HttpConnectionId → Option (HttpConnection P)

module _ {P H : Type 0} (http_protocol : HttpProtocol P H) where
  unfoldable pub step : PoolOp P → HttpClient P → HttpConnection P × HttpClient P
  unfolding get_conn put_conn
  step (take_conn id) c = get_conn http_protocol id c
  step (give_conn conn) c = put_conn http_protocol conn c

  unfoldable pub run : List (PoolOp P) → HttpClient P → List (HttpConnection P) × HttpClient P
  unfolding step
  run [] c = ([], c)
  run (op ∷ ops) c =
      let (conn, c') = step op c in let (conns, c'') = run ops c' in (conn ∷ conns, c'')

  -- The specification: a function, changed at one id.
  abbrev pub update : Pool P → HttpConnectionId → Option (HttpConnection P) → Pool P
  update f id w j = if same_id id j then w else f j

  -- A connection that is taken leaves the function, and a new one is made in place of one that is
  -- missing or closing.
  abbrev pub taken : HttpClient P → HttpConnectionId → Option (HttpConnection P) → HttpConnection P
  taken config id none = new_conn http_protocol config id
  taken config id (some conn) = if conn.closing then new_conn http_protocol config id else conn

  -- A connection that is given back joins the function where its id is free, if it is open and kept
  -- alive; else it is closed.
  abbrev pub is_welcome : HttpClient P → HttpConnection P → Option (HttpConnection P) → Bool
  is_welcome config conn none = not (conn.closing || not config.allow_keep_alive)
  is_welcome config conn (some other) = false

  abbrev pub spec_step : HttpClient P → PoolOp P → Pool P → HttpConnection P × Pool P
  spec_step config (take_conn id) f = (taken config id (f id), update f id none)
  spec_step config (give_conn conn) f =
      if is_welcome config conn (f conn.conn_id)
      then (conn, update f conn.conn_id (some conn))
      else (shut http_protocol conn, f)

  unfoldable pub replay : HttpClient P → List (PoolOp P) → Pool P → List (HttpConnection P) × Pool P
  replay config [] f = ([], f)
  replay config (op ∷ ops) f =
      let (conn, f') = spec_step config op f in
      let (conns, f'') = replay config ops f' in (conn ∷ conns, f'')

  abbrev pub view : HttpClient P → Pool P
  view c id = lookup id c.conns

  -- The settings are those of the first client.
  abbrev with_conns : HttpClient P → Conns P → HttpClient P
  with_conns c m = record c { conns = m }

  Agrees : HttpClient P → HttpConnection P × HttpClient P → HttpConnection P × Pool P → Type 0
  Agrees config x y = (x.0 ≡ y.0) × (view x.1 ≡ y.1) × ((m : Conns P) × (x.1 ≡ with_conns config m))

  take-Agrees :
      (config : HttpClient P) (m : Conns P) (id : HttpConnectionId)
      → Agrees config
          (step (take_conn id) (with_conns config m))
          (spec_step config (take_conn id) (view (with_conns config m)))
  unfolding Agrees step get_conn new_conn
  take-Agrees config m id = elim (Option-cases (lookup id m)) [
    | inl absent ↦ (ground arith, fun_ext λ j. ground (arith, same_id_iff id j), (m, ground arith))
    | inr (conn, found) ↦ (
      ground arith,
      fun_ext λ j. ground (arith, lookup-remove id j m),
      (remove id m, ground arith),
    )
  ]

  give-Agrees :
      (config : HttpClient P) (m : Conns P) (conn : HttpConnection P)
      → Agrees config
          (step (give_conn conn) (with_conns config m))
          (spec_step config (give_conn conn) (view (with_conns config m)))
  unfolding Agrees step put_conn
  give-Agrees config m conn = elim (Bool-cases (is_welcome config conn (lookup conn.conn_id m))) [
    | inl welcome ↦ (
      ground arith,
      fun_ext λ j. ground (
        arith,
        lookup-append j conn.conn_id conn m,
        same_id_iff conn.conn_id j,
        same_id_iff j conn.conn_id,
      ),
      (m ++ (conn.conn_id, conn) ∷ [], ground arith),
    )
    | inr unwelcome ↦ (ground arith, fun_ext λ j. ground arith, (m, ground arith))
  ]

  step-Agrees :
      (config : HttpClient P) (m : Conns P) (op : PoolOp P)
      → Agrees config
          (step op (with_conns config m))
          (spec_step config op (view (with_conns config m)))
  step-Agrees config m (take_conn id) = take-Agrees config m id
  step-Agrees config m (give_conn conn) = give-Agrees config m conn

  run-view :
      (config : HttpClient P) (ops : List (PoolOp P)) (m : Conns P)
      → ((run ops (with_conns config m)).0 ≡ (replay config ops (view (with_conns config m))).0)
        × (view (run ops (with_conns config m)).1
            ≡ (replay config ops (view (with_conns config m))).1)
  unfolding run replay Agrees
  run-view config [] m = (refl, refl)
  run-view config (op ∷ ops) m =
      let (given, viewed, (m', rest)) = step-Agrees config m op in
      let (conns, pool) = run-view config ops m' in
      let same = sym (ap view rest) ∙ viewed in
      (
        ap₂ ◌∷◌ given
            (ap (λ c. (run ops c).0) rest ∙ conns ∙ ap (λ f. (replay config ops f).0) same),
        ap (λ c. view (run ops c).1) rest ∙ pool ∙ ap (λ f. (replay config ops f).1) same,
      )

  -- Any sequence of calls of `_get_conn` and `_put_conn` hands out and keeps the connections that the
  -- specification does, and leaves a pool that reads as the specification's function.
  pub run-replay :
      (c : HttpClient P) (ops : List (PoolOp P))
      → ((run ops c).0 ≡ (replay c ops (view c)).0)
        × (view (run ops c).1 ≡ (replay c ops (view c)).1)
  run-replay c ops = run-view c ops c.conns
