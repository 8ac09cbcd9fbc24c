-- ===== src/Client/Pool.antt =====
-- The connections that HttpClient of hiyori/http_client.py keeps, by id: `_get_conn`, `_put_conn` and
-- `close`.
use hiyori.Prelude.{
  ℕ, Bool, true, false, not, ◌&&◌, ◌||◌, Option, none, some, List, [], ◌∷◌, ◌++◌, ◌=s=◌,
  if◌then◌else◌,
}
use hiyori.Messages.{HttpConnectionId, HttpScheme, http, https, HttpVersion, v1_0, v1_1}
use hiyori.Connection.Http.{HttpProtocol}
use hiyori.Connection.Object.{HttpConnection, http_connection, close, wait_closed}
use hiyori.Client.Lock.{ClientLock}

unfoldable pub same_scheme : HttpScheme → HttpScheme → Bool
same_scheme http http = true
same_scheme https https = true
same_scheme _ _ = false

unfoldable pub same_version : HttpVersion → HttpVersion → Bool
same_version v1_0 v1_0 = true
same_version v1_1 v1_1 = true
same_version _ _ = false

-- `==` of the named tuple
unfoldable pub same_id : HttpConnectionId → HttpConnectionId → Bool
unfolding same_scheme same_version
same_id a b =
    (a.authority =s= b.authority)
    && same_scheme a.scheme b.scheme
    && same_version a.http_version b.http_version

-- A dict from ids to connections, in order of insertion.
abbrev pub Conns : Type 0 → Type 0
Conns P = List (HttpConnectionId × HttpConnection P)

module _ {V : Type 0} where
  unfoldable pub lookup : HttpConnectionId → List (HttpConnectionId × V) → Option V
  lookup id [] = none
  lookup id ((k, c) ∷ m) = if same_id id k then some c else lookup id m

  -- `d.pop(id)`, with its entry dropped
  unfoldable pub remove :
      HttpConnectionId → List (HttpConnectionId × V) → List (HttpConnectionId × V)
  remove id [] = []
  remove id ((k, c) ∷ m) = let rest = remove id m in if same_id id k then rest else (k, c) ∷ rest

-- The timeout is in what an exchange may raise, `deadline`; the TLS context is a flag of the connection,
-- and the resolver its `dial`. `max_idle_connections` is never read.
pub record HttpClient (P : Type 0) : Type 0 where
  pub allow_keep_alive : Bool
  pub max_initial_size : ℕ
  pub max_body_size : ℕ
  pub chunk_size : ℕ
  pub idle_timeout : ℕ
  pub max_redirects : ℕ
  pub raise_error : Bool
  pub conns : Conns P
  pub lock : ClientLock

module _ {P H : Type 0} (http_protocol : HttpProtocol P H) where
  -- a connection that `_get_conn` builds
  unfoldable pub new_conn : HttpClient P → HttpConnectionId → HttpConnection P
  unfolding http_connection same_scheme
  new_conn c id =
      http_connection id c.max_initial_size c.chunk_size (same_scheme id.scheme https)
        c.idle_timeout

  -- `_get_conn`. A pooled connection that is closing is dropped, with its closing seen to.
  unfoldable pub get_conn : HttpConnectionId → HttpClient P → HttpConnection P × HttpClient P
  unfolding lookup remove new_conn
  get_conn id c = elim (lookup id c.conns) [
    | none ↦ (new_conn c id, c)
    | some conn ↦
        let c' = record c { conns = remove id c.conns } in
        if conn.closing then (new_conn c' id, c') else (conn, c')
  ]

  -- `conn.close()` and `await conn.wait_closed()`
  unfoldable pub shut : HttpConnection P → HttpConnection P
  unfolding close wait_closed
  shut conn = wait_closed http_protocol (close http_protocol conn)

  -- `_put_conn`: the connection as it is afterwards, and the client
  unfoldable pub put_conn : HttpConnection P → HttpClient P → HttpConnection P × HttpClient P
  unfolding shut lookup
  put_conn conn c =
      if conn.closing || not c.allow_keep_alive
      then (shut conn, c)
      else elim (lookup conn.conn_id c.conns) [
        | none ↦ (conn, record c { conns = c.conns ++ (conn.conn_id, conn) ∷ [] })
        | some _ ↦ (shut conn, c)
      ]

  -- the loop of `close`, from the last entry on: the connections that it closes
  unfoldable pub close_all : Conns P → List (HttpConnection P)
  unfolding shut
  close_all [] = []
  close_all ((_, conn) ∷ m) = close_all m ++ shut conn ∷ []

  -- the body of `close`, after the close lock was had
  unfoldable pub close_client : HttpClient P → List (HttpConnection P) × HttpClient P
  unfolding close_all
  close_client c = (close_all c.conns, record c { conns = [] })
