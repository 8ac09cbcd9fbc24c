-- ===== src/Resolvers/Open.antt =====
-- `open_connection` of hiyori/resolvers/base.py: the call of the event loop for a record, an address with
-- a port or the path of a socket. The two calls of the loop and `str` of an address are arguments.
use hiyori.Prelude.{Bool, Option, none, some, Str, ℤ, if◌then◌else◌}
use hiyori.Outcome.{Outcome}
use hiyori.Exceptions.{Error}

-- `_RECORD`
pub data Record (A : Type 0) : Type 0 where
  unix_socket : Str → Record A
  endpoint : A → ℤ → Record A

-- `host if tls_ctx else None`
abbrev pub server_hostname : Bool → Str → Option Str
server_hostname tls host = if tls then some host else none

module _ {A P : Type 0} (to_text : A → Str)
    (create_unix_connection : Str → Bool → Option Str → Outcome Error P)
    (create_connection : Str → ℤ → Bool → Option Str → Outcome Error P) where
  unfoldable pub open_connection : Str → Bool → Record A → Outcome Error P
  open_connection host tls (unix_socket path) =
      create_unix_connection path tls (server_hostname tls host)
  open_connection host tls (endpoint ip port) =
      create_connection (to_text ip) port tls (server_hostname tls host)
