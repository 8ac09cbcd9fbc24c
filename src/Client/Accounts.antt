-- ===== src/Client/Accounts.antt =====
-- What becomes of the connection of a call.
use hiyori.Prelude.{
  ℕ, ◌+◌, ◌≡◌, ◌≢◌, refl, Bool, true, false, some, arith, inl, inr, ◌⊎◌, Bool-cases,
}
use mathlib.Core.Path.{subst, sym}
use hiyori.Outcome.{Outcome, ok, raise}
use hiyori.Exceptions.{Error, cancelled, still_running, is_exception}
use hiyori.Messages.{conn_id, PendingRequest, Response}
use hiyori.Connection.Http.{HttpProtocol}
use hiyori.Connection.Object.{HttpConnection, close, wait_closed}
use hiyori.Connection.Send.{Exchange}
use hiyori.Client.Lock.{read_enter, read_exit}
use hiyori.Client.Pool.{lookup, HttpClient, get_conn, put_conn, shut}
use hiyori.Client.Sharing.{lookup-append, same_id_iff}
use hiyori.Client.Errors.{ClientError, lower}
use hiyori.Client.Send.{
  Options, or_default, except_clause, is_caught, Sending, settle, inside, send_once,
}

-- The connection is closing, or the pool has it for the next request.
abbrev pub IsKept : {P : Type 0} → HttpConnection P → HttpClient P → Type 0
IsKept conn c = (conn.closing ≡ true) ⊎ (lookup conn.conn_id c.conns ≡ some conn)

-- Neither is the call cancelled, nor did the fuel of the model run out.
abbrev pub IsOver : {H : Type 0} → Outcome (ClientError H) (Response H) → Type 0
IsOver r = (r ≢ raise (lower cancelled)) × (r ≢ raise (lower still_running))

module _ {P H : Type 0} (http : HttpProtocol P H) where
  closing-shut : (conn : HttpConnection P) → (shut http conn).closing ≡ true
  unfolding shut close wait_closed
  closing-shut conn = ground arith

  put_conn-IsKept :
      (conn : HttpConnection P) (c : HttpClient P)
      → IsKept (put_conn http conn c).0 (put_conn http conn c).1
  unfolding put_conn
  put_conn-IsKept conn c = ground (
    arith,
    closing-shut conn,
    lookup-append conn.conn_id conn.conn_id conn c.conns,
    same_id_iff conn.conn_id conn.conn_id,
  )

uncaught :
    (e : Error)
    → is_caught e ≡ false
    → (except_clause e ≡ cancelled) ⊎ (except_clause e ≡ still_running)
unfolding is_caught is_exception except_clause
uncaught cancelled h = inl refl
uncaught still_running h = inr refl
uncaught _ h = cc

module _ {P H B : Type 0} (http : HttpProtocol P H)
    (exchange : Bool → ℕ → Exchange P H B → Outcome Error (Response H) × Exchange P H B)
    (others : HttpClient P → HttpClient P) where
  settle-IsKept :
      (options : Options) (raise_error : Bool) (r : Outcome Error (Response H)) (s : Exchange P H B)
      (c : HttpClient P)
      → options.read_response_body ≡ true
      → IsOver (settle http exchange others options raise_error r s c).0
      → (conn : HttpConnection P)
      → (settle http exchange others options raise_error r s c).1.conn ≡ some conn
      → IsKept conn (settle http exchange others options raise_error r s c).1.client
  unfolding settle
  settle-IsKept options raise_error (raise e) s c reads over conn h =
      elim (Bool-cases (is_caught e)) [
        | inl caught ↦ inl (ground (arith, closing-shut http s.conn))
        | inr not_caught ↦ absurd (ground (arith, uncaught e not_caught, over.0, over.1))
      ]
  settle-IsKept options raise_error (ok r) s c reads over conn h =
      ground (arith, put_conn-IsKept http s.conn c)

  inside-IsKept :
      (options : Options) (request : PendingRequest H B) (c : HttpClient P)
      → options.read_response_body ≡ true
      → IsOver (inside http exchange others options request c).0
      → (conn : HttpConnection P)
      → (inside http exchange others options request c).1.conn ≡ some conn
      → IsKept conn (inside http exchange others options request c).1.client
  unfolding inside
  inside-IsKept options request c reads =
      let (conn, c₁) = get_conn http (conn_id request) c in
      let (r, s) =
        exchange options.read_response_body (or_default c.max_body_size options.max_body_size)
          (record { conn = conn; request = request }) in
      settle-IsKept options (or_default c.raise_error options.raise_error) r s (others c₁) reads

  -- The read lock, entered.
  abbrev pub entered : HttpClient P → HttpClient P
  entered c = record c { lock = record c.lock { count = c.lock.count + 1; idling = false } }

  abbrev pub left :
      Outcome (ClientError H) (Response H) × Sending P H B
      → Outcome (ClientError H) (Response H) × Sending P H B
  left (r, s) = (r, record s { client = record s.client { lock = read_exit s.client.lock } })

  pub send_once-open :
      (options : Options) (request : PendingRequest H B) (c : HttpClient P)
      → c.lock.closing ≡ false
      → send_once http exchange others options request c
        ≡ left (inside http exchange others options request (entered c))
  unfolding send_once read_enter
  send_once-open options request c h = ground arith

  -- If a call that reads the body of its response returns or raises, was not cancelled and did not
  -- run out of fuel, then the connection that it got is closing, or the pool has it under its id.
  pub send_once-IsKept :
      (options : Options) (request : PendingRequest H B) (c : HttpClient P)
      → options.read_response_body ≡ true
      → IsOver (send_once http exchange others options request c).0
      → (conn : HttpConnection P)
      → (send_once http exchange others options request c).1.conn ≡ some conn
      → IsKept conn (send_once http exchange others options request c).1.client
  unfolding send_once read_enter
  send_once-IsKept options request c reads over conn h = elim (Bool-cases c.lock.closing) [
    | inl refused ↦ ground arith
    | inr open_ ↦
        let e = send_once-open options request c open_ in
        subst
          (λ (x : Outcome (ClientError H) (Response H) × Sending P H B).
            IsOver x.0 → x.1.conn ≡ some conn → IsKept conn x.1.client)
          (sym e) (λ over h. inside-IsKept options request (entered c) reads over conn h) over h
  ]
