-- ===== src/Connection/Failures.antt =====
-- What an exchange raises, and what it has done by then.
use hiyori.Prelude.{ℕ, ◌≡◌, Bool, true, false, some, codes, arith}
use hiyori.Outcome.{raise}
use hiyori.Exceptions.{runtime_error, not_implemented, unbound_local}
use hiyori.Exec.{◌>>=◌, attempt}
use hiyori.Headers.{HeaderDict}
use hiyori.Bodies.{RequestBody}
use hiyori.Connection.Http.{HttpProtocol}
use hiyori.Connection.Object.{Dial, get_ready}
use hiyori.Connection.Send.{Exchange, on_protocol, on_conn, frame, send_request}

module _ {P H B : Type 0} ⦃d : HeaderDict H⦄ (http : HttpProtocol P H) (body : RequestBody B)
    (dial : Dial P) (fuel : ℕ) (read_response_body : Bool) (max_body_size : ℕ) where
  -- A connection that is closing refuses the exchange: RuntimeError, and all that changes is that the
  -- idle timer stops.
  pub send_request-closing :
      (s : Exchange P H B)
      → s.conn.closing ≡ true
      → send_request http body dial fuel read_response_body max_body_size s
        ≡ (raise runtime_error, record s { conn = record s.conn { idle_timer = false } })
  unfolding send_request ◌>>=◌ on_conn get_ready
  send_request-closing s h = ground arith

  -- On a live connection that is not closing, a request without a content-length whose body does
  -- not know its length is never sent: the call raises UnboundLocalError, and the protocol is as
  -- it was.
  pub send_request-unknown_length :
      (s : Exchange P H B) (p : P)
      → s.conn.closing ≡ false
      → s.conn.protocol ≡ some p
      → http.is_closing p ≡ false
      → d.contains (codes "content-length") s.request.headers ≡ false
      → (body.calc_len s.request.body).0 ≡ raise not_implemented
      → ((send_request http body dial fuel read_response_body max_body_size s).0
          ≡ raise unbound_local)
        × ((send_request http body dial fuel read_response_body max_body_size s).1.conn.protocol
            ≡ some p)
  unfolding send_request ◌>>=◌ attempt on_conn get_ready on_protocol frame
  send_request-unknown_length s p open_ held live no_header unknown = ground arith
