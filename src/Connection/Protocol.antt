-- ===== src/Connection/Protocol.antt =====
-- What an exchange leaves of the protocol that its connection holds (hiyori/connection.py).
use hiyori.Prelude.{ℕ, zero, suc, ◌≡◌, refl, Bool, true, false, some, ltb, [], ◌++◌, length, Bytes}
use hiyori.Outcome.{Outcome}
use hiyori.Exceptions.{Error, eof_error, read_finished}
use hiyori.Exec.{Exec}
use hiyori.Exec.Keeps.{Keeps, Keeps-bind, Keeps-attempt, Keeps-if}
use hiyori.Headers.{HeaderDict}
use hiyori.Bodies.{RequestBody}
use hiyori.Messages.{Initial}
use hiyori.Connection.Http.{HttpProtocol}
use hiyori.Connection.Object.{close}
use hiyori.Connection.Send.{
  Exchange, on_protocol, on_body, at_eof, at_finish, write_body, read_body, collect,
}

-- The connection has a protocol, of which `I` holds.
abbrev pub On : {P H B : Type 0} → (P → Type 0) → Exchange P H B → Type 0
On {P} I s = (p : P) × (s.conn.protocol ≡ some p) × I p

-- An operation of the protocol, whatever it returns or raises.
abbrev pub Stays : {P A : Type 0} → (P → Type 0) → Exec P A → Type 0
Stays {P} I op = (p : P) → I p → I (op p).1

module _ {P H B : Type 0} ⦃d : HeaderDict H⦄ (http : HttpProtocol P H) (body : RequestBody B)
    (I : P → Type 0) where
  pub on_protocol-Keeps :
      {A : Type 0} (op : Exec P A) → Stays I op → Keeps (On I) (on_protocol {B = B} http body op)
  unfolding on_protocol
  on_protocol-Keeps op stays = record { at = λ s (p, held, i). rw held ((op p).1, refl, stays p i) }

  on_body-Keeps :
      {A : Type 0} (op : B → Outcome Error A × B) → Keeps (On I) (on_body {P = P} http body op)
  unfolding on_body
  on_body-Keeps op = record { at = λ s i. i }

  at_eof-Keeps : (e : Error) → Keeps {S = Exchange P H B} (On I) (at_eof e)
  unfolding at_eof
  at_eof-Keeps eof_error = record { at = λ s i. i }
  at_eof-Keeps _ = record { at = λ s i. i }

  at_finish-Keeps : (buf : Bytes) (e : Error) → Keeps {S = Exchange P H B} (On I) (at_finish buf e)
  unfolding at_finish
  at_finish-Keeps buf read_finished = record { at = λ s i. i }
  at_finish-Keeps buf _ = record { at = λ s i. i }

  pub write_body-Keeps :
      ((chunk : Bytes) → Stays I (http.write chunk))
      → Stays I http.flush
      → (fuel : ℕ) → Keeps (On I) (write_body http body fuel)
  unfolding write_body
  write_body-Keeps write flush zero = record { at = λ s i. i }
  write_body-Keeps write flush (suc fuel) =
      Keeps-bind (record { at = λ s i. i })
        λ size.
          Keeps-attempt (on_body-Keeps (body.read size))
            (λ chunk.
              Keeps-bind
                (Keeps-bind (on_protocol-Keeps (http.write chunk) (write chunk))
                  (λ _. on_protocol-Keeps http.flush flush))
                (λ _. write_body-Keeps write flush fuel))
            at_eof-Keeps

  module _ (read : (n : ℕ) → Stays I (http.read n)) (abort : (p : P) → I p → I (http.abort p))
      (shut : (p : P) → I p → I (http.close p)) where
    read_body-Keeps :
        (fuel max_body_size : ℕ) (buf : Bytes)
        → Keeps (On I) (read_body http body fuel max_body_size buf)
    unfolding read_body
    read_body-Keeps zero max_body_size buf = record { at = λ s i. i }
    read_body-Keeps (suc fuel) max_body_size buf =
        Keeps-attempt (on_protocol-Keeps _ (read _))
          (λ chunk.
            Keeps-if (ltb max_body_size (length (buf ++ chunk)))
              (Keeps-bind (on_protocol-Keeps _ abort) (λ _. record { at = λ s i. i }))
              (read_body-Keeps fuel max_body_size (buf ++ chunk)))
          (at_finish-Keeps buf)

    pub collect-Keeps :
        (fuel : ℕ) (read_response_body : Bool) (max_body_size : ℕ) (initial : Initial H)
        → Keeps (On I) (collect http body fuel read_response_body max_body_size initial)
    unfolding collect close
    collect-Keeps fuel true max_body_size initial =
        Keeps-bind (read_body-Keeps fuel max_body_size []) (λ _. record { at = λ s i. i })
    collect-Keeps fuel false max_body_size initial =
        Keeps-bind (record { at = λ s (p, held, i). rw held (http.close p, refl, shut p i) })
          (λ _. record { at = λ s i. i })
