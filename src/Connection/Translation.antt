-- ===== src/Connection/Translation.antt =====
-- magichttp's own exceptions stay inside an exchange.
use hiyori.Prelude.{
  ℕ, zero, suc, [], ◌∷◌, ◌==◌, ◌≡◌, Bool, true, false, Option, none, some, Bytes, Str, ℤ, arith,
  if◌then◌else◌,
}
use hiyori.Outcome.{Outcome, ok, raise}
use hiyori.Exceptions.{
  Error, not_implemented, read_aborted, write_aborted, write_after_finished,
  received_data_malformed, entity_too_large,
}
use hiyori.Exec.{pure, throw, attempt}
use hiyori.Exec.Post.{
  Post, Ensures-attempt, Ensures-if, Post-raise, Ensures, Ensures-then, Ensures-any, Ensures-pure,
  Ensures-throw,
}
use hiyori.Headers.{HeaderDict}
use hiyori.Bodies.{RequestBody}
use hiyori.Messages.{HttpConnectionId, HttpScheme, Response, Initial}
use hiyori.Decimal.{int, plain, negated, signed, strip, natural}
use hiyori.Connection.Id
use hiyori.Connection.Http.{HttpProtocol}
use hiyori.Connection.Object.{Dial, connect, get_ready}
use hiyori.Connection.Send.{
  Exchange, translate, on_protocol, on_conn, frame, on_body, set_header, measured, unmeasured,
  converse, send_request,
}

-- Not one of the exceptions that the `except` clauses name.
abbrev pub IsSettled : Error → Type 0
IsSettled read_aborted = ⊥
IsSettled write_aborted = ⊥
IsSettled write_after_finished = ⊥
IsSettled received_data_malformed = ⊥
IsSettled entity_too_large = ⊥
IsSettled _ = Unit

abbrev pub Settles : {A : Type 0} → Outcome Error A → Type 0
Settles r = Post (λ _. Unit) IsSettled r

translate-IsSettled : (e : Error) → IsSettled (translate e)
unfolding translate
translate-IsSettled read_aborted = tt
translate-IsSettled _ = tt

Settles-if :
    {A : Type 0} (b : Bool) (x y : Outcome Error A)
    → Settles x
    → Settles y
    → Settles (if b then x else y)
Settles-if true x y hx hy = hx
Settles-if false x y hx hy = hy

plain-Settles : (o : Option ℕ) → Settles (plain o)
plain-Settles none = tt
plain-Settles (some n) = tt

negated-Settles : (o : Option ℕ) → Settles (negated o)
negated-Settles none = tt
negated-Settles (some zero) = tt
negated-Settles (some (suc n)) = tt

signed-Settles : (s : Str) → Settles (signed s)
signed-Settles [] = tt
signed-Settles (c ∷ s) = Settles-if (c == b'-') _ _ (negated-Settles (natural 0 false s)) (
    Settles-if (c == b'+') _ _ (plain-Settles (natural 0 false s))
      (plain-Settles (natural 0 false (c ∷ s))))

port_of-Settles : (scheme : HttpScheme) (text : Option Str) → Settles (Id.port_of scheme text)
unfolding Id.port_of int
port_of-Settles scheme none = tt
port_of-Settles scheme (some text) = signed-Settles (strip text)

port-Settles : (c : HttpConnectionId) → Settles (Id.port c)
unfolding Id.port
port-Settles c = port_of-Settles c.scheme _

-- Outside the `try` statement stand the resolver, the port's `int` and the body's `calc_len`.
module _ {P H B : Type 0} ⦃d : HeaderDict H⦄ (http : HttpProtocol P H) (body : RequestBody B)
    (dial : Dial P)
    (dial_settles : (host : Str) (port : ℤ) (tls : Bool) → Settles (dial host port tls))
    (calc_len_settles : (b : B) → Settles (body.calc_len b).0) where
  connect-Settles : Ensures (λ _. Unit) IsSettled (connect http dial)
  unfolding connect
  connect-Settles =
      Ensures-then (record { at = λ c. port-Settles c.conn_id })
        λ port.
          Ensures-then (record { at = λ c. dial_settles (Id.hostname c.conn_id) port c.tls })
            λ p. record { at = λ c. tt }

  get_ready-Settles : Ensures (λ _. Unit) IsSettled (get_ready http dial)
  unfolding get_ready
  get_ready-Settles =
      Ensures-then (record { at = λ c. tt })
        λ _.
          Ensures-then (record { at = λ c. tt })
            λ closing.
              Ensures-then (record { at = λ c. tt })
                λ connected.
                  Ensures-if closing (λ _. Ensures-throw tt)
                    (λ _. Ensures-if connected (λ _. Ensures-pure tt) (λ _. connect-Settles))

  on_conn-Settles :
      Ensures (λ _. Unit) IsSettled (on_conn {H = H} {B = B} http body (get_ready http dial))
  unfolding on_conn
  on_conn-Settles = record { at = λ s. get_ready-Settles.at s.conn }

  unmeasured-Settles :
      (e : Error) → IsSettled e → Ensures (λ _. Unit) IsSettled (unmeasured {P = P} http body e)
  unfolding unmeasured set_header
  unmeasured-Settles not_implemented h =
      Ensures-then (record { at = λ c. tt }) λ _. Ensures-throw tt
  unmeasured-Settles _ h = Ensures-throw h

  measured-Settles : (n : ℕ) → Ensures (λ _. Unit) IsSettled (measured {P = P} http body n)
  unfolding measured set_header
  measured-Settles zero = Ensures-pure tt
  measured-Settles (suc n) = record { at = λ c. tt }

  frame-Settles : Ensures (λ _. Unit) IsSettled (frame {P = P} http body)
  unfolding frame on_body
  frame-Settles =
      Ensures-then (record { at = λ c. tt })
        λ framed.
          Ensures-if framed (λ _. Ensures-pure tt)
            (λ _.
              Ensures-attempt {P = λ _. Unit} {T = IsSettled}
                (record { at = λ s. calc_len_settles s.request.body }) (λ n _. measured-Settles n)
                (λ e h. unmeasured-Settles e h))

  converse-Settles :
      (fuel max : ℕ) (read_response_body : Bool)
      → Ensures
          (λ (_ : Initial H × Bytes). Unit)
          IsSettled
          (attempt (converse http body fuel read_response_body max) pure (λ e. throw (translate e)))
  converse-Settles fuel max read_response_body =
      Ensures-attempt (Ensures-any _) (λ a _. Ensures-pure tt)
        (λ e _. Ensures-throw (translate-IsSettled e))

  -- `assert self._protocol is not None`
  on_protocol-Settles :
      Ensures (λ _. Unit) IsSettled (on_protocol {H = H} {B = B} http body (λ p. (ok tt, p)))
  unfolding on_protocol
  on_protocol-Settles = record { at = λ s. ground arith }

  send_request-Settles :
      (fuel max : ℕ) (read_response_body : Bool)
      → Ensures
          (λ (_ : Response H). Unit)
          IsSettled
          (send_request http body dial fuel read_response_body max)
  unfolding send_request
  send_request-Settles fuel max read_response_body = Ensures-then on_conn-Settles λ _.
      Ensures-then on_protocol-Settles λ _. Ensures-then frame-Settles λ _.
        Ensures-then (converse-Settles fuel max read_response_body) λ answer.
          Ensures-then (record { at = λ s. tt })
            λ _. Ensures-then (record { at = λ s. tt }) λ request. Ensures-pure tt

  -- If neither the resolver nor `calc_len` raises one of magichttp's five exceptions for an aborted,
  -- malformed or too large exchange, `send_request` raises none of them, whatever magichttp raises.
  pub send_request-IsSettled :
      (fuel max : ℕ) (read_response_body : Bool) (s : Exchange P H B) {e : Error}
      → (send_request http body dial fuel read_response_body max s).0 ≡ raise e
      → IsSettled e
  send_request-IsSettled fuel max read_response_body s p =
      Post-raise (λ (_ : Response H). Unit) IsSettled p
        ((send_request-Settles fuel max read_response_body).at s)
