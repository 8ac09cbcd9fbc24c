-- ===== src/Connection/Framing/Body.antt =====
-- The headers and the body of the request that an exchange of hiyori/connection.py has sent.
use hiyori.Prelude.{
  ℕ, ◌<◌, ◌≡◌, sym, ap, ◌∙◌, inl, inr, Bool, Option, some, [], ◌++◌, length, Bytes, Str, arith,
}
use mathlib.Core.Path.{subst}
use hiyori.Exec.{◌>>=◌, attempt, gets, pure, throw, modify, ◌>>◌}
use hiyori.Exec.Keeps.{
  Keeps, Keeps-bind, Returns, bind-Returns, attempt-Returns, Keeps-Returns, gets-Returns,
}
use hiyori.Headers.{HeaderDict}
use hiyori.Stream.{Reads}
use hiyori.Bodies.{RequestBody}
use hiyori.Messages.{Initial, Response}
use hiyori.Connection.Http.{HttpProtocol}
use hiyori.Connection.Object.{cancel_idle_timeout, set_idle_timeout}
use hiyori.Connection.Send.{
  written, Exchange, on_protocol, request_uri, write_body, collect, converse, translate, response,
}
use hiyori.Connection.Writes.{write_body-Written}
use hiyori.Connection.Protocol.{On, on_protocol-Keeps, write_body-Keeps, collect-Keeps}
use hiyori.Connection.Framing.{IsSender, on_protocol-Returns, uri_same, Has}

module _ {P H B : Type 0} {head : P → Option H} {sent : P → Bytes} where
  pub On-Has :
      {headers headers' : H} {bytes bytes' : Bytes} (s : Exchange P H B)
      → headers ≡ headers'
      → bytes ≡ bytes'
      → On (Has head sent headers bytes) s
      → On (Has head sent headers' bytes') s
  On-Has s e e' (p, held, (h, h')) = (p, held, (h ∙ ap some e, h' ∙ e'))

module _ {P H B : Type 0} ⦃d : HeaderDict H⦄ (http : HttpProtocol P H) (body : RequestBody B)
    {head : P → Option H} {sent : P → Bytes} (sender : IsSender http head sent)
    (remaining : B → Bytes)
    (reads : (n : ℕ) (b : B)
      → 0 < n
      → Reads n (remaining b) (body.read n b).0 (remaining (body.read n b).1)) where
  Has-stays :
      (headers : H) (bytes : Bytes) (p q : P)
      → head q ≡ head p
      → sent q ≡ sent p
      → Has head sent headers bytes p
      → Has head sent headers bytes q
  Has-stays headers bytes p q e e' (h, h') = (e ∙ h, e' ∙ h')

  write_body-Has :
      (fuel : ℕ) (s t : Exchange P H B) (p : P) (headers : H)
      → s.conn.protocol ≡ some p
      → 0 < s.conn.chunk_size
      → length (remaining s.request.body) < fuel
      → Has head sent headers [] p
      → Returns (write_body http body fuel) s tt t
      → On (Has head sent headers (remaining s.request.body)) t
  write_body-Has fuel s t p headers held sized enough (h, none_yet) run =
      let (q, held', h') =
        Keeps-Returns
          (write_body-Keeps http body (λ p. head p ≡ some headers)
            (λ chunk p e. sender.write_head chunk p ∙ e) (λ p e. sender.flush_head p ∙ e) fuel)
          run (p, held, h) in
      elim (write_body-Written http body sent sender.writer remaining reads fuel s p held sized
        enough) [
          | inl (_, (q', held'', all)) ↦
              let same : q' ≡ q = (let e = ap (λ x. x.1.conn.protocol) run in cc) in
              (
                q,
                held',
                (h', ap sent (sym same) ∙ all ∙ ap (λ b. b ++ remaining s.request.body) none_yet),
              )
          | inr (e, raised, _) ↦ (let e = ap (λ x. x.0) run in absurd cc)
        ]

  -- What follows the body: its end, the response and its body.
  ending-Keeps :
      (fuel : ℕ) (read_response_body : Bool) (max_body_size : ℕ) (headers : H) (bytes : Bytes)
      → Keeps (On (Has head sent headers bytes)) (
          on_protocol http body http.finish >>= λ _.
          on_protocol http body http.read_response >>= λ initial.
          collect http body fuel read_response_body max_body_size initial)
  ending-Keeps fuel read_response_body max_body_size headers bytes =
      let stays = Has-stays headers bytes in
      Keeps-bind
        (on_protocol-Keeps http body (Has head sent headers bytes) http.finish
          (λ p. stays p _ (sender.finish_head p) (sender.finish_sent p)))
        (λ _.
          Keeps-bind
            (on_protocol-Keeps http body (Has head sent headers bytes) http.read_response
              (λ p. stays p _ (sender.response_head p) (sender.response_sent p)))
            (λ initial.
              collect-Keeps http body (Has head sent headers bytes)
                (λ n p. stays p _ (sender.read_head n p) (sender.read_sent n p))
                (λ p. stays p _ (sender.abort_head p) (sender.abort_sent p))
                (λ p. stays p _ (sender.close_head p) (sender.close_sent p)) fuel read_response_body
                max_body_size initial))

  request_uri-Returns :
      (s t : Exchange P H B) (u : Str)
      → Returns (request_uri http body) s u t
      → (t.conn ≡ s.conn)
        × (t.request.body ≡ s.request.body)
        × (t.request.headers ≡ s.request.headers)
  unfolding request_uri
  request_uri-Returns s t u run =
      let after : (request_uri http body s).1 ≡ t = ap (λ x. x.1) run in
      let (b, h) = uri_same s.request in
      (
        ap (λ x. x.conn) (sym after),
        ap (λ x. x.request.body) (sym after) ∙ b,
        ap (λ x. x.request.headers) (sym after) ∙ h,
      )

  converse-Has :
      (fuel : ℕ) (read_response_body : Bool) (max_body_size : ℕ) (s t : Exchange P H B)
      (answer : Initial H × Bytes)
      → 0 < s.conn.chunk_size
      → length (remaining s.request.body) < fuel
      → Returns (converse http body fuel read_response_body max_body_size) s answer t
      → On (Has head sent s.request.headers (remaining s.request.body)) t
  unfolding converse
  converse-Has fuel read_response_body max_body_size s t answer sized enough run =
      let (u, s1, run1, rest1) = bind-Returns (request_uri http body) _ s t run in
      let (conn1, body1, headers1) = request_uri-Returns s s1 u run1 in
      let (request, s2, run2, rest2) = bind-Returns (gets (λ s. s.request)) _ s1 t rest1 in
      let (asked, same2) = gets-Returns (λ s. s.request) run2 in
      let (_, s3, run3, rest3) =
        bind-Returns
          (on_protocol http body
            (http.write_request request.method u request.authority request.headers))
          _ s2 t rest2 in
      let (p, held, wrote, moved3) = on_protocol-Returns http body _ s2 s3 run3 in
      let (h, none_yet) =
        sender.begins request.method u request.authority request.headers p wrote in
      let (_, s4, run4, rest4) = bind-Returns (write_body http body fuel) _ s3 t rest3 in
      let body3 = ap (λ x. x.request.body) moved3 ∙ sym (ap (λ x. x.request.body) same2) ∙ body1 in
      let size3 =
        ap (λ x. x.conn.chunk_size) moved3
        ∙ sym (ap (λ x. x.conn.chunk_size) same2)
        ∙ ap (λ c. c.chunk_size) conn1 in
      let written =
        write_body-Has fuel s3 s4
          (http.write_request request.method u request.authority request.headers p).1
          request.headers (ap (λ x. x.conn.protocol) moved3) (omega (arith, size3, sized))
          (omega (arith, ap (λ b. length (remaining b)) body3, enough)) (h, none_yet) run4 in
      Keeps-Returns
        (ending-Keeps fuel read_response_body max_body_size s.request.headers
          (remaining s.request.body))
        rest4 (On-Has s4 (sym (ap (λ r. r.headers) asked) ∙ headers1) (ap remaining body3) written)

  -- The exchange from its framing on, and its end.
  pub answered-Has :
      (fuel : ℕ) (read_response_body : Bool) (max_body_size : ℕ) (s t : Exchange P H B)
      (r : Response H)
      → 0 < s.conn.chunk_size
      → length (remaining s.request.body) < fuel
      → Returns
          (attempt
              (converse http body fuel read_response_body max_body_size)
              pure
              (λ e. throw (translate e))
            >>= λ answer.
                modify (λ s. record s { conn = set_idle_timeout s.conn })
                >> (gets (written http body) >>= λ request. pure (response request answer)))
          s
          r
          t
      → On (Has head sent s.request.headers (remaining s.request.body)) t
  unfolding set_idle_timeout cancel_idle_timeout written
  answered-Has fuel read_response_body max_body_size s t r sized enough run =
      let (answer, s1, run1, rest) =
        bind-Returns
          (attempt (converse http body fuel read_response_body max_body_size) pure
            (λ e. throw (translate e)))
          _ s t run in
      let (answer', s2, conversed, same) =
        attempt-Returns (converse http body fuel read_response_body max_body_size) pure translate s
          s1 run1 in
      Keeps-Returns
        (Keeps-bind {I = On (Has head sent s.request.headers (remaining s.request.body))}
          (record { at = λ s i. i })
          (λ _. Keeps-bind (record { at = λ s i. i }) (λ _. record { at = λ s i. i })))
        rest
        (subst (On (Has head sent s.request.headers (remaining s.request.body)))
          (ap (λ x. x.1) same)
          (converse-Has fuel read_response_body max_body_size s s2 answer' sized enough conversed))
