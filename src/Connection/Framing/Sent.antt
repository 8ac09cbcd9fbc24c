-- ===== src/Connection/Framing/Sent.antt =====
-- What HttpConnection.send_request of hiyori/connection.py has sent when it returns.
use hiyori.Prelude.{
  ℕ, zero, suc, ◌<◌, ◌≡◌, refl, sym, ap, ◌∙◌, inl, inr, Bool, false, Option, some, length, Bytes,
  Str, codes, arith,
}
use mathlib.Core.Path.{subst}
use hiyori.Outcome.{ok}
use hiyori.Exec.Keeps.{Returns, bind-Returns}
use hiyori.Decimal.{decimal}
use hiyori.Decimal.RoundTrip.{int-decimal}
use hiyori.Headers.{HeaderDict}
use hiyori.Stream.{Reads}
use hiyori.Bodies.{RequestBody}
use hiyori.Messages.{Response}
use hiyori.Connection.Http.{HttpProtocol}
use hiyori.Connection.Object.{Dial, get_ready}
use hiyori.Connection.Send.{Exchange, on_conn, on_protocol, measured, frame, send_request}
use hiyori.Connection.Framing.{
  IsSender, declared, Framed, frame-declared, on_protocol-Returns, get_ready-chunk_size,
}
use hiyori.Connection.Framing.Body.{On-Has, answered-Has}

module _ {P H B : Type 0} ⦃d : HeaderDict H⦄ (http : HttpProtocol P H) (body : RequestBody B)
    {head : P → Option H} {sent : P → Bytes} (sender : IsSender http head sent)
    (remaining : B → Bytes)
    (reads : (n : ℕ) (b : B)
      → 0 < n
      → Reads n (remaining b) (body.read n b).0 (remaining (body.read n b).1)) where
  get_ready-Returns :
      (dial : Dial P) (s t : Exchange P H B)
      → Returns (on_conn http body (get_ready http dial)) s tt t
      → (t.request ≡ s.request) × (t.conn.chunk_size ≡ s.conn.chunk_size)
  unfolding on_conn
  get_ready-Returns dial s t run =
      let after : (on_conn http body (get_ready http dial) s).1 ≡ t = ap (λ x. x.1) run in
      (
        ap (λ x. x.request) (sym after),
        sym (ap (λ x. x.conn.chunk_size) after) ∙ get_ready-chunk_size http dial s.conn,
      )

  Framed-declared :
      (setdefault_get : (name value : Str) (h : H)
        → d.contains name h ≡ false
        → d.get? name (d.setdefault name value h) ≡ some value)
      (n : ℕ) (h : H)
      → d.contains (codes "content-length") h ≡ false
      → Framed n (declared n h)
  Framed-declared setdefault_get zero h free = inl (refl, free)
  Framed-declared setdefault_get (suc k) h free =
      inr (decimal (suc k), setdefault_get (codes "content-length") _ h free, int-decimal (suc k))

  module _
      (setdefault_get : (name value : Str) (h : H)
        → d.contains name h ≡ false
        → d.get? name (d.setdefault name value h) ≡ some value) where
    -- With a body that keeps the contract of `read` and of which `calc_len`, where it returns, gives the
    -- bytes that are then left, a positive chunk size, a protocol as documented, no content-length set by
    -- the caller, and fuel above the number of those bytes: when `send_request` returns a response, the
    -- protocol has sent exactly these bytes, and the headers that it has sent before them give their
    -- number in content-length, or have none where there are no bytes. A dictionary of headers gives
    -- what `setdefault` has set of a name that it did not contain.
    pub send_request-Framed :
        (dial : Dial P) (fuel : ℕ) (read_response_body : Bool) (max_body_size : ℕ)
        (s t : Exchange P H B) (r : Response H)
        → 0 < s.conn.chunk_size
        → d.contains (codes "content-length") s.request.headers ≡ false
        → ((n : ℕ)
            → (body.calc_len s.request.body).0 ≡ ok n
            → n ≡ length (remaining (body.calc_len s.request.body).1))
        → length (remaining (body.calc_len s.request.body).1) < fuel
        → send_request http body dial fuel read_response_body max_body_size s ≡ (ok r, t)
        → (p : P) × (t.conn.protocol ≡ some p)
          × (sent p ≡ remaining (body.calc_len s.request.body).1)
          × ((h : H) × (head p ≡ some h) × Framed (length (sent p)) h)
    unfolding send_request
    send_request-Framed dial fuel read_response_body max_body_size s t r sized free measures enough
          run =
        let (_, s1, run1, rest1) =
          bind-Returns (on_conn http body (get_ready http dial)) _ s t run in
        let (request1, size1) = get_ready-Returns dial s s1 run1 in
        let (_, s2, run2, rest2) =
          bind-Returns (on_protocol http body (λ p. (ok tt, p))) _ s1 t rest1 in
        let (p, held, _, moved2) = on_protocol-Returns http body (λ p. (ok tt, p)) s1 s2 run2 in
        let request2 = ap (λ x. x.request) moved2 ∙ request1 in
        let size2 = ap (λ x. x.conn.chunk_size) moved2 ∙ size1 in
        let (_, s3, run3, rest3) = bind-Returns (frame http body) _ s2 t rest2 in
        let (n, measured, framed3) =
          frame-declared http body s2 s3
            (ap (λ x. d.contains (codes "content-length") x.headers) request2 ∙ free) run3 in
        let framed_request = ap (λ x. x.request) framed3 in
        let size3 = ap (λ x. x.conn.chunk_size) framed3 ∙ size2 in
        let left =
          ap (λ x. remaining x.body) framed_request
          ∙ ap (λ x. remaining (body.calc_len x.body).1) request2 in
        let n_left = measures n (ap (λ x. (body.calc_len x.body).0) (sym request2) ∙ measured) in
        let (q, held', (h, all)) =
          On-Has t (ap (λ x. x.headers) framed_request ∙ ap (λ x. declared n x.headers) request2)
            left
            (answered-Has http body sender remaining reads fuel read_response_body max_body_size s3
              t r (omega (arith, size3, sized)) (omega (arith, ap length left, enough)) rest3) in
        (
          q,
          held',
          all,
          (
            declared n s.request.headers,
            h,
            subst (λ k. Framed k (declared n s.request.headers)) (n_left ∙ ap length (sym all))
                (Framed-declared setdefault_get n s.request.headers free),
          ),
        )
