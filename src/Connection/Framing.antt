-- ===== src/Connection/Framing.antt =====
-- How an exchange of hiyori/connection.py frames the body of its request.
pub mod Body
pub mod Sent
use hiyori.Prelude.{
  ℕ, zero, suc, ◌<◌, ◌≡◌, refl, sym, ap, ◌∙◌, ◌⊎◌, inl, inr, Bool, true, false, Option, none, some,
  [], ◌++◌, length, Bytes, Str, codes, ℤ, pos, arith, if◌then◌else◌, Option-cases,
}
use mathlib.Core.Path.{subst}
use hiyori.Outcome.{Outcome, ok, raise, Outcome-cases}
use hiyori.Exceptions.{Error, not_implemented}
use hiyori.Exec.{◌>>=◌, attempt, handle, gets, pure, throw, modify, ◌>>◌}
use hiyori.Exec.Keeps.{
  Keeps, Keeps-bind, Keeps-if, Returns, bind-Returns, attempt-Returns, Keeps-Returns, gets-Returns,
}
use hiyori.Decimal.{int, decimal}
use hiyori.Decimal.RoundTrip.{int-decimal}
use hiyori.Headers.{HeaderDict}
use hiyori.Stream.{Reads}
use hiyori.Bodies.{RequestBody}
use hiyori.Messages.{HttpRequestMethod, Initial, PendingRequest, Response, uri}
use hiyori.Connection.Http.{HttpProtocol}
use hiyori.Connection.Object.{
  HttpConnection, Dial, get_ready, connect, cancel_idle_timeout, set_idle_timeout,
}
use hiyori.Connection.Send.{
  Exchange, on_conn, on_body, on_protocol, set_header, request_uri, measured, unmeasured, frame,
  write_body, collect, converse, translate, response, send_request,
}
use hiyori.Connection.Writes.{IsWriter, write_body-Written}
use hiyori.Connection.Protocol.{On, Stays, on_protocol-Keeps, write_body-Keeps, collect-Keeps}

-- magichttp's protocol, as documented: a request begins with its headers and an empty body, only writing
-- appends to this body, and no other operation changes either. `head` and `sent` are the headers
-- and the body of the last request.
pub record IsSender {P H : Type 0} (http : HttpProtocol P H) (head : P → Option H)
    (sent : P → Bytes) : Type 0 where
  pub writer : IsWriter http sent
  pub begins :
      (method : HttpRequestMethod) (uri authority : Str) (headers : H) (p : P)
      → (http.write_request method uri authority headers p).0 ≡ ok tt
      → (head (http.write_request method uri authority headers p).1 ≡ some headers)
        × (sent (http.write_request method uri authority headers p).1 ≡ [])
  pub write_head : (chunk : Bytes) (p : P) → head (http.write chunk p).1 ≡ head p
  pub flush_head : (p : P) → head (http.flush p).1 ≡ head p
  pub finish_head : (p : P) → head (http.finish p).1 ≡ head p
  pub finish_sent : (p : P) → sent (http.finish p).1 ≡ sent p
  pub response_head : (p : P) → head (http.read_response p).1 ≡ head p
  pub response_sent : (p : P) → sent (http.read_response p).1 ≡ sent p
  pub read_head : (n : ℕ) (p : P) → head (http.read n p).1 ≡ head p
  pub read_sent : (n : ℕ) (p : P) → sent (http.read n p).1 ≡ sent p
  pub abort_head : (p : P) → head (http.abort p) ≡ head p
  pub abort_sent : (p : P) → sent (http.abort p) ≡ sent p
  pub close_head : (p : P) → head (http.close p) ≡ head p
  pub close_sent : (p : P) → sent (http.close p) ≡ sent p

module _ {H : Type 0} ⦃d : HeaderDict H⦄ where
  -- The headers of a request without a content-length, for the length of its body.
  abbrev pub declared : ℕ → H → H
  declared zero h = h
  declared (suc k) h = d.setdefault (codes "content-length") (decimal (suc k)) h

  -- A body of so many bytes has its length in the headers, or is empty and has none there.
  abbrev pub Framed : ℕ → H → Type 0
  Framed n h =
      ((n ≡ 0) × (d.contains (codes "content-length") h ≡ false))
      ⊎ ((text : Str) × (d.get? (codes "content-length") h ≡ some text) × (int text ≡ ok (pos n)))

module _ {P H B : Type 0} ⦃d : HeaderDict H⦄ (http : HttpProtocol P H) (body : RequestBody B) where
  unmeasured-raises :
      (e : Error) (s : Exchange P H B) → (e' : Error) × ((unmeasured http body e s).0 ≡ raise e')
  unfolding unmeasured set_header ◌>>=◌
  unmeasured-raises not_implemented s = (_, refl)
  unmeasured-raises _ s = (_, refl)

  -- Framing that returns has measured the body and declared its length.
  abbrev pub framed : ℕ → Exchange P H B → Exchange P H B
  framed n s = record s {
    request = record s.request {
      body = (body.calc_len s.request.body).1;
      headers = declared n s.request.headers;
    };
  }

  pub frame-declared :
      (s t : Exchange P H B)
      → d.contains (codes "content-length") s.request.headers ≡ false
      → Returns (frame http body) s tt t
      → (n : ℕ) × ((body.calc_len s.request.body).0 ≡ ok n) × (t ≡ framed n s)
  unfolding frame on_body measured set_header ◌>>=◌ attempt
  frame-declared s t free h = elim (Outcome-cases (body.calc_len s.request.body).0) [
    | inl (zero, e) ↦ (zero, e, sym (ap (λ x. x.1) h) ∙ rw (free, e) refl)
    | inl (suc k, e) ↦ (suc k, e, sym (ap (λ x. x.1) h) ∙ rw (free, e) refl)
    | inr (e, raised) ↦
        let s' = record s {
          request = record s.request { body = (body.calc_len s.request.body).1 };
        } in
        let outcome : (frame http body s).0 ≡ ok tt = ap (λ x. x.0) h in
        let ended : (unmeasured http body e s').0 ≡ ok tt = rw (free, raised) at outcome in
        let (e', bad) = unmeasured-raises e s' in absurd cc
  ]

  abbrev pub moved : Exchange P H B → P → Exchange P H B
  moved s p = record s { conn = record s.conn { protocol = some p } }

  pub on_protocol-Returns :
      {A : Type 0} {a : A} (op : P → Outcome Error A × P) (s t : Exchange P H B)
      → Returns (on_protocol http body op) s a t
      → (p : P) × (s.conn.protocol ≡ some p) × ((op p).0 ≡ ok a) × (t ≡ moved s (op p).1)
  unfolding on_protocol
  on_protocol-Returns {A} {a} op s t h =
      let outcome : (on_protocol http body op s).0 ≡ ok a = ap (λ x. x.0) h in
      let after : (on_protocol http body op s).1 ≡ t = ap (λ x. x.1) h in
      elim (Option-cases s.conn.protocol) [
        | inl nothing ↦ (let bad = rw nothing at outcome in absurd cc)
        | inr (p, held) ↦ (p, held, rw held at outcome, sym (rw held at after))
      ]

module _ {P H : Type 0} (http : HttpProtocol P H) where
  connect-chunk_size : (dial : Dial P) (k : ℕ) → Keeps (λ c. c.chunk_size ≡ k) (connect http dial)
  unfolding connect
  connect-chunk_size dial k =
      Keeps-bind (record { at = λ s i. i })
        λ port. Keeps-bind (record { at = λ s i. i }) λ protocol. record { at = λ s i. i }

  pub get_ready-chunk_size :
      (dial : Dial P) (c : HttpConnection P) → (get_ready http dial c).1.chunk_size ≡ c.chunk_size
  unfolding get_ready cancel_idle_timeout
  get_ready-chunk_size dial c =
      (Keeps-bind {I = λ x. x.chunk_size ≡ c.chunk_size} (record { at = λ s i. i })
          λ _.
            Keeps-bind (record { at = λ s i. i })
              λ closing.
                Keeps-bind (record { at = λ s i. i })
                  λ connected.
                    Keeps-if closing (record { at = λ s i. i })
                      (Keeps-if connected (record { at = λ s i. i })
                        (connect-chunk_size dial c.chunk_size))).at
        c refl

pub uri_same :
    {H B : Type 0} (r : PendingRequest H B)
    → ((uri r).1.body ≡ r.body) × ((uri r).1.headers ≡ r.headers)
unfolding uri
uri_same r = elim (Option-cases r.cached_uri) [
  | inl e ↦ (rw e refl, rw e refl)
  | inr (u, e) ↦ (rw e refl, rw e refl)
]

-- The last request has these headers and this body.
abbrev pub Has : {P H : Type 0} → (P → Option H) → (P → Bytes) → H → Bytes → P → Type 0
Has head sent headers bytes p = (head p ≡ some headers) × (sent p ≡ bytes)
