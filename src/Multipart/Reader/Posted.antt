-- ===== src/Multipart/Reader/Posted.antt =====
-- A form (hiyori/multipart.py) as the body of a request that HttpConnection.send_request
-- (hiyori/connection.py) sends, and what the server reads.
use hiyori.Prelude.{
  ℕ, ◌<◌, ◌≡◌, sym, ap, ◌∙◌, Bool, false, Option, some, List, length, Str, Bytes, Lacks, codes,
  arith,
}
use hiyori.Outcome.{ok}
use hiyori.Headers.{HeaderDict}
use hiyori.Messages.{Response}
use hiyori.Connection.Http.{HttpProtocol}
use hiyori.Connection.Object.{Dial}
use hiyori.Connection.Send.{Exchange, send_request}
use hiyori.Connection.Framing.{IsSender, Framed}
use hiyori.Connection.Framing.Sent.{send_request-Framed}
use hiyori.Multipart.Form.{MultipartRequestBody, multipart_body, content_type, seek_front}
use hiyori.Multipart.Content.{form_remaining, form_read-Reads}
use hiyori.Multipart.Format.{form_bytes}
use hiyori.Multipart.Calls.{Call, after, used-FormHolds}
use hiyori.Multipart.Measured.{form_class, calc_len-rewound}
use hiyori.Multipart.Reader.{read_form}
use hiyori.Multipart.Reader.Parts.{AllReadable, texts}
use hiyori.Multipart.Reader.RoundTrip.{read_form-form_bytes}

module _ {P H : Type 0} ⦃d : HeaderDict H⦄ (http : HttpProtocol P H) {head : P → Option H}
    {sent : P → Bytes} (sender : IsSender http head sent)
    (setdefault_get : (name value : Str) (h : H)
      → d.contains name h ≡ false
      → d.get? name (d.setdefault name value h) ≡ some value)
    (guess_type : Str → Option Str) (uuid : Str) (fields : List (Str × Str))
    (calls : List Call) where
  abbrev new : MultipartRequestBody H
  new = multipart_body guess_type uuid (texts H fields)

  -- A form of text fields, where the uuid holds no CR, each name is a text without a quote or a CR, and each
  -- value a text no line of which begins with the delimiter: rewound after any calls, it is the body
  -- of a request without a content-length of the caller, on a connection with a positive chunk size
  -- and a protocol as documented, with fuel above the number of its bytes, where a dictionary of
  -- headers gives what `setdefault` has set of a name that it did not contain. When `send_request`
  -- returns a response, then what the protocol has sent is read, with the content-type of the form,
  -- as exactly its fields in order, and the content-length that was sent is that of the body.
  pub posted-read_form :
      (dial : Dial P) (fuel : ℕ) (read_response_body : Bool) (max_body_size : ℕ)
      (s t : Exchange P H (MultipartRequestBody H)) (r : Response H)
      → s.request.body ≡ (seek_front (after calls new)).1
      → 0 < s.conn.chunk_size
      → d.contains (codes "content-length") s.request.headers ≡ false
      → length (form_bytes guess_type uuid (texts H fields)) < fuel
      → Lacks 13 uuid
      → AllReadable uuid fields
      → send_request http form_class dial fuel read_response_body max_body_size s ≡ (ok r, t)
      → (p : P) × (t.conn.protocol ≡ some p)
        × (read_form (content_type new) (sent p) ≡ ok fields)
        × ((h : H) × (head p ≡ some h) × Framed (length (sent p)) h)
  posted-read_form dial fuel read_response_body max_body_size s t r body sized free enough plain h
        run =
      let (left, len) =
        calc_len-rewound (after calls new)
          (used-FormHolds guess_type uuid (texts H fields) calls) in
      let left' = ap (λ b. form_remaining (form_class.calc_len b).1) body ∙ left in
      let len' = ap (λ b. (form_class.calc_len b).0) body ∙ len in
      let (p, held, all, framed) =
        send_request-Framed http form_class sender form_remaining form_read-Reads setdefault_get
          dial fuel read_response_body max_body_size s t r sized free
          (λ n e.
            let same : n ≡ length (form_bytes guess_type uuid (texts H fields)) =
              (let x = sym e ∙ len' in cc) in
            same ∙ ap length (sym left'))
          (omega (arith, ap length left', enough)) run in
      (
        p,
        held,
        ap (read_form (content_type new)) (all ∙ left')
            ∙ read_form-form_bytes H guess_type uuid fields plain h,
        framed,
      )
