-- ===== src/Connection/Limits.antt =====
-- The limit on the body of a response.
use hiyori.Prelude.{ℕ, zero, suc, ◌≤◌, ◌≡◌, Bool, true, false, [], ◌++◌, length, ltb, Bytes, arith}
use hiyori.Outcome.{ok}
use hiyori.Exceptions.{Error, read_finished}
use hiyori.Exec.{pure, throw, attempt}
use hiyori.Exec.Post.{
  Ensures-attempt, Ensures-if, Post-ok, Ensures, Ensures-bind, Ensures-then, Ensures-any,
}
use hiyori.Headers.{HeaderDict}
use hiyori.Bodies.{RequestBody}
use hiyori.Messages.{Response, Initial}
use hiyori.Connection.Http.{HttpProtocol}
use hiyori.Connection.Object.{Dial}
use hiyori.Connection.Send.{
  at_finish, Exchange, read_body, collect, converse, translate, send_request,
}

abbrev Anything : Error → Type 0
Anything _ = Unit

abbrev Fits : ℕ → Bytes → Type 0
Fits max buf = length buf ≤ max

at_finish-Fits :
    {S : Type 0} (max : ℕ) (buf : Bytes)
    → length buf ≤ max
    → (e : Error) → Ensures {S = S} (Fits max) Anything (at_finish buf e)
unfolding at_finish
at_finish-Fits max buf h read_finished = record { at = λ s. h }
at_finish-Fits max buf h _ = record { at = λ s. tt }

module _ {P H B : Type 0} ⦃d : HeaderDict H⦄ (http : HttpProtocol P H) (body : RequestBody B) where
  read_body-Fits :
      (fuel max : ℕ) (buf : Bytes)
      → length buf ≤ max
      → Ensures (Fits max) Anything (read_body http body fuel max buf)
  unfolding read_body
  read_body-Fits zero max buf h = record { at = λ s. tt }
  read_body-Fits (suc fuel) max buf h =
      Ensures-attempt (Ensures-any _)
        (λ chunk _.
          Ensures-if (ltb max (length (buf ++ chunk)))
            (λ _. Ensures-then (Ensures-any _) (λ _. record { at = λ s. tt }))
            (λ small. read_body-Fits fuel max (buf ++ chunk) (ground arith)))
        (λ e _. at_finish-Fits max buf h e)

  abbrev AnswerFits : ℕ → Initial H × Bytes → Type 0
  AnswerFits max (initial, res_body) = length res_body ≤ max

  collect-AnswerFits :
      (fuel max : ℕ) (read_response_body : Bool) (initial : Initial H)
      → Ensures (AnswerFits max) Anything (collect http body fuel read_response_body max initial)
  unfolding collect
  collect-AnswerFits fuel max true initial =
      Ensures-bind (read_body-Fits fuel max [] (omega arith)) (λ b h. record { at = λ s. h })
  collect-AnswerFits fuel max false initial =
      Ensures-then (Ensures-any _) (λ _. record { at = λ s. omega arith })

  converse-AnswerFits :
      (fuel max : ℕ) (read_response_body : Bool)
      → Ensures (AnswerFits max) Anything (converse http body fuel read_response_body max)
  unfolding converse
  converse-AnswerFits fuel max read_response_body =
      search (Ensures-then, Ensures-any, collect-AnswerFits) depth 9

  tried-AnswerFits :
      (fuel max : ℕ) (read_response_body : Bool)
      → Ensures
          (AnswerFits max)
          Anything
          (attempt (converse http body fuel read_response_body max) pure (λ e. throw (translate e)))
  tried-AnswerFits fuel max read_response_body =
      Ensures-attempt (converse-AnswerFits fuel max read_response_body)
        (λ a h. record { at = λ s. h }) (λ e h. record { at = λ s. tt })

  send_request-Fits :
      (dial : Dial P) (fuel max : ℕ) (read_response_body : Bool)
      → Ensures
          (λ (r : Response H). length r.body ≤ max)
          Anything
          (send_request http body dial fuel read_response_body max)
  unfolding send_request
  send_request-Fits dial fuel max read_response_body = Ensures-then (Ensures-any _) λ _.
      Ensures-then (Ensures-any _) λ _. Ensures-then (Ensures-any _) λ _.
        Ensures-bind (tried-AnswerFits fuel max read_response_body) λ answer h.
          Ensures-then (Ensures-any _) λ _. Ensures-then (Ensures-any _) λ _. record { at = λ s. h }

  -- A response that is returned has a body of at most `max_body_size` bytes, whatever the server
  -- sends.
  pub send_request-body-le :
      (dial : Dial P) (fuel max_body_size : ℕ) (read_response_body : Bool) (s : Exchange P H B)
      {r : Response H}
      → (send_request http body dial fuel read_response_body max_body_size s).0 ≡ ok r
      → length r.body ≤ max_body_size
  send_request-body-le dial fuel max_body_size read_response_body s e =
      Post-ok (λ (r : Response H). length r.body ≤ max_body_size) Anything e
        ((send_request-Fits dial fuel max_body_size read_response_body).at s)
