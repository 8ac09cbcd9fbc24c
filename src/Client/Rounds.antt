-- ===== src/Client/Rounds.antt =====
-- How a redirection ends.
use hiyori.Prelude.{
  ℕ, zero, suc, ◌≡◌, ◌≢◌, Bool, true, false, Option, none, some, ℤ, pos, arith, Bool-cases, inl,
  inr, ◌⊎◌,
}
use hiyori.Outcome.{Outcome, ok, raise}
use hiyori.Exceptions.{Error}
use hiyori.Headers.{HeaderDict}
use hiyori.Bodies.{RequestBody}
use hiyori.Body.{Body}
use hiyori.Messages.{PendingRequest, Response}
use hiyori.Connection.Http.{HttpProtocol}
use hiyori.Connection.Send.{Exchange}
use hiyori.Client.Pool.{HttpClient}
use hiyori.Client.Errors.{ClientError}
use hiyori.Client.Send.{Options, or_default}
use hiyori.Client.Fetch.{Outside}
use hiyori.Client.Calls.{Result, Call, keep_request}
use hiyori.Client.Redirect.{
  is_redirect, rounds, after_round, round, redirect_loop, handle_redirection,
}

module _ {P H C : Type 0} where
  -- A response that a round returns ends the loop, or the loop goes on from a redirection.
  after_round-ok :
      (rest : PendingRequest H (Body H C) → Response H → HttpClient P → Result P H)
      (request : PendingRequest H (Body H C)) (x : Call P H C) (r : Response H)
      → (after_round rest request x).0 ≡ ok r
      → (is_redirect r.status_code ≡ false)
        ⊎ ((request' : PendingRequest H (Body H C)) × (last : Response H) × (c : HttpClient P)
            × ((rest request' last c).0 ≡ ok r))
  unfolding after_round
  after_round-ok rest request (raise e, c, sent) r h = cc
  after_round-ok rest request (ok response, c, sent) r h =
      elim (Bool-cases (is_redirect response.status_code)) [
        | inl again ↦ inr (keep_request request sent, response, c, rw (again, after_round) at h)
        | inr done ↦ inl (ground arith)
      ]

  -- An exception of the loop is that of a round, or one of the rest after a redirection.
  pub after_round-raise :
      (rest : PendingRequest H (Body H C) → Response H → HttpClient P → Result P H)
      (request : PendingRequest H (Body H C)) (x : Call P H C) (e : ClientError H)
      → (after_round rest request x).0 ≡ raise e
      → (x.0 ≡ raise e)
        ⊎ ((request' : PendingRequest H (Body H C)) × (last : Response H) × (c : HttpClient P)
            × (is_redirect last.status_code ≡ true)
            × ((rest request' last c).0 ≡ raise e))
  unfolding after_round
  after_round-raise rest request (raise e', c, sent) e h = inl h
  after_round-raise rest request (ok response, c, sent) e h =
      elim (Bool-cases (is_redirect response.status_code)) [
        | inl again ↦
            inr (keep_request request sent, response, c, again, rw (again, after_round) at h)
        | inr done ↦ absurd (ground arith)
      ]

module _ {P H C : Type 0} ⦃d : HeaderDict H⦄ (http_protocol : HttpProtocol P H)
    (class : RequestBody C) (outside : Outside)
    (exchange : ℕ
      → Bool
      → ℕ
      → Exchange P H (Body H C)
      → Outcome Error (Response H) × Exchange P H (Body H C))
    (others : ℕ → HttpClient P → HttpClient P) where
  abbrev loop :
      ℕ
      → ℕ
      → Options
      → PendingRequest H (Body H C)
      → Option (Response H)
      → HttpClient P
      → Result P H
  loop = redirect_loop http_protocol class outside exchange others

  loop-ok :
      (options : Options) (k i : ℕ) (request : PendingRequest H (Body H C))
      (last : Option (Response H)) (c : HttpClient P) (r : Response H)
      → (loop k i options request last c).0 ≡ ok r
      → is_redirect r.status_code ≡ false
  unfolding redirect_loop
  loop-ok options zero i request none c r h = cc
  loop-ok options zero i request (some last) c r h = cc
  loop-ok options (suc k) i request last c r h =
      elim (after_round-ok (λ q response c'. loop k (suc i) options q (some response) c') request
        (round http_protocol class outside (exchange i) (others i) options request last c) r h) [
          | inl done ↦ done
          | inr (request', last', c', h') ↦ loop-ok options k (suc i) request' (some last') c' r h'
        ]

  not_a_redirect :
      (status : ℕ)
      → is_redirect status ≡ false
      → (status ≢ 301) × (status ≢ 302) × (status ≢ 303) × (status ≢ 307) × (status ≢ 308)
  unfolding is_redirect
  not_a_redirect status h = ground arith

  -- A response that `_handle_redirection` returns has none of the statuses 301, 302, 303, 307 and 308.
  pub handle_redirection-ok :
      (options : Options) (max_redirects : Option ℤ) (request : PendingRequest H (Body H C))
      (c : HttpClient P) {r : Response H}
      → (handle_redirection http_protocol class outside exchange others options max_redirects
          request c).0
        ≡ ok r
      → (r.status_code ≢ 301)
        × (r.status_code ≢ 302)
        × (r.status_code ≢ 303)
        × (r.status_code ≢ 307)
        × (r.status_code ≢ 308)
  unfolding handle_redirection
  handle_redirection-ok options max_redirects request c {r} h = not_a_redirect r.status_code (
      loop-ok options (rounds (or_default (pos c.max_redirects) max_redirects)) 0 request none c r
        h)
