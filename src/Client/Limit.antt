-- ===== src/Client/Limit.antt =====
-- When `_handle_redirection` raises TooManyRedirects.
use hiyori.Prelude.{
  ℕ, zero, suc, ◌+◌, ◌≡◌, ◌↔◌, refl, ap, Bool, true, Option, none, some, pos, arith, inl, inr,
  Bool-cases,
}
use hiyori.Outcome.{Outcome, ok, raise}
use hiyori.Exceptions.{Error}
use hiyori.Headers.{HeaderDict}
use hiyori.Bodies.{RequestBody}
use hiyori.Body.{Body}
use hiyori.Messages.{PendingRequest, Request, Response}
use hiyori.Connection.Http.{HttpProtocol}
use hiyori.Connection.Send.{Exchange}
use hiyori.Client.Pool.{HttpClient}
use hiyori.Client.Errors.{lower, http_error, too_many_redirects}
use hiyori.Client.Send.{Options}
use hiyori.Client.Fetch.{Outside}
use hiyori.Client.Calls.{Result, Call, keep_request}
use hiyori.Client.Redirect.{
  is_redirect, rounds, after_round, round, redirect_loop, handle_redirection,
}
use hiyori.Client.Plain.{IsPlain, round-IsPlain}

module _ {P H C : Type 0} where
  -- TooManyRedirects of the rest of a loop, whose round has returned a redirection.
  after_round-again :
      {R : Type 0} (rest : PendingRequest H (Body H C) → Response H → HttpClient P → Result P H)
      (request : PendingRequest H (Body H C)) (x : Call P H C) (q : Request H)
      → IsPlain x.0
      → (after_round rest request x).0 ≡ raise (too_many_redirects q)
      → ((response : Response H) (c' : HttpClient P) (sent : Option (PendingRequest H (Body H C)))
          → x ≡ (ok response, c', sent)
          → is_redirect response.status_code ≡ true
          → (rest (keep_request request sent) response c').0 ≡ raise (too_many_redirects q)
          → R)
      → R
  unfolding after_round
  after_round-again rest request (raise (too_many_redirects q'), c, sent) q plain h next =
      absurd plain
  after_round-again rest request (raise (lower e), c, sent) q plain h next = cc
  after_round-again rest request (raise (http_error e), c, sent) q plain h next = cc
  after_round-again rest request (ok response, c, sent) q plain h next =
      elim (Bool-cases (is_redirect response.status_code)) [
        | inl w ↦ next response c sent refl w (rw (w, after_round) at h)
        | inr w ↦ absurd (ground arith)
      ]

module _ {P H C : Type 0} ⦃d : HeaderDict H⦄ (http : HttpProtocol P H) (class : RequestBody C)
    (outside : Outside)
    (exchange : ℕ
      → Bool
      → ℕ
      → Exchange P H (Body H C)
      → Outcome Error (Response H) × Exchange P H (Body H C))
    (others : ℕ → HttpClient P → HttpClient P) (options : Options) where
  -- From the round `i` on, so many rounds each return a redirection, and `q` is the request of the last.
  abbrev pub Redirected :
      ℕ → ℕ → PendingRequest H (Body H C) → Option (Response H) → HttpClient P → Request H → Type 0
  Redirected zero i request none c q = ⊥
  Redirected zero i request (some last) c q = last.request ≡ q
  Redirected (suc k) i request last c q =
      (response : Response H) × (c' : HttpClient P) × (sent : Option (PendingRequest H (Body H C)))
      × (round http class outside (exchange i) (others i) options request last c
          ≡ (ok response, c', sent))
      × (is_redirect response.status_code ≡ true)
      × Redirected k (suc i) (keep_request request sent) (some response) c' q

  loop-Redirected :
      (k i : ℕ) (request : PendingRequest H (Body H C)) (last : Option (Response H))
      (c : HttpClient P) (q : Request H)
      → (redirect_loop http class outside exchange others k i options request last c).0
        ≡ raise (too_many_redirects q)
      → Redirected k i request last c q
  unfolding redirect_loop
  loop-Redirected zero i request none c q h = cc
  loop-Redirected zero i request (some last) c q h = cc
  loop-Redirected (suc k) i request last c q h =
      after_round-again
        (λ request' response c'.
          redirect_loop http class outside exchange others k (suc i) options request'
            (some response) c')
        request (round http class outside (exchange i) (others i) options request last c) q
        (round-IsPlain http class outside (exchange i) (others i) options request last c) h
        (λ response c' sent e w r. (
          response,
          c',
          sent,
          e,
          w,
          loop-Redirected k (suc i) (keep_request request sent) (some response) c' q r,
        ))

  Redirected-loop :
      (k i : ℕ) (request : PendingRequest H (Body H C)) (last : Option (Response H))
      (c : HttpClient P) (q : Request H)
      → Redirected k i request last c q
      → (redirect_loop http class outside exchange others k i options request last c).0
        ≡ raise (too_many_redirects q)
  unfolding redirect_loop after_round
  Redirected-loop zero i request none c q h = absurd h
  Redirected-loop zero i request (some last) c q h = ap (λ t. raise (too_many_redirects t)) h
  Redirected-loop (suc k) i request last c q (response, c', sent, e, w, r) =
      rw (e, w) (Redirected-loop k (suc i) (keep_request request sent) (some response) c' q r)

  -- With a limit of n, TooManyRedirects is raised just when n + 1 rounds, one after the other, each return
  -- a redirection, and it carries the request of the last of these responses.
  pub handle_redirection-limit :
      (n : ℕ) (request : PendingRequest H (Body H C)) (c : HttpClient P) (q : Request H)
      → ((handle_redirection http class outside exchange others options (some (pos n)) request c).0
          ≡ raise (too_many_redirects q))
        ↔ Redirected (n + 1) 0 request none c q
  unfolding handle_redirection rounds
  handle_redirection-limit n request c q =
      (loop-Redirected (n + 1) 0 request none c q, Redirected-loop (n + 1) 0 request none c q)
