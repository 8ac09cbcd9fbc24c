-- ===== src/Client/Balance.antt =====
-- Every call of a client leaves its read lock as often as it enters it.
use hiyori.Prelude.{
  ℕ, zero, suc, ◌≡◌, refl, ◌∙◌, Bool, true, false, Option, none, some, List, Str, ℤ, arith,
}
use hiyori.Outcome.{Outcome, ok, raise}
use hiyori.Exceptions.{Error}
use hiyori.Headers.{HeaderDict}
use hiyori.Bodies.{RequestBody}
use hiyori.Body.{Body}
use hiyori.Messages.{HttpRequestMethod, PendingRequest, Response}
use hiyori.Connection.Http.{HttpProtocol}
use hiyori.Connection.Send.{Exchange}
use hiyori.Client.Pool.{HttpClient}
use hiyori.Client.Send.{Options}
use hiyori.Client.Fetch.{FetchBody, Outside, fetch_request}
use hiyori.Client.Calls.{Result, Call, keep_request}
use hiyori.Client.Redirect.{after_round, round, redirect_loop, handle_redirection, send_request}
use hiyori.Client.Verbs.{Keywords, send_with, fetch}
use hiyori.Client.Count.{count, count-send_plain, count-locked, count-round}

module _ {P H C : Type 0} where
  count-after_round :
      (rest : PendingRequest H (Body H C) → Response H → HttpClient P → Result P H)
      (request : PendingRequest H (Body H C)) (x : Call P H C)
      → ((request' : PendingRequest H (Body H C)) (last : Response H)
          → count (rest request' last x.1).1 ≡ count x.1)
      → count (after_round rest request x).1 ≡ count x.1
  unfolding after_round
  count-after_round rest request (raise e, c, sent) h = refl
  count-after_round rest request (ok response, c, sent) h =
      ground (arith, h (keep_request request sent) response)

module _ {P H C : Type 0} ⦃d : HeaderDict H⦄ (http_protocol : HttpProtocol P H)
    (class : RequestBody C) (outside : Outside)
    (exchange : ℕ
      → Bool
      → ℕ
      → Exchange P H (Body H C)
      → Outcome Error (Response H) × Exchange P H (Body H C))
    (others : ℕ → HttpClient P → HttpClient P)
    (quiet : (i : ℕ) (c : HttpClient P) → count (others i c) ≡ count c) where
  count-loop :
      (options : Options) (k i : ℕ) (request : PendingRequest H (Body H C))
      (last : Option (Response H)) (c : HttpClient P)
      → count
          (redirect_loop http_protocol class outside exchange others k i options request last c).1
        ≡ count c
  unfolding redirect_loop
  count-loop options zero i request none c = refl
  count-loop options zero i request (some last) c = refl
  count-loop options (suc k) i request last c =
      count-after_round
        (λ q response c'.
          redirect_loop http_protocol class outside exchange others k (suc i) options q
            (some response) c')
        request (round http_protocol class outside (exchange i) (others i) options request last c)
        (λ q response. count-loop options k (suc i) q (some response) _)
      ∙ count-round http_protocol class outside (exchange i) (others i) (quiet i) options request
          last c

  count-send_request :
      (options : Options) (follow_redirection : Bool) (max_redirects : Option ℤ)
      (request : PendingRequest H (Body H C)) (c : HttpClient P)
      → count
          (send_request http_protocol class outside exchange others options follow_redirection
            max_redirects request c).1
        ≡ count c
  unfolding send_request handle_redirection
  count-send_request options true max_redirects request c = count-loop options _ 0 request none c
  count-send_request options false max_redirects request c =
      count-send_plain http_protocol class outside (exchange 0) (others 0) (quiet 0) options request
        c

  pub count-send_with :
      (k : Keywords) (request : PendingRequest H (Body H C)) (c : HttpClient P)
      → count (send_with http_protocol class outside exchange others k request c).1 ≡ count c
  unfolding send_with
  count-send_with k request c =
      count-send_request k.options k.follow_redirection k.max_redirects request c

  -- Whatever the url, the body, the servers and the options: when `fetch` ends, with a response or
  -- an exception, after any number of redirections, as many calls are inside the read lock as
  -- before, if what other tasks do in each exchange leaves that number as it was.
  pub fetch-count :
      (method : HttpRequestMethod) (url : Str) (path_args headers : List (Str × Str))
      (body : FetchBody H C) (json : Option Str) (k : Keywords) (c : HttpClient P)
      → (fetch http_protocol class outside exchange others method url path_args headers body json k
          c).1.lock.count
        ≡ c.lock.count
  unfolding fetch
  fetch-count method url path_args headers body json k c =
      count-locked http_protocol class outside (exchange 0) (others 0) (quiet 0)
        (fetch_request outside method url path_args headers body json)
        (send_with http_protocol class outside exchange others k) (count-send_with k) c
