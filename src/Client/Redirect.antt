-- ===== src/Client/Redirect.antt =====
-- `_handle_redirection`, `send_request` and `fetch` of hiyori/http_client.py. The
-- exchanges on connections and what other tasks do meanwhile are arguments.
use hiyori.Prelude.{
  ℕ, zero, suc, ◌+◌, Bool, ◌||◌, Option, none, some, List, [], ◌++◌, Str, codes, starts_with, ltb,
  ◌==◌, ℤ, pos, negsuc, if◌then◌else◌,
}
use hiyori.Outcome.{Outcome, ok, raise}
use hiyori.Exceptions.{Error, bad_response, failed_redirection, not_implemented, unbound_local}
use hiyori.Headers.{HeaderDict}
use hiyori.Bodies.{RequestBody}
use hiyori.Body
use hiyori.Body.{Body, body_class}
use hiyori.Messages.{
  HttpRequestMethod, method_get, HttpScheme, http, https, PendingRequest, Response,
}
use hiyori.Connection.Http.{HttpProtocol}
use hiyori.Connection.Send.{Exchange}
use hiyori.Client.Pool.{HttpClient}
use hiyori.Client.Errors.{ClientError, lower, too_many_redirects}
use hiyori.Client.Send.{Options, or_default}
use hiyori.Client.Fetch.{FetchBody, no_body, given, Outside, fetch_request}
use hiyori.Client.Calls.{Result, Call, keep_request, send_plain, locked}

-- `status_code in (301, 302, 303, 307, 308)`
unfoldable pub is_redirect : ℕ → Bool
is_redirect s = s == 301 || s == 302 || s == 303 || s == 307 || s == 308

-- `_ABSOLUTE_PATH_RE.match(location)`, for `^(http:/|https:/)?/`
unfoldable pub is_absolute : Str → Bool
unfolding starts_with
is_absolute s =
    starts_with (codes "/") s || starts_with (codes "http://") s || starts_with (codes "https://") s

-- `scheme.value.lower()`
unfoldable pub scheme_text : HttpScheme → Str
scheme_text http = codes "http"
scheme_text https = codes "https"

module _ {H B : Type 0} where
  -- An absolute path is taken at the scheme and the authority of the first request.
  unfoldable pub target : PendingRequest H B → Str → Str
  unfolding scheme_text starts_with
  target request location =
      if starts_with (codes "/") location
      then scheme_text request.scheme ++ (codes "://" ++ (request.authority ++ location))
      else location

-- `range(0, max_redirects + 1)` has so many rounds.
unfoldable pub rounds : ℤ → ℕ
rounds (pos n) = n + 1
rounds (negsuc n) = 0

module _ {P H C : Type 0} where
  -- `if response.status_code not in …: return response`, or the rest of the loop
  unfoldable pub after_round :
      (PendingRequest H (Body H C) → Response H → HttpClient P → Result P H)
      → PendingRequest H (Body H C)
      → Call P H C
      → Result P H
  unfolding is_redirect
  after_round rest request (raise e, c, sent) = (raise e, c)
  after_round rest request (ok response, c, sent) =
      if is_redirect response.status_code
      then rest (keep_request request sent) response c
      else (ok response, c)

module _ {P H C : Type 0} ⦃d : HeaderDict H⦄ (http_protocol : HttpProtocol P H)
    (class : RequestBody C) (outside : Outside)
    (exchange : Bool
      → ℕ
      → Exchange P H (Body H C)
      → Outcome Error (Response H) × Exchange P H (Body H C))
    (others : HttpClient P → HttpClient P) where
  -- the method, the body and the headers of the next request
  unfoldable pub next_request :
      PendingRequest H (Body H C)
      → Response H
      → Outcome Error (HttpRequestMethod × FetchBody H C × List (Str × Str))
        × PendingRequest H (Body H C)
  unfolding Body.seek_front
  next_request request response =
      if ltb response.status_code 304
      then (ok (method_get, no_body, []), request)
      else let (r, b) = Body.seek_front class request.body in
        let request' = record request { body = b } in
        elim r [
          | raise not_implemented ↦ (raise failed_redirection, request')
          | raise e ↦ (raise e, request')
          | ok _ ↦ (ok (request.method, given b, d.items request.headers), request')
        ]

  -- The options of a hop: `max_body_size` is not handed on.
  abbrev pub hop_options : Options → Options
  hop_options options = record options { max_body_size = none }

  -- The request that the loop holds, after a hop: a body that was sent again is the same object.
  unfoldable pub resent :
      PendingRequest H (Body H C)
      → Response H
      → Option (PendingRequest H (Body H C))
      → PendingRequest H (Body H C)
  resent request response none = request
  resent request response (some sent) =
      if ltb response.status_code 304 then request else record request { body = sent.body }

  -- the call of `fetch` in the loop, for what `next_request` gives
  unfoldable pub refetch :
      Options
      → Response H
      → Str
      → Outcome Error (HttpRequestMethod × FetchBody H C × List (Str × Str))
        × PendingRequest H (Body H C)
      → HttpClient P
      → Call P H C
  unfolding target locked send_plain fetch_request resent
  refetch options response location (raise e, request) c = (raise (lower e), c, some request)
  refetch options response location (ok (method, body, headers), request) c =
      let (r, c', sent) =
        locked http_protocol class outside exchange others
          (fetch_request outside method (target request location) [] headers body none)
          (send_plain http_protocol class outside exchange others (hop_options options)) c in
      (r, c', some (resent request response sent))

  -- for the header `location` of the last response
  unfoldable pub follow :
      Options → PendingRequest H (Body H C) → Response H → Option Str → HttpClient P → Call P H C
  unfolding is_absolute next_request refetch
  follow options request response none c = (raise (lower bad_response), c, some request)
  follow options request response (some location) c =
      if is_absolute location
      then refetch options response location (next_request request response) c
      else (raise (lower failed_redirection), c, some request)

  -- a round after the first: from the last response to the next, and the first request as it is then
  unfoldable pub hop :
      Options → PendingRequest H (Body H C) → Response H → HttpClient P → Call P H C
  unfolding follow
  hop options request response c =
      follow options request response (d.get? (codes "location") response.headers) c

  -- the exchange of a round, with the last response if there is one
  unfoldable pub round :
      Options → PendingRequest H (Body H C) → Option (Response H) → HttpClient P → Call P H C
  unfolding send_plain hop
  round options request none c =
      send_plain http_protocol class outside exchange others options request c
  round options request (some response) c = hop options request response c

-- Each exchange has a number, from 0 for the first, and an answer and an effect of other tasks of
-- its own.
module _ {P H C : Type 0} ⦃d : HeaderDict H⦄ (http_protocol : HttpProtocol P H)
    (class : RequestBody C) (outside : Outside)
    (exchange : ℕ
      → Bool
      → ℕ
      → Exchange P H (Body H C)
      → Outcome Error (Response H) × Exchange P H (Body H C))
    (others : ℕ → HttpClient P → HttpClient P) where
  -- the `for` loop, with the rounds that are left, and its `else` clause: without a round `response`
  -- is unbound there
  unfoldable pub redirect_loop :
      ℕ
      → ℕ
      → Options
      → PendingRequest H (Body H C)
      → Option (Response H)
      → HttpClient P
      → Result P H
  unfolding round after_round
  redirect_loop zero i options request none c = (raise (lower unbound_local), c)
  redirect_loop zero i options request (some last) c = (raise (too_many_redirects last.request), c)
  redirect_loop (suc k) i options request last c =
      after_round
        (λ request' response c'. redirect_loop k (suc i) options request' (some response) c')
        request (round http_protocol class outside (exchange i) (others i) options request last c)

  -- `_handle_redirection`
  unfoldable pub handle_redirection :
      Options
      → Option ℤ
      → PendingRequest H (Body H C)
      → HttpClient P
      → Outcome (ClientError H) (Response H) × HttpClient P
  unfolding redirect_loop rounds
  handle_redirection options max_redirects request c =
      redirect_loop (rounds (or_default (pos c.max_redirects) max_redirects)) 0 options request none
        c

  -- `send_request`
  unfoldable pub send_request :
      Options
      → Bool
      → Option ℤ
      → PendingRequest H (Body H C)
      → HttpClient P
      → Outcome (ClientError H) (Response H) × HttpClient P
  unfolding handle_redirection send_plain
  send_request options follow_redirection max_redirects request c =
      if follow_redirection
      then handle_redirection options max_redirects request c
      else (let (r, c', _) =
            send_plain http_protocol class outside (exchange 0) (others 0) options request c in
          (r, c'))
