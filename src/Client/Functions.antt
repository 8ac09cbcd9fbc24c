-- ===== src/Client/Functions.antt =====
-- The functions of hiyori/http_client.py, which use a client of their own for one call.
use hiyori.Prelude.{ℕ, Bool, true, false, Option, none, some, List, [], Str, ℤ}
use hiyori.Outcome.{Outcome}
use hiyori.Exceptions.{Error}
use hiyori.Headers.{HeaderDict}
use hiyori.Bodies.{RequestBody}
use hiyori.Body.{Body}
use hiyori.Messages.{
  HttpRequestMethod, method_get, method_post, method_put, method_delete, method_head,
  method_options, method_patch, Response,
}
use hiyori.Connection.Http.{HttpProtocol}
use hiyori.Connection.Send.{Exchange}
use hiyori.Client.Lock.{client_lock, close_enter}
use hiyori.Client.Pool.{HttpClient, close_client}
use hiyori.Client.Errors.{ClientError}
use hiyori.Client.Fetch.{FetchBody, no_body, Outside}
use hiyori.Client.Calls.{Result}
use hiyori.Client.Verbs
use hiyori.Client.Verbs.{Keywords, head_options}

-- HttpClient()
unfoldable pub default_client : {P : Type 0} → HttpClient P
unfolding client_lock
default_client = record {
  allow_keep_alive = true;
  max_initial_size = 65536;
  max_body_size = 2097152;
  chunk_size = 131072;
  idle_timeout = 10;
  max_redirects = 10;
  raise_error = true;
  conns = [];
  lock = client_lock;
}

-- `close` sets its flag and waits until no call is inside; on a client that nobody else has, it waits
-- for ever if it is not idle then, which is `none`.
unfoldable pub close_when :
    {P H : Type 0}
    → HttpProtocol P H
    → Bool
    → Result P H
    → Option (Outcome (ClientError H) (Response H) × HttpClient P)
unfolding close_enter close_client
close_when http_protocol true (r, c) =
    some (r, (close_client http_protocol (record c { lock = close_enter c.lock })).1)
close_when http_protocol false (r, c) = none

abbrev pub close_alone :
    {P H : Type 0}
    → HttpProtocol P H
    → Result P H
    → Option (Outcome (ClientError H) (Response H) × HttpClient P)
close_alone http_protocol x = close_when http_protocol x.1.lock.idling x

module _ {P H C : Type 0} ⦃d : HeaderDict H⦄ (http_protocol : HttpProtocol P H)
    (class : RequestBody C) (outside : Outside)
    (exchange : ℕ
      → Bool
      → ℕ
      → Exchange P H (Body H C)
      → Outcome Error (Response H) × Exchange P H (Body H C))
    (others : ℕ → HttpClient P → HttpClient P) where
  -- `fetch`: `async with HttpClient() as client`, whose `__aexit__` closes the client
  unfoldable pub fetch :
      HttpRequestMethod
      → Str
      → List (Str × Str)
      → List (Str × Str)
      → FetchBody H C
      → Option Str
      → Keywords
      → Option (Outcome (ClientError H) (Response H) × HttpClient P)
  unfolding Verbs.fetch close_when default_client
  fetch method url path_args headers body json k = close_alone http_protocol (
      Verbs.fetch http_protocol class outside exchange others method url path_args headers body json
        k default_client)

  -- the functions without a body
  unfoldable pub head :
      Str
      → List (Str × Str)
      → List (Str × Str)
      → Option Bool
      → Bool
      → Option ℤ
      → Option (Outcome (ClientError H) (Response H) × HttpClient P)
  unfolding fetch
  head url path_args headers raise_error follow_redirection max_redirects =
      fetch method_head url path_args headers no_body none (record {
        options = head_options raise_error;
        follow_redirection = follow_redirection;
        max_redirects = max_redirects;
      })

  unfoldable pub get :
      Str
      → List (Str × Str)
      → List (Str × Str)
      → Keywords
      → Option (Outcome (ClientError H) (Response H) × HttpClient P)
  unfolding fetch
  get url path_args headers k = fetch method_get url path_args headers no_body none k

  unfoldable pub options :
      Str
      → List (Str × Str)
      → List (Str × Str)
      → Keywords
      → Option (Outcome (ClientError H) (Response H) × HttpClient P)
  unfolding fetch
  options url path_args headers k = fetch method_options url path_args headers no_body none k

  -- the functions with a body
  unfoldable pub post :
      Str
      → List (Str × Str)
      → List (Str × Str)
      → FetchBody H C
      → Option Str
      → Keywords
      → Option (Outcome (ClientError H) (Response H) × HttpClient P)
  unfolding fetch
  post url path_args headers body json k = fetch method_post url path_args headers body json k

  unfoldable pub put :
      Str
      → List (Str × Str)
      → List (Str × Str)
      → FetchBody H C
      → Option Str
      → Keywords
      → Option (Outcome (ClientError H) (Response H) × HttpClient P)
  unfolding fetch
  put url path_args headers body json k = fetch method_put url path_args headers body json k

  unfoldable pub delete :
      Str
      → List (Str × Str)
      → List (Str × Str)
      → FetchBody H C
      → Option Str
      → Keywords
      → Option (Outcome (ClientError H) (Response H) × HttpClient P)
  unfolding fetch
  delete url path_args headers body json k = fetch method_delete url path_args headers body json k

  unfoldable pub patch :
      Str
      → List (Str × Str)
      → List (Str × Str)
      → FetchBody H C
      → Option Str
      → Keywords
      → Option (Outcome (ClientError H) (Response H) × HttpClient P)
  unfolding fetch
  patch url path_args headers body json k = fetch method_patch url path_args headers body json k
