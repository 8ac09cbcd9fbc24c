-- ===== src/Client/Verbs.antt =====
-- `fetch` and the methods named for HTTP's of HttpClient (hiyori/http_client.py).
use hiyori.Prelude.{ℕ, Bool, true, Option, none, List, Str, ℤ}
use hiyori.Outcome.{Outcome}
use hiyori.Exceptions.{Error}
use hiyori.Headers.{HeaderDict}
use hiyori.Bodies.{RequestBody}
use hiyori.Body.{Body}
use hiyori.Messages.{
  HttpRequestMethod, method_get, method_post, method_put, method_delete, method_head,
  method_options, method_patch, PendingRequest, Response,
}
use hiyori.Connection.Http.{HttpProtocol}
use hiyori.Connection.Send.{Exchange}
use hiyori.Client.Pool.{HttpClient}
use hiyori.Client.Errors.{ClientError}
use hiyori.Client.Send.{Options}
use hiyori.Client.Fetch.{FetchBody, no_body, Outside, fetch_request}
use hiyori.Client.Calls.{Call, locked}
use hiyori.Client.Redirect.{send_request}

-- The keyword arguments that `fetch` hands to `send_request`, of which `head` has two fewer.
pub record Keywords : Type 0 where
  pub options : Options
  pub follow_redirection : Bool
  pub max_redirects : Option ℤ

abbrev pub head_options : Option Bool → Options
head_options raise_error = record {
  read_response_body = true;
  max_body_size = none;
  raise_error = raise_error;
}

module _ {P H C : Type 0} ⦃d : HeaderDict H⦄ (http_protocol : HttpProtocol P H)
    (class : RequestBody C) (outside : Outside)
    (exchange : ℕ
      → Bool
      → ℕ
      → Exchange P H (Body H C)
      → Outcome Error (Response H) × Exchange P H (Body H C))
    (others : ℕ → HttpClient P → HttpClient P) where
  -- `send_request` with the keyword arguments of `fetch`
  unfoldable pub send_with : Keywords → PendingRequest H (Body H C) → HttpClient P → Call P H C
  unfolding send_request
  send_with k request c =
      let (r, c') =
        send_request http_protocol class outside exchange others k.options k.follow_redirection
          k.max_redirects request c in
      (r, c', none)

  -- `fetch`
  unfoldable pub fetch :
      HttpRequestMethod
      → Str
      → List (Str × Str)
      → List (Str × Str)
      → FetchBody H C
      → Option Str
      → Keywords
      → HttpClient P
      → Outcome (ClientError H) (Response H) × HttpClient P
  unfolding locked fetch_request send_with
  fetch method url path_args headers body json k c =
      let (r, c', _) =
        locked http_protocol class outside (exchange 0) (others 0)
          (fetch_request outside method url path_args headers body json) (send_with k) c in
      (r, c')

  -- the methods without a body
  unfoldable pub head :
      Str
      → List (Str × Str)
      → List (Str × Str)
      → Option Bool
      → Bool
      → Option ℤ
      → HttpClient P
      → Outcome (ClientError H) (Response H) × HttpClient P
  unfolding fetch
  head url path_args headers raise_error follow_redirection max_redirects c =
      fetch method_head url path_args headers no_body none
        (record {
          options = head_options raise_error;
          follow_redirection = follow_redirection;
          max_redirects = max_redirects;
        })
        c

  unfoldable pub get :
      Str
      → List (Str × Str)
      → List (Str × Str)
      → Keywords
      → HttpClient P
      → Outcome (ClientError H) (Response H) × HttpClient P
  unfolding fetch
  get url path_args headers k c = fetch method_get url path_args headers no_body none k c

  unfoldable pub options :
      Str
      → List (Str × Str)
      → List (Str × Str)
      → Keywords
      → HttpClient P
      → Outcome (ClientError H) (Response H) × HttpClient P
  unfolding fetch
  options url path_args headers k c = fetch method_options url path_args headers no_body none k c

  -- the methods with a body
  unfoldable pub post :
      Str
      → List (Str × Str)
      → List (Str × Str)
      → FetchBody H C
      → Option Str
      → Keywords
      → HttpClient P
      → Outcome (ClientError H) (Response H) × HttpClient P
  unfolding fetch
  post url path_args headers body json k c = fetch method_post url path_args headers body json k c

  unfoldable pub put :
      Str
      → List (Str × Str)
      → List (Str × Str)
      → FetchBody H C
      → Option Str
      → Keywords
      → HttpClient P
      → Outcome (ClientError H) (Response H) × HttpClient P
  unfolding fetch
  put url path_args headers body json k c = fetch method_put url path_args headers body json k c

  unfoldable pub delete :
      Str
      → List (Str × Str)
      → List (Str × Str)
      → FetchBody H C
      → Option Str
      → Keywords
      → HttpClient P
      → Outcome (ClientError H) (Response H) × HttpClient P
  unfolding fetch
  delete url path_args headers body json k c =
      fetch method_delete url path_args headers body json k c

  unfoldable pub patch :
      Str
      → List (Str × Str)
      → List (Str × Str)
      → FetchBody H C
      → Option Str
      → Keywords
      → HttpClient P
      → Outcome (ClientError H) (Response H) × HttpClient P
  unfolding fetch
  patch url path_args headers body json k c = fetch method_patch url path_args headers body json k c
