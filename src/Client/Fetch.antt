-- ===== src/Client/Fetch.antt =====
-- HttpClient.fetch of hiyori/http_client.py up to its call of `send_request`: the request that it
-- builds. Arguments stand for `mimetypes.guess_type`, for the text of `uuid.uuid4()`, and for the user agent
-- with the version text of magichttp.
use hiyori.Prelude.{Option, none, some, List, [], ◌∷◌, Str, Bytes, codes}
use hiyori.Outcome.{Outcome, ok, raise, ◌>>=◌}
use hiyori.Exceptions.{Error, value_error}
use hiyori.Headers.{HeaderDict}
use hiyori.Bodies.{bytes_body}
use hiyori.Multipart.Form.{FormValue, text, multipart_body, content_type}
use hiyori.Body.{Body, of_bytes, empty, of_form, url_encoded_body, json_body}
use hiyori.Url.Query.{parse_qsl}
use hiyori.Url.Split.{urlsplit}
use hiyori.Messages.{HttpRequestMethod, PendingRequest, BodyArgument, named, v1_1, pending_request}

-- the argument `body`; a `json` argument is given by the text of its dump.
pub data FetchBody (H C : Type 0) : Type 0 where
  no_body : FetchBody H C
  raw : Bytes → FetchBody H C
  given : Body H C → FetchBody H C
  form : List (Str × FormValue H) → FetchBody H C

-- The fields of a form whose values are all texts; `none` where the loop breaks.
unfoldable pub all_texts : {H : Type 0} → List (Str × FormValue H) → Option (List (Str × Str))
all_texts [] = some []
all_texts ((name, text value) ∷ rest) = elim (all_texts rest) [
  | none ↦ none
  | some fields ↦ some ((name, value) ∷ fields)
]
all_texts (_ ∷ rest) = none

-- `parsed_url.path or "/"`
unfoldable pub path_or_root : Str → Str
path_or_root [] = b'/' ∷ []
path_or_root (c ∷ s) = c ∷ s

-- What the library takes from elsewhere.
pub record Outside : Type 0 where
  pub guess_type : Str → Option Str
  pub uuid : Str
  pub identifier : Str

-- the query of the url, then `path_args`
unfoldable pub final_path_args :
    (H : Type 0) ⦃d : HeaderDict H⦄ → Str → List (Str × Str) → List (Str × Str)
unfolding parse_qsl
final_path_args H ⦃d⦄ query path_args =
    let from_url : H = elim query [
      | [] ↦ d.from_items []
      | c ∷ s ↦ d.update (parse_qsl (c ∷ s)) (d.from_items [])
    ] in
    d.items (elim path_args [ [] ↦ from_url | e ∷ rest ↦ d.update (e ∷ rest) from_url ])

module _ {H C : Type 0} ⦃d : HeaderDict H⦄ (outside : Outside) where
  open outside use {guess_type, uuid, identifier}

  -- a form as it is sent: as a multipart form, unless its values are all texts
  unfoldable pub form_body :
      List (Str × FormValue H) → Option (List (Str × Str)) → BodyArgument (Body H C) × Option Str
  unfolding url_encoded_body multipart_body
  form_body fields (some texts) = (
    BodyArgument.given (of_bytes (url_encoded_body texts)),
    some (codes "application/x-www-form-urlencoded"),
  )
  form_body fields none =
      let m = multipart_body guess_type uuid fields in
      (BodyArgument.given (of_form m), some (content_type m))

  -- the branches on `body` and `json`: the body, and the content type that is set
  unfoldable pub choose_body :
      FetchBody H C → Option Str → Outcome Error (BodyArgument (Body H C) × Option Str)
  unfolding all_texts json_body form_body
  choose_body no_body none = ok (BodyArgument.no_body, none)
  choose_body no_body (some json) =
      ok (BodyArgument.given (of_bytes (json_body json)), some (codes "application/json"))
  choose_body (raw b) none = ok (BodyArgument.raw b, none)
  choose_body (given b) none = ok (BodyArgument.given b, none)
  choose_body (form fields) none = ok (form_body fields (all_texts fields))
  choose_body _ (some json) = raise value_error

  -- `if content_type: request.headers["content-type"] = content_type`
  unfoldable pub with_content_type :
      Option Str → PendingRequest H (Body H C) → PendingRequest H (Body H C)
  with_content_type none r = r
  with_content_type (some t) r = record r { headers = d.set (codes "content-type") t r.headers }

  unfoldable pub fetch_request :
      HttpRequestMethod
      → Str
      → List (Str × Str)
      → List (Str × Str)
      → FetchBody H C
      → Option Str
      → Outcome Error (PendingRequest H (Body H C))
  unfolding choose_body urlsplit final_path_args path_or_root pending_request with_content_type
      bytes_body
  fetch_request method url path_args headers body json = do
    (chosen, type) ← choose_body body json
    parsed ← urlsplit (codes "http") url
    request ←
        pending_request (λ b. of_bytes (bytes_body b)) empty identifier method parsed.netloc
          (path_or_root parsed.path) (final_path_args H parsed.query path_args)
          (named parsed.scheme) headers v1_1 chosen
    ok (with_content_type type request)
