-- ===== src/Client/Built.antt =====
-- What the request that `fetch` builds is like (hiyori/http_client.py, hiyori/messages.py).
use hiyori.Prelude.{
  ◌≡◌, refl, Bool-cases, inl, inr, Option, none, some, List, [], ◌∷◌, map, codes, to_lower, Str,
  Lacks, split_once, split_once-Lacks, split_once-Lacks_other, arith, Bytes,
}
use hiyori.Outcome.{Outcome, Meets, bind-Meets}
use hiyori.Exceptions.{Error, value_error}
use hiyori.Headers.{HeaderDict}
use hiyori.Bodies.{bytes_body}
use hiyori.Body.{Body, of_bytes, empty}
use hiyori.Url.Split.{split_scheme, authority_and_rest, urlsplit, brackets_differ}
use hiyori.Messages.{
  HttpRequestMethod, PendingRequest, BodyArgument, contains_char-Lacks, pending_request,
  SchemeArgument, named, known, v1_1, scheme_of, scheme_argument,
}
use hiyori.Client.Fetch.{
  FetchBody, no_body, raw, given, form, Outside, choose_body, final_path_args, path_or_root,
  with_content_type, fetch_request,
}

-- ValueError, or a result for which `Q` holds.
abbrev OnlyValueError : {A : Type 0} → (A → Type 0) → Outcome Error A → Type 0
OnlyValueError Q o = Meets (λ e. e ≡ value_error) Q o

abbrev IsBare : Str → Type 0
IsBare path = Lacks b'?' path × Lacks b'#' path

path_or_root-IsBare : (path : Str) → IsBare path → IsBare (path_or_root path)
unfolding path_or_root
path_or_root-IsBare [] h = (ground arith, ground arith)
path_or_root-IsBare (c ∷ s) h = h

urlsplit-IsBare :
    (default url : Str) → OnlyValueError (λ parsed. IsBare parsed.path) (urlsplit default url)
unfolding urlsplit
urlsplit-IsBare default url =
    let (scheme, hier) = split_scheme default url in
    let (netloc, rest) = authority_and_rest hier in
    let front = (split_once b'#' rest).0 in
    elim (Bool-cases (brackets_differ netloc)) [
      | inl w ↦ rw w refl
      | inr w ↦ rw w (
        split_once-Lacks b'?' front,
        split_once-Lacks_other b'?' b'#' front (split_once-Lacks b'#' rest),
      )
    ]

scheme_of-OnlyValueError : (s : Str) → OnlyValueError (λ scheme. Unit) (scheme_of s)
unfolding scheme_of
scheme_of-OnlyValueError s = ground arith

scheme_argument-OnlyValueError :
    (scheme : SchemeArgument) → OnlyValueError (λ scheme. Unit) (scheme_argument scheme)
unfolding scheme_argument
scheme_argument-OnlyValueError (named s) = scheme_of-OnlyValueError (map to_lower s)
scheme_argument-OnlyValueError (known scheme) = tt

module _ {H C : Type 0} ⦃d : HeaderDict H⦄ (outside : Outside) where
  choose_body-OnlyValueError :
      (body : FetchBody H C) (json : Option Str)
      → OnlyValueError (λ chosen. Unit) (choose_body outside body json)
  unfolding choose_body
  choose_body-OnlyValueError no_body none = tt
  choose_body-OnlyValueError no_body (some json) = tt
  choose_body-OnlyValueError (raw b) none = tt
  choose_body-OnlyValueError (given b) none = tt
  choose_body-OnlyValueError (form fields) none = tt
  choose_body-OnlyValueError (raw b) (some json) = refl
  choose_body-OnlyValueError (given b) (some json) = refl
  choose_body-OnlyValueError (form fields) (some json) = refl

  -- A request for HTTP/1.1 by this method whose path has neither a query nor a fragment.
  abbrev pub IsBuilt : HttpRequestMethod → PendingRequest H (Body H C) → Type 0
  IsBuilt method r =
      (r.method ≡ method) × (r.version ≡ v1_1) × IsBare r.path × (r.cached_uri ≡ none)

  pending_request-OnlyValueError :
      (as_body : Bytes → Body H C) (nothing : Body H C) (identifier : Str)
      (method : HttpRequestMethod) (authority path : Str) (path_args : List (Str × Str))
      (scheme : SchemeArgument) (headers : List (Str × Str)) (body : BodyArgument (Body H C))
      → IsBare path
      → OnlyValueError (IsBuilt method) (
          pending_request as_body nothing identifier method authority path path_args scheme headers
            v1_1 body)
  unfolding pending_request
  pending_request-OnlyValueError as_body nothing identifier method authority path path_args scheme
        headers body bare =
      rw (contains_char-Lacks b'?' path bare.0) (
        bind-Meets (λ e. e ≡ value_error) (λ s. Unit) (IsBuilt method) (scheme_argument scheme) _
          (scheme_argument-OnlyValueError scheme) (λ s h. (refl, refl, bare, refl)))

  with_content_type-IsBuilt :
      (method : HttpRequestMethod) (type : Option Str) (r : PendingRequest H (Body H C))
      → IsBuilt method r
      → IsBuilt method (with_content_type outside type r)
  unfolding with_content_type
  with_content_type-IsBuilt method none r h = h
  with_content_type-IsBuilt method (some t) r h = h

  -- `fetch` builds a request by the method that it was asked for, for HTTP/1.1, with a path that has neither
  -- a query nor a fragment and no cached uri; or it raises ValueError. The assertion on the path never fails.
  pub fetch_request-IsBuilt :
      (method : HttpRequestMethod) (url : Str) (path_args headers : List (Str × Str))
      (body : FetchBody H C) (json : Option Str)
      → Meets
          (λ e. e ≡ value_error)
          (IsBuilt method)
          (fetch_request outside method url path_args headers body json)
  unfolding fetch_request
  fetch_request-IsBuilt method url path_args headers body json =
      bind-Meets (λ e. e ≡ value_error) (λ chosen. Unit) (IsBuilt method)
        (choose_body outside body json) _ (choose_body-OnlyValueError body json)
        (λ chosen _.
          bind-Meets (λ e. e ≡ value_error) (λ parsed. IsBare parsed.path) (IsBuilt method)
            (urlsplit (codes "http") url) _ (urlsplit-IsBare (codes "http") url)
            (λ parsed bare.
              bind-Meets (λ e. e ≡ value_error) (IsBuilt method) (IsBuilt method)
                (pending_request (λ b. of_bytes (bytes_body b)) empty outside.identifier method
                  parsed.netloc (path_or_root parsed.path)
                  (final_path_args H parsed.query path_args) (named parsed.scheme) headers v1_1
                  chosen.0)
                _
                (pending_request-OnlyValueError (λ b. of_bytes (bytes_body b)) empty
                  outside.identifier method parsed.netloc (path_or_root parsed.path)
                  (final_path_args H parsed.query path_args) (named parsed.scheme) headers chosen.0
                  (path_or_root-IsBare parsed.path bare))
                (λ request built. with_content_type-IsBuilt method chosen.1 request built)))
