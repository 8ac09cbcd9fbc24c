-- ===== src/Client/Target.antt =====
-- The request that `fetch` builds for the target of a redirection whose location is a uri of a request
-- (hiyori/http_client.py, hiyori/messages.py).
use hiyori.Prelude.{
  ℕ, ◌≡◌, ◌≢◌, refl, ap, ◌∙◌, true, false, map, Option, none, some, List, [], ◌∷◌, ◌++◌, codes,
  to_lower, starts_with, Str, Lacks, ◌=s=◌, split_once, arith,
}
use hiyori.Outcome.{ok}
use hiyori.Headers.{HeaderDict}
use hiyori.Bodies.{bytes_body}
use hiyori.Body.{Body, of_bytes, empty}
use hiyori.Url.{quote_plus, urlencode}
use hiyori.Url.Split.{
  query_of, split_scheme, is_scheme, all_scheme_chars, is_scheme_char, is_letter,
}
use hiyori.Url.Split.Parts.{IsAuthority, with_query, LacksFragment, urlsplit-with_query}
use hiyori.Url.Query.{parse_qsl}
use hiyori.Url.Query.RoundTrip.{AreTexts, filled, parse_qsl-urlencode, urlencode-Lacks}
use hiyori.Messages.{
  HttpScheme, http, https, HttpRequestMethod, PendingRequest, BodyArgument, contains_char-Lacks,
  request_body, pending_request, named, v1_1, uri_of, scheme_of, scheme_argument,
}
use hiyori.Client.Fetch.{
  FetchBody, Outside, choose_body, final_path_args, path_or_root, with_content_type, fetch_request,
}
use hiyori.Client.Redirect.{scheme_text, target}

-- The arguments in the dictionary that `fetch` makes of a query, without those that have no value.
abbrev args_of : (H : Type 0) ⦃d : HeaderDict H⦄ → List (Str × Str) → List (Str × Str)
args_of H ⦃d⦄ [] = d.items (d.from_items [])
args_of H ⦃d⦄ (e ∷ args) = d.items (d.update (filled (e ∷ args)) (d.from_items []))

-- The name differs from those of the pairs, case aside.
abbrev pub IsFresh : Str → List (Str × Str) → Type 0
IsFresh name [] = Unit
IsFresh name ((k, v) ∷ pairs) =
    ((map to_lower k =s= map to_lower name) ≡ false) × IsFresh name pairs

-- So do all their names from one another.
abbrev pub AreDistinct : List (Str × Str) → Type 0
AreDistinct [] = Unit
AreDistinct ((k, v) ∷ pairs) = IsFresh k pairs × AreDistinct pairs

abbrev query_part : List (Str × Str) → Option Str
query_part [] = none
query_part (e ∷ args) = some (urlencode (e ∷ args))

uri_of-with_query :
    (path : Str) (args : List (Str × Str)) → uri_of path args ≡ with_query path (query_part args)
unfolding uri_of
uri_of-with_query path [] = refl
uri_of-with_query path (e ∷ args) = refl

query_part-LacksFragment :
    (args : List (Str × Str)) → AreTexts args → LacksFragment (query_part args)
query_part-LacksFragment [] h = tt
query_part-LacksFragment (e ∷ args) h = urlencode-Lacks (e ∷ args) h

split_scheme-scheme_text :
    (scheme : HttpScheme) (rest : Str)
    → split_scheme (codes "http") (scheme_text scheme ++ (codes "://" ++ rest))
      ≡ (scheme_text scheme, b'/' ∷ b'/' ∷ rest)
unfolding split_scheme is_scheme is_letter all_scheme_chars is_scheme_char to_lower split_once
    scheme_text
split_scheme-scheme_text http rest = refl
split_scheme-scheme_text https rest = refl

scheme_argument-scheme_text :
    (scheme : HttpScheme) → scheme_argument (named (scheme_text scheme)) ≡ ok scheme
unfolding scheme_argument scheme_of scheme_text to_lower ◌=s=◌
scheme_argument-scheme_text http = refl
scheme_argument-scheme_text https = refl

append-filled : (s : Str) (c : ℕ) (t : Str) → s ++ c ∷ t ≢ []
append-filled [] c t e = cc
append-filled (x ∷ s) c t e = cc

urlencode-filled : (e : Str × Str) (args : List (Str × Str)) → urlencode (e ∷ args) ≢ []
unfolding urlencode
urlencode-filled (k, v) [] = append-filled (quote_plus k) b'=' (quote_plus v)
urlencode-filled (k, v) (e ∷ rest) =
    append-filled (quote_plus k) b'=' (quote_plus v ++ b'&' ∷ urlencode (e ∷ rest))

module _ (H : Type 0) ⦃d : HeaderDict H⦄ where
  final_path_args-filled :
      (query : Str)
      → query ≢ []
      → final_path_args H query [] ≡ d.items (d.update (parse_qsl query) (d.from_items []))
  unfolding final_path_args
  final_path_args-filled [] h = absurd (h refl)
  final_path_args-filled (c ∷ s) h = refl

  args_of-filled :
      (empty_dict : d.items (d.from_items []) ≡ [])
      (keeps : (pairs : List (Str × Str))
        → AreDistinct pairs
        → d.items (d.update pairs (d.from_items [])) ≡ pairs)
      (args : List (Str × Str))
      → AreDistinct (filled args)
      → args_of H args ≡ filled args
  args_of-filled empty_dict keeps [] h = empty_dict
  args_of-filled empty_dict keeps (e ∷ args) h = keeps (filled (e ∷ args)) h

  final_path_args-query_part :
      (args : List (Str × Str))
      → AreTexts args
      → final_path_args H (query_of (query_part args)) [] ≡ args_of H args
  unfolding final_path_args
  final_path_args-query_part [] h = refl
  final_path_args-query_part (e ∷ args) h =
      final_path_args-filled (urlencode (e ∷ args)) (urlencode-filled e args)
      ∙ ap (λ pairs. d.items (d.update pairs (d.from_items []))) (parse_qsl-urlencode (e ∷ args) h)

starts_with-root :
    (path : Str) (args : List (Str × Str))
    → starts_with (codes "/") (uri_of (b'/' ∷ path) args) ≡ true
unfolding starts_with uri_of
starts_with-root path [] = refl
starts_with-root path (e ∷ args) = refl

module _ {H C : Type 0} ⦃d : HeaderDict H⦄ where
  fetch_request-args_of :
      (outside : Outside) (method : HttpRequestMethod) (request : PendingRequest H (Body H C))
      (path : Str) (args headers : List (Str × Str)) (body : FetchBody H C) (json : Option Str)
      (chosen : BodyArgument (Body H C)) (type : Option Str)
      → choose_body outside body json ≡ ok (chosen, type)
      → IsAuthority request.authority
      → Lacks b'?' path
      → Lacks b'#' path
      → AreTexts args
      → fetch_request outside method
          (target request (uri_of (b'/' ∷ path) args))
          []
          headers
          body
          json
        ≡ ok (
            with_content_type outside type (record {
              method = method;
              version = v1_1;
              authority = request.authority;
              scheme = request.scheme;
              path = b'/' ∷ path;
              path_args = args_of H args;
              headers = d.setdefault (codes "user-agent") outside.identifier (d.from_items headers);
              cached_uri = none;
              body = request_body (λ b. of_bytes (bytes_body b)) empty chosen;
            }))
  unfolding fetch_request target starts_with pending_request path_or_root
  fetch_request-args_of outside method request path args headers body json chosen type choice good
        no_query no_fragment texts =
      let location = uri_of-with_query (b'/' ∷ path) args in
      let front =
        split_scheme-scheme_text request.scheme
          (request.authority ++ with_query (b'/' ∷ path) (query_part args)) in
      rw
        (
          choice,
          starts_with-root path args,
          location,
          urlsplit-with_query (codes "http")
              (scheme_text request.scheme
                ++ (codes "://"
                    ++ (request.authority ++ with_query (b'/' ∷ path) (query_part args))))
              (scheme_text request.scheme) request.authority path (query_part args) front good
              no_query no_fragment (query_part-LacksFragment args texts),
          final_path_args-query_part H args texts,
          contains_char-Lacks b'?' (b'/' ∷ path) (ground arith, no_query),
          scheme_argument-scheme_text request.scheme,
        )
        refl

  -- A location that is a uri of a request, an absolute path with its arguments, leads to a request with
  -- the authority and the scheme of the request that was redirected, with this path, and with exactly
  -- those arguments whose values are not empty, in their order. The authority has none of `/?#` and
  -- brackets in pairs, the path neither `?` nor `#`, the arguments are texts, and the names of those
  -- with a value differ, case aside. A new dictionary has no items, and after an update by pairs whose
  -- names differ in this way it has these pairs.
  pub fetch_request-uri_of :
      (empty_dict : d.items (d.from_items []) ≡ [])
      (keeps : (pairs : List (Str × Str))
        → AreDistinct pairs
        → d.items (d.update pairs (d.from_items [])) ≡ pairs)
      (outside : Outside) (method : HttpRequestMethod) (request : PendingRequest H (Body H C))
      (path : Str) (args headers : List (Str × Str)) (body : FetchBody H C) (json : Option Str)
      (chosen : BodyArgument (Body H C)) (type : Option Str)
      → choose_body outside body json ≡ ok (chosen, type)
      → IsAuthority request.authority
      → Lacks b'?' path
      → Lacks b'#' path
      → AreTexts args
      → AreDistinct (filled args)
      → fetch_request outside method
          (target request (uri_of (b'/' ∷ path) args))
          []
          headers
          body
          json
        ≡ ok (
            with_content_type outside type (record {
              method = method;
              version = v1_1;
              authority = request.authority;
              scheme = request.scheme;
              path = b'/' ∷ path;
              path_args = filled args;
              headers = d.setdefault (codes "user-agent") outside.identifier (d.from_items headers);
              cached_uri = none;
              body = request_body (λ b. of_bytes (bytes_body b)) empty chosen;
            }))
  fetch_request-uri_of empty_dict keeps outside method request path args headers body json chosen
        type choice good no_query no_fragment texts distinct =
      fetch_request-args_of outside method request path args headers body json chosen type choice
        good no_query no_fragment texts
      ∙ ap
          (λ pairs. ok (
            with_content_type outside type (record {
              method = method;
              version = v1_1;
              authority = request.authority;
              scheme = request.scheme;
              path = b'/' ∷ path;
              path_args = pairs;
              headers = d.setdefault (codes "user-agent") outside.identifier (d.from_items headers);
              cached_uri = none;
              body = request_body (λ b. of_bytes (bytes_body b)) empty chosen;
            })))
          (args_of-filled H empty_dict keeps args distinct)
