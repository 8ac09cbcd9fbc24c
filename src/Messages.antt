-- ===== src/Messages.antt =====
-- hiyori/messages.py and hiyori/constants.py. `H` is the type of header dictionaries, `B` the type
-- of request bodies.
use hiyori.Prelude.{
  Lacks, arith, ◌≡◌, refl, ℕ, Bool, false, Option, none, some, List, [], ◌∷◌, ◌++◌, ◌=s=◌, Str,
  Bytes, codes, map, to_lower, if◌then◌else◌, ◌==◌, ◌||◌,
}
use hiyori.Outcome.{Outcome, ok, raise, ◌>>=◌}
use hiyori.Exceptions.{Error, value_error, assertion_error}
use hiyori.Url.{urlencode}
use hiyori.Headers.{HeaderDict}

-- magichttp.HttpRequestMethod, as far as the client uses it, and magichttp.HttpVersion.
pub data HttpRequestMethod : Type 0 where
  method_get method_post method_put method_delete method_head method_options method_patch :
      HttpRequestMethod

pub data HttpVersion : Type 0 where
  v1_0 v1_1 : HttpVersion

pub data HttpScheme : Type 0 where
  http https : HttpScheme

-- HttpScheme(value)
unfoldable pub scheme_of : Str → Outcome Error HttpScheme
scheme_of s =
    if s =s= codes "http"
    then ok http
    else if s =s= codes "https"
    then ok https
    else raise value_error

-- connection.HttpConnectionId
pub record HttpConnectionId : Type 0 where
  pub authority : Str
  pub scheme : HttpScheme
  pub http_version : HttpVersion

pub record PendingRequest (H B : Type 0) : Type 0 where
  pub method : HttpRequestMethod
  pub version : HttpVersion
  pub authority : Str
  pub scheme : HttpScheme
  pub path : Str
  pub path_args : List (Str × Str)
  pub headers : H
  pub cached_uri : Option Str
  pub body : B

-- What magichttp keeps of a request that was written.
pub record Request (H : Type 0) : Type 0 where
  pub method : HttpRequestMethod
  pub uri : Str
  pub authority : Str
  pub headers : H

-- The head of a response, `reader.initial`.
pub record Initial (H : Type 0) : Type 0 where
  pub status_code : ℕ
  pub headers : H

pub record Response (H : Type 0) : Type 0 where
  pub request : Request H
  pub status_code : ℕ
  pub headers : H
  pub body : Bytes

unfoldable pub conn_id : {H B : Type 0} → PendingRequest H B → HttpConnectionId
conn_id r = record { authority = r.authority; scheme = r.scheme; http_version = r.version }

-- the argument `body` of PendingRequest
pub data BodyArgument (B : Type 0) : Type 0 where
  no_body : BodyArgument B
  raw : Bytes → BodyArgument B
  given : B → BodyArgument B

-- the argument `scheme`
pub data SchemeArgument : Type 0 where
  named : Str → SchemeArgument
  known : HttpScheme → SchemeArgument

unfoldable pub scheme_argument : SchemeArgument → Outcome Error HttpScheme
unfolding scheme_of to_lower
scheme_argument (named s) = scheme_of (map to_lower s)
scheme_argument (known scheme) = ok scheme

unfoldable pub contains_char : ℕ → Str → Bool
contains_char c [] = false
contains_char c (x ∷ s) = x == c || contains_char c s

pub contains_char-Lacks : (c : ℕ) (s : Str) → Lacks c s → contains_char c s ≡ false
unfolding contains_char
contains_char-Lacks c [] h = refl
contains_char-Lacks c (x ∷ s) h = ground (arith, contains_char-Lacks c s h.1)

-- `isinstance(body, bytes)`, and `body or EMPTY_REQUEST_BODY`
unfoldable pub request_body : {B : Type 0} → (Bytes → B) → B → BodyArgument B → B
request_body of_bytes empty no_body = empty
request_body of_bytes empty (raw b) = of_bytes b
request_body of_bytes empty (given b) = b

module _ {H B : Type 0} ⦃d : HeaderDict H⦄ (of_bytes : Bytes → B) (empty : B)
    (identifier : Str) where
  -- PendingRequest(method, …); `identifier` is `_SELF_IDENTIFIER`.
  unfoldable pub pending_request :
      HttpRequestMethod
      → Str
      → Str
      → List (Str × Str)
      → SchemeArgument
      → List (Str × Str)
      → HttpVersion
      → BodyArgument B
      → Outcome Error (PendingRequest H B)
  unfolding scheme_argument contains_char request_body
  pending_request method authority path path_args scheme headers version body =
      if contains_char b'?' path then raise assertion_error else do
        s ← scheme_argument scheme
        ok (record {
          method = method;
          version = version;
          authority = authority;
          scheme = s;
          path = path;
          path_args = path_args;
          headers = d.setdefault (codes "user-agent") identifier (d.from_items headers);
          cached_uri = none;
          body = request_body of_bytes empty body;
        })

-- the property `uri`, computed at its first use
unfoldable pub uri_of : Str → List (Str × Str) → Str
unfolding urlencode
uri_of path [] = path
uri_of path (e ∷ args) = path ++ b'?' ∷ urlencode (e ∷ args)

unfoldable pub uri : {H B : Type 0} → PendingRequest H B → Str × PendingRequest H B
unfolding uri_of
uri r = elim r.cached_uri [
  | some u ↦ (u, r)
  | none ↦ (let u = uri_of r.path r.path_args in (u, record r { cached_uri = some u }))
]
