-- ===== src/Tests/Query.antt =====
-- Texts as bytes, and queries of urls: Utf8 and Client/Target at concrete texts.
use hiyori.Prelude.{
  ◌≡◌, refl, ap, sym, ◌∙◌, false, Bool-cases, inl, inr, List, ◌++◌, append-nil, append_assoc, none,
  [], ◌∷◌, Str, codes, encode, arith,
}
use hiyori.Outcome.{Outcome, ok, raise, Meets}
use hiyori.Exceptions.{Error, value_error}
use hiyori.Utf8.{decode_replace, to_str}
use hiyori.Utf8.RoundTrip.{to_str-encode}
use hiyori.Url.Query.{parse_qsl}
use hiyori.Url.Split.{brackets_differ}
use hiyori.Url.Split.Parts.{IsAuthority}
use hiyori.Body.{empty}
use hiyori.Messages.{PendingRequest, http, v1_1, method_get, BodyArgument, request_body, uri_of}
use hiyori.Client.Fetch.{no_body, fetch_request, choose_body, with_content_type}
use hiyori.Client.Redirect.{target}
use hiyori.Client.Built.{IsBuilt, fetch_request-IsBuilt}
use hiyori.Client.Target.{IsFresh, AreDistinct, fetch_request-uri_of}
use hiyori.Tests.Dict.{assoc_dict, contains, set, set_all, same_name}
use hiyori.Tests.Wire.{TestBody, Headers}
use hiyori.Tests.Redirection.{request, outside}

-- the euro sign, a letter and an emoji
abbrev some_text : Str
some_text = 0x20ac ∷ b'a' ∷ 0x1f600 ∷ []

test_to_str-encode : to_str (encode some_text) ≡ ok some_text
test_to_str-encode =
    to_str-encode some_text ((ground arith), ((ground arith), ((ground arith), tt)))

test_encode : encode some_text ≡ 0xe2 ∷ 0x82 ∷ 0xac ∷ b'a' ∷ 0xf0 ∷ 0x9f ∷ 0x98 ∷ 0x80 ∷ []
unfolding encode
test_encode = refl

-- an encoding of `/` in two bytes, a surrogate, and a character that is cut off
test_to_str :
    (to_str (0xc0 ∷ 0xaf ∷ []) ≡ raise value_error)
    × (to_str (0xed ∷ 0xa0 ∷ 0x80 ∷ []) ≡ raise value_error)
    × (to_str (0xe2 ∷ 0x82 ∷ []) ≡ raise value_error)
unfolding to_str
test_to_str = (refl, refl, refl)

test_decode_replace : decode_replace (0xf1 ∷ 0x80 ∷ b'a' ∷ []) ≡ 0xfffd ∷ b'a' ∷ []
unfolding decode_replace
test_decode_replace = refl

-- a field without a value, one that is blank, and escapes
test_parse_qsl :
    parse_qsl (codes "a=1&b&c=&d+e=%e2%82%ac%")
    ≡ (codes "a", codes "1") ∷ (codes "d e", 0x20ac ∷ b'%' ∷ []) ∷ []
unfolding parse_qsl
test_parse_qsl = refl

test_choose_body :
    choose_body {H = Headers} {C = Unit} outside no_body none ≡ ok (BodyArgument.no_body, none)
unfolding choose_body
test_choose_body = refl

request-IsAuthority : IsAuthority request.authority
unfolding brackets_differ
request-IsAuthority = (ground arith, ground arith, ground arith, refl)

-- The dictionary of the tests keeps pairs whose names differ.
abbrev Apart : List (Str × Str) → Headers → Type 0
Apart [] h = Unit
Apart ((k, v) ∷ pairs) h = (contains k h ≡ false) × Apart pairs h

set-append : (k v : Str) (h : Headers) → contains k h ≡ false → set k v h ≡ h ++ (k, v) ∷ []
set-append k v [] free = refl
set-append k v ((k', v') ∷ h) free = elim (Bool-cases (same_name k k')) [
  | inl same ↦ (let taken = rw same at free in absurd cc)
  | inr other ↦ rw (other) (ap (λ t. (k', v') ∷ t) (set-append k v h (rw other at free)))
]

contains-append :
    (k : Str) (h : Headers) (k' v' : Str)
    → contains k h ≡ false
    → same_name k k' ≡ false
    → contains k (h ++ (k', v') ∷ []) ≡ false
contains-append k [] k' v' free other = rw other refl
contains-append k ((x, y) ∷ h) k' v' free other = elim (Bool-cases (same_name k x)) [
  | inl same ↦ (let taken = rw same at free in absurd cc)
  | inr new ↦ rw new (contains-append k h k' v' (rw new at free) other)
]

Apart-append :
    (pairs : List (Str × Str)) (h : Headers) (k v : Str)
    → Apart pairs h
    → IsFresh k pairs
    → Apart pairs (h ++ (k, v) ∷ [])
Apart-append [] h k v a f = tt
Apart-append ((x, y) ∷ pairs) h k v (free, a) (other, f) =
    (contains-append x h k v free other, Apart-append pairs h k v a f)

set_all-append :
    (pairs : List (Str × Str)) (h : Headers)
    → AreDistinct pairs
    → Apart pairs h
    → set_all pairs h ≡ h ++ pairs
set_all-append [] h distinct a = sym (append-nil h)
set_all-append ((k, v) ∷ pairs) h (fresh, distinct) (free, a) =
    ap (set_all pairs) (set-append k v h free)
    ∙ set_all-append pairs (h ++ (k, v) ∷ []) distinct (Apart-append pairs h k v a fresh)
    ∙ append_assoc h ((k, v) ∷ []) pairs

Apart-nil : (pairs : List (Str × Str)) → Apart pairs []
Apart-nil [] = tt
Apart-nil ((k, v) ∷ pairs) = (refl, Apart-nil pairs)

dict_keeps :
    (pairs : List (Str × Str))
    → AreDistinct pairs
    → assoc_dict.items (assoc_dict.update pairs (assoc_dict.from_items [])) ≡ pairs
dict_keeps pairs distinct = set_all-append pairs [] distinct (Apart-nil pairs)

fetch_request-uri_of_example :
    fetch_request {H = Headers} {C = Unit} outside method_get
      (target request (uri_of (codes "/next") ((codes "a b", codes "1&2") ∷ (codes "c", []) ∷ [])))
      []
      []
      no_body
      none
    ≡ ok (record {
      method = method_get;
      version = v1_1;
      authority = codes "a";
      scheme = http;
      path = codes "/next";
      path_args = (codes "a b", codes "1&2") ∷ [];
      headers = (codes "user-agent", codes "hiyori") ∷ [];
      cached_uri = none;
      body = empty;
    })
unfolding with_content_type request_body
fetch_request-uri_of_example =
    fetch_request-uri_of {H = Headers} {C = Unit} refl dict_keeps outside method_get request
      (codes "next") ((codes "a b", codes "1&2") ∷ (codes "c", []) ∷ []) [] no_body none
      BodyArgument.no_body none test_choose_body request-IsAuthority (ground arith) (ground arith)
      (ground arith) (tt, tt)

-- for a url with a query and a fragment
abbrev request_or_error : Outcome Error (PendingRequest Headers TestBody)
request_or_error =
    fetch_request {H = Headers} {C = Unit} outside method_get (codes "https://a/p?x=1#top") [] []
      no_body none

fetch_request-IsBuilt_example :
    Meets (λ e. e ≡ value_error) (IsBuilt {C = Unit} outside method_get) request_or_error
fetch_request-IsBuilt_example =
    fetch_request-IsBuilt {H = Headers} {C = Unit} outside method_get (codes "https://a/p?x=1#top")
      [] [] no_body none
