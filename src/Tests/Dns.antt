-- ===== src/Tests/Dns.antt =====
-- The theorems of Resolvers/Dns, DnsAnswers and DnsClient on a host with an IPv4 address only.
use hiyori.Prelude.{
  add_all, ℕ, ◌≡◌, refl, Bool, true, false, Option, none, some, [], ◌∷◌, Str, codes, encode, ◌=s=◌,
  pos, if◌then◌else◌, Bool-cases, inl, inr,
}
use hiyori.Outcome.{Outcome, ok, raise}
use hiyori.Exceptions.{is_hiyori, Error, value_error, request_timeout}
use hiyori.Messages.{Response, method_get}
use hiyori.Utf8.{to_json}
use hiyori.Client.Pool.{HttpClient}
use hiyori.Resolvers.Fresh.{at_least}
use hiyori.Resolvers.System.{async_class}
use hiyori.Client.Errors.{ClientError, lower}
use hiyori.Connection.Send.{Exchange}
use hiyori.Resolvers.Base.{same_port, resolved_result}
use hiyori.Resolvers.Json.{
  elements, get_item, is_dict, Json, integer, text, array, object, cons, nil, member, end,
}
use hiyori.Resolvers.Raised.{IsParser}
use hiyori.Resolvers.Https.{
  is_dns_failure, reraised, client_reraised, read_response, lookup_dns, resolve, address,
}
use hiyori.Resolvers.Dns.{IsAnswered, lookup_dns-resolved}
use hiyori.Resolvers.DnsAnswers.{read_response-read}
use hiyori.Resolvers.DnsClient.{request_records, query, HttpsResolver, https_resolver, lookup_now}
use hiyori.Tests.Wire.{Headers, Wire, wire, TestBody, unknown_length}
use hiyori.Tests.Redirection.{outside}
use hiyori.Tests.Dict.{assoc_dict}
use hiyori.Tests.Equality.{numbers}

-- Addresses are numbers, and two texts are addresses.
abbrev ip_address : Json → Option ℕ
ip_address (text s) =
    if s =s= codes "7.7.7.7" then some 7 else if s =s= codes "8.8.8.8" then some 8 else none
ip_address _ = none

abbrev entry : Json
entry =
    object
      (member (codes "TTL") (integer (pos 30)) (member (codes "data") (text (codes "7.7.7.7")) end))

abbrev later_entry : Json
later_entry =
    object
      (member (codes "data") (text (codes "8.8.8.8")) (member (codes "TTL") (integer (pos 20)) end))

abbrev message : Json
message =
    object (member (codes "Answer") (array (cons entry (cons later_entry (cons entry nil)))) end)

-- One text is that message, and the others are no JSON.
abbrev loads : Str → Outcome Error Json
loads s = if s =s= codes "{..}" then ok message else raise value_error

loads-IsParser : IsParser loads
unfolding reraised is_dns_failure
loads-IsParser s = elim (Bool-cases (s =s= codes "{..}")) [ inl w ↦ rw w tt | inr w ↦ rw w refl ]

abbrev answered : Str → Response Headers
answered body = record {
  request = record { method = method_get; uri = codes "/"; authority = codes "d"; headers = [] };
  status_code = 200;
  headers = [];
  body = encode body;
}

abbrev timed_out : Outcome (ClientError Headers) (Response Headers)
timed_out = raise (lower request_timeout)

test_timed_out : IsAnswered timed_out
unfolding client_reraised reraised is_dns_failure is_hiyori
test_timed_out = refl

lookup_dns-resolved_example :
    lookup_dns 5 (codes "a") (pos 443) 60 (
      read_response ip_address loads (pos 443) (ok (answered (codes "{..}")))
      ∷ read_response ip_address loads (pos 443) timed_out
      ∷ [])
    ≡ ok (resolved_result 5 (codes "a") (pos 443) ((7, pos 443) ∷ (8, pos 443) ∷ []) (pos 60))
unfolding read_response encode ◌=s=◌ at_least add_all same_port
lookup_dns-resolved_example =
    lookup_dns-resolved ip_address loads 5 (codes "a") (pos 443) 60 (ok (answered (codes "{..}")))
      timed_out loads-IsParser tt test_timed_out

read_response-read_example :
    read_response ip_address loads (pos 443) (ok (answered (codes "{..}")))
    ≡ ok ((7, pos 443) ∷ (8, pos 443) ∷ [], pos 20)
unfolding to_json encode ◌=s=◌ is_dict get_item elements address add_all same_port
read_response-read_example =
    read_response-read ip_address loads (pos 443) (answered (codes "{..}")) message
      ((entry, 7, pos 30) ∷ (later_entry, 8, pos 20) ∷ (entry, 7, pos 30) ∷ []) refl refl refl
      (refl, refl, (refl, refl, (refl, refl, tt)))

-- a server that gives the message to each request
abbrev answering :
    ℕ
    → Bool
    → ℕ
    → Exchange Wire Headers TestBody
    → Outcome Error (Response Headers) × Exchange Wire Headers TestBody
answering i read_response_body max_body_size s = (ok (answered (codes "{..}")), s)

abbrev alone : ℕ → HttpClient Wire → HttpClient Wire
alone i c = c

abbrev resolver : HttpsResolver Wire ℕ
resolver = https_resolver async_class 60 true false none (codes "https://dns/q")

-- one that gives no JSON
abbrev wordless :
    ℕ
    → Bool
    → ℕ
    → Exchange Wire Headers TestBody
    → Outcome Error (Response Headers) × Exchange Wire Headers TestBody
wordless i read_response_body max_body_size s = (ok (answered []), s)

-- Both tasks begin on the client as it was made, and the second is over first.
test_lookup_now :
    lookup_now wire unknown_length outside ip_address loads answering alone resolver.client wordless
      alone resolver.client true 5
      (codes "a")
      (pos 443)
      none
      resolver
    ≡ ok (resolved_result 5 (codes "a") (pos 443) ((7, pos 443) ∷ (8, pos 443) ∷ []) (pos 60))
unfolding lookup_now query request_records read_response resolve https_resolver ◌=s=◌ encode
    at_least add_all same_port
test_lookup_now = refl
