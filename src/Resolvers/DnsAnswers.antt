-- ===== src/Resolvers/DnsAnswers.antt =====
-- What `query` of hiyori/resolvers/https.py reads in the answer of a server.
use hiyori.Prelude.{
  Equal, add, add_all, set_of, ◌≡◌, refl, ap, sym, ◌∙◌, true, Bool-cases, Option, none, some, List,
  [], ◌∷◌, Str, codes, ℤ, pos, negsuc, ◌<ℤ◌, if◌then◌else◌, inl, inr, arith,
}
use hiyori.Outcome.{Outcome, ok, raise, ◌>>=◌}
use hiyori.Exceptions.{Error, unresolvable_host}
use hiyori.Utf8.{to_json}
use hiyori.Messages.{Response}
use hiyori.Resolvers.Json.{
  Json, integer, array, elements, listed, get_item, iterate, is_dict, as_int, number, scaled,
  power_of_ten, compared, greater,
}
use hiyori.Resolvers.Https.{
  is_dns_failure, reraised, translated, lower_value, checked_ttl, address, read_records,
  read_answer, read_response,
}
use hiyori.Resolvers.Answers.{meet, meet_assoc}

-- A record of the answer, with the address and the time to live in it.
abbrev pub Entry : Type 0 → Type 0
Entry A = Json × A × ℤ

module _ {A : Type 0} where
  abbrev pub values : List (Entry A) → List Json
  values [] = []
  values ((value, ip, ttl) ∷ es) = value ∷ values es

  abbrev pub addresses : ℤ → List (Entry A) → List (A × ℤ)
  addresses port [] = []
  addresses port ((value, ip, ttl) ∷ es) = (ip, port) ∷ addresses port es

  abbrev pub least_ttl : List (Entry A) → Option ℤ
  least_ttl [] = none
  least_ttl ((value, ip, ttl) ∷ es) = meet (some ttl) (least_ttl es)

  -- All addresses, and the lowest time to live; nothing without one.
  abbrev pub read : List (A × ℤ) → Option ℤ → Outcome Error (List (A × ℤ) × ℤ)
  read found none = raise unresolvable_host
  read found (some ttl) = ok (found, ttl)

abbrev as_json : Option ℤ → Option Json
as_json none = none
as_json (some n) = some (integer n)

scaled_none : (n : ℤ) → scaled 0 n ≡ n
unfolding scaled power_of_ten
scaled_none (pos n) = ap pos (omega arith)
scaled_none (negsuc n) = ap negsuc (omega arith)

lower_value-integer :
    (ttl : Option ℤ) (n : ℤ)
    → (least : ℤ) × (lower_value (as_json ttl) (integer n) ≡ ok (integer least))
      × (meet ttl (some n) ≡ some least)
unfolding lower_value greater number compared
lower_value-integer none n = (n, refl, refl)
lower_value-integer (some m) n = (
  if n <ℤ m then n else m,
  rw (scaled_none n, scaled_none m)
      (elim (Bool-cases (n <ℤ m)) [ inl w ↦ rw w refl | inr w ↦ rw w refl ]),
  refl,
)

listed-elements : (xs : List Json) → listed (elements xs) ≡ xs
unfolding listed elements
listed-elements [] = refl
listed-elements (x ∷ xs) = ap (λ t. x ∷ t) (listed-elements xs)

translated-read :
    {A : Type 0} (found : List (A × ℤ)) (ttl : Option ℤ)
    → translated (checked_ttl (as_json ttl) >>= λ lowest. ok (found, lowest)) ≡ read found ttl
unfolding translated checked_ttl as_int reraised is_dns_failure
translated-read found none = refl
translated-read found (some t) = refl

module _ {A : Type 0} ⦃eq : Equal (A × ℤ)⦄ (ip_address : Json → Option A) where
  -- Each record has the text of its address under `data`, and its time to live under `TTL`.
  abbrev pub AllHold : List (Entry A) → Type 0
  AllHold [] = Unit
  AllHold ((value, ip, ttl) ∷ es) =
      (address ip_address value ≡ ok ip)
      × (get_item (codes "TTL") value ≡ ok (integer ttl))
      × AllHold es

  read_records-AllHold :
      (port : ℤ) (es : List (Entry A)) (results : List (A × ℤ)) (ttl : Option ℤ)
      → AllHold es
      → read_records ip_address port (values es) results (as_json ttl)
        ≡ ok (add_all results (addresses port es), as_json (meet ttl (least_ttl es)))
  unfolding read_records add_all
  read_records-AllHold port [] results none h = refl
  read_records-AllHold port [] results (some n) h = refl
  read_records-AllHold port ((value, ip, n) ∷ es) results ttl (found, lives, h) =
      let (least, lower, is_meet) = lower_value-integer ttl n in
      rw (found, lives, lower)
        (read_records-AllHold port es (add results (ip, port)) (some least) h
          ∙ ap (λ t. ok (add_all results ((ip, port) ∷ addresses port es), as_json t))
              (ap (λ o. meet o (least_ttl es)) (sym is_meet)
                ∙ meet_assoc ttl (some n) (least_ttl es)))

  -- A response whose text is a dictionary with such records under `Answer` is read as the set of their
  -- addresses, in the order in which they first come, with the lowest of their times to live, and as
  -- UnresolvableHost if there are no records.
  pub read_response-read :
      {H : Type 0} (loads : Str → Outcome Error Json) (port : ℤ) (response : Response H)
      (msg : Json) (es : List (Entry A))
      → to_json loads response.body ≡ ok msg
      → is_dict msg ≡ true
      → get_item (codes "Answer") msg ≡ ok (array (elements (values es)))
      → AllHold es
      → read_response ip_address loads port (ok response)
        ≡ read (set_of (addresses port es)) (least_ttl es)
  unfolding read_response read_answer translated iterate
  read_response-read loads port response msg es parsed dict answer h =
      rw (parsed, dict, answer, listed-elements (values es), read_records-AllHold port es [] none h)
        (translated-read (set_of (addresses port es)) (least_ttl es))
