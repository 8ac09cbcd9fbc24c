-- ===== src/Resolvers/Raised.antt =====
-- What the parts of `query` of hiyori/resolvers/https.py may raise: exceptions that it catches.
use hiyori.Prelude.{ℕ, ◌≡◌, refl, Option, none, some, List, [], ◌∷◌, Str, Bytes, ℤ}
use hiyori.Outcome.{Outcome, ok, ◌>>=◌, Meets, bind-Meets}
use hiyori.Exceptions.{Error, unresolvable_host}
use hiyori.Utf8.{between, pieces, well_formed, to_str, to_json}
use hiyori.Resolvers.Json.{
  Json, text, array, object, get_item, find_member, iterate, or_key_error, null, boolean, integer,
  decimal, as_int, number, compared, greater,
}
use hiyori.Resolvers.Https.{is_dns_failure, reraised, or_value_error, lower_value, checked_ttl}

-- A result for which `Q` holds, or an exception that `query` catches.
abbrev pub Ensures : {B : Type 0} → (B → Type 0) → Outcome Error B → Type 0
Ensures Q o = Meets (λ e. reraised e ≡ unresolvable_host) Q o

abbrev pub Anything : {B : Type 0} → B → Type 0
Anything b = Unit

pub bind-Ensures :
    {B D : Type 0} (P : B → Type 0) (Q : D → Type 0) (o : Outcome Error B) (k : B → Outcome Error D)
    → Ensures P o
    → ((b : B) → P b → Ensures Q (k b))
    → Ensures Q (o >>= k)
bind-Ensures P Q o k h next = bind-Meets (λ e. reraised e ≡ unresolvable_host) P Q o k h next

pub or_key_error-Ensures : (o : Option Json) → Ensures Anything (or_key_error o)
unfolding reraised is_dns_failure
or_key_error-Ensures none = refl
or_key_error-Ensures (some v) = tt

pub or_value_error-Ensures : {B : Type 0} (o : Option B) → Ensures Anything (or_value_error o)
unfolding reraised is_dns_failure
or_value_error-Ensures none = refl
or_value_error-Ensures (some v) = tt

pub get_item-Ensures : (name : Str) (v : Json) → Ensures Anything (get_item name v)
unfolding get_item reraised is_dns_failure
get_item-Ensures name (object members) = or_key_error-Ensures (find_member name members)
get_item-Ensures name null = refl
get_item-Ensures name (boolean b) = refl
get_item-Ensures name (integer n) = refl
get_item-Ensures name (decimal m e) = refl
get_item-Ensures name (text s) = refl
get_item-Ensures name (array xs) = refl

pub iterate-Ensures : (v : Json) → Ensures Anything (iterate v)
unfolding iterate reraised is_dns_failure
iterate-Ensures (object members) = tt
iterate-Ensures null = refl
iterate-Ensures (boolean b) = refl
iterate-Ensures (integer n) = refl
iterate-Ensures (decimal m e) = refl
iterate-Ensures (text s) = tt
iterate-Ensures (array xs) = tt

pub compared-Ensures : (x y : Option (ℤ × ℕ)) → Ensures Anything (compared x y)
unfolding compared reraised is_dns_failure
compared-Ensures (some (m, d)) (some (n, e)) = tt
compared-Ensures none y = refl
compared-Ensures (some x) none = refl

pub greater-Ensures : (v w : Json) → Ensures Anything (greater v w)
unfolding greater
greater-Ensures (text s) (text t) = tt
greater-Ensures (array xs) (array ys) = tt
greater-Ensures v w = compared-Ensures (number v) (number w)

pub lower_value-Ensures : (o : Option Json) (v : Json) → Ensures Anything (lower_value o v)
unfolding lower_value
lower_value-Ensures none v = tt
lower_value-Ensures (some w) v =
    bind-Ensures Anything Anything (greater w v) _ (greater-Ensures w v) (λ later h. tt)

pub checked_ttl-Ensures : (o : Option Json) → Ensures Anything (checked_ttl o)
unfolding checked_ttl reraised is_dns_failure
checked_ttl-Ensures none = refl
checked_ttl-Ensures (some v) = or_value_error-Ensures (as_int v)

pub well_formed-Ensures : (ps : List (Option ℕ)) → Ensures Anything (well_formed ps)
unfolding well_formed reraised is_dns_failure
well_formed-Ensures [] = tt
well_formed-Ensures (none ∷ ps) = refl
well_formed-Ensures (some c ∷ ps) =
    bind-Ensures Anything Anything (well_formed ps) (λ s. ok (c ∷ s)) (well_formed-Ensures ps)
      (λ s h. tt)

-- `json.loads` raises ValueError, or another exception that `query` catches.
abbrev pub IsParser : (Str → Outcome Error Json) → Type 0
IsParser loads = (s : Str) → Ensures Anything (loads s)

pub to_json-Ensures :
    (loads : Str → Outcome Error Json) (body : Bytes)
    → IsParser loads
    → Ensures Anything (to_json loads body)
unfolding to_json to_str
to_json-Ensures loads body h =
    bind-Ensures Anything Anything (to_str body) loads (well_formed-Ensures (pieces between body))
      (λ s _. h s)
