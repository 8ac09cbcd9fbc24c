-- ===== src/Url/Query/RoundTrip.antt =====
-- `parse_qsl` of what `urlencode` writes.
use hiyori.Prelude.{
  ℕ, ◌≡◌, ◌≢◌, refl, ap, sym, ◌∙◌, some, List, [], ◌∷◌, ◌++◌, Str, Lacks, Lacks-append, split_once,
  split_once-append, append_assoc, arith,
}
use mathlib.Core.Path.{subst}
use hiyori.Utf8.RoundTrip.{IsText}
use hiyori.Url.{quote_plus, urlencode}
use hiyori.Url.Query.{unquote, spaces, split_all, add_field, parse_fields, parse_qsl}
use hiyori.Url.Query.Unquote.{AllPlain, quote_plus-AllPlain, unquote-quote_plus}

-- Every name and every value is a text.
abbrev pub AreTexts : List (Str × Str) → Type 0
AreTexts [] = Unit
AreTexts ((k, v) ∷ args) = (IsText k × IsText v) × AreTexts args

-- The pairs that have a value.
abbrev pub filled : List (Str × Str) → List (Str × Str)
filled [] = []
filled ((k, []) ∷ args) = filled args
filled ((k, c ∷ v) ∷ args) = (k, c ∷ v) ∷ filled args

split_all-absent : (sep : ℕ) (s : Str) → Lacks sep s → split_all sep s ≡ s ∷ []
unfolding split_all
split_all-absent sep [] h = refl
split_all-absent sep (c ∷ s) h = ground (arith, split_all-absent sep s h.1)

split_all-append :
    (sep : ℕ) (s t : Str) → Lacks sep s → split_all sep (s ++ sep ∷ t) ≡ s ∷ split_all sep t
unfolding split_all
split_all-append sep [] t h = ground arith
split_all-append sep (c ∷ s) t h = ground (arith, split_all-append sep s t h.1)

AllPlain-Lacks_field : (s : Str) → AllPlain s → Lacks b'&' s
AllPlain-Lacks_field [] h = tt
AllPlain-Lacks_field (c ∷ s) ((differs, _, _, _), h) = (differs, AllPlain-Lacks_field s h)

AllPlain-Lacks_value : (s : Str) → AllPlain s → Lacks b'=' s
AllPlain-Lacks_value [] h = tt
AllPlain-Lacks_value (c ∷ s) ((_, differs, _, _), h) = (differs, AllPlain-Lacks_value s h)

AllPlain-Lacks_fragment : (s : Str) → AllPlain s → Lacks b'#' s
AllPlain-Lacks_fragment [] h = tt
AllPlain-Lacks_fragment (c ∷ s) ((_, _, differs, _), h) = (differs, AllPlain-Lacks_fragment s h)

-- One pair, as `urlencode` writes it.
abbrev pub field_of : Str → Str → Str
field_of k v = quote_plus k ++ b'=' ∷ quote_plus v

field_of-Lacks : (k v : Str) → IsText k → IsText v → Lacks b'&' (field_of k v)
field_of-Lacks k v hk hv =
    Lacks-append b'&' (quote_plus k) (b'=' ∷ quote_plus v)
      (AllPlain-Lacks_field (quote_plus k) (quote_plus-AllPlain k hk))
      (ground arith, AllPlain-Lacks_field (quote_plus v) (quote_plus-AllPlain v hv))

add_field-filled :
    (name value : Str) (rest : List (Str × Str))
    → value ≢ []
    → add_field (name, some value) rest ≡ (unquote (spaces name), unquote (spaces value)) ∷ rest
unfolding add_field
add_field-filled name [] rest h = absurd (h refl)
add_field-filled name (c ∷ value) rest h = refl

quote_plus-filled : (c : ℕ) (v : Str) → IsText (c ∷ v) → quote_plus (c ∷ v) ≢ []
unfolding unquote spaces
quote_plus-filled c v h empty =
    let blank : c ∷ v ≡ [] =
      sym (unquote-quote_plus (c ∷ v) h) ∙ ap (λ t. unquote (spaces t)) empty in
    cc

add_field-quote_plus :
    (k v : Str) (rest : List (Str × Str))
    → IsText k
    → IsText v
    → add_field (quote_plus k, some (quote_plus v)) (filled rest) ≡ filled ((k, v) ∷ rest)
unfolding add_field quote_plus
add_field-quote_plus k [] rest hk hv = refl
add_field-quote_plus k (c ∷ v) rest hk hv =
    add_field-filled (quote_plus k) (quote_plus (c ∷ v)) (filled rest) (quote_plus-filled c v hv)
    ∙ rw (unquote-quote_plus k hk, unquote-quote_plus (c ∷ v) hv) refl

add_field-field_of :
    (k v : Str) (rest : List (Str × Str))
    → IsText k
    → IsText v
    → add_field (split_once b'=' (field_of k v)) (filled rest) ≡ filled ((k, v) ∷ rest)
add_field-field_of k v rest hk hv =
    ap (λ parts. add_field parts (filled rest))
      (split_once-append b'=' (quote_plus k) (quote_plus v)
        (AllPlain-Lacks_value (quote_plus k) (quote_plus-AllPlain k hk)))
    ∙ add_field-quote_plus k v rest hk hv

-- Parsing the query that `urlencode` writes for pairs of texts gives these pairs again, in their
-- order, except that a pair with an empty value is dropped.
pub parse_qsl-urlencode :
    (args : List (Str × Str)) → AreTexts args → parse_qsl (urlencode args) ≡ filled args
unfolding parse_qsl parse_fields split_all add_field split_once urlencode
parse_qsl-urlencode [] h = refl
parse_qsl-urlencode ((k, v) ∷ []) ((hk, hv), h) =
    ap parse_fields (split_all-absent b'&' (field_of k v) (field_of-Lacks k v hk hv))
    ∙ add_field-field_of k v [] hk hv
parse_qsl-urlencode ((k, v) ∷ e ∷ rest) ((hk, hv), h) =
    ap (λ query. parse_fields (split_all b'&' query))
      (sym (append_assoc (quote_plus k) (b'=' ∷ quote_plus v) (b'&' ∷ urlencode (e ∷ rest))))
    ∙ ap parse_fields
        (split_all-append b'&' (field_of k v) (urlencode (e ∷ rest)) (field_of-Lacks k v hk hv))
    ∙ ap (λ pairs. add_field (split_once b'=' (field_of k v)) pairs)
        (parse_qsl-urlencode (e ∷ rest) h)
    ∙ add_field-field_of k v (e ∷ rest) hk hv

field_of-Lacks_fragment : (k v : Str) → IsText k → IsText v → Lacks b'#' (field_of k v)
field_of-Lacks_fragment k v hk hv =
    Lacks-append b'#' (quote_plus k) (b'=' ∷ quote_plus v)
      (AllPlain-Lacks_fragment (quote_plus k) (quote_plus-AllPlain k hk))
      (ground arith, AllPlain-Lacks_fragment (quote_plus v) (quote_plus-AllPlain v hv))

-- A query has no `#`.
pub urlencode-Lacks : (args : List (Str × Str)) → AreTexts args → Lacks b'#' (urlencode args)
unfolding urlencode
urlencode-Lacks [] h = tt
urlencode-Lacks ((k, v) ∷ []) ((hk, hv), h) = field_of-Lacks_fragment k v hk hv
urlencode-Lacks ((k, v) ∷ e ∷ rest) ((hk, hv), h) =
    subst (Lacks b'#')
      (append_assoc (quote_plus k) (b'=' ∷ quote_plus v) (b'&' ∷ urlencode (e ∷ rest)))
      (Lacks-append b'#' (field_of k v) (b'&' ∷ urlencode (e ∷ rest))
        (field_of-Lacks_fragment k v hk hv) (ground arith, urlencode-Lacks (e ∷ rest) h))
