-- ===== src/Url/Query/Ascii.antt =====
-- A query is a text.
use hiyori.Prelude.{List, [], ◌∷◌, ◌++◌, append_assoc, Str, arith, inl}
use mathlib.Core.Path.{subst}
use hiyori.Utf8.RoundTrip.{IsText}
use hiyori.Url.{quote_plus, urlencode}
use hiyori.Url.Query.Unquote.{AllPlain, quote_plus-AllPlain}
use hiyori.Url.Query.RoundTrip.{AreTexts, field_of}

IsText-append : (s t : Str) → IsText s → IsText t → IsText (s ++ t)
IsText-append [] t h k = k
IsText-append (c ∷ s) t (scalar, h) k = (scalar, IsText-append s t h k)

AllPlain-IsText : (s : Str) → AllPlain s → IsText s
AllPlain-IsText [] h = tt
AllPlain-IsText (c ∷ s) ((_, _, _, small), h) = (inl (omega arith), AllPlain-IsText s h)

field_of-IsText : (k v : Str) → IsText k → IsText v → IsText (field_of k v)
field_of-IsText k v hk hv =
    IsText-append (quote_plus k) (b'=' ∷ quote_plus v)
      (AllPlain-IsText (quote_plus k) (quote_plus-AllPlain k hk))
      (inl (omega arith), AllPlain-IsText (quote_plus v) (quote_plus-AllPlain v hv))

pub urlencode-IsText : (args : List (Str × Str)) → AreTexts args → IsText (urlencode args)
unfolding urlencode
urlencode-IsText [] h = tt
urlencode-IsText ((k, v) ∷ []) ((hk, hv), h) = field_of-IsText k v hk hv
urlencode-IsText ((k, v) ∷ e ∷ rest) ((hk, hv), h) =
    subst IsText (append_assoc (quote_plus k) (b'=' ∷ quote_plus v) (b'&' ∷ urlencode (e ∷ rest))) (
      IsText-append (field_of k v) (b'&' ∷ urlencode (e ∷ rest)) (field_of-IsText k v hk hv)
        (inl (omega arith), urlencode-IsText (e ∷ rest) h))
