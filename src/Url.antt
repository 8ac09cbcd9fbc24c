-- ===== src/Url.antt =====
-- `urllib.parse.urlencode`, which hiyori/messages.py and hiyori/bodies.py call on pairs of texts.
pub mod Split
pub mod Query
use hiyori.Prelude.{
  ℕ, ◌+◌, ◌-◌, ◌/◌, ◌%◌, Bool, ◌&&◌, ◌||◌, List, [], ◌∷◌, ◌++◌, Str, Bytes, codes, encode, leb, ltb,
  ◌==◌, if◌then◌else◌,
}

-- Letters, digits and `_.-~` stand for themselves.
unfoldable pub is_safe : ℕ → Bool
is_safe c =
    (leb b'a' c && leb c b'z')
    || (leb b'A' c && leb c b'Z')
    || (leb b'0' c && leb c b'9')
    || c == b'_'
    || c == b'.'
    || c == b'-'
    || c == b'~'

unfoldable pub hex_digit : ℕ → ℕ
hex_digit n = if ltb n 10 then b'0' + n else b'A' + (n - 10)

unfoldable pub quote_byte : ℕ → Str
unfolding is_safe hex_digit
quote_byte c =
    if is_safe c
    then c ∷ []
    else if c == b' '
    then b'+' ∷ []
    else b'%' ∷ hex_digit (c / 16) ∷ hex_digit (c % 16) ∷ []

unfoldable pub quote_bytes : Bytes → Str
unfolding quote_byte
quote_bytes [] = []
quote_bytes (c ∷ s) = quote_byte c ++ quote_bytes s

-- `quote_plus(s)`
unfoldable pub quote_plus : Str → Str
unfolding quote_bytes encode
quote_plus s = quote_bytes (encode s)

unfoldable pub urlencode : List (Str × Str) → Str
unfolding quote_plus
urlencode [] = []
urlencode ((k, v) ∷ []) = quote_plus k ++ b'=' ∷ quote_plus v
urlencode ((k, v) ∷ e ∷ rest) = quote_plus k ++ (b'=' ∷ quote_plus v ++ b'&' ∷ urlencode (e ∷ rest))
