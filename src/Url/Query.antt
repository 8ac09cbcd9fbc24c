-- ===== src/Url/Query.antt =====
-- `urllib.parse.parse_qsl(qs)` with its defaults, which `fetch` of hiyori/http_client.py calls on the
-- query of a url: fields are divided by `&`, and those without a value are dropped.
pub mod Unquote
pub mod RoundTrip
pub mod Ascii
use hiyori.Prelude.{
  ℕ, ◌+◌, ◌-◌, ◌*◌, Bool, true, false, ◌&&◌, ◌||◌, Option, none, some, List, [], ◌∷◌, ◌++◌, drop,
  Str, Bytes, split_once, leb, ltb, ◌==◌, if◌then◌else◌,
}
use hiyori.Utf8.{decode_replace}

-- `_hextobyte`
unfoldable pub is_hex : ℕ → Bool
is_hex c = (leb b'0' c && leb c b'9') || (leb b'A' c && leb c b'F') || (leb b'a' c && leb c b'f')

unfoldable pub hex_value : ℕ → ℕ
hex_value c = if leb c b'9' then c - b'0' else if leb c b'F' then c - 55 else c - 87

-- The byte that two hexadecimal digits at the front stand for.
unfoldable pub hex_pair : Str → Option ℕ
unfolding is_hex hex_value
hex_pair (a ∷ b ∷ s) = if is_hex a && is_hex b then some (hex_value a * 16 + hex_value b) else none
hex_pair _ = none

-- Digits stand for themselves, so that those of a pair are the first two of what follows.
abbrev pub percent : Option ℕ → Bytes → Bytes
percent none rest = b'%' ∷ rest
percent (some byte) rest = byte ∷ drop 2 rest

-- `unquote_to_bytes`, on ASCII
unfoldable pub unquote_bytes : Str → Bytes
unfolding hex_pair
unquote_bytes [] = []
unquote_bytes (c ∷ s) =
    let rest = unquote_bytes s in if c == b'%' then percent (hex_pair s) rest else c ∷ rest

-- A text from its end: the ASCII run at the front, and the decoded rest.
unfoldable pub ascii_run : Str → Str × Str
unfolding unquote_bytes decode_replace
ascii_run [] = ([], [])
ascii_run (c ∷ s) =
    let (run, rest) = ascii_run s in
    if ltb c 0x80 then (c ∷ run, rest) else ([], c ∷ decode_replace (unquote_bytes run) ++ rest)

-- `unquote(s)`
unfoldable pub unquote : Str → Str
unfolding ascii_run
unquote s = let (run, rest) = ascii_run s in decode_replace (unquote_bytes run) ++ rest

-- `s.replace("+", " ")`
unfoldable pub spaces : Str → Str
spaces [] = []
spaces (c ∷ s) = (if c == b'+' then b' ' else c) ∷ spaces s

abbrev push : ℕ → List Str → List Str
push c [] = (c ∷ []) ∷ []
push c (w ∷ ws) = (c ∷ w) ∷ ws

-- `s.split(sep)`
unfoldable pub split_all : ℕ → Str → List Str
split_all sep [] = [] ∷ []
split_all sep (c ∷ s) = let rest = split_all sep s in if c == sep then [] ∷ rest else push c rest

-- a field without `=` or with an empty value is dropped
unfoldable pub add_field : Str × Option Str → List (Str × Str) → List (Str × Str)
unfolding unquote spaces
add_field (name, none) rest = rest
add_field (name, some []) rest = rest
add_field (name, some (c ∷ value)) rest =
    (unquote (spaces name), unquote (spaces (c ∷ value))) ∷ rest

unfoldable pub parse_fields : List Str → List (Str × Str)
unfolding add_field split_once
parse_fields [] = []
parse_fields (field ∷ fields) = add_field (split_once b'=' field) (parse_fields fields)

unfoldable pub parse_qsl : Str → List (Str × Str)
unfolding parse_fields split_all
parse_qsl qs = parse_fields (split_all b'&' qs)
