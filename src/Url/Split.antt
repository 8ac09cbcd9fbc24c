-- ===== src/Url/Split.antt =====
-- `urllib.parse.urlsplit(url, scheme=…)`, for a url without control characters: scheme, authority,
-- path and query; the fragment is dropped.
pub mod Parts
use hiyori.Prelude.{
  ℕ, Bool, true, false, not, ◌&&◌, ◌||◌, Option, none, some, [], ◌∷◌, map, Str, to_lower,
  split_once, starts_with, leb, ◌==◌, if◌then◌else◌,
}
use hiyori.Outcome.{Outcome, ok, raise}
use hiyori.Exceptions.{Error, value_error}

pub record SplitResult : Type 0 where
  pub scheme : Str
  pub netloc : Str
  pub path : Str
  pub query : Str

unfoldable pub is_letter : ℕ → Bool
is_letter c = (leb b'a' c && leb c b'z') || (leb b'A' c && leb c b'Z')

unfoldable pub is_scheme_char : ℕ → Bool
unfolding is_letter
is_scheme_char c = is_letter c || (leb b'0' c && leb c b'9') || c == b'+' || c == b'-' || c == b'.'

unfoldable pub all_scheme_chars : Str → Bool
unfolding is_scheme_char
all_scheme_chars [] = true
all_scheme_chars (c ∷ s) = is_scheme_char c && all_scheme_chars s

unfoldable pub is_scheme : Str → Bool
unfolding is_letter all_scheme_chars
is_scheme [] = false
is_scheme (c ∷ s) = is_letter c && all_scheme_chars (c ∷ s)

-- The scheme, or the default, and the rest.
unfoldable pub split_scheme : Str → Str → Str × Str
unfolding is_scheme to_lower split_once
split_scheme default url =
    let (front, rest) = split_once b':' url in
    elim rest [
      | none ↦ (default, url)
      | some after ↦ if is_scheme front then (map to_lower front, after) else (default, url)
    ]

-- What stands before the first of `/?#`, and the rest.
unfoldable pub split_netloc : Str → Str × Str
split_netloc [] = ([], [])
split_netloc (c ∷ s) =
    let (front, rest) = split_netloc s in
    if c == b'/' || c == b'?' || c == b'#' then ([], c ∷ s) else (c ∷ front, rest)

-- After `//` stands the authority.
unfoldable pub authority_and_rest : Str → Str × Str
unfolding split_netloc starts_with
authority_and_rest [] = ([], [])
authority_and_rest (c ∷ []) = ([], c ∷ [])
authority_and_rest (c ∷ e ∷ s) = if c == b'/' && e == b'/' then split_netloc s else ([], c ∷ e ∷ s)

unfoldable pub contains_char : ℕ → Str → Bool
contains_char c [] = false
contains_char c (x ∷ s) = x == c || contains_char c s

-- `Invalid IPv6 URL`: one bracket without the other
unfoldable pub brackets_differ : Str → Bool
unfolding contains_char
brackets_differ netloc =
    (contains_char b'[' netloc && not (contains_char b']' netloc))
    || (contains_char b']' netloc && not (contains_char b'[' netloc))

abbrev pub query_of : Option Str → Str
query_of none = []
query_of (some q) = q

unfoldable pub urlsplit : Str → Str → Outcome Error SplitResult
unfolding split_scheme authority_and_rest brackets_differ
urlsplit default url =
    let (scheme, hier) = split_scheme default url in
    let (netloc, rest) = authority_and_rest hier in
    let (path_and_query, _) = split_once b'#' rest in
    let (path, query) = split_once b'?' path_and_query in
    if brackets_differ netloc
    then raise value_error
    else ok (record { scheme = scheme; netloc = netloc; path = path; query = query_of query })
