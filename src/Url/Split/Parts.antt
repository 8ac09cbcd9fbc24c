-- ===== src/Url/Split/Parts.antt =====
-- `urlsplit` of a url that is put together from its parts.
use hiyori.Prelude.{
  ◌≡◌, refl, false, Option, none, some, [], ◌∷◌, ◌++◌, Str, Lacks, Lacks-append, split_once,
  split_once-append, split_once-absent, arith,
}
use hiyori.Outcome.{ok}
use hiyori.Url.Split.{
  query_of, split_netloc, split_scheme, authority_and_rest, brackets_differ, urlsplit,
}

-- Nothing in an authority ends it, and brackets stand in it both or not at all.
abbrev pub IsAuthority : Str → Type 0
IsAuthority s = Lacks b'/' s × Lacks b'?' s × Lacks b'#' s × (brackets_differ s ≡ false)

split_netloc-append :
    (s t : Str)
    → Lacks b'/' s
    → Lacks b'?' s
    → Lacks b'#' s
    → split_netloc (s ++ b'/' ∷ t) ≡ (s, b'/' ∷ t)
unfolding split_netloc
split_netloc-append [] t h k l = refl
split_netloc-append (c ∷ s) t h k l = ground (arith, split_netloc-append s t h.1 k.1 l.1)

-- The part of a url from its query on, where there is one.
abbrev pub with_query : Str → Option Str → Str
with_query path none = path
with_query path (some query) = path ++ b'?' ∷ query

abbrev pub LacksFragment : Option Str → Type 0
LacksFragment none = Unit
LacksFragment (some query) = Lacks b'#' query

split_query :
    (path : Str) (query : Option Str)
    → Lacks b'?' path
    → split_once b'?' (with_query path query) ≡ (path, query)
split_query path none h = split_once-absent b'?' path h
split_query path (some query) h = split_once-append b'?' path query h

with_query-Lacks :
    (path : Str) (query : Option Str)
    → Lacks b'#' path
    → LacksFragment query
    → Lacks b'#' (with_query path query)
with_query-Lacks path none h k = h
with_query-Lacks path (some query) h k = Lacks-append b'#' path (b'?' ∷ query) h (ground arith, k)

split_netloc-with_query :
    (authority path : Str) (query : Option Str)
    → IsAuthority authority
    → split_netloc (authority ++ with_query (b'/' ∷ path) query)
      ≡ (authority, with_query (b'/' ∷ path) query)
split_netloc-with_query authority path none (h, k, l, _) = split_netloc-append authority path h k l
split_netloc-with_query authority path (some query) (h, k, l, _) =
    split_netloc-append authority (path ++ b'?' ∷ query) h k l

pub urlsplit-with_query :
    (default url scheme authority path : Str) (query : Option Str)
    → split_scheme default url
      ≡ (scheme, b'/' ∷ b'/' ∷ (authority ++ with_query (b'/' ∷ path) query))
    → IsAuthority authority
    → Lacks b'?' path
    → Lacks b'#' path
    → LacksFragment query
    → urlsplit default url
      ≡ ok (record {
        scheme = scheme;
        netloc = authority;
        path = b'/' ∷ path;
        query = query_of query;
      })
unfolding urlsplit authority_and_rest
urlsplit-with_query default url scheme authority path query front good no_query no_fragment h =
    rw
      (
        front,
        split_netloc-with_query authority path query good,
        split_once-absent b'#' (with_query (b'/' ∷ path) query)
            (with_query-Lacks (b'/' ∷ path) query (ground arith, no_fragment) h),
        split_query (b'/' ∷ path) query (ground arith, no_query),
        good.3,
      )
      refl
