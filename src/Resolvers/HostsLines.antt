-- ===== src/Resolvers/HostsLines.antt =====
-- The lines of a hosts file, as `_read_hosts` of hiyori/resolvers/hosts.py is meant to take them, in one
-- pass and apart from its code: a comment goes from the first number sign to the end of the line, and
-- what stands before it is words between spaces.
use hiyori.Prelude.{
  ℕ, ◌≡◌, refl, ap, ◌∙◌, Bool, true, false, not, ◌&&◌, List, [], ◌∷◌, Str, ◌==◌, split_once,
  if◌then◌else◌, arith, inl, inr, Bool-cases,
}
use hiyori.Decimal.{is_space, keep, rstrip}
use hiyori.Resolvers.Hosts.{push, pieces, nonempty, words}

-- whether a word that ends before `s` goes on in it
unfoldable pub goes_on : Str → Bool
unfolding is_space
goes_on [] = false
goes_on (c ∷ s) = not (c == b'#') && not (is_space c)

unfoldable pub line_words : Str → List Str
unfolding is_space goes_on
line_words [] = []
line_words (c ∷ s) =
    let rest = line_words s in
    if c == b'#'
    then []
    else if is_space c
    then rest
    else if goes_on s
    then push c rest
    else (c ∷ []) ∷ rest

-- the words of a line up to its comment, as the code takes them
abbrev begun : List Str → Bool
begun ((c ∷ w) ∷ ws) = true
begun _ = false

nonempty-push :
    (c : ℕ) (ws : List Str)
    → nonempty (push c ws) ≡ (if begun ws then push c (nonempty ws) else (c ∷ []) ∷ nonempty ws)
nonempty-push c [] = refl
nonempty-push c ([] ∷ ws) = refl
nonempty-push c ((x ∷ w) ∷ ws) = refl

begun-push : (c : ℕ) (ws : List Str) → begun (push c ws) ≡ true
begun-push c [] = refl
begun-push c (w ∷ ws) = refl

begun-pieces : (s : Str) → begun (pieces (split_once b'#' s).0) ≡ goes_on s
unfolding pieces split_once goes_on
begun-pieces [] = refl
begun-pieces (c ∷ s) = elim (Bool-cases (c == b'#')) [
  | inl comment ↦ rw comment refl
  | inr other ↦ elim (Bool-cases (is_space c)) [
    | inl space ↦ rw (other, space) refl
    | inr letter ↦ rw (other, letter) (begun-push c (pieces (split_once b'#' s).0))
  ]
]

words-split_once : (s : Str) → words (split_once b'#' s).0 ≡ line_words s
unfolding words pieces split_once line_words
words-split_once [] = refl
words-split_once (c ∷ s) = elim (Bool-cases (c == b'#')) [
  | inl comment ↦ rw comment refl
  | inr other ↦ elim (Bool-cases (is_space c)) [
    | inl space ↦ rw (other, space) (words-split_once s)
    | inr letter ↦
        rw (other, letter, nonempty-push c (pieces (split_once b'#' s).0), begun-pieces s)
          (ap (λ ws. if goes_on s then push c ws else (c ∷ []) ∷ ws) (words-split_once s))
  ]
]

goes_on-keep : (c : ℕ) (s : Str) → goes_on (keep c s) ≡ goes_on (c ∷ s)
unfolding keep goes_on
goes_on-keep c [] = ground arith
goes_on-keep c (e ∷ s) = refl

goes_on-rstrip : (s : Str) → goes_on (rstrip s) ≡ goes_on s
unfolding rstrip goes_on
goes_on-rstrip [] = refl
goes_on-rstrip (c ∷ s) = goes_on-keep c (rstrip s)

line_words-keep : (c : ℕ) (s : Str) → line_words (keep c s) ≡ line_words (c ∷ s)
unfolding keep line_words
line_words-keep c [] = ground arith
line_words-keep c (e ∷ s) = refl

line_words-rstrip : (s : Str) → line_words (rstrip s) ≡ line_words s
unfolding rstrip line_words
line_words-rstrip [] = refl
line_words-rstrip (c ∷ s) =
    line_words-keep c (rstrip s) ∙ rw (line_words-rstrip s, goes_on-rstrip s) refl

-- The code cuts a line at its comment, after the spaces at its end, and splits what is left.
pub words-line : (line : Str) → words (split_once b'#' (rstrip line)).0 ≡ line_words line
words-line line = words-split_once (rstrip line) ∙ line_words-rstrip line
