-- ===== src/Decimal.antt =====
-- Python's `str(n)` and `int(s)`, for ASCII texts.
pub mod RoundTrip
use hiyori.Prelude.{
  ℕ, zero, suc, ◌+◌, ◌-◌, ◌*◌, ◌/◌, ◌%◌, Bool, true, false, ◌&&◌, ◌||◌, Option, none, some, List,
  [], ◌∷◌, ◌++◌, Str, ltb, leb, ◌==◌, ℤ, pos, negsuc, if◌then◌else◌,
}
use hiyori.Outcome.{Outcome, ok, raise}
use hiyori.Exceptions.{Error, value_error}

-- The digits of `n`, with fuel for their number.
unfoldable pub digits : ℕ → ℕ → Str
digits zero n = []
digits (suc fuel) n =
    let front = digits fuel (n / 10) in
    if ltb n 10 then (48 + n) ∷ [] else front ++ (48 + n % 10) ∷ []

-- `str(n)`: a number has at most as many digits as it counts, and one more for zero.
unfoldable pub decimal : ℕ → Str
unfolding digits
decimal n = digits (suc n) n

unfoldable pub is_digit : ℕ → Bool
is_digit c = leb b'0' c && leb c b'9'

-- Space, and the control characters that `str.strip` and `str.split` take for space.
unfoldable pub is_space : ℕ → Bool
is_space c = (leb 9 c && leb c 13) || (leb 28 c && leb c 32)

-- Digits, with single underscores between them: `prev` tells that a digit stands before.
unfoldable pub natural : ℕ → Bool → Str → Option ℕ
natural acc prev [] = if prev then some acc else none
natural acc prev (c ∷ s) =
    let rest = natural (if is_digit c then acc * 10 + (c - b'0') else acc) (is_digit c) s in
    if is_digit c || (c == b'_' && prev) then rest else none

unfoldable pub lstrip : Str → Str
unfolding is_space
lstrip [] = []
lstrip (c ∷ s) = if is_space c then lstrip s else c ∷ s

-- A space stays only where something else follows.
unfoldable pub keep : ℕ → Str → Str
unfolding is_space
keep c [] = if is_space c then [] else c ∷ []
keep c (e ∷ r) = c ∷ e ∷ r

unfoldable pub rstrip : Str → Str
unfolding keep
rstrip [] = []
rstrip (c ∷ s) = keep c (rstrip s)

abbrev pub strip : Str → Str
strip s = rstrip (lstrip s)

abbrev pub negated : Option ℕ → Outcome Error ℤ
negated none = raise value_error
negated (some zero) = ok (pos 0)
negated (some (suc n)) = ok (negsuc n)

abbrev pub plain : Option ℕ → Outcome Error ℤ
plain none = raise value_error
plain (some n) = ok (pos n)

abbrev pub signed : Str → Outcome Error ℤ
signed [] = raise value_error
signed (c ∷ s) =
    if c == b'-'
    then negated (natural 0 false s)
    else if c == b'+'
    then plain (natural 0 false s)
    else plain (natural 0 false (c ∷ s))

-- `int(s)`
unfoldable pub int : Str → Outcome Error ℤ
unfolding natural is_digit lstrip rstrip
int s = signed (strip s)
