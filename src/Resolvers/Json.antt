-- ===== src/Resolvers/Json.antt =====
-- The values that `json.loads` gives, and what the code of hiyori/resolvers/https.py does with them. A
-- number with a fraction is the decimal number of its text: NaN and the infinities are left out, and so
-- is rounding.
use hiyori.Prelude.{
  ℕ, zero, suc, ◌+◌, ◌-◌, ◌*◌, Bool, true, false, ◌||◌, ◌&&◌, Option, none, some, List, [], ◌∷◌,
  map, Str, ◌=s=◌, ltb, ◌==◌, ℤ, pos, negsuc, ◌<ℤ◌, if◌then◌else◌,
}
use hiyori.Outcome.{Outcome, ok, raise}
use hiyori.Exceptions.{Error, key_error, type_error}

mutual
  pub data Json : Type 0 where
    null : Json
    boolean : Bool → Json
    integer : ℤ → Json
    -- `decimal m e` is m / 10 ** e.
    decimal : ℤ → ℕ → Json
    text : Str → Json
    array : Elements → Json
    object : Members → Json

  pub data Elements : Type 0 where
    nil : Elements
    cons : Json → Elements → Elements

  pub data Members : Type 0 where
    end : Members
    member : Str → Json → Members → Members

unfoldable pub elements : List Json → Elements
elements [] = nil
elements (x ∷ xs) = cons x (elements xs)

unfoldable pub listed : Elements → List Json
listed nil = []
listed (cons x xs) = x ∷ listed xs

-- the last member of that name
unfoldable pub find_member : Str → Members → Option Json
find_member name end = none
find_member name (member k v rest) =
    let later = find_member name rest in
    elim later [ some w ↦ some w | none ↦ if k =s= name then some v else none ]

abbrev pub or_key_error : Option Json → Outcome Error Json
or_key_error none = raise key_error
or_key_error (some v) = ok v

-- `value[name]`, for a text `name`
unfoldable pub get_item : Str → Json → Outcome Error Json
unfolding find_member
get_item name (object members) = or_key_error (find_member name members)
get_item name _ = raise type_error

abbrev is_one_of : Str → List Str → Bool
is_one_of k [] = false
is_one_of k (other ∷ seen) = k =s= other || is_one_of k seen

-- The names of a dictionary, each once, where it stands first.
unfoldable pub names : Members → List Str → List Json
names end seen = []
names (member k v rest) seen =
    let fresh = names rest (k ∷ seen) in if is_one_of k seen then fresh else text k ∷ fresh

-- `for x in value`
unfoldable pub iterate : Json → Outcome Error (List Json)
unfolding listed names
iterate (array xs) = ok (listed xs)
iterate (object members) = ok (names members [])
iterate (text s) = ok (map (λ c. text (c ∷ [])) s)
iterate _ = raise type_error

unfoldable pub is_dict : Json → Bool
is_dict (object members) = true
is_dict _ = false

-- `value`, if `isinstance(value, int)`: booleans are numbers.
unfoldable pub as_int : Json → Option ℤ
as_int (integer n) = some n
as_int (boolean b) = some (pos (if b then 1 else 0))
as_int _ = none

-- A number, with the number of its decimal places.
unfoldable pub number : Json → Option (ℤ × ℕ)
number (integer n) = some (n, 0)
number (boolean b) = some (pos (if b then 1 else 0), 0)
number (decimal m e) = some (m, e)
number _ = none

unfoldable pub power_of_ten : ℕ → ℕ
power_of_ten zero = 1
power_of_ten (suc n) = 10 * power_of_ten n

unfoldable pub scaled : ℕ → ℤ → ℤ
unfolding power_of_ten
scaled e (pos n) = pos (n * power_of_ten e)
scaled e (negsuc n) = negsuc ((n + 1) * power_of_ten e - 1)

-- the order of texts
unfoldable pub is_before : Str → Str → Bool
is_before s [] = false
is_before [] (d ∷ t) = true
is_before (c ∷ s) (d ∷ t) = let rest = is_before s t in ltb c d || (c == d && rest)

unfoldable pub compared : Option (ℤ × ℕ) → Option (ℤ × ℕ) → Outcome Error Bool
unfolding scaled
compared (some (m, d)) (some (n, e)) = ok (scaled d n <ℤ scaled e m)
compared _ _ = raise type_error

-- `a > b`. The order of two lists is left out: a list that gets this far ends in an exception that the
-- caller catches, whichever is greater.
unfoldable pub greater : Json → Json → Outcome Error Bool
unfolding number compared is_before
greater (text s) (text t) = ok (is_before t s)
greater (array xs) (array ys) = ok false
greater a b = compared (number a) (number b)
