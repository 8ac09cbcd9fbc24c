-- ===== src/Tests/Dict.antt =====
-- A header dictionary that the tests run with: entries in order, names compared in lower case.
use hiyori.Prelude.{
  Bool, true, false, Option, none, some, List, [], ◌∷◌, map, ◌=s=◌, Str, to_lower, if◌then◌else◌,
}
use hiyori.Headers.{HeaderDict}

abbrev pub same_name : Str → Str → Bool
same_name a b = map to_lower a =s= map to_lower b

abbrev pub contains : Str → List (Str × Str) → Bool
contains name [] = false
contains name ((k, v) ∷ rest) = if same_name name k then true else contains name rest

abbrev pub get? : Str → List (Str × Str) → Option Str
get? name [] = none
get? name ((k, v) ∷ rest) = if same_name name k then some v else get? name rest

abbrev pub set : Str → Str → List (Str × Str) → List (Str × Str)
set name value [] = (name, value) ∷ []
set name value ((k, v) ∷ rest) =
    if same_name name k then (name, value) ∷ rest else (k, v) ∷ set name value rest

abbrev pub set_all : List (Str × Str) → List (Str × Str) → List (Str × Str)
set_all [] h = h
set_all ((k, v) ∷ more) h = set_all more (set k v h)

instance abbrev pub assoc_dict : HeaderDict (List (Str × Str))
assoc_dict = record {
  from_items = λ items. set_all items [];
  items = λ h. h;
  contains = contains;
  get? = get?;
  set = set;
  update = set_all;
  setdefault = λ name value h. if contains name h then h else set name value h;
}
