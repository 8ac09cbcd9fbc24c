-- ===== src/Utf8.antt =====
-- `bytes.decode("utf-8")` of Python, strict or with errors replaced: the former is `to_str` of
-- ResponseBody (hiyori/bodies.py), the latter decodes the query of a url.
pub mod RoundTrip
use hiyori.Prelude.{
  ℕ, zero, suc, ◌+◌, ◌-◌, ◌*◌, Bool, true, false, ◌&&◌, Option, none, some, List, [], ◌∷◌, ◌++◌,
  Str, Bytes, leb, ltb, ◌==◌, if◌then◌else◌,
}
use hiyori.Outcome.{Outcome, ok, raise, ◌>>=◌}
use hiyori.Exceptions.{Error, value_error}

-- Between two characters, or in one: `more` bytes are to come after the next, which lies between `lo`
-- and `hi`, and `acc` is what the bytes so far stand for.
pub data Pending : Type 0 where
  between : Pending
  within : ℕ → ℕ → ℕ → ℕ → Pending

-- A byte between two characters: what it decodes to, where `none` stands for an ill-formed piece.
unfoldable pub start : ℕ → List (Option ℕ) × Pending
start b =
    if ltb b 0x80
    then (some b ∷ [], between)
    else if ltb b 0xc2
    then (none ∷ [], between)
    else if ltb b 0xe0
    then ([], within 0 (b - 0xc0) 0x80 0xbf)
    else if ltb b 0xf0
    then (
      [],
      within 1 (b - 0xe0) (if b == 0xe0 then 0xa0 else 0x80) (if b == 0xed then 0x9f else 0xbf),
    )
    else if ltb b 0xf5
    then (
      [],
      within 2 (b - 0xf0) (if b == 0xf0 then 0x90 else 0x80) (if b == 0xf4 then 0x8f else 0xbf),
    )
    else (none ∷ [], between)

-- a byte in its place within a character
unfoldable pub continued : ℕ → ℕ → List (Option ℕ) × Pending
continued zero acc = (some acc ∷ [], between)
continued (suc more) acc = ([], within more acc 0x80 0xbf)

-- What is out of place ends an ill-formed piece, and starts anew.
unfoldable pub feed : Pending → ℕ → List (Option ℕ) × Pending
unfolding start continued
feed between b = start b
feed (within more acc lo hi) b =
    let (points, next) = start b in
    if leb lo b && leb b hi then continued more (acc * 64 + (b - 0x80)) else (none ∷ points, next)

abbrev cut_off : Pending → List (Option ℕ)
cut_off between = []
cut_off (within more acc lo hi) = none ∷ []

unfoldable pub pieces : Pending → Bytes → List (Option ℕ)
unfolding feed
pieces state [] = cut_off state
pieces state (b ∷ bs) = let (points, next) = feed state b in points ++ pieces next bs

-- errors="replace"
unfoldable pub replaced : List (Option ℕ) → Str
replaced [] = []
replaced (none ∷ ps) = 0xfffd ∷ replaced ps
replaced (some c ∷ ps) = c ∷ replaced ps

unfoldable pub decode_replace : Bytes → Str
unfolding pieces replaced
decode_replace bs = replaced (pieces between bs)

-- errors="strict": UnicodeDecodeError is a ValueError.
unfoldable pub well_formed : List (Option ℕ) → Outcome Error Str
well_formed [] = ok []
well_formed (none ∷ ps) = raise value_error
well_formed (some c ∷ ps) = well_formed ps >>= λ s. ok (c ∷ s)

-- ResponseBody.to_str()
unfoldable pub to_str : Bytes → Outcome Error Str
unfolding pieces well_formed
to_str bs = well_formed (pieces between bs)

-- ResponseBody.to_json(), with `json.loads` as an argument
unfoldable pub to_json : {A : Type 0} → (Str → Outcome Error A) → Bytes → Outcome Error A
unfolding to_str
to_json loads bs = to_str bs >>= loads
