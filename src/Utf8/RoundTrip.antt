-- ===== src/Utf8/RoundTrip.antt =====
-- Decoding what was encoded.
use hiyori.Prelude.{
  ℕ, ◌+◌, ◌-◌, ◌*◌, ◌/◌, ◌%◌, ◌≤◌, ◌<◌, ◌≡◌, refl, ap, ◌∙◌, ◌⊎◌, inl, inr, some, [], ◌∷◌, ◌++◌, map,
  Str, Bytes, encode, encode_point, ltb, ◌==◌, if◌then◌else◌, arith, Bool-cases,
}
use hiyori.Outcome.{ok}
use hiyori.Utf8.{
  between, within, start, continued, feed, pieces, replaced, decode_replace, well_formed, to_str,
}

-- A code point that is no surrogate.
abbrev pub IsScalar : ℕ → Type 0
IsScalar c = (c < 0xd800) ⊎ ((0xe000 ≤ c) × (c < 0x110000))

abbrev pub IsText : Str → Type 0
IsText [] = Unit
IsText (c ∷ s) = IsScalar c × IsText s

one_byte : (c : ℕ) (bs : Bytes) → c < 0x80 → pieces between (c ∷ bs) ≡ some c ∷ pieces between bs
unfolding pieces feed start
one_byte c bs h = ground arith

two_bytes :
    (c : ℕ) (bs : Bytes)
    → 0x80 ≤ c
    → c < 0x800
    → pieces between ((0xc0 + c / 64) ∷ (0x80 + c % 64) ∷ bs) ≡ some c ∷ pieces between bs
unfolding pieces feed start continued
two_bytes c bs l h = ground arith

three_bytes :
    (c : ℕ) (bs : Bytes)
    → 0x800 ≤ c
    → c < 0x10000
    → IsScalar c
    → pieces between ((0xe0 + c / 4096) ∷ (0x80 + c / 64 % 64) ∷ (0x80 + c % 64) ∷ bs)
      ≡ some c ∷ pieces between bs
unfolding pieces feed start continued
three_bytes c bs l h scalar = ground arith

-- The last three bytes of four, and the number that they end.
three_more :
    (acc lo hi x y z : ℕ) (bs : Bytes)
    → lo ≤ x
    → x ≤ hi
    → y < 64
    → z < 64
    → pieces (within 2 acc lo hi) (x ∷ (0x80 + y) ∷ (0x80 + z) ∷ bs)
      ≡ some (((acc * 64 + (x - 0x80)) * 64 + y) * 64 + z) ∷ pieces between bs
unfolding pieces feed continued
three_more acc lo hi x y z bs l h hy hz = ground arith

four_start :
    (q x : ℕ) (bs : Bytes)
    → q ≤ 4
    → x < 64
    → (q ≡ 0 → 16 ≤ x)
    → (q ≡ 4 → x < 16)
    → (lo : ℕ) × (hi : ℕ) × (pieces between ((0xf0 + q) ∷ bs) ≡ pieces (within 2 q lo hi) bs)
      × (lo ≤ 0x80 + x)
      × (0x80 + x ≤ hi)
unfolding pieces feed start
four_start q x bs h small low high = (
  if q == 0 then 0x90 else 0x80,
  if q == 4 then 0x8f else 0xbf,
  ground arith,
  ground arith,
  ground arith,
)

four_bytes :
    (c : ℕ) (bs : Bytes)
    → 0x10000 ≤ c
    → c < 0x110000
    → pieces between
        ((0xf0 + c / 262144) ∷ (0x80 + c / 4096 % 64) ∷ (0x80 + c / 64 % 64) ∷ (0x80 + c % 64) ∷ bs)
      ≡ some c ∷ pieces between bs
four_bytes c bs l h =
    let (lo, hi, started, above, below) =
      four_start (c / 262144) (c / 4096 % 64)
        ((0x80 + c / 4096 % 64) ∷ (0x80 + c / 64 % 64) ∷ (0x80 + c % 64) ∷ bs) (omega arith)
        (omega arith) (λ e. omega arith) (λ e. omega arith) in
    started
    ∙ three_more (c / 262144) lo hi (0x80 + c / 4096 % 64) (c / 64 % 64) (c % 64) bs above below
        (omega arith) (omega arith)
    ∙ ap (λ n. some n ∷ pieces between bs) (omega arith)

pieces-encode_point :
    (c : ℕ) (bs : Bytes)
    → IsScalar c
    → pieces between (encode_point c ++ bs) ≡ some c ∷ pieces between bs
unfolding encode_point
pieces-encode_point c bs scalar = elim (Bool-cases (ltb c 0x80)) [
  | inl small ↦ rw small (one_byte c bs (ground arith))
  | inr large ↦ elim (Bool-cases (ltb c 0x800)) [
    | inl two ↦ rw (large, two) (two_bytes c bs (ground arith) (ground arith))
    | inr more ↦ elim (Bool-cases (ltb c 0x10000)) [
      | inl three ↦ rw (large, more, three) (three_bytes c bs (ground arith) (ground arith) scalar)
      | inr four ↦ rw (large, more, four) (four_bytes c bs (ground arith) (ground arith))
    ]
  ]
]

pieces-encode : (s : Str) → IsText s → pieces between (encode s) ≡ map some s
unfolding pieces encode
pieces-encode [] h = refl
pieces-encode (c ∷ s) (scalar, h) =
    pieces-encode_point c (encode s) scalar ∙ ap (λ t. some c ∷ t) (pieces-encode s h)

replaced-some : (s : Str) → replaced (map some s) ≡ s
unfolding replaced
replaced-some [] = refl
replaced-some (c ∷ s) = rw (replaced-some s) refl

well_formed-some : (s : Str) → well_formed (map some s) ≡ ok s
unfolding well_formed
well_formed-some [] = refl
well_formed-some (c ∷ s) = rw (well_formed-some s) refl

pub decode_replace-encode : (s : Str) → IsText s → decode_replace (encode s) ≡ s
unfolding decode_replace
decode_replace-encode s h = ap replaced (pieces-encode s h) ∙ replaced-some s

-- A text of any code points but surrogates is what its encoding decodes to.
pub to_str-encode : (s : Str) → IsText s → to_str (encode s) ≡ ok s
unfolding to_str
to_str-encode s h = ap well_formed (pieces-encode s h) ∙ well_formed-some s
