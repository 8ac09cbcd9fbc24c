-- ===== src/Url/Query/Unquote.antt =====
-- `unquote` of what `quote_plus` has quoted.
use hiyori.Prelude.{
  ℕ, ◌+◌, ◌*◌, ◌/◌, ◌%◌, ◌<◌, ◌≡◌, ◌≢◌, refl, ap, ◌∙◌, true, some, [], ◌∷◌, ◌++◌, append-nil, Str,
  Bytes, encode, encode_point, ltb, ◌==◌, arith, inl, inr, Bool-cases,
}
use hiyori.Utf8.{decode_replace}
use hiyori.Utf8.RoundTrip.{IsText, IsScalar, decode_replace-encode}
use hiyori.Url.{is_safe, hex_digit, quote_byte, quote_bytes, quote_plus}
use hiyori.Url.Query.{
  is_hex, hex_value, hex_pair, percent, unquote_bytes, ascii_run, unquote, spaces,
}

abbrev AllBytes : Bytes → Type 0
AllBytes [] = Unit
AllBytes (b ∷ bs) = (b < 256) × AllBytes bs

hex_value-hex_digit :
    (n : ℕ) → n < 16 → (is_hex (hex_digit n) ≡ true) × (hex_value (hex_digit n) ≡ n)
unfolding is_hex hex_value hex_digit
hex_value-hex_digit n h = (ground arith, ground arith)

hex_digit-plain :
    (n : ℕ) → n < 16 → (hex_digit n ≢ b'%') × (hex_digit n ≢ b'+') × (hex_digit n < 128)
unfolding hex_digit
hex_digit-plain n h = (ground arith, ground arith, ground arith)

-- What unquoting gives for a text with `+` for the space.
abbrev bytes_of : Str → Bytes
bytes_of s = unquote_bytes (spaces s)

bytes_of-literal : (c : ℕ) (s : Str) → c ≢ b'%' → c ≢ b'+' → bytes_of (c ∷ s) ≡ c ∷ bytes_of s
unfolding unquote_bytes spaces
bytes_of-literal c s h k = ground arith

spaces-literal : (c : ℕ) (s : Str) → c ≢ b'+' → spaces (c ∷ s) ≡ c ∷ spaces s
unfolding spaces
spaces-literal c s k = ground arith

hex_pair-hex_digit :
    (x y : ℕ) (s : Str)
    → x < 16
    → y < 16
    → hex_pair (hex_digit x ∷ hex_digit y ∷ s) ≡ some (x * 16 + y)
unfolding hex_pair
hex_pair-hex_digit x y s hx hy =
    let (x_is_hex, x_value) = hex_value-hex_digit x hx in
    let (y_is_hex, y_value) = hex_value-hex_digit y hy in
    rw (x_is_hex, x_value, y_is_hex, y_value) refl

bytes_of-percent : (c : Str) → bytes_of (b'%' ∷ c) ≡ percent (hex_pair (spaces c)) (bytes_of c)
unfolding unquote_bytes spaces
bytes_of-percent c = refl

bytes_of-pair :
    (x y : ℕ) (s : Str)
    → x < 16
    → y < 16
    → bytes_of (b'%' ∷ hex_digit x ∷ hex_digit y ∷ s) ≡ (x * 16 + y) ∷ bytes_of s
bytes_of-pair x y s hx hy =
    let (px, qx, _) = hex_digit-plain x hx in
    let (py, qy, _) = hex_digit-plain y hy in
    let digits =
      spaces-literal (hex_digit x) (hex_digit y ∷ s) qx
      ∙ ap (λ t. hex_digit x ∷ t) (spaces-literal (hex_digit y) s qy) in
    let rest =
      bytes_of-literal (hex_digit x) (hex_digit y ∷ s) px qx
      ∙ ap (λ t. hex_digit x ∷ t) (bytes_of-literal (hex_digit y) s py qy) in
    bytes_of-percent (hex_digit x ∷ hex_digit y ∷ s)
    ∙ ap (λ t. percent (hex_pair t) (bytes_of (hex_digit x ∷ hex_digit y ∷ s))) digits
    ∙ ap (λ t. percent (hex_pair (hex_digit x ∷ hex_digit y ∷ spaces s)) t) rest
    ∙ ap (λ o. percent o (hex_digit x ∷ hex_digit y ∷ bytes_of s))
        (hex_pair-hex_digit x y (spaces s) hx hy)

is_safe-plain : (b : ℕ) → is_safe b ≡ true → (b ≢ b'%') × (b ≢ b'+') × (b < 128)
unfolding is_safe
is_safe-plain b h = (ground arith, ground arith, ground arith)

bytes_of-space : (s : Str) → bytes_of (b'+' ∷ s) ≡ b' ' ∷ bytes_of s
unfolding unquote_bytes spaces
bytes_of-space s = refl

bytes_of-quote_byte : (b : ℕ) (s : Str) → b < 256 → bytes_of (quote_byte b ++ s) ≡ b ∷ bytes_of s
unfolding quote_byte
bytes_of-quote_byte b s h = elim (Bool-cases (is_safe b)) [
  | inl safe ↦ let (p, q, _) = is_safe-plain b safe in rw safe (bytes_of-literal b s p q)
  | inr unsafe ↦ elim (Bool-cases (b == b' ')) [
    | inl space ↦ rw (unsafe, space) (bytes_of-space s ∙ ap (λ n. n ∷ bytes_of s) (ground arith))
    | inr other ↦
        rw (unsafe, other)
          (bytes_of-pair (b / 16) (b % 16) s (omega arith) (omega arith)
            ∙ ap (λ n. n ∷ bytes_of s) (omega arith))
  ]
]

bytes_of-quote_bytes : (bs : Bytes) → AllBytes bs → bytes_of (quote_bytes bs) ≡ bs
unfolding quote_bytes unquote_bytes spaces
bytes_of-quote_bytes [] h = refl
bytes_of-quote_bytes (b ∷ bs) (small, h) =
    bytes_of-quote_byte b (quote_bytes bs) small ∙ ap (λ t. b ∷ t) (bytes_of-quote_bytes bs h)

AllBytes-append : (xs ys : Bytes) → AllBytes xs → AllBytes ys → AllBytes (xs ++ ys)
AllBytes-append [] ys h k = k
AllBytes-append (x ∷ xs) ys (small, h) k = (small, AllBytes-append xs ys h k)

AllBytes-encode_point : (c : ℕ) → IsScalar c → AllBytes (encode_point c)
unfolding encode_point
AllBytes-encode_point c scalar = elim (Bool-cases (ltb c 0x80)) [
  | inl small ↦ rw small (ground arith, tt)
  | inr large ↦ elim (Bool-cases (ltb c 0x800)) [
    | inl two ↦ rw (large, two) (ground arith, (ground arith, tt))
    | inr more ↦ elim (Bool-cases (ltb c 0x10000)) [
      | inl three ↦ rw (large, more, three) (ground arith, (ground arith, (ground arith, tt)))
      | inr four ↦
          rw (large, more, four) (ground arith, (ground arith, (ground arith, (ground arith, tt))))
    ]
  ]
]

AllBytes-encode : (s : Str) → IsText s → AllBytes (encode s)
unfolding encode
AllBytes-encode [] h = tt
AllBytes-encode (c ∷ s) (scalar, h) =
    AllBytes-append (encode_point c) (encode s) (AllBytes-encode_point c scalar)
      (AllBytes-encode s h)

-- In ASCII, and neither a separator of fields, nor one of a name and a value, nor of a fragment.
abbrev pub IsPlain : ℕ → Type 0
IsPlain c = (c ≢ b'&') × (c ≢ b'=') × (c ≢ b'#') × (c < 128)

abbrev pub AllPlain : Str → Type 0
AllPlain [] = Unit
AllPlain (c ∷ s) = IsPlain c × AllPlain s

AllPlain-append : (s t : Str) → AllPlain s → AllPlain t → AllPlain (s ++ t)
AllPlain-append [] t h k = k
AllPlain-append (c ∷ s) t (plain, h) k = (plain, AllPlain-append s t h k)

hex_digit-IsPlain : (n : ℕ) → n < 16 → IsPlain (hex_digit n)
unfolding hex_digit
hex_digit-IsPlain n h = (ground arith, ground arith, ground arith, ground arith)

is_safe-IsPlain : (b : ℕ) → is_safe b ≡ true → IsPlain b
unfolding is_safe
is_safe-IsPlain b h = (ground arith, ground arith, ground arith, ground arith)

quote_byte-AllPlain : (b : ℕ) → b < 256 → AllPlain (quote_byte b)
unfolding quote_byte
quote_byte-AllPlain b h = elim (Bool-cases (is_safe b)) [
  | inl safe ↦ rw safe (is_safe-IsPlain b safe, tt)
  | inr unsafe ↦ elim (Bool-cases (b == b' ')) [
    | inl space ↦ rw (unsafe, space) ((ground arith, ground arith, ground arith, ground arith), tt)
    | inr other ↦
        rw (unsafe, other)
          (
            (ground arith, ground arith, ground arith, ground arith),
            (
              hex_digit-IsPlain (b / 16) (omega arith),
              (hex_digit-IsPlain (b % 16) (omega arith), tt),
            ),
          )
  ]
]

quote_bytes-AllPlain : (bs : Bytes) → AllBytes bs → AllPlain (quote_bytes bs)
unfolding quote_bytes
quote_bytes-AllPlain [] h = tt
quote_bytes-AllPlain (b ∷ bs) (small, h) =
    AllPlain-append (quote_byte b) (quote_bytes bs) (quote_byte-AllPlain b small)
      (quote_bytes-AllPlain bs h)

pub quote_plus-AllPlain : (s : Str) → IsText s → AllPlain (quote_plus s)
unfolding quote_plus
quote_plus-AllPlain s h = quote_bytes-AllPlain (encode s) (AllBytes-encode s h)

-- An ASCII text is one run.
ascii_run-spaces : (s : Str) → AllPlain s → ascii_run (spaces s) ≡ (spaces s, [])
unfolding ascii_run spaces
ascii_run-spaces [] h = refl
ascii_run-spaces (c ∷ s) ((_, _, _, small), h) = ground (arith, ascii_run-spaces s h)

pub unquote-quote_plus : (s : Str) → IsText s → unquote (spaces (quote_plus s)) ≡ s
unfolding unquote quote_plus
unquote-quote_plus s h =
    ap (λ r. decode_replace (unquote_bytes r.0) ++ r.1)
      (ascii_run-spaces (quote_plus s) (quote_plus-AllPlain s h))
    ∙ append-nil (decode_replace (bytes_of (quote_plus s)))
    ∙ ap decode_replace (bytes_of-quote_bytes (encode s) (AllBytes-encode s h))
    ∙ decode_replace-encode s h
