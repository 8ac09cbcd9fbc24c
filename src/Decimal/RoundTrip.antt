-- ===== src/Decimal/RoundTrip.antt =====
-- Reading back a printed number.
use hiyori.Prelude.{
  ℕ, zero, suc, ◌+◌, ◌-◌, ◌*◌, ◌/◌, ◌%◌, ◌≤◌, ◌<◌, ◌≡◌, refl, ap, ◌∙◌, sym, inl, inr, Bool, true,
  false, some, [], ◌∷◌, ◌++◌, Str, ltb, pos, Bool-cases, length, length-append, append_assoc,
  append-nil, arith,
}
use hiyori.Outcome.{ok}
use hiyori.Decimal.{digits, decimal, is_digit, natural, lstrip, rstrip, strip, plain, signed, int}

abbrev AreDigits : Str → Type 0
AreDigits [] = Unit
AreDigits (c ∷ s) = (b'0' ≤ c) × (c ≤ b'9') × AreDigits s

AreDigits-append : (s t : Str) → AreDigits s → AreDigits t → AreDigits (s ++ t)
AreDigits-append [] t hs ht = ht
AreDigits-append (c ∷ s) t hs ht = (hs.0, hs.1, AreDigits-append s t hs.2 ht)

digits-AreDigits : (fuel n : ℕ) → AreDigits (digits fuel n)
unfolding digits
digits-AreDigits zero n = tt
digits-AreDigits (suc fuel) n = elim (Bool-cases (ltb n 10)) [
  | inl small ↦ rw small (omega arith, ground arith, tt)
  | inr large ↦ rw large (
      AreDigits-append (digits fuel (n / 10)) _ (digits-AreDigits fuel (n / 10))
        (omega arith, omega arith, tt))
]

is_digit-true : (c : ℕ) → b'0' ≤ c → c ≤ b'9' → is_digit c ≡ true
unfolding is_digit
is_digit-true c lo hi = ground arith

natural-digit :
    (acc : ℕ) (prev : Bool) (c : ℕ) (s : Str)
    → b'0' ≤ c
    → c ≤ b'9'
    → natural acc prev (c ∷ s) ≡ natural (acc * 10 + (c - b'0')) true s
unfolding natural
natural-digit acc prev c s lo hi = rw (is_digit-true c lo hi)

-- Reading the digits of `n` leaves `n` in the accumulator.
natural-digits :
    (fuel n : ℕ) (prev : Bool) (s : Str)
    → n < fuel
    → natural 0 prev (digits fuel n ++ s) ≡ natural n true s
unfolding digits
natural-digits zero n prev s h = absurd (omega arith)
natural-digits (suc fuel) n prev s h = elim (Bool-cases (ltb n 10)) [
  | inl small ↦ rw small (
      natural-digit 0 prev (48 + n) s (omega arith) (ground arith)
      ∙ ap (λ k. natural k true s) (omega arith))
  | inr large ↦
      rw (large, append_assoc (digits fuel (n / 10)))
        (natural-digits fuel (n / 10) prev ((48 + n % 10) ∷ s) (ground arith)
          ∙ natural-digit (n / 10) true (48 + n % 10) s (omega arith) (omega arith)
          ∙ ap (λ k. natural k true s) (omega arith))
]

natural-decimal : (n : ℕ) (prev : Bool) → natural 0 prev (decimal n) ≡ some n
unfolding decimal natural
natural-decimal n prev =
    ap (natural 0 prev) (sym (append-nil (digits (suc n) n)))
    ∙ natural-digits (suc n) n prev [] (omega arith)

lstrip-AreDigits : (s : Str) → AreDigits s → lstrip s ≡ s
unfolding lstrip
lstrip-AreDigits [] h = refl
lstrip-AreDigits (c ∷ s) h = ground arith

rstrip-AreDigits : (s : Str) → AreDigits s → rstrip s ≡ s
unfolding rstrip
rstrip-AreDigits [] h = refl
rstrip-AreDigits (c ∷ []) h = ground arith
rstrip-AreDigits (c ∷ e ∷ s) h = rw (rstrip-AreDigits (e ∷ s) h.2)

strip-AreDigits : (s : Str) → AreDigits s → strip s ≡ s
strip-AreDigits s h = rw (lstrip-AreDigits s h) (rstrip-AreDigits s h)

signed-AreDigits : (s : Str) → AreDigits s → 0 < length s → signed s ≡ plain (natural 0 false s)
signed-AreDigits [] h some_digit = absurd (omega arith)
signed-AreDigits (c ∷ s) h some_digit = ground arith

digits_some : (fuel n : ℕ) → 0 < length (digits (suc fuel) n)
unfolding digits
digits_some fuel n = elim (Bool-cases (ltb n 10)) [
  | inl small ↦ rw small (omega arith)
  | inr large ↦ rw large (omega (arith, length-append (digits fuel (n / 10)) ((48 + n % 10) ∷ [])))
]

-- `int(str(n))` is `n`.
pub int-decimal : (n : ℕ) → int (decimal n) ≡ ok (pos n)
unfolding int decimal
int-decimal n =
    ap signed (strip-AreDigits (digits (suc n) n) (digits-AreDigits (suc n) n))
    ∙ signed-AreDigits (digits (suc n) n) (digits-AreDigits (suc n) n) (digits_some n n)
    ∙ ap plain (natural-decimal n false)
