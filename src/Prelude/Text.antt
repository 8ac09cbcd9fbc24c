-- ===== src/Prelude/Text.antt =====
-- Text and bytes: both are lists of numbers, of code points and of octets.
use Prim.Native.Nat.{ℕ, ◌+◌, ◌-◌, ◌/◌, ◌%◌, ◌<◌}
use Prim.Native.Char.{code}
use Prim.Native.String.{String}
use mathlib.Core.Option.{Option, none, some}
use mathlib.Core.Path.{◌≡◌, refl}
use mathlib.Core.Logic.{◌≢◌, ◌↔◌}
use mathlib.Core.Bool.{Bool, true, false, ◌&&◌}
use mathlib.Core.List.{List, [], ◌∷◌, ◌++◌, append_assoc}
use native.Mathlib.Omega.{arith}
use hiyori.Prelude.Tests.{ltb, leb, ◌==◌, if◌then◌else◌}

abbrev pub Str : Type 0
Str = List ℕ

abbrev pub Bytes : Type 0
Bytes = List ℕ

-- The code points of a literal.
abbrev pub codes : String → Str
codes String.[] = []
codes (String.◌∷◌ c s) = code c ∷ codes s

-- `a == b` on texts.
infix 50 ◌=s=◌
unfoldable pub ◌=s=◌ : Str → Str → Bool
[] =s= [] = true
[] =s= (y ∷ ys) = false
(x ∷ xs) =s= [] = false
(x ∷ xs) =s= (y ∷ ys) = x == y && (xs =s= ys)

pub =s=_iff : (a b : Str) → ((a =s= b) ≡ true) ↔ (a ≡ b)
unfolding ◌=s=◌
=s=_iff [] [] = (λ _. refl, λ _. refl)
=s=_iff [] (y ∷ ys) = (λ h. cc, λ h. cc)
=s=_iff (x ∷ xs) [] = (λ h. cc, λ h. cc)
=s=_iff (x ∷ xs) (y ∷ ys) = ground (arith, =s=_iff xs ys)

pub =s=_refl : (a : Str) → (a =s= a) ≡ true
=s=_refl a = (=s=_iff a a).1 refl

-- `c.upper()` and `c.lower()` of an ASCII character.
unfoldable pub to_upper : ℕ → ℕ
to_upper c = if leb b'a' c && leb c b'z' then c - 32 else c

unfoldable pub to_lower : ℕ → ℕ
to_lower c = if leb b'A' c && leb c b'Z' then c + 32 else c

-- One code point in UTF-8.
unfoldable pub encode_point : ℕ → Bytes
encode_point c =
    if ltb c 0x80
    then c ∷ []
    else if ltb c 0x800
    then (0xc0 + c / 64) ∷ (0x80 + c % 64) ∷ []
    else if ltb c 0x10000
    then (0xe0 + c / 4096) ∷ (0x80 + c / 64 % 64) ∷ (0x80 + c % 64) ∷ []
    else (0xf0 + c / 262144) ∷ (0x80 + c / 4096 % 64) ∷ (0x80 + c / 64 % 64) ∷ (0x80 + c % 64) ∷ []

-- `s.encode("utf-8")`.
unfoldable pub encode : Str → Bytes
unfolding encode_point
encode [] = []
encode (c ∷ s) = encode_point c ++ encode s

-- `s.split(sep, 1)` for a single character: what stands before it, and the rest if it is there.
unfoldable pub split_once : ℕ → Str → Str × Option Str
split_once sep [] = ([], none)
split_once sep (c ∷ s) =
    let (front, rest) = split_once sep s in if c == sep then ([], some s) else (c ∷ front, rest)

-- `sep not in s`
abbrev pub Lacks : ℕ → Str → Type 0
Lacks sep [] = Unit
Lacks sep (c ∷ s) = (c ≢ sep) × Lacks sep s

pub Lacks-append : (sep : ℕ) (s t : Str) → Lacks sep s → Lacks sep t → Lacks sep (s ++ t)
Lacks-append sep [] t h k = k
Lacks-append sep (c ∷ s) t (differs, h) k = (differs, Lacks-append sep s t h k)

-- The separator does not stand in front of itself, and what a text lacks its front lacks.
pub split_once-Lacks : (sep : ℕ) (s : Str) → Lacks sep (split_once sep s).0
unfolding split_once
split_once-Lacks sep [] = tt
split_once-Lacks sep (c ∷ s) = ground (arith, split_once-Lacks sep s)

pub split_once-Lacks_other : (sep c : ℕ) (s : Str) → Lacks c s → Lacks c (split_once sep s).0
unfolding split_once
split_once-Lacks_other sep c [] h = tt
split_once-Lacks_other sep c (x ∷ s) h = ground (arith, split_once-Lacks_other sep c s h.1)

pub split_once-absent : (sep : ℕ) (s : Str) → Lacks sep s → split_once sep s ≡ (s, none)
unfolding split_once
split_once-absent sep [] h = refl
split_once-absent sep (c ∷ s) h = ground (arith, split_once-absent sep s h.1)

pub split_once-append :
    (sep : ℕ) (s t : Str) → Lacks sep s → split_once sep (s ++ sep ∷ t) ≡ (s, some t)
unfolding split_once
split_once-append sep [] t h = ground arith
split_once-append sep (c ∷ s) t h = ground (arith, split_once-append sep s t h.1)

-- `s.startswith(p)`
unfoldable pub starts_with : Str → Str → Bool
starts_with [] s = true
starts_with (c ∷ p) [] = false
starts_with (c ∷ p) (x ∷ s) = x == c && starts_with p s

-- An ASCII character stands in the bytes only where it stands in the text.
encode_point-Lacks : (sep c : ℕ) → sep < 0x80 → c ≢ sep → Lacks sep (encode_point c)
unfolding encode_point
encode_point-Lacks sep c h differs = ground arith

pub encode-Lacks : (sep : ℕ) (s : Str) → sep < 0x80 → Lacks sep s → Lacks sep (encode s)
unfolding encode
encode-Lacks sep [] small h = tt
encode-Lacks sep (c ∷ s) small (differs, h) =
    Lacks-append sep (encode_point c) (encode s) (encode_point-Lacks sep c small differs)
      (encode-Lacks sep s small h)

pub encode-append : (s t : Str) → encode (s ++ t) ≡ encode s ++ encode t
unfolding encode
encode-append [] t = refl
encode-append (c ∷ s) t = simp (encode-append s t, append_assoc)
