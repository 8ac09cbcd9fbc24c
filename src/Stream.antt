-- ===== src/Stream.antt =====
-- The contract of `BaseRequestBody.read` (hiyori/bodies.py): what is left of the body comes out in
-- pieces of at most `n` bytes, and then EOFError. Every body of the library fills it, and the
-- connection's write loop uses it.
pub mod Drain
use hiyori.Prelude.{ℕ, zero, suc, ◌+◌, ◌≤◌, ◌<◌, ◌≡◌, ◌⊎◌, [], ◌++◌, length, Bytes}
use hiyori.Outcome.{Outcome, ok, raise}
use hiyori.Exceptions.{Error, eof_error}

-- What one call of `read` does: `before` and `after` are the bytes left.
abbrev pub Reads : ℕ → Bytes → Outcome Error Bytes → Bytes → Type 0
Reads n before r after =
    ((r ≡ raise eof_error) × (before ≡ []) × (after ≡ []))
    ⊎ ((piece : Bytes) × (r ≡ ok piece)
        × (0 < length piece)
        × (length piece ≤ n)
        × (piece ++ after ≡ before))

pub record Stream (S : Type 0) : Type 0 where
  pub read : ℕ → S → Outcome Error Bytes × S
  pub remaining : S → Bytes
  pub reads : (n : ℕ) (s : S) → 0 < n → Reads n (remaining s) (read n s).0 (remaining (read n s).1)
