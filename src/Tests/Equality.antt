-- ===== src/Tests/Equality.antt =====
-- Equality of addresses that are texts, or numbers, with their ports.
use hiyori.Prelude.{ℕ, Str, ℤ, Equal, ◌==◌, ==_iff, ◌=s=◌, =s=_iff}
use hiyori.Resolvers.Base.{with_port}

instance abbrev pub texts : Equal (Str × ℤ)
texts = with_port (record { same = λ x y. x =s= y; same_iff = =s=_iff })

instance abbrev pub numbers : Equal (ℕ × ℤ)
numbers = with_port (record { same = λ m n. m == n; same_iff = ==_iff })
