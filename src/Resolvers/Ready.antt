-- ===== src/Resolvers/Ready.antt =====
-- A connection over a resolver.
use hiyori.Prelude.{
  ℕ, ◌≤◌, ◌<◌, ◌≡◌, ◌∙◌, Bool, true, false, none, some, List, length, Str, ℤ, arith, inl, inr, ◌⊎◌,
}
use hiyori.Outcome.{Outcome, ok, raise}
use hiyori.Exceptions.{Error, unresolvable_host, is_exception}
use hiyori.Exec.{◌>>=◌}
use hiyori.Connection.Id
use hiyori.Connection.Http.{HttpProtocol}
use hiyori.Connection.Object.{
  HttpConnection, Dial, cancel_idle_timeout, is_connected, connect, get_ready,
}
use hiyori.Resolvers.Base.{ResolvedResult, CacheKey, BaseResolver, lookup}
use hiyori.Resolvers.Race.{at, race, connect_any, connect_fastest}
use hiyori.Resolvers.Fastest.{Among, All, Failed, race-Fastest}
use hiyori.Resolvers.Dialing.{connect_found, dialing, dial}

module _ {R P H : Type 0} (http : HttpProtocol P H)
    (lookup_now : CacheKey → Outcome Error (ResolvedResult R))
    (others : BaseResolver R → BaseResolver R) (opens : Bool → R → ℕ × Outcome Error P)
    (again : Bool → R → Outcome Error P)
    (plain : (tls : Bool) (r : R) (e : Error)
      → (opens tls r).1 ≡ raise e
      → is_exception e ≡ true) where
  -- A protocol, from a record that no other beats, or UnresolvableHost if none can be opened.
  abbrev pub Opened : Bool → List R → Outcome Error P → Type 0
  Opened tls rs x =
      ((r : R) × (p : P) × (x ≡ ok p)
        × Among r rs
        × ((opens tls r).1 ≡ ok p)
        × All (λ q. Failed (opens tls) q ⊎ (at (opens tls) r ≤ at (opens tls) q)) rs)
      ⊎ ((x ≡ raise unresolvable_host) × All (Failed (opens tls)) rs)

  connect_any-ok :
      (tls : Bool) (fuel : ℕ) (s : ResolvedResult R) (r : R) (p : P)
      → race (opens tls) fuel 0 s.results ≡ ok (r, p)
      → (connect_any (opens tls) fuel s).0 ≡ ok p
  unfolding connect_any
  connect_any-ok tls fuel s r p e = ground arith

  connect_any-raise :
      (tls : Bool) (fuel : ℕ) (s : ResolvedResult R) (e : Error)
      → race (opens tls) fuel 0 s.results ≡ raise e
      → (connect_any (opens tls) fuel s).0 ≡ raise e
  unfolding connect_any
  connect_any-raise tls fuel s e h = ground arith

  connect_any-Opened :
      (tls : Bool) (fuel : ℕ) (s : ResolvedResult R)
      → length s.results < fuel
      → Opened tls s.results (connect_any (opens tls) fuel s).0
  connect_any-Opened tls fuel s enough =
      elim (race-Fastest (opens tls) (plain tls) s.results fuel enough) [
        | inl (r, p, won, m, e, first) ↦ inl (r, p, connect_any-ok tls fuel s r p won, m, e, first)
        | inr (lost, failed) ↦ inr (connect_any-raise tls fuel s unresolvable_host lost, failed)
      ]

  dial-found :
      (fuel now : ℕ) (host : Str) (port : ℤ) (tls : Bool) (s : BaseResolver R)
      (r : ResolvedResult R)
      → (lookup lookup_now others now host port s).0 ≡ ok r
      → r.fastest ≡ none
      → dial lookup_now others opens again fuel now s host port tls
        ≡ (connect_any (opens tls) fuel r).0
  unfolding dialing connect_found connect_fastest
  dial-found fuel now host port tls s r found fresh = ground arith

  get_ready-ok :
      (d : Dial P) (c : HttpConnection P) (n : ℤ) (p : P)
      → c.closing ≡ false
      → c.protocol ≡ none
      → Id.port c.conn_id ≡ ok n
      → d (Id.hostname c.conn_id) n c.tls ≡ ok p
      → get_ready http d c ≡ (ok tt, record c { idle_timer = false; protocol = some p })
  unfolding get_ready ◌>>=◌ connect is_connected cancel_idle_timeout
  get_ready-ok d c n p open_ unconnected port dialed = ground arith

  get_ready-raise :
      (d : Dial P) (c : HttpConnection P) (n : ℤ) (e : Error)
      → c.closing ≡ false
      → c.protocol ≡ none
      → Id.port c.conn_id ≡ ok n
      → d (Id.hostname c.conn_id) n c.tls ≡ raise e
      → get_ready http d c ≡ (raise e, record c { idle_timer = false })
  unfolding get_ready ◌>>=◌ connect is_connected cancel_idle_timeout
  get_ready-raise d c n e open_ unconnected port dialed = ground arith

  -- The connection has a protocol from a record that no other beats, or UnresolvableHost comes out and
  -- it has none, since no record can be opened.
  abbrev pub Readied :
      HttpConnection P → List R → Outcome Error (Unit {0}) × HttpConnection P → Type 0
  Readied c rs x =
      ((r : R) × (p : P) × (x ≡ (ok tt, record c { idle_timer = false; protocol = some p }))
        × Among r rs
        × ((opens c.tls r).1 ≡ ok p)
        × All (λ q. Failed (opens c.tls) q ⊎ (at (opens c.tls) r ≤ at (opens c.tls) q)) rs)
      ⊎ ((x ≡ (raise unresolvable_host, record c { idle_timer = false }))
          × All (Failed (opens c.tls)) rs)

  -- Of a connection that is not closing and has no protocol, over a resolver that finds its host and
  -- port, with no fastest record yet, `get_ready` gives the protocol of a record of the result than
  -- which no other opens earlier, or raises UnresolvableHost if none opens: if opening a record raises
  -- nothing but subclasses of Exception, and with fuel above the number of records.
  pub get_ready-Readied :
      (fuel now : ℕ) (s : BaseResolver R) (c : HttpConnection P) (n : ℤ) (r : ResolvedResult R)
      → c.closing ≡ false
      → c.protocol ≡ none
      → Id.port c.conn_id ≡ ok n
      → (lookup lookup_now others now (Id.hostname c.conn_id) n s).0 ≡ ok r
      → r.fastest ≡ none
      → length r.results < fuel
      → Readied c r.results (get_ready http (dial lookup_now others opens again fuel now s) c)
  get_ready-Readied fuel now s c n r open_ unconnected port found fresh enough =
      let host = Id.hostname c.conn_id in
      let d = dial lookup_now others opens again fuel now s in
      let same = dial-found fuel now host n c.tls s r found fresh in
      elim (connect_any-Opened c.tls fuel r enough) [
        | inl (w, p, opened, m, e, first) ↦
            inl (w, p, get_ready-ok d c n p open_ unconnected port (same ∙ opened), m, e, first)
        | inr (lost, failed) ↦
            inr
              (get_ready-raise d c n unresolvable_host open_ unconnected port (same ∙ lost), failed)
      ]
