-- ===== src/Resolvers/Reuse.antt =====
-- `connect_fastest` remembers the record that won in the result that the resolver keeps.
use hiyori.Prelude.{
  ℕ, zero, suc, List, ◌∷◌, [], ◌⊎◌, leb, Option, Bool-cases, ◌≡◌, refl, ap, sym, ◌∙◌, Bool, false,
  none, some, Str, ℤ, arith, inl, inr, Option-cases,
}
use hiyori.Outcome.{Outcome, ok, raise, Outcome-cases}
use hiyori.Exceptions.{Error, is_exception}
use hiyori.Resolvers.Base.{
  ResolvedResult, CacheKey, BaseResolver, expired, look_cached, look_overridden, lookup,
}
use hiyori.Resolvers.Cache.{same_key_refl, overrides-lookup}
use hiyori.Resolvers.Race.{
  result_of, read_result, at, next_done, returned, woken, race, connect_any, connect_fastest,
}
use hiyori.Resolvers.Fastest.{Among}
use hiyori.Resolvers.Dialing.{keep_object, connect_found, dialing}

module _ {R P : Type 0} (opens : R → ℕ × Outcome Error P) (again : R → Outcome Error P) where
  result_of-opened :
      (q : R) (x : Outcome Error P) (rest : Outcome Error (Option (R × P))) (r : R) (p : P)
      → result_of opens q x rest ≡ ok (some (r, p))
      → ((q ≡ r) × (x ≡ ok p)) ⊎ (rest ≡ ok (some (r, p)))
  unfolding result_of
  result_of-opened q (ok p') rest r p h = inl (cc, cc)
  result_of-opened q (raise e) rest r p h = elim (Bool-cases (is_exception e)) [
    | inl passed ↦ inr (rw passed at h)
    | inr out ↦ (let bad = rw out at h in absurd cc)
  ]

  read_result-opened :
      (t : ℕ) (rs : List R) (r : R) (p : P)
      → read_result opens t rs ≡ ok (some (r, p))
      → Among r rs × ((opens r).1 ≡ ok p)
  unfolding read_result
  read_result-opened t [] r p h = (let bad = h in absurd cc)
  read_result-opened t (q ∷ rs) r p h = elim (Bool-cases (leb (at opens q) t)) [
    | inr under_way ↦
        let (m, e) = read_result-opened t rs r p (rw (read_result, under_way) at h) in (inr m, e)
    | inl over ↦
        elim (result_of-opened q (opens q).1 (read_result opens t rs) r p
          (rw (read_result, over) at h)) [
            | inl (same, e) ↦ (inl same, ap (λ x. (opens x).1) (sym same) ∙ e)
            | inr later ↦ let (m, e) = read_result-opened t rs r p later in (inr m, e)
          ]
  ]

  returned-opened :
      (t : ℕ) (rs : List R) (later : Outcome Error (R × P)) (x : Outcome Error (Option (R × P)))
      (r : R) (p : P)
      → read_result opens t rs ≡ x
      → (later ≡ ok (r, p) → Among r rs × ((opens r).1 ≡ ok p))
      → returned opens later x ≡ ok (r, p)
      → Among r rs × ((opens r).1 ≡ ok p)
  returned-opened t rs later (raise e) r p found ih h = (let bad = h in absurd cc)
  returned-opened t rs later (ok none) r p found ih h = ih h
  returned-opened t rs later (ok (some (q, p'))) r p found ih h =
      read_result-opened t rs r p (found ∙ ap ok (ap some (let same = h in cc)))

  woken-opened :
      (later : ℕ → Outcome Error (R × P)) (rs : List R) (o : Option ℕ) (r : R) (p : P)
      → ((t : ℕ) → later t ≡ ok (r, p) → Among r rs × ((opens r).1 ≡ ok p))
      → woken opens later rs o ≡ ok (r, p)
      → Among r rs × ((opens r).1 ≡ ok p)
  woken-opened later rs none r p ih h = (let bad = h in absurd cc)
  woken-opened later rs (some t) r p ih h =
      returned-opened t rs (later t) (read_result opens t rs) r p refl (ih t) h

  -- What a race returns is a record of the list, with the connection that opening it gave.
  race-opened :
      (fuel from : ℕ) (rs : List R) (r : R) (p : P)
      → race opens fuel from rs ≡ ok (r, p)
      → Among r rs × ((opens r).1 ≡ ok p)
  unfolding race
  race-opened zero from rs r p h = (let bad = h in absurd cc)
  race-opened (suc fuel) from rs r p h =
      woken-opened (λ t. race opens fuel (suc t) rs) rs (next_done opens from rs) r p
        (λ t. race-opened fuel (suc t) rs r p) h

  -- The connection is that of a record of the result which was opened in the race, or of the record
  -- that was the fastest before and was opened again.
  abbrev pub Won : ResolvedResult R → R → P → Type 0
  Won s w p = (Among w s.results × ((opens w).1 ≡ ok p)) ⊎ ((s.fastest ≡ some w) × (again w ≡ ok p))

  -- A result from which a connection was made has the record of this connection as its fastest.
  connect_any-fastest :
      (fuel : ℕ) (s : ResolvedResult R) (p : P)
      → (connect_any opens fuel s).0 ≡ ok p
      → (w : R) × ((connect_any opens fuel s).1 ≡ record s { fastest = some w })
        × Among w s.results
        × ((opens w).1 ≡ ok p)
  unfolding connect_any
  connect_any-fastest fuel s p e = elim (Outcome-cases (race opens fuel 0 s.results)) [
    | inl ((w, q), won) ↦
        let (m, opened) = race-opened fuel 0 s.results w q won in
        (w, ground arith, m, opened ∙ (rw (connect_any, won) at e))
    | inr (x, lost) ↦ absurd (ground arith)
  ]

  connect_fastest-fastest :
      (fuel : ℕ) (s : ResolvedResult R) (p : P)
      → (connect_fastest opens fuel again s).0 ≡ ok p
      → (w : R) × ((connect_fastest opens fuel again s).1 ≡ record s { fastest = some w })
        × Won s w p
  unfolding connect_fastest
  connect_fastest-fastest fuel s p e = elim (Option-cases s.fastest) [
    | inl fresh ↦
        let (w, h, m, opened) = connect_any-fastest fuel s p (ground arith) in
        (w, ground arith, inl (m, opened))
    | inr (w, kept) ↦ elim (Outcome-cases (again w)) [
      | inl (q, opened) ↦ (w, ground arith, inr (kept, ground arith))
      | inr (x, failed) ↦
          let (w', h, m, opened) =
            connect_any-fastest fuel (record s { fastest = none }) p (ground arith) in
          (w', ground arith, inl (m, opened))
    ]
  ]

  connect_fastest-kept :
      (fuel : ℕ) (s : ResolvedResult R) (w : R) (p : P)
      → s.fastest ≡ some w
      → again w ≡ ok p
      → (connect_fastest opens fuel again s).0 ≡ ok p
  unfolding connect_fastest
  connect_fastest-kept fuel s w p kept opened = ground arith

module _ {R : Type 0} (host : Str) (port : ℤ) where
  -- Without an override, a result that the cache has and that has not expired is found.
  lookup-hit :
      (b : CacheKey → Outcome Error (ResolvedResult R)) (o : BaseResolver R → BaseResolver R)
      (now : ℕ) (s : BaseResolver R) (r : ResolvedResult R)
      → s.overrides (host, port) ≡ none
      → s.cache (host, port) ≡ some r
      → expired r now ≡ false
      → lookup b o now host port s ≡ (ok r, s)
  unfolding lookup look_overridden look_cached
  lookup-hit b o now s r free held new = ground arith

  cache-keep_object :
      (r : ResolvedResult R) (s : BaseResolver R)
      → (keep_object (host, port) r none s).cache (host, port) ≡ some r
  cache-keep_object r s = rw (same_key_refl (host, port)) refl

module _ {R P : Type 0} (b : CacheKey → Outcome Error (ResolvedResult R))
    (o : BaseResolver R → BaseResolver R) (opens : Bool → R → ℕ × Outcome Error P)
    (again : Bool → R → Outcome Error P) (fuel now : ℕ) (host : Str) (port : ℤ) (tls : Bool)
    (s : BaseResolver R) (free : s.overrides (host, port) ≡ none)
    (quiet : (s : BaseResolver R) → (o s).overrides (host, port) ≡ s.overrides (host, port)) where
  abbrev first : Outcome Error P × BaseResolver R
  first = dialing b o opens again fuel now host port tls s

  abbrev looked : BaseResolver R
  looked = (lookup b o now host port s).1

  first-found :
      (r : ResolvedResult R)
      → (lookup b o now host port s).0 ≡ ok r
      → first ≡ (
        (connect_fastest (opens tls) fuel (again tls) r).0,
        keep_object
            (host, port)
            (connect_fastest (opens tls) fuel (again tls) r).1
            (looked.overrides (host, port))
            looked,
      )
  unfolding dialing connect_found
  first-found r found = ground arith

  -- The resolver after the first connection, which was made from a record `w` of the result.
  kept :
      (r : ResolvedResult R) (p : P)
      → (lookup b o now host port s).0 ≡ ok r
      → first.0 ≡ ok p
      → (w : R) × (first.1 ≡ keep_object (host, port) (record r { fastest = some w }) none looked)
        × Won (opens tls) (again tls) r w p
  kept r p found opened =
      let e = first-found r found in
      let (w, won, by) =
        connect_fastest-fastest (opens tls) (again tls) fuel r p (sym (ap (λ x. x.0) e) ∙ opened) in
      (
        w,
        ap (λ x. x.1) e
            ∙ ap (λ x. keep_object (host, port) x (looked.overrides (host, port)) looked) won
            ∙ ap (λ x. keep_object (host, port) (record r { fastest = some w }) x looked)
                (overrides-lookup b o (host, port) quiet now host port s ∙ free),
        by,
      )

  second :
      (b' : CacheKey → Outcome Error (ResolvedResult R)) (o' : BaseResolver R → BaseResolver R)
      (opens' : Bool → R → ℕ × Outcome Error P) (again' : Bool → R → Outcome Error P)
      (fuel' now' : ℕ) (r : ResolvedResult R) (w : R) (p : P)
      → expired r now' ≡ false
      → again' tls w ≡ ok p
      → (dialing b' o' opens' again' fuel' now' host port tls
          (keep_object (host, port) (record r { fastest = some w }) none looked)).0
        ≡ ok p
  unfolding dialing connect_found expired
  second b' o' opens' again' fuel' now' r w p new reached =
      let r' = record r { fastest = some w } in
      let s' = keep_object (host, port) r' none looked in
      ap (λ x. (connect_found b' o' opens' again' fuel' (host, port) tls x).0)
        (lookup-hit host port b' o' now' s' r'
          (overrides-lookup b o (host, port) quiet now host port s ∙ free)
          (cache-keep_object host port r' looked) new)
      ∙ connect_fastest-kept (opens' tls) (again' tls) fuel' r' w p refl reached

  -- Where a host and a port have no override, and get none while the resolver asks the backend: after a
  -- connection has been made, and until the result expires, the next one is made from the record of
  -- that connection, if this can be reached then; the backend is not asked, and no other record is tried.
  -- That record is one of the result's that was opened, as the fastest of before or in the race.
  pub dialing-again :
      (r : ResolvedResult R) (p : P) (b' : CacheKey → Outcome Error (ResolvedResult R))
      (o' : BaseResolver R → BaseResolver R) (opens' : Bool → R → ℕ × Outcome Error P)
      (reach : R → P) (fuel' now' : ℕ)
      → (lookup b o now host port s).0 ≡ ok r
      → first.0 ≡ ok p
      → expired r now' ≡ false
      → (w : R) × Won (opens tls) (again tls) r w p
        × (first.1.cache (host, port) ≡ some (record r { fastest = some w }))
        × ((dialing b' o' opens' (λ t q. ok (reach q)) fuel' now' host port tls first.1).0
            ≡ ok (reach w))
  dialing-again r p b' o' opens' reach fuel' now' found opened new =
      let (w, e, by) = kept r p found opened in
      (
        w,
        by,
        ap (λ x. x.cache (host, port)) e
            ∙ cache-keep_object host port (record r { fastest = some w }) looked,
        ap (λ x. (dialing b' o' opens' (λ t q. ok (reach q)) fuel' now' host port tls x).0) e
            ∙ second b' o' opens' (λ t q. ok (reach q)) fuel' now' r w (reach w) new refl,
      )
