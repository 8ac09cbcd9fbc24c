-- ===== src/Resolvers/Race.antt =====
-- ResolvedResult.connect_fastest of hiyori/resolvers/base.py. The argument `opens` stands for
-- `open_connection`: the time at which the attempt on a record ends, and its outcome. `asyncio.wait`
-- returns at the next time at which an attempt ends.
use hiyori.Prelude.{ℕ, zero, suc, Option, none, some, List, [], ◌∷◌, leb, if◌then◌else◌}
use hiyori.Outcome.{Outcome, ok, raise}
use hiyori.Exceptions.{Error, unresolvable_host, still_running, is_exception}
use hiyori.Resolvers.Base.{ResolvedResult}

abbrev pub sooner : ℕ → Option ℕ → ℕ
sooner n none = n
sooner n (some m) = if leb n m then n else m

module _ {R P : Type 0} (opens : R → ℕ × Outcome Error P) where
  abbrev pub at : R → ℕ
  at r = (opens r).0

  -- `v.result()` of an attempt that has ended, in `read_result`
  unfoldable pub result_of :
      R → Outcome Error P → Outcome Error (Option (R × P)) → Outcome Error (Option (R × P))
  unfolding is_exception
  result_of r (ok p) rest = ok (some (r, p))
  result_of r (raise e) rest = if is_exception e then rest else raise e

  -- `read_result` at a time: an attempt that is under way raises InvalidStateError, and is passed over.
  unfoldable pub read_result : ℕ → List R → Outcome Error (Option (R × P))
  unfolding result_of
  read_result t [] = ok none
  read_result t (r ∷ rs) =
      let rest = read_result t rs in if leb (at r) t then result_of r (opens r).1 rest else rest

  -- the first time, not before `from`, at which an attempt ends
  unfoldable pub next_done : ℕ → List R → Option ℕ
  next_done from [] = none
  next_done from (r ∷ rs) =
      let rest = next_done from rs in if leb from (at r) then some (sooner (at r) rest) else rest

  -- `if result: return …`, or the next round
  abbrev pub returned :
      Outcome Error (R × P) → Outcome Error (Option (R × P)) → Outcome Error (R × P)
  returned later (raise e) = raise e
  returned later (ok (some won)) = ok won
  returned later (ok none) = later

  -- a round of the loop, woken at a time; without a pending attempt the loop is over
  abbrev pub woken : (ℕ → Outcome Error (R × P)) → List R → Option ℕ → Outcome Error (R × P)
  woken later records none = raise unresolvable_host
  woken later records (some t) = returned (later t) (read_result t records)

  -- the loop, with fuel for its rounds; the attempts that end at `from` or later are pending
  unfoldable pub race : ℕ → ℕ → List R → Outcome Error (R × P)
  unfolding read_result next_done
  race zero from records = raise still_running
  race (suc fuel) from records =
      woken (λ t. race fuel (suc t) records) records (next_done from records)

  -- The rest of `connect_fastest`, from the attempts on all records on.
  unfoldable pub connect_any : ℕ → ResolvedResult R → Outcome Error P × ResolvedResult R
  unfolding race
  connect_any fuel s = elim (race fuel 0 s.results) [
    | ok (r, p) ↦ (ok p, record s { fastest = some r })
    | raise e ↦ (raise e, s)
  ]

  -- `again` is the outcome of `open_connection` on the record that was the fastest.
  unfoldable pub connect_fastest :
      ℕ → (R → Outcome Error P) → ResolvedResult R → Outcome Error P × ResolvedResult R
  unfolding connect_any is_exception
  connect_fastest fuel again s = elim s.fastest [
    | none ↦ connect_any fuel s
    | some r ↦ elim (again r) [
      | ok p ↦ (ok p, s)
      | raise e ↦
          if is_exception e then connect_any fuel (record s { fastest = none }) else (raise e, s)
    ]
  ]
