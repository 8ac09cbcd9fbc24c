-- ===== src/Client/Store/Exclusive.antt =====
-- Two tasks never have one connection, and the timer of a connection never runs during an exchange.
use hiyori.Prelude.{ℕ, ◌≡◌, ◌≢◌, refl, ◌∙◌, false, some, arith}
use hiyori.Headers.{HeaderDict}
use hiyori.Bodies.{RequestBody}
use hiyori.Messages.{HttpConnectionId}
use hiyori.Connection.Http.{HttpProtocol}
use hiyori.Client.Pool.{HttpClient, lookup}
use hiyori.Client.Store.Tasks.{sending, conn_of, World, Step, Reach, here, next, IsNew}
use hiyori.Client.Store.Ownership.{Absent-lookup}
use hiyori.Client.Store.Held.{Holds, Step-Owned}
use hiyori.Client.Store.Quiet.{IsQuiet, Step-objects, Step-IsQuiet}

module _ {P H B : Type 0} ⦃d : HeaderDict H⦄ (http : HttpProtocol P H) (body : RequestBody B)
    (c : HttpClient P) where
  IsNew-Holds : {w : World P} → IsNew w → Holds w
  IsNew-Holds {w} new = record {
    below_refs = rw new.unpooled tt;
    distinct = rw new.unpooled tt;
    below = λ i r e. ground (arith, new.idle i);
    apart = λ i r e. ground (arith, new.idle i);
    unique = λ i j r e e'. ground (arith, new.idle i);
  }

  pub Reach-Holds : {w v : World P} → IsNew w → Reach http body c w v → Holds v × IsQuiet v
  Reach-Holds new here = (IsNew-Holds new, λ i r at. ground (arith, new.idle i))
  Reach-Holds new (next reach st) =
      let (o, quiet) = Reach-Holds new reach in
      (Step-Owned http body c st o, Step-IsQuiet http body c st o quiet)

  -- However tasks, timers and `close` interleave: no two tasks have the same connection, the pool has none
  -- that a task has, and the idle timer of a connection does not run while a request is sent on it.
  pub Reach-exclusive :
      {w v : World P}
      → IsNew w
      → Reach http body c w v
      → ((i j r : ℕ) → conn_of (v.tasks i) ≡ some r → conn_of (v.tasks j) ≡ some r → i ≡ j)
        × ((i r : ℕ) (id : HttpConnectionId)
            → conn_of (v.tasks i) ≡ some r
            → lookup id v.store.refs ≢ some r)
        × ((i r : ℕ) → v.tasks i ≡ sending r → (v.store.objects r).idle_timer ≡ false)
  Reach-exclusive {v = v} new reach =
      let (o, quiet) = Reach-Holds new reach in
      (o.unique, λ i r id mine. Absent-lookup id v.store.refs r (o.apart i r mine), quiet)

  -- The steps from one state to another, while a task is at its exchange on a connection.
  pub data Meanwhile (i r : ℕ) (w : World P) : World P → Type 0 where
    stay : w.tasks i ≡ sending r → Meanwhile i r w w
    go_on :
        {v u : World P}
        → Meanwhile i r w v
        → Step http body c v u
        → u.tasks i ≡ sending r
        → Meanwhile i r w u

  Meanwhile-keeps :
      {i r : ℕ} {w v : World P}
      → Holds w
      → IsQuiet w
      → Meanwhile i r w v
      → Holds v × IsQuiet v × (v.tasks i ≡ sending r) × (v.store.objects r ≡ w.store.objects r)
  Meanwhile-keeps o quiet (stay at) = (o, quiet, at, refl)
  Meanwhile-keeps {i} {r} o quiet (go_on m st still) =
      let (o', quiet', at, same) = Meanwhile-keeps o quiet m in
      (
        Step-Owned http body c st o',
        Step-IsQuiet http body c st o' quiet',
        still,
        Step-objects http body c st o' quiet' i r at still ∙ same,
      )

  -- From the begin of an exchange to its end, nothing that happens meanwhile changes its connection: no
  -- other task, no timer and no `close`.
  pub Meanwhile-objects :
      {i r : ℕ} {w₀ w v : World P}
      → IsNew w₀
      → Reach http body c w₀ w
      → Meanwhile i r w v
      → v.store.objects r ≡ w.store.objects r
  Meanwhile-objects new reach m =
      let (o, quiet) = Reach-Holds new reach in (Meanwhile-keeps o quiet m).3
