-- ===== src/Client/Shutdown.antt =====
-- The lock and the pool of a client under any interleaving of calls. The calls of other tasks are
-- steps: a call enters and leaves the read lock, and in between takes connections from the pool and
-- puts them back; `close` sets its flag, and empties the pool when the client is idle.
use hiyori.Prelude.{ℕ, zero, suc, ◌-◌, ◌<◌, ◌≡◌, refl, ◌∙◌, Bool, true, false, [], arith}
use hiyori.Outcome.{ok, raise}
use hiyori.Exceptions.{runtime_error}
use hiyori.Messages.{HttpConnectionId}
use hiyori.Connection.Http.{HttpProtocol}
use hiyori.Connection.Object.{HttpConnection}
use hiyori.Client.Lock.{ClientLock, client_lock, read_enter, read_exit, close_enter}
use hiyori.Client.Pool.{HttpClient, get_conn, put_conn, close_client}

pub record Service (P : Type 0) : Type 0 where
  pub client : HttpClient P
  -- whether `close` has emptied the pool
  pub drained : Bool

abbrev pub with_lock : {P : Type 0} → HttpClient P → ClientLock → HttpClient P
with_lock c l = record c { lock = l }

module _ {P H : Type 0} (http : HttpProtocol P H) where
  pub data Step : Service P → Service P → Type 0 where
    enter :
        (s : Service P) (l : ClientLock)
        → read_enter s.client.lock ≡ (ok tt, l)
        → Step s (record s { client = with_lock s.client l })
    leave :
        (s : Service P)
        → 0 < s.client.lock.count
        → Step s (record s { client = with_lock s.client (read_exit s.client.lock) })
    take :
        (s : Service P) (id : HttpConnectionId)
        → 0 < s.client.lock.count
        → Step s (record s { client = (get_conn http id s.client).1 })
    give :
        (s : Service P) (conn : HttpConnection P)
        → 0 < s.client.lock.count
        → Step s (record s { client = (put_conn http conn s.client).1 })
    begin_close :
        (s : Service P)
        → Step s (record s { client = with_lock s.client (close_enter s.client.lock) })
    drain :
        (s : Service P)
        → s.client.lock.closing ≡ true
        → s.client.lock.idling ≡ true
        → Step s (record { client = (close_client http s.client).1; drained = true })

  pub data Reach (s : Service P) : Service P → Type 0 where
    here : Reach s s
    next : {t u : Service P} → Reach s t → Step t u → Reach s u

  pub record Inv (s : Service P) : Type 0 where
    pub idle : s.client.lock.idling ≡ true → s.client.lock.count ≡ 0
    pub busy : s.client.lock.idling ≡ false → 0 < s.client.lock.count
    pub closed : s.drained ≡ true → s.client.lock.closing ≡ true
    pub quiet : s.drained ≡ true → s.client.lock.count ≡ 0
    pub empty : s.drained ≡ true → s.client.conns ≡ []

  Step-Inv : {s t : Service P} → Step s t → Inv s → Inv t
  unfolding read_enter read_exit close_enter get_conn put_conn close_client
  Step-Inv (enter s l e) h = ground arith
  Step-Inv (leave s e) h = ground arith
  Step-Inv (take s id e) h = ground arith
  Step-Inv (give s conn e) h = ground arith
  Step-Inv (begin_close s) h = ground arith
  Step-Inv (drain s c i) h = ground arith

  Reach-Inv : {s t : Service P} → Inv s → Reach s t → Inv t
  Reach-Inv h here = h
  Reach-Inv h (next r st) = Step-Inv st (Reach-Inv h r)

  -- A client as it is constructed.
  pub record IsNew (s : Service P) : Type 0 where
    pub fresh : s.client.lock ≡ client_lock
    pub undrained : s.drained ≡ false

  IsNew-Inv : {s : Service P} → IsNew s → Inv s
  unfolding client_lock
  IsNew-Inv h = ground arith

  -- However calls interleave: once `close` has emptied the pool of a client, no call is inside the read
  -- lock, the pool is empty for good, and every further call is refused with RuntimeError.
  pub drained-final :
      {s t : Service P}
      → IsNew s
      → Reach s t
      → t.drained ≡ true
      → (t.client.lock.count ≡ 0)
        × (t.client.conns ≡ [])
        × ((read_enter t.client.lock).0 ≡ raise runtime_error)
  unfolding read_enter
  drained-final fresh r d =
      let h = Reach-Inv (IsNew-Inv fresh) r in (h.quiet d, h.empty d, ground (arith, h.closed d))

  idle_at_zero : (l : ClientLock) → (l.idling ≡ false → 0 < l.count) → l.count ≡ 0 → l.idling ≡ true
  idle_at_zero l busy none_left = ground arith

  count-read_exit : (l : ClientLock) → (read_exit l).count ≡ l.count - 1
  unfolding read_exit
  count-read_exit l = ground arith

  closing-read_exit : (l : ClientLock) → (read_exit l).closing ≡ l.closing
  unfolding read_exit
  closing-read_exit l = ground arith

  -- So many calls leave the read lock, and nothing else happens.
  pub data Leaving : ℕ → Service P → Service P → Type 0 where
    none_leaves : {s : Service P} → Leaving 0 s s
    one_leaves :
        {n : ℕ} {s t u : Service P}
        → 0 < s.client.lock.count
        → t ≡ record s { client = with_lock s.client (read_exit s.client.lock) }
        → Leaving n t u
        → Leaving (suc n) s u

  leave_all :
      (n : ℕ) (t : Service P)
      → Inv t
      → t.client.lock.closing ≡ true
      → t.client.lock.count ≡ n
      → (u : Service P) × Leaving n t u
        × Step u (record { client = (close_client http u.client).1; drained = true })
  leave_all zero t h closing count =
      (t, none_leaves, drain t closing (idle_at_zero t.client.lock h.busy count))
  leave_all (suc n) t h closing count =
      let (u, left, last) =
        leave_all n _ (Step-Inv (leave t (omega arith)) h)
          (closing-read_exit t.client.lock ∙ closing)
          (omega (arith, count-read_exit t.client.lock)) in
      (u, one_leaves (omega arith) refl left, last)

  -- `close` cannot be blocked for good: in every state with the closing flag set that a new client
  -- reaches, no further call gets in, and when those inside have left from there, as many as the
  -- lock counts, `close` is let through and empties the pool.
  pub close-finishes :
      {s t : Service P}
      → IsNew s
      → Reach s t
      → t.client.lock.closing ≡ true
      → ((read_enter t.client.lock).0 ≡ raise runtime_error)
        × ((u : Service P) × Leaving t.client.lock.count t u
            × Step u (record { client = (close_client http u.client).1; drained = true }))
  unfolding read_enter
  close-finishes {t = t} fresh r closing =
      (ground arith, leave_all t.client.lock.count t (Reach-Inv (IsNew-Inv fresh) r) closing refl)
