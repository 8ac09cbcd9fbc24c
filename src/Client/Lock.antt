-- ===== src/Client/Lock.antt =====
-- _ReadLock, _CloseLock and _ClientLock of hiyori/http_client.py. A call is cut where it waits.
use hiyori.Prelude.{ℕ, ◌+◌, ◌-◌, Bool, true, false, ◌==◌, if◌then◌else◌}
use hiyori.Outcome.{ok, raise}
use hiyori.Exceptions.{runtime_error}
use hiyori.Exec.{Exec}

pub record ClientLock : Type 0 where
  -- the calls inside the read lock, and the event `_idling`
  pub count : ℕ
  pub idling : Bool
  -- `_closing` of the close lock
  pub closing : Bool

-- _ClientLock()
unfoldable pub client_lock : ClientLock
client_lock = record { count = 0; idling = true; closing = false }

-- _ReadLock.__aenter__, from the end of its `sleep(0)`
unfoldable pub read_enter : Exec ClientLock (Unit {0})
read_enter l =
    if l.closing
    then (raise runtime_error, l)
    else (ok tt, record l { count = l.count + 1; idling = false })

-- _ReadLock.__aexit__
unfoldable pub read_exit : ClientLock → ClientLock
read_exit l =
    let left = l.count - 1 in
    if left == 0 then record l { count = left; idling = true } else record l { count = left }

-- _CloseLock.__aenter__, up to its wait for `_idling`
unfoldable pub close_enter : ClientLock → ClientLock
close_enter l = record l { closing = true }
