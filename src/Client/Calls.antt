-- ===== src/Client/Calls.antt =====
-- Calls of hiyori/http_client.py: `send_request` without redirection, and the read lock round a call that
-- goes on from a request.
use hiyori.Prelude.{ℕ, Bool, Option, none, some}
use hiyori.Outcome.{Outcome, ok, raise}
use hiyori.Exceptions.{Error}
use hiyori.Headers.{HeaderDict}
use hiyori.Bodies.{RequestBody}
use hiyori.Body.{Body}
use hiyori.Messages.{PendingRequest, Response}
use hiyori.Connection.Http.{HttpProtocol}
use hiyori.Connection.Send.{Exchange}
use hiyori.Client.Lock.{read_enter, read_exit}
use hiyori.Client.Pool.{HttpClient}
use hiyori.Client.Errors.{ClientError, lower}
use hiyori.Client.Send.{Options, send_once}
use hiyori.Client.Fetch.{Outside}

-- What a call gives: the result, the client, and the request that was sent, if one was, as the
-- exchange left it.
abbrev pub Result : Type 0 → Type 0 → Type 0
Result P H = Outcome (ClientError H) (Response H) × HttpClient P

abbrev pub Call : Type 0 → Type 0 → Type 0 → Type 0
Call P H C =
    Outcome (ClientError H) (Response H) × HttpClient P × Option (PendingRequest H (Body H C))

module _ {H C : Type 0} where
  abbrev pub keep_request :
      PendingRequest H (Body H C)
      → Option (PendingRequest H (Body H C))
      → PendingRequest H (Body H C)
  keep_request request none = request
  keep_request request (some sent) = sent

module _ {P H C : Type 0} ⦃d : HeaderDict H⦄ (http_protocol : HttpProtocol P H)
    (class : RequestBody C) (outside : Outside)
    (exchange : Bool
      → ℕ
      → Exchange P H (Body H C)
      → Outcome Error (Response H) × Exchange P H (Body H C))
    (others : HttpClient P → HttpClient P) where
  -- send_request(…, follow_redirection=False)
  unfoldable pub send_plain : Options → PendingRequest H (Body H C) → HttpClient P → Call P H C
  unfolding send_once
  send_plain options request c =
      let (r, s) = send_once http_protocol exchange others options request c in
      (r, s.client, some s.request)

  -- `async with self._lock.read_lock`, round a call that goes on from the request that was built
  unfoldable pub locked :
      Outcome Error (PendingRequest H (Body H C))
      → (PendingRequest H (Body H C) → HttpClient P → Call P H C)
      → HttpClient P
      → Call P H C
  unfolding read_enter read_exit
  locked built send c =
      let (entered, l) = read_enter c.lock in
      elim entered [
        | raise e ↦ (raise (lower e), c, none)
        | ok _ ↦ elim built [
          | raise e ↦ (raise (lower e), record c { lock = read_exit l }, none)
          | ok request ↦
              let (r, c', sent) = send request (record c { lock = l }) in
              (r, record c' { lock = read_exit c'.lock }, sent)
        ]
      ]
