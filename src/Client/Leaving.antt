-- ===== src/Client/Leaving.antt =====
-- A function of the module does not wait for ever, and leaves nothing behind.
use hiyori.Prelude.{ℕ, ◌+◌, ◌≡◌, refl, ap, Bool, true, false, Option, some, List, [], Str, arith}
use hiyori.Outcome.{Outcome, ok, raise}
use hiyori.Exceptions.{Error}
use hiyori.Headers.{HeaderDict}
use hiyori.Bodies.{RequestBody}
use hiyori.Body.{Body}
use hiyori.Messages.{HttpRequestMethod, PendingRequest, Response}
use hiyori.Connection.Http.{HttpProtocol}
use hiyori.Connection.Send.{Exchange}
use hiyori.Client.Lock.{ClientLock, client_lock, close_enter, read_enter, read_exit}
use hiyori.Client.Pool.{HttpClient, close_client}
use hiyori.Client.Errors.{ClientError}
use hiyori.Client.Fetch.{FetchBody, Outside, fetch_request}
use hiyori.Client.Calls.{Result, Call, locked}
use hiyori.Client.Verbs
use hiyori.Client.Verbs.{Keywords, send_with}
use hiyori.Client.Balance.{count-send_with}
use hiyori.Client.Functions.{default_client, close_when, close_alone, fetch}

idling-read_exit : (l : ClientLock) → l.count ≡ 1 → (read_exit l).idling ≡ true
unfolding read_exit
idling-read_exit l h = ground arith

-- The closing of a client that is idle.
close_alone-idle :
    {P H : Type 0} (http_protocol : HttpProtocol P H) (x : Result P H)
    → x.1.lock.idling ≡ true
    → (r : Outcome (ClientError H) (Response H)) × (c : HttpClient P) × (close_alone http_protocol x
        ≡ some (r, c))
      × (c.conns ≡ [])
      × (c.lock.closing ≡ true)
unfolding close_when close_client close_enter
close_alone-idle http_protocol (r, c) idle = (
  r,
  (close_client http_protocol (record c { lock = close_enter c.lock })).1,
  ap (λ b. close_when http_protocol b (r, c)) idle,
  refl,
  refl,
)

module _ {P H C : Type 0} ⦃d : HeaderDict H⦄ (http_protocol : HttpProtocol P H)
    (class : RequestBody C) (outside : Outside)
    (exchange : ℕ
      → Bool
      → ℕ
      → Exchange P H (Body H C)
      → Outcome Error (Response H) × Exchange P H (Body H C))
    (others : ℕ → HttpClient P → HttpClient P)
    (quiet : (i : ℕ) (c : HttpClient P) → (others i c).lock.count ≡ c.lock.count) where
  abbrev inside_alone : HttpClient P → HttpClient P
  inside_alone c = record c { lock = record c.lock { count = c.lock.count + 1; idling = false } }

  -- The client of a call is idle again when the only call ends.
  idling-locked :
      (built : Outcome Error (PendingRequest H (Body H C)))
      (send : PendingRequest H (Body H C) → HttpClient P → Call P H C)
      → ((request : PendingRequest H (Body H C)) (c : HttpClient P)
          → (send request c).1.lock.count ≡ c.lock.count)
      → (c : HttpClient P) → c.lock ≡ client_lock
      → (locked http_protocol class outside (exchange 0) (others 0) built send c).1.lock.idling
        ≡ true
  unfolding locked read_enter client_lock
  idling-locked (raise e) send keeps c fresh =
      ground (arith, idling-read_exit (inside_alone c).lock)
  idling-locked (ok request) send keeps c fresh = ground (
    arith,
    idling-read_exit (send request (inside_alone c)).1.lock,
    keeps request (inside_alone c),
  )

  -- Whatever the url, the body, the servers and the options, and if only calls of its own are on the
  -- lock of its client, `fetch` of the module returns: its `close` finds the client idle. The pool is
  -- empty then, and the client takes no more calls.
  pub fetch-returns :
      (method : HttpRequestMethod) (url : Str) (path_args headers : List (Str × Str))
      (body : FetchBody H C) (json : Option Str) (k : Keywords)
      → (r : Outcome (ClientError H) (Response H)) × (c : HttpClient P) × (fetch http_protocol class
            outside exchange others method url path_args headers body json k
          ≡ some (r, c))
        × (c.conns ≡ [])
        × (c.lock.closing ≡ true)
  unfolding fetch Verbs.fetch default_client
  fetch-returns method url path_args headers body json k =
      close_alone-idle http_protocol
        (Verbs.fetch http_protocol class outside exchange others method url path_args headers body
          json k default_client)
        (idling-locked (fetch_request outside method url path_args headers body json)
          (send_with http_protocol class outside exchange others k)
          (count-send_with http_protocol class outside exchange others quiet k) default_client refl)
