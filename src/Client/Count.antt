-- ===== src/Client/Count.antt =====
-- The number of calls inside the read lock (hiyori/http_client.py), over one exchange.
use hiyori.Prelude.{
  ℕ, ◌+◌, ◌-◌, ◌≡◌, refl, ap, ◌∙◌, Bool, false, Option, none, some, List, [], Str, codes, arith,
  inl, inr, Bool-cases,
}
use hiyori.Outcome.{Outcome, ok, raise}
use hiyori.Exceptions.{Error}
use hiyori.Headers.{HeaderDict}
use hiyori.Bodies.{RequestBody}
use hiyori.Body.{Body}
use hiyori.Messages.{conn_id, HttpRequestMethod, PendingRequest, Response}
use hiyori.Connection.Http.{HttpProtocol}
use hiyori.Connection.Object.{HttpConnection}
use hiyori.Connection.Send.{Exchange}
use hiyori.Client.Lock.{ClientLock, read_enter, read_exit}
use hiyori.Client.Pool.{HttpClient, get_conn, put_conn}
use hiyori.Client.Send.{Options, or_default, settle, inside, send_once}
use hiyori.Client.Fetch.{FetchBody, Outside, fetch_request}
use hiyori.Client.Calls.{Call, send_plain, locked}
use hiyori.Client.Redirect.{
  is_absolute, target, next_request, hop_options, refetch, follow, hop, round,
}
use hiyori.Client.Accounts.{entered, send_once-open}

abbrev pub count : {P : Type 0} → HttpClient P → ℕ
count c = c.lock.count

count-read_exit : (l : ClientLock) → (read_exit l).count ≡ l.count - 1
unfolding read_exit
count-read_exit l = ground arith

module _ {P H : Type 0} (http : HttpProtocol P H) where
  pub count-put_conn :
      (conn : HttpConnection P) (c : HttpClient P) → count (put_conn http conn c).1 ≡ count c
  unfolding put_conn
  count-put_conn conn c = ground arith

  pub count-get_conn : (c : HttpClient P) (r : _) → count (get_conn http r c).1 ≡ count c
  unfolding get_conn
  count-get_conn c r = ground arith

module _ {P H B : Type 0} (http : HttpProtocol P H)
    (exchange : Bool → ℕ → Exchange P H B → Outcome Error (Response H) × Exchange P H B)
    (others : HttpClient P → HttpClient P)
    (quiet : (c : HttpClient P) → count (others c) ≡ count c) where
  pub count-settle :
      (options : Options) (raise_error : Bool) (r : Outcome Error (Response H)) (s : Exchange P H B)
      (c : HttpClient P)
      → count (settle http exchange others options raise_error r s c).1.client ≡ count c
  unfolding settle
  count-settle options raise_error (raise e) s c = refl
  count-settle options raise_error (ok r) s c = ground (arith, count-put_conn http s.conn c)

  pub count-inside :
      (options : Options) (request : PendingRequest H B) (c : HttpClient P)
      → count (inside http exchange others options request c).1.client ≡ count c
  unfolding inside
  count-inside options request c =
      let (conn, c₁) = get_conn http (conn_id request) c in
      let (r, s) =
        exchange options.read_response_body (or_default c.max_body_size options.max_body_size)
          (record { conn = conn; request = request }) in
      count-settle options (or_default c.raise_error options.raise_error) r s (others c₁)
      ∙ quiet c₁
      ∙ count-get_conn http c (conn_id request)

  pub count-send_once :
      (options : Options) (request : PendingRequest H B) (c : HttpClient P)
      → count (send_once http exchange others options request c).1.client ≡ count c
  unfolding send_once read_enter
  count-send_once options request c = elim (Bool-cases c.lock.closing) [
    | inl refused ↦ ground arith
    | inr open_ ↦
        ap (λ x. count x.1.client) (send_once-open http exchange others options request c open_)
        ∙ count-read_exit
            (inside http exchange others options request
              (entered http exchange others c)).1.client.lock
        ∙ ap (λ n. n - 1) (count-inside options request (entered http exchange others c))
        ∙ omega arith
  ]

module _ {P H C : Type 0} ⦃d : HeaderDict H⦄ (http_protocol : HttpProtocol P H)
    (class : RequestBody C) (outside : Outside)
    (exchange : Bool
      → ℕ
      → Exchange P H (Body H C)
      → Outcome Error (Response H) × Exchange P H (Body H C))
    (others : HttpClient P → HttpClient P)
    (quiet : (c : HttpClient P) → count (others c) ≡ count c) where
  pub count-send_plain :
      (options : Options) (request : PendingRequest H (Body H C)) (c : HttpClient P)
      → count (send_plain http_protocol class outside exchange others options request c).1 ≡ count c
  unfolding send_plain
  count-send_plain options request c =
      count-send_once http_protocol exchange others quiet options request c

  pub count-locked :
      (built : Outcome Error (PendingRequest H (Body H C)))
      (send : PendingRequest H (Body H C) → HttpClient P → Call P H C)
      → ((request : PendingRequest H (Body H C)) (c : HttpClient P)
          → count (send request c).1 ≡ count c)
      → (c : HttpClient P)
      → count (locked http_protocol class outside exchange others built send c).1 ≡ count c
  unfolding locked read_enter read_exit
  count-locked (raise e) send keeps c = ground arith
  count-locked (ok request) send keeps c = ground (
    arith,
    keeps request (record c { lock = record c.lock { count = c.lock.count + 1; idling = false } }),
  )

  pub count-refetch :
      (options : Options) (response : Response H) (location : Str)
      (next : Outcome Error (HttpRequestMethod × FetchBody H C × List (Str × Str))
        × PendingRequest H (Body H C))
      (c : HttpClient P)
      → count
          (refetch http_protocol class outside exchange others options response location next c).1
        ≡ count c
  unfolding refetch
  count-refetch options response location (raise e, request) c = refl
  count-refetch options response location (ok (method, body, headers), request) c =
      count-locked (fetch_request outside method (target request location) [] headers body none)
        (send_plain http_protocol class outside exchange others
          (hop_options http_protocol class outside exchange others options))
        (count-send_plain (hop_options http_protocol class outside exchange others options)) c

  pub count-follow :
      (options : Options) (request : PendingRequest H (Body H C)) (response : Response H)
      (location : Option Str) (c : HttpClient P)
      → count
          (follow http_protocol class outside exchange others options request response location c).1
        ≡ count c
  unfolding follow
  count-follow options request response none c = refl
  count-follow options request response (some location) c =
      elim (Bool-cases (is_absolute location)) [
        | inl absolute ↦ rw absolute (
            count-refetch options response location
              (next_request http_protocol class outside exchange others request response) c)
        | inr relative ↦ rw relative refl
      ]

  pub count-round :
      (options : Options) (request : PendingRequest H (Body H C)) (last : Option (Response H))
      (c : HttpClient P)
      → count (round http_protocol class outside exchange others options request last c).1 ≡ count c
  unfolding round hop
  count-round options request none c = count-send_plain options request c
  count-round options request (some response) c =
      count-follow options request response (d.get? (codes "location") response.headers) c
