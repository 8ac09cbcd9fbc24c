-- ===== src/Client/Plain.antt =====
-- No exchange of hiyori/http_client.py raises TooManyRedirects: the loop does.
use hiyori.Prelude.{
  ℕ, ◌≡◌, sym, Bool, false, Option, none, some, List, [], Str, codes, arith, inl, inr, Bool-cases,
}
use mathlib.Core.Path.{subst}
use hiyori.Outcome.{Outcome, ok, raise}
use hiyori.Exceptions.{Error}
use hiyori.Headers.{HeaderDict}
use hiyori.Bodies.{RequestBody}
use hiyori.Body.{Body}
use hiyori.Messages.{HttpRequestMethod, PendingRequest, Request, Response}
use hiyori.Messages
use hiyori.Connection.Http.{HttpProtocol}
use hiyori.Connection.Send.{Exchange}
use hiyori.Client.Lock.{read_exit, read_enter}
use hiyori.Client.Pool.{HttpClient, get_conn}
use hiyori.Client.Errors.{ClientError, lower, http_error, too_many_redirects}
use hiyori.Client.Send.{Sending, Options, or_default, check_status, settle, inside, send_once}
use hiyori.Client.Accounts.{entered, send_once-open}
use hiyori.Client.Fetch.{Outside, FetchBody, fetch_request}
use hiyori.Client.Calls.{Call, locked, send_plain}
use hiyori.Client.Redirect.{
  is_absolute, next_request, target, hop_options, refetch, follow, hop, round,
}

-- Anything but TooManyRedirects.
abbrev pub IsPlain : {H : Type 0} → Outcome (ClientError H) (Response H) → Type 0
IsPlain (ok r) = Unit
IsPlain (raise (lower e)) = Unit
IsPlain (raise (http_error r)) = Unit
IsPlain (raise (too_many_redirects q)) = ⊥

module _ {P H B : Type 0} (http : HttpProtocol P H)
    (exchange : Bool → ℕ → Exchange P H B → Outcome Error (Response H) × Exchange P H B)
    (others : HttpClient P → HttpClient P) where
  settle-IsPlain :
      (options : Options) (raise_error : Bool) (r : Outcome Error (Response H)) (s : Exchange P H B)
      (c : HttpClient P)
      → IsPlain (settle http exchange others options raise_error r s c).0
  unfolding settle check_status
  settle-IsPlain options raise_error (raise e) s c = tt
  settle-IsPlain options raise_error (ok r) s c = ground arith

  inside-IsPlain :
      (options : Options) (request : PendingRequest H B) (c : HttpClient P)
      → IsPlain (inside http exchange others options request c).0
  unfolding inside
  inside-IsPlain options request c =
      let (conn, c₁) = get_conn http (Messages.conn_id request) c in
      let (r, s) =
        exchange options.read_response_body (or_default c.max_body_size options.max_body_size)
          (record { conn = conn; request = request }) in
      settle-IsPlain options (or_default c.raise_error options.raise_error) r s (others c₁)

  send_once-IsPlain :
      (options : Options) (request : PendingRequest H B) (c : HttpClient P)
      → IsPlain (send_once http exchange others options request c).0
  unfolding send_once read_enter
  send_once-IsPlain options request c = elim (Bool-cases c.lock.closing) [
    | inl refused ↦ rw refused tt
    | inr open_ ↦
        subst (λ (x : Outcome (ClientError H) (Response H) × Sending P H B). IsPlain x.0)
          (sym (send_once-open http exchange others options request c open_))
          (inside-IsPlain options request (entered http exchange others c))
  ]

module _ {P H C : Type 0} ⦃d : HeaderDict H⦄ (http : HttpProtocol P H) (class : RequestBody C)
    (outside : Outside)
    (exchange : Bool
      → ℕ
      → Exchange P H (Body H C)
      → Outcome Error (Response H) × Exchange P H (Body H C))
    (others : HttpClient P → HttpClient P) where
  send_plain-IsPlain :
      (options : Options) (request : PendingRequest H (Body H C)) (c : HttpClient P)
      → IsPlain (send_plain http class outside exchange others options request c).0
  unfolding send_plain
  send_plain-IsPlain options request c = send_once-IsPlain http exchange others options request c

  abbrev unlocked : Call P H C → Call P H C
  unlocked (r, c, sent) = (r, record c { lock = read_exit c.lock }, sent)

  locked-open :
      (request : PendingRequest H (Body H C))
      (send : PendingRequest H (Body H C) → HttpClient P → Call P H C) (c : HttpClient P)
      → c.lock.closing ≡ false
      → locked http class outside exchange others (ok request) send c
        ≡ unlocked (send request (entered http exchange others c))
  unfolding locked read_enter
  locked-open request send c h = ground arith

  locked-IsPlain :
      (built : Outcome Error (PendingRequest H (Body H C)))
      (send : PendingRequest H (Body H C) → HttpClient P → Call P H C) (c : HttpClient P)
      → ((request : PendingRequest H (Body H C)) (c' : HttpClient P) → IsPlain (send request c').0)
      → IsPlain (locked http class outside exchange others built send c).0
  unfolding locked read_enter
  locked-IsPlain (raise e) send c h = elim (Bool-cases c.lock.closing) [
    | inl w ↦ rw w tt
    | inr w ↦ rw w tt
  ]
  locked-IsPlain (ok request) send c h = elim (Bool-cases c.lock.closing) [
    | inl w ↦ rw w tt
    | inr open_ ↦
        subst (λ (x : Call P H C). IsPlain x.0) (sym (locked-open request send c open_))
          (h request (entered http exchange others c))
  ]

  refetch-IsPlain :
      (options : Options) (response : Response H) (location : Str)
      (next : Outcome Error (HttpRequestMethod × FetchBody H C × List (Str × Str))
        × PendingRequest H (Body H C))
      (c : HttpClient P)
      → IsPlain (refetch http class outside exchange others options response location next c).0
  unfolding refetch
  refetch-IsPlain options response location (raise e, request) c = tt
  refetch-IsPlain options response location (ok (method, body, headers), request) c =
      locked-IsPlain (fetch_request outside method (target request location) [] headers body none)
        (send_plain http class outside exchange others
          (hop_options http class outside exchange others options))
        c (send_plain-IsPlain (hop_options http class outside exchange others options))

  follow-IsPlain :
      (options : Options) (request : PendingRequest H (Body H C)) (response : Response H)
      (location : Option Str) (c : HttpClient P)
      → IsPlain (follow http class outside exchange others options request response location c).0
  unfolding follow
  follow-IsPlain options request response none c = tt
  follow-IsPlain options request response (some location) c =
      elim (Bool-cases (is_absolute location)) [
        | inl w ↦ rw w (
            refetch-IsPlain options response location
              (next_request http class outside exchange others request response) c)
        | inr w ↦ rw w tt
      ]

  pub round-IsPlain :
      (options : Options) (request : PendingRequest H (Body H C)) (last : Option (Response H))
      (c : HttpClient P)
      → IsPlain (round http class outside exchange others options request last c).0
  unfolding round hop
  round-IsPlain options request none c = send_plain-IsPlain options request c
  round-IsPlain options request (some response) c =
      follow-IsPlain options request response (d.get? (codes "location") response.headers) c
