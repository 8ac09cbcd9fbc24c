-- ===== src/Tests/Redirection.antt =====
-- A redirection that is followed, and the theorems of Client/Rounds, Client/Bounds, Client/Balance and
-- Client/Accounts at it.
use hiyori.Prelude.{
  ◌≡◌, ◌≢◌, refl, ◌≤◌, zero, suc, ℕ, Bool, true, false, none, some, [], ◌∷◌, codes, ◌=s=◌,
  split_once, pos, negsuc, arith,
}
use hiyori.Outcome.{Outcome, ok, raise}
use hiyori.Exceptions.{Error, runtime_error, unbound_local}
use hiyori.Exec.{◌>>=◌, attempt}
use hiyori.Body
use hiyori.Body.{empty}
use hiyori.Connection.Id.{port}
use hiyori.Messages.{http, v1_1, method_get, conn_id, PendingRequest, Response}
use hiyori.Connection.Object.{HttpConnection, Dial}
use hiyori.Connection.Send
use hiyori.Connection.Send.{Exchange}
use hiyori.Client.Pool.{same_id, HttpClient}
use hiyori.Client.Errors.{ClientError, lower}
use hiyori.Client.Functions
use hiyori.Client.Leaving.{fetch-returns}
use hiyori.Client.Send.{Options}
use hiyori.Client.Fetch.{Outside}
use hiyori.Client.Redirect.{handle_redirection}
use hiyori.Client.Rounds.{handle_redirection-ok}
use hiyori.Client.Bounds.{handle_redirection-agree, handle_redirection-negative}
use hiyori.Tests.Dict.{assoc_dict}
use hiyori.Tests.Client.{client}
use hiyori.Client.Send.{send_once}
use hiyori.Client.Accounts.{IsKept, IsOver, send_once-IsKept}
use hiyori.Client.Verbs.{Keywords, fetch}
use hiyori.Client.Balance.{fetch-count}
use hiyori.Client.Fetch.{no_body}
use hiyori.Tests.Wire.{Headers, Wire, wire, TestBody, bodies, unknown_length, answering, head_of}

-- A server that redirects to another path of its own, and answers there.
abbrev pub dial : Dial Wire
dial host port tls =
    ok (answering (head_of 302 ((codes "location", codes "/next") ∷ []) ∷ head_of 200 [] ∷ []) [])

abbrev pub exchange :
    ℕ
    → Bool
    → ℕ
    → Exchange Wire Headers TestBody
    → Outcome Error (Response Headers) × Exchange Wire Headers TestBody
exchange i read_response_body max_body_size =
    Send.send_request wire bodies dial 5 read_response_body max_body_size

-- the same, but nothing is answered after the second exchange
abbrev two_exchanges :
    ℕ
    → Bool
    → ℕ
    → Exchange Wire Headers TestBody
    → Outcome Error (Response Headers) × Exchange Wire Headers TestBody
two_exchanges zero = exchange 0
two_exchanges (suc zero) = exchange 1
two_exchanges (suc (suc i)) = λ read_response_body max_body_size s. (raise runtime_error, s)

two_exchanges-agree : (j : ℕ) → j ≤ 1 → exchange j ≡ two_exchanges j
two_exchanges-agree zero h = refl
two_exchanges-agree (suc zero) h = refl
two_exchanges-agree (suc (suc j)) h = absurd (omega arith)

abbrev pub alone : ℕ → HttpClient Wire → HttpClient Wire
alone i c = c

abbrev pub outside : Outside
outside = record { guess_type = λ name. none; uuid = codes "0"; identifier = codes "hiyori" }

abbrev pub request : PendingRequest Headers TestBody
request = record {
  method = method_get;
  version = v1_1;
  authority = codes "a";
  scheme = http;
  path = codes "/";
  path_args = [];
  headers = [];
  cached_uri = none;
  body = empty;
}

abbrev pub sent_options : Options
sent_options = record { read_response_body = true; max_body_size = none; raise_error = none }

abbrev pub idle : HttpClient Wire
idle = client [] (record { count = 0; idling = true; closing = false })

abbrev final_response : Response Headers
final_response = record {
  request = record {
    method = method_get;
    uri = codes "/next";
    authority = codes "a";
    headers = (codes "host", codes "a") ∷ (codes "user-agent", codes "hiyori") ∷ [];
  };
  status_code = 200;
  headers = [];
  body = [];
}

abbrev pub first_response : Response Headers
first_response = record {
  request = record {
    method = method_get;
    uri = codes "/";
    authority = codes "a";
    headers = (codes "host", codes "a") ∷ [];
  };
  status_code = 302;
  headers = (codes "location", codes "/next") ∷ [];
  body = [];
}

test_redirection :
    (handle_redirection wire unknown_length outside exchange alone sent_options none request idle).0
    ≡ ok final_response
unfolding handle_redirection Send.send_request ◌>>=◌ port conn_id attempt Body.calc_len Body.read
    ◌=s=◌ same_id
test_redirection = refl

handle_redirection-ok_example :
    (final_response.status_code ≢ 301)
    × (final_response.status_code ≢ 302)
    × (final_response.status_code ≢ 303)
    × (final_response.status_code ≢ 307)
    × (final_response.status_code ≢ 308)
handle_redirection-ok_example =
    handle_redirection-ok wire unknown_length outside exchange alone sent_options none request idle
      {r = final_response} test_redirection

handle_redirection-agree_example :
    handle_redirection wire unknown_length outside exchange alone sent_options
      (some (pos 1))
      request
      idle
    ≡ handle_redirection wire unknown_length outside two_exchanges alone sent_options
        (some (pos 1))
        request
        idle
handle_redirection-agree_example =
    handle_redirection-agree wire unknown_length outside exchange two_exchanges alone sent_options 1
      request idle two_exchanges-agree

test_handle_redirection_negative :
    handle_redirection wire unknown_length outside exchange alone sent_options
      (some (negsuc 0))
      request
      idle
    ≡ (raise (lower unbound_local), idle)
test_handle_redirection_negative =
    handle_redirection-negative wire unknown_length outside exchange alone sent_options 0 request
      idle

abbrev keywords : Keywords
keywords = record { options = sent_options; follow_redirection = true; max_redirects = none }

fetch-count_example :
    (fetch wire unknown_length outside exchange alone method_get
      (codes "http://a/")
      []
      []
      no_body
      none
      keywords
      idle).1.lock.count
    ≡ 0
fetch-count_example =
    fetch-count wire unknown_length outside exchange alone (λ i c. refl) method_get
      (codes "http://a/") [] [] no_body none keywords idle

-- the connection of the first exchange: the second answer is still to come
abbrev after_first : HttpConnection Wire
after_first = record {
  conn_id = conn_id request;
  max_initial_size = 65536;
  chunk_size = 4;
  tls = false;
  idle_timeout = 10;
  idle_timer = true;
  protocol =
      some (record (answering (head_of 200 [] ∷ []) []) { asked = (codes "host", codes "a") ∷ [] });
  closing = false;
}

test_send_once :
    (send_once wire (exchange 0) (alone 0) sent_options request idle).1.conn ≡ some after_first
unfolding send_once Send.send_request ◌>>=◌ port split_once conn_id attempt Body.calc_len Body.read
test_send_once = refl

test_send_once-ok :
    (send_once wire (exchange 0) (alone 0) sent_options request idle).0 ≡ ok first_response
unfolding send_once Send.send_request ◌>>=◌ port split_once conn_id attempt Body.calc_len Body.read
test_send_once-ok = refl

first-IsOver : IsOver (send_once wire (exchange 0) (alone 0) sent_options request idle).0
first-IsOver = rw test_send_once-ok ((λ e. cc), (λ e. cc))

send_once-IsKept_example :
    IsKept after_first (send_once wire (exchange 0) (alone 0) sent_options request idle).1.client
send_once-IsKept_example =
    send_once-IsKept wire (exchange 0) (alone 0) sent_options request idle refl first-IsOver
      after_first test_send_once

fetch-returns_example :
    (r : Outcome (ClientError Headers) (Response Headers)) × (c : HttpClient Wire)
    × (Functions.fetch wire unknown_length outside exchange alone method_get
          (codes "http://a/")
          []
          []
          no_body
          none
          keywords
        ≡ some (r, c))
    × (c.conns ≡ [])
    × (c.lock.closing ≡ true)
fetch-returns_example =
    fetch-returns wire unknown_length outside exchange alone (λ i c. refl) method_get
      (codes "http://a/") [] [] no_body none keywords
