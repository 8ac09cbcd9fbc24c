-- ===== src/Tests/Wire.antt =====
-- A server at the other end of a connection, for the tests: what it will answer, and what it was sent.
use hiyori.Prelude.{ℕ, Bool, true, false, List, [], ◌∷◌, ◌++◌, Str, Bytes, codes, take, drop}
use hiyori.Outcome.{ok, raise}
use hiyori.Exceptions.{read_aborted, read_finished, eof_error, not_implemented}
use hiyori.Exec.{Exec}
use hiyori.Bodies.{RequestBody}
use hiyori.Body.{Body, body_class}
use hiyori.Messages.{Initial}
use hiyori.Connection.Http.{HttpProtocol}
use hiyori.Tests.Dict.{assoc_dict}

abbrev pub Headers : Type 0
Headers = List (Str × Str)

pub record Wire : Type 0 where
  pub heads : List (Initial Headers)
  pub incoming : Bytes
  pub sent : Bytes
  -- the headers of the last request that was written, with the host that is added to them
  pub asked : Headers
  pub closed : Bool

abbrev next_head : Exec Wire (Initial Headers)
next_head w = elim w.heads [
  | [] ↦ (raise read_aborted, w)
  | first ∷ rest ↦ (ok first, record w { heads = rest })
]

abbrev next_bytes : ℕ → Exec Wire Bytes
next_bytes n w = elim (take n w.incoming) [
  | [] ↦ (raise read_finished, w)
  | c ∷ cs ↦ (ok (c ∷ cs), record w { incoming = drop n w.incoming })
]

abbrev pub wire : HttpProtocol Wire Headers
wire = record {
  is_closing = λ w. w.closed;
  write_request = λ method uri authority headers w.
      (ok tt, record w { asked = (codes "host", authority) ∷ headers });
  request_headers = λ w. w.asked;
  write = λ chunk w. (ok tt, record w { sent = w.sent ++ chunk });
  flush = λ w. (ok tt, w);
  finish = λ w. (ok tt, w);
  read_response = next_head;
  read = next_bytes;
  abort = λ w. record w { closed = true };
  close = λ w. record w { closed = true };
  wait_closed = λ w. w;
}

-- A class of bodies that does not know their length.
abbrev pub unknown_length : RequestBody (Unit {0})
unknown_length = record {
  calc_len = λ c. (raise not_implemented, c);
  seek_front = λ c. (raise not_implemented, c);
  read = λ n c. (raise eof_error, c);
}

abbrev pub TestBody : Type 0
TestBody = Body Headers (Unit {0})

abbrev pub bodies : RequestBody TestBody
bodies = body_class unknown_length

-- a server that answers with these heads, and this body
abbrev pub answering : List (Initial Headers) → Bytes → Wire
answering heads incoming = record {
  heads = heads;
  incoming = incoming;
  sent = [];
  asked = [];
  closed = false;
}

abbrev pub head_of : ℕ → Headers → Initial Headers
head_of status_code headers = record { status_code = status_code; headers = headers }
