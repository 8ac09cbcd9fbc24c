-- ===== src/Connection/Http.antt =====
-- magichttp, a package that the source only calls: HttpClientProtocol with the writer and the reader
-- of the exchange that it carries, as operations on one state `P`. Each may raise what magichttp
-- raises, and `cancelled` or `deadline` where it waits.
use hiyori.Prelude.{ℕ, Bool, Str, Bytes}
use hiyori.Exec.{Exec}
use hiyori.Messages.{HttpRequestMethod, Initial}

pub record HttpProtocol (P H : Type 0) : Type 0 where
  -- protocol.transport.is_closing()
  pub is_closing : P → Bool
  pub write_request : HttpRequestMethod → Str → Str → H → Exec P (Unit {0})
  -- writer.initial.headers: those of the request, with the ones that magichttp adds to them
  pub request_headers : P → H
  -- the writer
  pub write : Bytes → Exec P (Unit {0})
  pub flush : Exec P (Unit {0})
  pub finish : Exec P (Unit {0})
  pub read_response : Exec P (Initial H)
  -- the reader
  pub read : ℕ → Exec P Bytes
  pub abort : P → P
  -- protocol.close() and protocol.wait_closed()
  pub close : P → P
  pub wait_closed : P → P
