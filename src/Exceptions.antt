-- ===== src/Exceptions.antt =====
-- hiyori/exceptions.py, with the exceptions of Python, asyncio and magichttp that the code raises,
-- catches or lets through. HttpError and TooManyRedirects carry objects of the client and are
-- constructors of `ClientError` (Client/Errors.antt).
use hiyori.Prelude.{Bool, true, false}

pub data Error : Type 0 where
  -- hiyori
  request_timeout bad_response response_entity_too_large failed_redirection : Error
  connection_closed unresolvable_host : Error
  -- Python and asyncio
  runtime_error value_error type_error key_error index_error eof_error os_error : Error
  timeout_error not_implemented unbound_local assertion_error invalid_state : Error
  -- the task is cancelled; the deadline of `asyncio.wait_for` passes while the call waits
  cancelled deadline : Error
  -- no exception: the fuel of a loop of the model ran out
  still_running : Error
  -- magichttp
  read_aborted write_aborted write_after_finished received_data_malformed : Error
  entity_too_large read_finished : Error
  -- aiodns
  dns_error : Error

-- isinstance(e, BaseHiyoriException)
unfoldable pub is_hiyori : Error → Bool
is_hiyori request_timeout = true
is_hiyori bad_response = true
is_hiyori response_entity_too_large = true
is_hiyori failed_redirection = true
is_hiyori connection_closed = true
is_hiyori unresolvable_host = true
is_hiyori _ = false

-- isinstance(e, Exception): asyncio.CancelledError is not one, by which a deadline
-- too is seen inside the call.
unfoldable pub is_exception : Error → Bool
is_exception cancelled = false
is_exception deadline = false
is_exception still_running = false
is_exception _ = true

-- isinstance(e, TimeoutError): RequestTimeout is one too.
unfoldable pub is_timeout : Error → Bool
is_timeout timeout_error = true
is_timeout request_timeout = true
is_timeout _ = false

-- isinstance(e, RuntimeError): NotImplementedError is one too.
unfoldable pub is_runtime : Error → Bool
is_runtime runtime_error = true
is_runtime not_implemented = true
is_runtime _ = false
