-- ===== src/Client/Errors.antt =====
-- What the calls of the client raise: the exceptions of what they call, and HttpError and
-- TooManyRedirects of hiyori/exceptions.py, which carry objects of the client.
use hiyori.Prelude.{Bool, true}
use hiyori.Outcome.{Outcome, ok, raise}
use hiyori.Exceptions.{Error, is_hiyori}
use hiyori.Messages.{Request, Response}

pub data ClientError (H : Type 0) : Type 0 where
  lower : Error → ClientError H
  http_error : Response H → ClientError H
  too_many_redirects : Request H → ClientError H

-- isinstance(e, BaseHiyoriException)
unfoldable pub client_is_hiyori : {H : Type 0} → ClientError H → Bool
unfolding is_hiyori
client_is_hiyori (lower e) = is_hiyori e
client_is_hiyori (http_error r) = true
client_is_hiyori (too_many_redirects r) = true

abbrev pub lifted : {H A : Type 0} → Outcome Error A → Outcome (ClientError H) A
lifted (ok a) = ok a
lifted (raise e) = raise (lower e)
