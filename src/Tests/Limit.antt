-- ===== src/Tests/Limit.antt =====
-- The theorem of Client/Limit: a server that redirects, and no redirection allowed.
use hiyori.Prelude.{◌≡◌, refl, some, pos, split_once}
use hiyori.Outcome.{raise}
use hiyori.Exec.{◌>>=◌, attempt}
use hiyori.Body
use hiyori.Connection.Id.{port}
use hiyori.Connection.Send
use hiyori.Messages.{conn_id}
use hiyori.Client.Errors.{too_many_redirects}
use hiyori.Client.Send.{send_once}
use hiyori.Client.Redirect.{is_redirect, round, handle_redirection}
use hiyori.Client.Limit.{handle_redirection-limit}
use hiyori.Tests.Dict.{assoc_dict}
use hiyori.Tests.Wire.{wire, unknown_length}
use hiyori.Tests.Redirection.{outside, exchange, alone, sent_options, request, idle, first_response}

-- The request of the first response is refused a second one.
handle_redirection-limit_example :
    (handle_redirection wire unknown_length outside exchange alone sent_options
      (some (pos 0))
      request
      idle).0
    ≡ raise (too_many_redirects first_response.request)
unfolding round is_redirect send_once Send.send_request ◌>>=◌ port split_once conn_id attempt
    Body.calc_len Body.read
handle_redirection-limit_example =
    (handle_redirection-limit wire unknown_length outside exchange alone sent_options 0 request idle
        first_response.request).1
      (first_response, _, _, refl, refl, refl)
