-- ===== src/Lib.antt =====
-- hiyori, an asyncio HTTP/1.1 client.
--
-- A client (hiyori/http_client.py) builds a request from a url and its arguments (hiyori/messages.py),
-- takes a connection for its authority from a pool or makes one (hiyori/connection.py), sends the
-- request with its body (hiyori/bodies.py, hiyori/multipart.py) over magichttp's protocol, reads the
-- response, puts the connection back and follows redirections. A read lock round each call and a flag
-- let `close` wait for the calls inside.
--
-- Prelude and its modules hold the shared names, tests and lemmas. Outcome is a result or an exception
-- (hiyori/exceptions.py, Exceptions); Exec a call that may raise and that changes a state also where it
-- raises, with the rules for what such a call ensures in Exec/Post and for what it keeps in Exec/Keeps.
--
-- - Bodies, Stream: hiyori/bodies.py. Stream is the contract of `read`, which every body of the library
--   fills and the write loop of the connection uses.
-- - Multipart: hiyori/multipart.py. Field has the text fields and files, Form the form with its parts;
--   Parts and Content show what they hold, Format the bytes that a form stands for, and Calls any
--   sequence of calls. Reader is how a server reads such bytes, by itself, and
--   Reader/Posted what it reads of a request; Measured shows that measuring a form leaves it whole.
-- - Url, Url/Split, Url/Query, Decimal: `urllib.parse.urlencode`, `urlsplit` and `parse_qsl` of the same
--   module, and `int` of Python, as far as the code uses them.
-- - Utf8: decoding UTF-8, which ResponseBody (hiyori/bodies.py) and `parse_qsl` do.
-- - Messages, Body: hiyori/messages.py and hiyori/constants.py, and the classes of bodies, which
--   Body/Sent reads as they are sent. Headers are magicdict's dictionaries, an interface (Headers).
-- - Connection: hiyori/connection.py. Id is HttpConnectionId, Http the interface of magichttp, Object the
--   connection but for `send_request`, which is in Send. Writes and Framing show what of a request's
--   body is sent, and what the headers say of it; Limits, Translation and Failures have the response
--   and the exceptions. What the resolver answers, `lookup` with `connect_fastest`, is the argument
--   `dial`.
-- - Client: hiyori/http_client.py. Lock has the locks, Pool the pool and `close`, Send `send_request`
--   without redirection, Fetch the request that `fetch` builds, Calls the lock round a call, Redirect
--   `_handle_redirection`, Target the request that a redirection leads to, Built what every request is
--   like, Limit when a redirection is given up, Verbs `fetch` and the methods named for HTTP's, and
--   Functions the functions of the module. Closing has the connections that `close` closes, Shutdown
--   the steps that calls of other tasks take on the lock and the pool, and Refinement the pool as a
--   function from ids to connections. In Send and Redirect the exchange on a connection is an
--   argument, for which Connection/Send is put in, and so is what other tasks do to the client
--   meanwhile. Store has the pool with references to connections as objects, and Store/Tasks the steps
--   of tasks, of idle timers and of `close` on them; Store/Ownership, Store/Held, Store/Quiet and
--   Store/Exclusive show who has which connection.
-- - Resolvers: the files of hiyori/resolvers. Base has ResolvedResult and BaseResolver (base.py), with
--   the answer of `lookup_now` as an argument; Race has `connect_fastest`, with the outcomes of
--   `open_connection` and the times at which they come as an argument. Hosts (hosts.py) reads the
--   hosts file, and HostsLines says by itself what its lines mean; Async (async_.py) and Https
--   (https.py) combine the answers of two queries, by what they have in common in Fresh; Json has the values in a DNS server's answer, and DnsClient the
--   resolver over HTTPS with its client; System (system.py) takes those of `getaddrinfo`, and has the
--   choice of a resolver. Open has `open_connection`; Dialing puts `lookup` and `connect_fastest`
--   together as `get_ready` of a connection calls them. Cache shows what `lookup` answers, and
--   History what it answers after any calls that overlap, where `_fastest` of a result is left as it was.
--   Fastest shows who wins the race, Addresses what the hosts file gives, Raised, Dns, DnsAnswers,
--   Answers and Order what the queries give, and Ready and Reuse what a connection gets.
-- - Tests: concrete runs.
--
-- Text and bytes are lists of numbers, and a text is turned into bytes by UTF-8. Coroutines are cut
-- where they wait: cancellation and the deadline of `wait_for` are exceptions that magichttp's operations
-- may raise. The loops over a body and over a response take fuel, one unit for each piece;
-- `still_running` stands for a loop that is not over. For the body of a request, fuel above the number of
-- bytes that are left is enough, and for `connect_fastest` fuel above the number of records. The
-- redirection loop recurs on its rounds.
--
-- A set is the list of its elements in the order in which they came, each once (Prelude/Sets); `==` on
-- its elements is an instance argument. The headers of magichttp's writer, which the request of a response
-- has, are an operation of magichttp's interface.
--
-- Not modelled: one File object as the value of two fields of a form, which then share its stream and its
-- headers; the parser of JSON, TLS contexts, files that are not held in memory, other encodings
-- than UTF-8 for the body of a response, and the texts of exceptions and of `__repr__`.
pub mod Prelude
pub mod Outcome
pub mod Exceptions
pub mod Exec
pub mod Stream
pub mod Bodies
pub mod Headers
pub mod Multipart
pub mod Decimal
pub mod Utf8
pub mod Url
pub mod Messages
pub mod Body
pub mod Connection
pub mod Client
pub mod Resolvers
mod Tests
