-- ===== src/Connection.antt =====
-- hiyori/connection.py: the id of a connection, the interface of magichttp, the connection object and
-- its exchange of a request for a response.
pub mod Id
pub mod Http
pub mod Object
pub mod Send
pub mod Limits
pub mod Failures
pub mod Translation
pub mod Writes
pub mod Protocol
pub mod Framing
