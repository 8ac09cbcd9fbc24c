-- ===== src/Client.antt =====
-- hiyori/http_client.py
pub mod Lock
pub mod Pool
pub mod Sharing
pub mod Shutdown
pub mod Errors
pub mod Send
pub mod Fetch
pub mod Calls
pub mod Redirect
pub mod Rounds
pub mod Bounds
pub mod Verbs
pub mod Count
pub mod Balance
pub mod Accounts
pub mod Functions
pub mod Leaving
pub mod Refinement
pub mod Target
pub mod Plain
pub mod Limit
pub mod Closing
pub mod Store
pub mod Built
