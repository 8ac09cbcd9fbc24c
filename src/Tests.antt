-- ===== src/Tests.antt =====
-- Concrete runs of the code: the witnesses of the theorems, and tests of the repository.
mod Dict
mod Equality
mod Forms
mod Framing
mod Posted
mod History
mod Reader
mod Wire
mod Connection
mod Client
mod Tasks
mod Redirection
mod Limit
mod Query
mod Sent
mod Resolvers
mod Hosts
mod Dns
mod Async
mod Dialing
