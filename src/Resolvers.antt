-- ===== src/Resolvers.antt =====
-- hiyori/resolvers
pub mod Base
pub mod Cache
pub mod History
pub mod Race
pub mod Fastest
pub mod Fresh
pub mod Hosts
pub mod HostsLines
pub mod Addresses
pub mod Json
pub mod Https
pub mod Raised
pub mod Dns
pub mod Async
pub mod System
pub mod Answers
pub mod Order
pub mod DnsAnswers
pub mod DnsClient
pub mod Open
pub mod Dialing
pub mod Ready
pub mod Reuse
