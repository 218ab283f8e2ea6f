-- ===== src/Net.antt =====
-- The network library, net/: message buffers, packet framing, packet parsers.
pub mod Memory
pub mod Buffer
pub mod Frame
pub mod Parser
pub mod Connection
pub mod Dispatch
pub mod Lifecycle
pub mod Sending
pub mod Received
pub mod SimpleParser
pub mod CipherParser
pub mod Receiver
pub mod Service
pub mod Console
pub mod Mssql
pub mod Flags
pub mod Addresses
pub mod Logger
pub mod CrashDump
pub mod Singletons
mod Tests
