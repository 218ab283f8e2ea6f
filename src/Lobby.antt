-- ===== src/Lobby.antt =====
-- The lobby server, lobbysvr/: its packets, its parsers, its users.
pub mod Json
pub mod Protocol
pub mod SendJson
pub mod ReadJson
pub mod Roundtrip
pub mod JsonParser
pub mod EndToEnd
mod Tests
pub mod OrderedMap
pub mod Users
pub mod Handlers
pub mod Events
pub mod Served
pub mod Broker
pub mod Start
