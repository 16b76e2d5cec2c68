-- ===== src/Relay.antt =====
-- server/intv_relay_server.py: the matchmaking and relay server.
pub mod Outcome
pub mod World
pub mod Output
pub mod Crc
pub mod Handlers
pub mod Service
pub mod Invariant
pub mod Frames
pub mod Settles
pub mod Handles
pub mod Loop
pub mod Matches
pub mod Rounds
pub mod Effects
pub mod Framing
pub mod Delivery
pub mod Telling
pub mod Announce
pub mod Starts
pub mod Joins
pub mod Leaves
pub mod Greets
pub mod Listing
pub mod Fanout
pub mod Worlds
mod Tests
mod RoomTests
mod MatchTests
