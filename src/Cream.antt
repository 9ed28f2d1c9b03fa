-- ===== src/Cream.antt =====
-- hw5: the hash map of the cache server.
pub mod Map
pub mod Queue
pub mod Server
pub mod Start
pub mod Threads
pub mod Readers
pub mod Hash
mod Tests
mod QueueTests
mod ReadersTests
mod ServerTests
