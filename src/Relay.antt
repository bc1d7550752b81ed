-- ===== src/Relay.antt =====
-- The Relay, services/relay/relay: the two mailbox stores of store.py and the handlers of main.py.
pub mod Types
pub mod Memory
pub mod Sqlite
pub mod Boxes
pub mod Pages
pub mod Same
pub mod Agree
pub mod Runs
pub mod Bounds
pub mod Delivery
pub mod Answers
pub mod Json
pub mod Shape
pub mod Credentials
pub mod Authentic
pub mod Requests
pub mod Posts
mod Tests
