-- ===== src/Remote.antt =====
-- services/local-core/enishi_core/services/remote_negotiation.py: negotiations with other nodes.
pub mod Types
pub mod Domain
pub mod Guards
pub mod Messages
pub mod Outbox
pub mod Writes
pub mod Receive
pub mod Handle
pub mod Inbox
pub mod Awaiting
pub mod Resolve
pub mod Personal
pub mod Start
pub mod Machine
pub mod Locals
pub mod Follows
pub mod Answered
pub mod Passed
pub mod Responded
pub mod Handled
pub mod Refinement
pub mod Resolved
pub mod Started
pub mod Invariants
pub mod Runs
pub mod Sending
pub mod Guarded
pub mod Orphans
mod Tests
