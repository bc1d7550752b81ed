-- ===== src/Tasks.antt =====
-- The owner's approvals and the queue of coding tasks:
-- services/local-core/enishi_core/services/approvals.py and tasks.py, and what an approval that is
-- resolved does to a negotiation on this node (services/negotiation.py).
pub mod Types
pub mod Sessions
pub mod Resolution
pub mod Approvals
pub mod Queue
pub mod Create
pub mod Permission
pub mod Lifecycle
pub mod Histories
pub mod Worker
pub mod Rows
pub mod Runs
pub mod Stops
pub mod Answers
mod Tests
