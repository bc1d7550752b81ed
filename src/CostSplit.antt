-- ===== src/CostSplit.antt =====
-- The `cost.split` domain: services/local-core/enishi_core/domains/cost_split.py and
-- cost_split_strategy.py, with the guards of domains/common.py.
pub mod Amounts
pub mod Types
pub mod Guards
pub mod Strategy
pub mod Limits
pub mod Shapes
pub mod Rounds
pub mod Settlement
pub mod Gate
mod Tests
pub mod Driver
pub mod Hooks
pub mod Offers
pub mod Consent
mod HookTests
pub mod Cents
