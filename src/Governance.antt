-- ===== src/Governance.antt =====
-- programs/rise-governance.
pub mod State
pub mod Lock
pub mod LockLaws
pub mod Proposal
pub mod Agenda
pub mod Active
pub mod Totals
mod Tests
