-- ===== src/Deployment.antt =====
-- Deployments: the bound plan facts, the derived status, the approval gate and the worker.
pub mod Contracts
pub mod Status
pub mod Trace
pub mod Work
pub mod Worker
pub mod Record
pub mod Resume
pub mod Approval
pub mod Completion
mod Tests
