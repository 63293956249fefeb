-- ===== src/Project.antt =====
-- plugins/tugling/scripts/project_contract.py: the project contract's verification flows.
pub mod Flows
pub mod Cycles
pub mod Required
pub mod Map
pub mod Results
pub mod Rounding
pub mod Timing
pub mod Summary
pub mod Schedule
pub mod Retention
pub mod Runs
mod Examples
