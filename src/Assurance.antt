-- ===== src/Assurance.antt =====
-- backend/app/change_assurance.py, change_models.py and change_store.py: a change session, from its
-- plan through the preflight and the execution to the comparison of the states before and after.
pub mod Capture
pub mod Compare
pub mod Context
pub mod Desk
pub mod Execute
pub mod Impact
pub mod Model
pub mod Preflight
pub mod Routes
pub mod Service
pub mod Sessions
pub mod Snapshot
pub mod States
