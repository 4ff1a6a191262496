-- ===== src/Operations.antt =====
-- backend/app/operations.py: changes of the device as bounded transactions.
pub mod Catalogue
pub mod Config
pub mod Lock
pub mod Exec
pub mod Reads
pub mod Change
pub mod Pipeline
pub mod SaveTracker
pub mod Save
