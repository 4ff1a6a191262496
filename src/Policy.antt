-- ===== src/Policy.antt =====
-- backend/app/interface_policy.py: the local policy that says which interfaces may be written to.
-- `File` is the file's content and its validation, `Store` the operations of the store.
pub mod Model
pub mod File
pub mod Store
