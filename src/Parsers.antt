-- ===== src/Parsers.antt =====
-- backend/app/parsers: the output of IOS commands, read into the models.
pub mod Errors
pub mod Interfaces
pub mod MacTable
pub mod Poe
