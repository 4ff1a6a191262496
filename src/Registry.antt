-- ===== src/Registry.antt =====
-- backend/app/command_registry.py: interface names, descriptions, and the tables that turn symbolic
-- names into IOS commands. The modules below the two children hold the proofs.
pub mod Names
pub mod Actions
