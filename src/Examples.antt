-- ===== src/Examples.antt =====
-- The theorems at concrete inputs, with tests of the definitions.
mod Changes
mod Device
mod Names
mod Policies
mod Transactions
mod Sessions
mod Jobs
mod Health
mod Facts
mod Lives
mod Records
