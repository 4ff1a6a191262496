-- ===== src/Live.antt =====
-- backend/app/live_state.py: the hub that pushes events to the UI, the view of the network in memory,
-- and the collectors that keep it fresh.
pub mod Collector
pub mod Hub
pub mod State
