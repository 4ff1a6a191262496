-- ===== src/Session.antt =====
-- backend/app/device_session.py: the worker that owns the connection to the switch and runs one job
-- at a time. Times are milliseconds. Listeners, the ring of timings and `Thread.join` are left out.
pub mod Queue
pub mod Connection
pub mod Worker
