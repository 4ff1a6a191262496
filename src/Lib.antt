-- ===== src/Lib.antt =====
-- SwitchOps: a local assistant for one Cisco Catalyst switch. Its backend (Python, backend/app)
-- reads the switch over SSH with a fixed list of commands, keeps a local policy that says which
-- interfaces may be changed, and runs a small set of configuration changes as transactions:
-- precheck, backup, execution, verification, rollback, audit. This library models the parts that
-- decide what may be sent to the switch and what is said of it afterwards.
--
-- The parts, their sources and their modules:
-- - backend/app/errors.py: `Prelude.Results`. An exception is a value of `Error`; of its message only
--   the choice is kept that the code makes by it. `Result` is what a call returns or raises.
-- - Python's `str`: `Text`. A text is the list of its code points, with the methods that the code
--   calls. The character classes are exact below code point 256; above, no character is a space, a
--   digit or a capital letter.
-- - backend/app/command_registry.py: `Registry.Names` (normalize_interface, short_interface,
--   assert_interface_writable and the tables) and `Registry.Actions` (read commands, descriptions,
--   build_write_action). The regular expression of an interface's suffix is written out on its parts.
-- - backend/app/interface_policy.py: `Policy.Model`, `Policy.File` (_load_unlocked, _write_unlocked)
--   and `Policy.Store` (the methods of InterfacePolicyStore). The state is what the policy file holds:
--   nothing, something unreadable, or JSON. A method takes it and returns the new one. The SHA-256 of a
--   host is the parameter `digest`; where it matters that a digest is 64 hexadecimal digits, this is
--   the hypothesis `hex`.
-- - backend/app/parsers/interfaces.py and poe.py: `Parsers.Interfaces`, `Parsers.Poe`; the record that
--   is read, of backend/app/models.py, is in `Models`.
-- - backend/app/operations.py: `Operations.Lock` (WriteLock), `Operations.Catalogue` (OPERATIONS, the
--   rollback commands, the postconditions), `Operations.Config` (_interface_config),
--   `Operations.Exec` (_Stages and the calls that leave the process), `Operations.Reads`,
--   `Operations.Change` and `Operations.Pipeline` (run_operation, in the order of its steps), and
--   `Operations.SaveTracker` (ConfigSaveTracker), `Operations.Save` (configuration_fingerprint and
--   save_running_config). run_and_audit of backend/app/tools/read_only.py and
--   backup_running_config of backend/app/tools/backup.py are in `Operations.Exec`.
-- - backend/app/device_session.py: `Session.Queue` (the priority queue), `Session.Connection`
--   (_ensure_client and its backoff) and `Session.Worker` (submit, stop and the rounds of _worker,
--   each one step). submit tests the flag that stops the worker and puts its job without a lock, so
--   a put that follows its test late is an event of its own (`put_late`). The connection is the
--   record `Device` over any world. A job's work gets the world and returns or raises. Times are
--   milliseconds.
-- - backend/app/health_logic.py: `Health.Signals` (thresholds, speeds, power) and `Health.Engine`
--   (evaluate_health: the reasons and the state).
-- - backend/app/discovery_evidence.py: `Evidence` (evidence_expiry, freshness_for, the confidences),
--   with times in microseconds.
-- - backend/app/parsers/errors.py and mac_table.py: `Parsers.Errors` and `Parsers.MacTable`. The
--   integers of Python that can be negative, in differences of counters, are `Prelude.Integers`.
-- - backend/app/change_models.py, change_store.py and change_assurance.py: `Assurance`. `Model` has the
--   records; `Context` is what the code reads of the cached topology, reconciliation and health;
--   `Impact`, `Snapshot` and `Capture` are capture_assurance_snapshot, `Preflight` is
--   _preflight, `Compare` is compare_snapshots. `Desk` is the store of the sessions, with what
--   the listener heard, the state of the device and the commands that were sent; `Service`, `Sessions`
--   and `Execute` are the methods of ChangeAssuranceService, and `States` is the state machine of a
--   session. What a transaction reports while it runs is the parameter `reports`. The SHA-256 of a
--   snapshot is a parameter, and a dictionary that is only hashed is its JSON document.
-- - backend/app/main.py: `Assurance.Routes` (post_change_preflight and post_change_execute).
-- - backend/app/live_state.py, with the calls of collect_fast by backend/app/main.py: `Live.Hub`
--   (LiveHub; a message is of any type), `Live.State` (the merging of the samples of the tiers) and
--   `Live.Collector` (TierConfig, the ticks and the rounds of the loop; what a tick does on the
--   device is a parameter).
-- - backend/app/identity_resolution.py: `Identity` (resolve_identity_pair) and `Identity.Cross`
--   (resolve_cross_provider_identities), with the records of unified_models.py that they use.
-- - backend/app/telemetry_store.py: `Telemetry` (calculate_counter_delta with its default range,
--   _derive_delta, _derive_events and the row that record_snapshot stores of an interface).
-- - `Examples` applies the theorems at concrete inputs, with a simulated switch.
--
-- How they interact: the execution of a change session takes a snapshot, runs the checks on it, runs
-- one operation, takes a second snapshot and compares the two; each step is saved before the next
-- one. The collector submits its ticks to the session with the switch. An operation asks the lock
-- and the policy store, which asks the registry for the normal form of the name; it then reads the
-- switch through the parsers, and sends commands that the catalogue gives for the normal form. The
-- session with the switch, the audit trail and the backup folder are the record `Client` over any
-- state S: every call may raise, and may change S as it likes. `Run` carries that state, the stages
-- the list `sent` of the command lists passed to `run_raw_action`, the only call that configures the
-- switch, and `log`, all calls to the switch with what they returned or raised, in their order; a
-- call that raises is listed in both.
--
-- The lock of a store or of the session is held for a whole operation in the source, so the policy
-- file and the approval are constants of a run. The host that the guard sees and the host that the
-- check inside sees are two arguments, because the source reads it twice.
--
-- The drain of the queue takes fuel, one for each job that waits, and leaves none. `str` of a number
-- takes fuel, the number plus one, which its number of digits never exceeds (`Text.Decimal`). All
-- other loops, over lines, words and entries, are structural recursion.
--
-- Not modelled: faults of the SQLite file of the change sessions, whose writes are taken to succeed
-- (a fault there raises out of the call, also behind commands that were sent); messages, times,
-- durations and identifiers; the limit of 4300 digits of Python's `int`; fractions of a percent, so
-- the thresholds of health are whole numbers; the name and the permissions of a backup file;
-- progress callbacks; the floating point columns of `show power inline`; of a change session, its
-- labels, the sentence of its intent and the list of recent ones; of the live state, the view for
-- the UI, the caches, and the work of the ticks on the device, which may raise without harm to the
-- loop; the ring of timings, the listeners and the thread of the session; of discovery, the MAC and
-- vendor rules and the identifiers; the rest of the backend (the SQL of the telemetry, topology,
-- reconciliation, lab assurance, the Meraki and unified parts, the other HTTP routes), the desktop
-- shell and the frontend.
pub mod Prelude
pub mod Text
pub mod Registry
pub mod Models
pub mod Parsers
pub mod Policy
pub mod Operations
pub mod Session
pub mod Health
pub mod Identity
pub mod Telemetry
pub mod Live
pub mod Assurance
pub mod Evidence
mod Examples
