-- ===== src/Assurance/Sessions.antt =====
-- The operations of `ChangeAssuranceService` on the stored sessions.
pub mod Blocks
pub mod Preflights
use switch_ops.Prelude.{
  ◌≡◌, refl, Bool, true, false, Option, none, some, if◌then◌else◌, Result, ok, err,
  command_not_allowed, unknown_session, in_progress, immutable,
}
use switch_ops.Text.{Text}
use switch_ops.Operations.Catalogue.{OperationKind}
use switch_ops.Operations.Exec.{Client, Exec}
use switch_ops.Policy.Model.{Stored}
use switch_ops.Operations.Lock.{WriteLock}
use switch_ops.Assurance.Model
use switch_ops.Assurance.Model.{
  preflight, device_live, snapshot_capture, AssuranceSnapshot, ChangePreflight, Detail, collecting,
  capture_failed, unreachable, ChangeSession,
}
use switch_ops.Assurance.Context.{Context}
use switch_ops.Assurance.Capture.{capture_assurance_snapshot}
use switch_ops.Assurance.Preflight.{run_checks}
use switch_ops.Assurance.Desk.{Desk, settle, store, save, find, on_client}
use switch_ops.Assurance.Service.{
  is_at_work, new_session, no_evidence, is_complete, is_open, decide,
}

module _ {S : Type 0} where
  -- `_get`, with what is done with the session
  unfoldable pub with_session :
      Text
      → (ChangeSession → Desk S → Result ChangeSession × Desk S)
      → Desk S
      → Result ChangeSession × Desk S
  unfolding find
  with_session id go d = elim (find id d) [
    | none ↦ (err (command_not_allowed unknown_session), d)
    | some s ↦ go s d
  ]

  pub with_session-found :
      (id : Text) (go : ChangeSession → Desk S → Result ChangeSession × Desk S) (d : Desk S)
      (s : ChangeSession)
      → find id d ≡ some s
      → with_session id go d ≡ go s d
  unfolding with_session
  with_session-found id go d s known = rw (with_session, known) refl

  -- return self._save(session, listener)
  unfoldable pub saved : ChangeSession → Desk S → Result ChangeSession × Desk S
  unfolding save
  saved s d = (ok s, save s d)

  put_new : Result ChangeSession → Desk S → Result ChangeSession × Desk S
  unfolding store
  put_new (err e) d = (err e, d)
  put_new (ok s) d = (ok s, store s d)

  -- A session in progress, or complete, is refused.
  admitted : Bool → Bool → Result ChangeSession × Desk S → Desk S → Result ChangeSession × Desk S
  admitted true complete go d = (err (command_not_allowed in_progress), d)
  admitted false true go d = (err (command_not_allowed immutable), d)
  admitted false false go d = go

  unfoldable pub create_plan :
      Text
      → Text
      → Text
      → OperationKind
      → Text
      → Option Text
      → Desk S
      → Result ChangeSession × Desk S
  unfolding new_session put_new
  create_plan session_id plan_id device_id kind interface value =
      put_new (new_session session_id plan_id device_id kind interface value)

  block_open : Detail → ChangeSession → Desk S → Result ChangeSession × Desk S
  unfolding is_open settle store
  block_open detail s d =
      let blocked = settle Model.blocked detail s in
      if is_open s.status then (ok blocked, store blocked d) else (ok s, d)

  unfoldable pub block_before_execution : Text → Detail → Desk S → Result ChangeSession × Desk S
  unfolding with_session block_open
  block_before_execution id detail = with_session id (block_open detail)

  block_unreachable : ChangeSession → Desk S → Result ChangeSession × Desk S
  unfolding settle store no_evidence
  block_unreachable s d =
      let blocked =
        settle Model.blocked unreachable
          (record s { preflight = some (no_evidence device_live s.plan) }) in
      (ok blocked, store blocked d)

  unfoldable pub block_preflight_unavailable : Text → Desk S → Result ChangeSession × Desk S
  unfolding with_session block_unreachable
  block_preflight_unavailable id = with_session id block_unreachable

module _ {S : Type 0} (c : Client S) (digest : Text → Text) where
  -- The snapshot of the target of a session.
  unfoldable pub snapshot_of : ChangeSession → Context → Exec S AssuranceSnapshot
  unfolding capture_assurance_snapshot
  snapshot_of s context =
      capture_assurance_snapshot c digest s.plan.device_id s.plan.target_interface s.plan.step.kind
        s.plan.step.value context

module _ {S : Type 0} (c : Client S) (digest : Text → Text) (host : Option Text) (stored : Stored)
    (lock : WriteLock) where
  -- The checks of what was captured, if it was captured.
  checks_if : ChangeSession → Result AssuranceSnapshot → Result ChangePreflight
  unfolding run_checks
  checks_if s (ok snapshot) = run_checks digest host stored lock s.plan snapshot
  checks_if s (err e) = err e

  -- Whatever the capture or the checks raise blocks the session.
  checked : ChangeSession → Result ChangePreflight → ChangeSession
  unfolding decide settle no_evidence
  checked s (ok p) = decide p s
  checked s (err e) =
      settle Model.blocked capture_failed
        (record s { preflight = some (no_evidence snapshot_capture s.plan) })

  preflight_session : Context → ChangeSession → Desk S → Result ChangeSession × Desk S
  unfolding is_at_work is_complete admitted settle save on_client snapshot_of checks_if checked
      saved
  preflight_session context s d =
      let begun = settle preflight collecting s in
      let (captured, d1) = on_client (snapshot_of c digest begun context) (save begun d) in
      admitted (is_at_work s.status) (is_complete s.status)
        (saved (checked begun (checks_if begun captured)) d1) d

  unfoldable pub run_preflight : Text → Context → Desk S → Result ChangeSession × Desk S
  unfolding with_session preflight_session
  run_preflight id context = with_session id (preflight_session context)
