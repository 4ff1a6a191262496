-- ===== src/Assurance/Routes.antt =====
-- backend/app/main.py: the two requests that work on a change session through the device. `away` is
-- what `on_device` raises when the job cannot run; the collector is not part of this model.
pub mod Repeats
use switch_ops.Prelude.{
  ℕ, Option, none, some, [], ◌∷◌, ◌++◌, if◌then◌else◌, Result, ok, err, Error, other_error,
}
use switch_ops.Text.{Text}
use switch_ops.Policy.Model.{Stored}
use switch_ops.Policy.Store.{controlled_writes_enabled}
use switch_ops.Operations.Lock.{WriteLock, require_unlocked}
use switch_ops.Operations.Exec.{Client}
use switch_ops.Operations.Reads.{OperationResult, is_switchops_error}
use switch_ops.Operations.SaveTracker.{Tracker, record_change}
use switch_ops.Assurance.Model.{write_gate_closed, ChangeSession}
use switch_ops.Assurance.Context.{Context}
use switch_ops.Assurance.Desk.{Desk, find}
use switch_ops.Assurance.Sessions.{
  block_before_execution, block_preflight_unavailable, run_preflight,
}
use switch_ops.Assurance.Execute.{Setting, execute}

-- What the result of the session says to the save tracker; `at` is its time.
track : ℕ → Option OperationResult → Tracker → Tracker
unfolding record_change
track at none t = t
track at (some result) t = if result.outcome.requires_save then record_change at t else t

module _ {S : Type 0} where
  -- `on_device`
  unfoldable pub on_device :
      Option Error
      → (Desk S → Result ChangeSession × Desk S)
      → Desk S
      → Result ChangeSession × Desk S
  on_device none run d = run d
  on_device (some e) run d = (err e, d)

  -- `_publish_change_session` of what is returned
  published : Result ChangeSession × Desk S → Result ChangeSession × Desk S
  published (ok s, d) = (ok s, record d { heard = d.heard ++ s ∷ [] })
  published (err e, d) = (err e, d)

  -- `except SwitchOpsError`
  recovered :
      (Desk S → Result ChangeSession × Desk S)
      → Result ChangeSession × Desk S
      → Result ChangeSession × Desk S
  unfolding published is_switchops_error
  recovered block (ok s, d) = (ok s, d)
  recovered block (err e, d) = if is_switchops_error e then published (block d) else (err e, d)

  unfoldable pub post_change_preflight :
      Client S
      → (Text → Text)
      → Option Text
      → Stored
      → WriteLock
      → Option Error
      → Text
      → Context
      → Desk S
      → Result ChangeSession × Desk S
  unfolding recovered on_device run_preflight block_preflight_unavailable
  post_change_preflight c digest host stored lock away id context d =
      recovered (block_preflight_unavailable id)
        (on_device away (run_preflight c digest host stored lock id context) d)

  answered : ℕ → Result ChangeSession × Desk S → Tracker → Result ChangeSession × Desk S × Tracker
  unfolding track
  answered at (ok s, d) t = (ok s, d, track at s.operation_result t)
  answered at (err e, d) t = (err e, d, t)

  known_session :
      Setting S
      → Option Error
      → ℕ
      → Text
      → Option ChangeSession
      → Desk S
      → Tracker
      → Result ChangeSession × Desk S × Tracker
  unfolding answered recovered on_device execute block_before_execution
  known_session x away at id none d t = (err other_error, d, t)
  known_session x away at id (some s) d t =
      answered at
        (recovered (block_before_execution id write_gate_closed) (on_device away (execute x id) d))
        t

  unlocked_only :
      Result (Unit {0})
      → Result ChangeSession × Desk S × Tracker
      → Desk S
      → Tracker
      → Result ChangeSession × Desk S × Tracker
  unlocked_only (ok u) go d t = go
  unlocked_only (err e) go d t = (err e, d, t)

  -- An unknown session is answered with a 404.
  unfoldable pub post_change_execute :
      Setting S
      → Option Error
      → ℕ
      → Text
      → Desk S
      → Tracker
      → Result ChangeSession × Desk S × Tracker
  unfolding unlocked_only require_unlocked controlled_writes_enabled known_session find
  post_change_execute x away at id d t =
      unlocked_only (require_unlocked (controlled_writes_enabled x.stored) x.lock)
        (known_session x away at id (find id d) d t) d t
