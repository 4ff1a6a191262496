-- ===== src/Assurance/Routes/Repeats.antt =====
-- What a repeated request does to a session that is complete.
use switch_ops.Prelude.{◌≡◌, refl, subst, ℕ, true, false, ◌||◌, Option, none, some, ok, arith}
use switch_ops.Text.{Text}
use switch_ops.Policy.Model.{Stored}
use switch_ops.Policy.Store.{controlled_writes_enabled}
use switch_ops.Operations.Lock.{WriteLock, require_unlocked}
use switch_ops.Operations.Exec.{Client}
use switch_ops.Operations.Reads.{OperationResult, is_switchops_error}
use switch_ops.Operations.SaveTracker.{Tracker, record_change}
use switch_ops.Assurance.Model
use switch_ops.Assurance.Model.{Status, ChangeSession, write_gate_closed}
use switch_ops.Assurance.Context.{Context}
use switch_ops.Assurance.Desk.{Desk, store, find}
use switch_ops.Assurance.Desk.Laws.{find-store}
use switch_ops.Assurance.Service.{is_at_work, is_complete, is_ready, is_open}
use switch_ops.Assurance.Sessions.Blocks.{
  block_before_execution-closed, block_preflight_unavailable-blocks,
}
use switch_ops.Assurance.Sessions.Preflights.{run_preflight-refused}
use switch_ops.Assurance.Execute.{Setting}
use switch_ops.Assurance.Execute.Contract.{execute-not_ready}
use switch_ops.Assurance.Routes.{
  on_device, published, recovered, post_change_preflight, known_session, unlocked_only,
  post_change_execute,
}

is_complete-not_ready : (status : Status) → is_complete status ≡ true → is_ready status ≡ false
unfolding is_complete is_ready
is_complete-not_ready status h = ground arith

is_complete-not_open : (status : Status) → is_complete status ≡ true → is_open status ≡ false
unfolding is_complete is_open
is_complete-not_open status h = ground arith

module _ {S : Type 0} (id : Text) (d : Desk S) (s : ChangeSession)
    (known : find id d ≡ some s) where
  -- A request for a preflight of a session that is in flight or complete is refused by the service, and
  -- the handler takes that for a device that cannot be reached: the stored session becomes BLOCKED.
  pub post_change_preflight-overwrites :
      (c : Client S) (digest : Text → Text) (host : Option Text) (stored : Stored)
      (lock : WriteLock) (context : Context)
      → (is_at_work s.status || is_complete s.status) ≡ true
      → let run = post_change_preflight c digest host stored lock none id context d in
        (ended : ChangeSession) × (run.0 ≡ ok ended)
        × (ended.status ≡ Model.blocked)
        × (find s.id run.1 ≡ some ended)
  unfolding post_change_preflight recovered published is_switchops_error on_device find store
  post_change_preflight-overwrites c digest host stored lock context h =
      let (reason, refused) =
        run_preflight-refused c digest host stored lock id context d s known h in
      let (ended, blocked, is, key) = block_preflight_unavailable-blocks id d s known in
      rw (refused, blocked)
        (ended, refl, is, subst (λ k. find k (store ended d) ≡ some ended) key (find-store ended d))

  -- A second request to execute a complete session sends nothing and changes no session, but if the result
  -- of the session asked for a save, the save tracker counts one more change that is not saved.
  pub post_change_execute-recounts :
      (x : Setting S) (at : ℕ) (t : Tracker) (result : OperationResult)
      → is_complete s.status ≡ true
      → require_unlocked (controlled_writes_enabled x.stored) x.lock ≡ ok tt
      → s.operation_result ≡ some result
      → result.outcome.requires_save ≡ true
      → let run = post_change_execute x none at id d t in
        (run.0 ≡ ok s)
        × (run.1.sessions ≡ d.sessions)
        × (run.1.sent ≡ d.sent)
        × (run.2 ≡ record_change at t)
  unfolding post_change_execute unlocked_only known_session on_device
  post_change_execute-recounts x at t result over unlocked has saves =
      rw
        (
          unlocked,
          known,
          execute-not_ready x id d s known (is_complete-not_ready s.status over),
          block_before_execution-closed id d s known write_gate_closed
              (is_complete-not_open s.status over),
          has,
          saves,
        )
        (refl, refl, refl, refl)
