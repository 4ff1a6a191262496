-- ===== src/Assurance/Sessions/Blocks.antt =====
-- The two ways of blocking a stored session.
use switch_ops.Prelude.{◌≡◌, refl, ◌∙◌, false, some, ok}
use switch_ops.Text.{Text}
use switch_ops.Assurance.Model
use switch_ops.Assurance.Model.{Detail, ChangeSession}
use switch_ops.Assurance.Desk.{Desk, settle, store, find}
use switch_ops.Assurance.Service.{is_open}
use switch_ops.Assurance.Sessions.{
  with_session-found, block_open, block_before_execution, block_unreachable,
  block_preflight_unavailable,
}

module _ {S : Type 0} (id : Text) (d : Desk S) (s : ChangeSession)
    (known : find id d ≡ some s) where
  -- A session that is not open any more stays as it is.
  pub block_before_execution-closed :
      (detail : Detail) → is_open s.status ≡ false → block_before_execution id detail d ≡ (ok s, d)
  unfolding block_before_execution
  block_before_execution-closed detail h =
      with_session-found id (block_open detail) d s known ∙ (unfold block_open in rw h refl)

  -- Whatever the status is, it becomes BLOCKED.
  pub block_preflight_unavailable-blocks :
      (ended : ChangeSession) × (block_preflight_unavailable id d ≡ (ok ended, store ended d))
      × (ended.status ≡ Model.blocked)
      × (ended.id ≡ s.id)
  unfolding block_preflight_unavailable
  block_preflight_unavailable-blocks = (
    _,
    with_session-found id block_unreachable d s known ∙ (unfold block_unreachable in refl),
    unfold settle in refl,
    unfold settle in refl,
  )
