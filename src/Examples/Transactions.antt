-- ===== src/Examples/Transactions.antt =====
-- Transactions on the simulated switch: one that works, one that is undone, one that is refused and
-- one that raises.
use mathlib.Core.List.{flatten}
use switch_ops.Prelude.{
  ◌≡◌, ◌≢◌, refl, true, false, none, some, List, [], ◌∷◌, Result, ok, err, write_actions_disabled,
}
use switch_ops.Text.{Text, codes, is_space}
use switch_ops.Registry.Names.{normalize_interface}
use switch_ops.Registry.Names.Writable.{IsPort}
use switch_ops.Policy.Model.{is_device_key, operable}
use switch_ops.Policy.File.{written}
use switch_ops.Policy.Store.{assert_operable, state_for, controlled_writes_enabled}
use switch_ops.Operations.Catalogue.{admin_down, is_poe, set_description}
use switch_ops.Operations.Exec.{success, rolled_back, blocked, Run}
use switch_ops.Operations.Reads.{OperationResult, Plan, refused, safe_value}
use switch_ops.Operations.Pipeline.{run_operation}
use switch_ops.Operations.Pipeline.Story.{forward, IsRestored}
use switch_ops.Operations.Pipeline.Story.Gates.{IsMeasured}
use switch_ops.Operations.Pipeline.Story.Ends.{IsPlan, SentBy, Achieved}
use switch_ops.Operations.Pipeline.Story.Contract.{
  sent-gated, raised-silent, sent-SentBy, commands-sent, success-Achieved, rolled_back-IsRestored,
  blocked-silent,
}
use switch_ops.Examples.Device.{
  Switch, switch_client, obedient, stubborn, digest, host, file, open_lock, closed_lock,
}

abbrev gi : Text
gi = codes "gi0/1"

abbrev shut : List Text
shut =
    codes "configure terminal"
    ∷ codes "interface GigabitEthernet0/1"
    ∷ codes "shutdown"
    ∷ codes "end"
    ∷ []

abbrev open_again : List Text
open_again =
    codes "configure terminal"
    ∷ codes "interface GigabitEthernet0/1"
    ∷ codes "no shutdown"
    ∷ codes "end"
    ∷ []

abbrev no_result : OperationResult
no_result = record { kind = admin_down; interface = []; outcome = refused; stages = [] }

abbrev the : Result OperationResult → OperationResult
the (ok r) = r
the (err e) = no_result

-- The switch obeys.
abbrev down : Result OperationResult × Run Switch
down =
    run_operation switch_client digest (some host) (some host) open_lock file admin_down gi none
      false obedient

-- The switch ignores the command.
abbrev ignored : Result OperationResult × Run Switch
ignored =
    run_operation switch_client digest (some host) (some host) open_lock file admin_down gi none
      false stubborn

-- A description of 65 characters.
abbrev long : Text
long = codes "aaaaaaaaaaaaaaaaaaaaaaaaaaaaaaaaaaaaaaaaaaaaaaaaaaaaaaaaaaaaaaaaa"

abbrev refused_change : Result OperationResult × Run Switch
refused_change =
    run_operation switch_client digest (some host) (some host) open_lock file set_description gi
      (some long) false obedient

abbrev locked : Result OperationResult × Run Switch
locked =
    run_operation switch_client digest (some host) (some host) closed_lock file admin_down gi none
      false obedient

down_sent : down.1.sent ≡ shut ∷ []
unfolding run_operation written is_device_key is_poe
down_sent = refl

down_ok : down.0 ≡ ok (the down.0)
unfolding run_operation written is_device_key is_poe
down_ok = refl

down_success : (the down.0).outcome.status ≡ success
unfolding run_operation written is_device_key is_poe
down_success = refl

down_some : down.1.sent ≢ []
down_some h = cc (down_sent, h)

ignored_ok : ignored.0 ≡ ok (the ignored.0)
unfolding run_operation written is_device_key is_poe
ignored_ok = refl

ignored_status : (the ignored.0).outcome.status ≡ rolled_back
unfolding run_operation written is_device_key is_poe
ignored_status = refl

ignored_sent : ignored.1.sent ≡ shut ∷ open_again ∷ []
unfolding run_operation written is_device_key is_poe
ignored_sent = refl

ignored_some : ignored.1.sent ≢ []
ignored_some h = cc (ignored_sent, h)

refused_ok : refused_change.0 ≡ ok (the refused_change.0)
unfolding run_operation written is_device_key is_poe is_space
refused_ok = refl

refused_status : (the refused_change.0).outcome.status ≡ blocked
unfolding run_operation written is_device_key is_poe is_space
refused_status = refl

locked_err : locked.0 ≡ err write_actions_disabled
unfolding run_operation
locked_err = refl

sent-gated_example :
    (open_lock.is_unlocked ≡ true)
    × (controlled_writes_enabled file ≡ true)
    × ((canonical : Text) × (normalize_interface gi ≡ ok canonical)
        × IsPort canonical
        × (state_for digest (some host) gi file ≡ ok operable)
        × (state_for digest (some host) gi file ≡ ok operable))
sent-gated_example =
    sent-gated switch_client digest (some host) (some host) open_lock file admin_down gi none false
      obedient down_some

sent-SentBy_example :
    (p : Plan) × IsPlan admin_down
      (assert_operable digest (some host) gi file)
      (safe_value admin_down none)
      p
    × IsMeasured p ignored.1.log
    × SentBy p ignored.1.sent
sent-SentBy_example =
    sent-SentBy switch_client digest (some host) (some host) open_lock file admin_down gi none false
      stubborn ignored_some

commands-sent_example : (the ignored.0).outcome.commands ≡ flatten ignored.1.sent
commands-sent_example =
    commands-sent switch_client digest (some host) (some host) open_lock file admin_down gi none
      false stubborn (the ignored.0) ignored_ok

success-Achieved_example :
    (p : Plan) × IsPlan admin_down
      (assert_operable digest (some host) gi file)
      (safe_value admin_down none)
      p
    × IsMeasured p down.1.log
    × Achieved p (the down.0).outcome down.1.sent down.1.log
success-Achieved_example =
    success-Achieved switch_client digest (some host) (some host) open_lock file admin_down gi none
      false obedient (the down.0) down_ok down_success

rolled_back-IsRestored_example :
    (p : Plan) × IsPlan admin_down
      (assert_operable digest (some host) gi file)
      (safe_value admin_down none)
      p
    × IsMeasured p ignored.1.log
    × (ignored.1.sent ≡ forward p ∷ p.rollback_commands ∷ [])
    × IsRestored p ignored.1.log
    × ((the ignored.0).outcome.requires_save ≡ false)
rolled_back-IsRestored_example =
    rolled_back-IsRestored switch_client digest (some host) (some host) open_lock file admin_down gi
      none false stubborn (the ignored.0) ignored_ok ignored_status

raised-silent_example : locked.1.sent ≡ []
raised-silent_example =
    raised-silent switch_client digest (some host) (some host) closed_lock file admin_down gi none
      false obedient write_actions_disabled locked_err

blocked-silent_example :
    (refused_change.1.sent ≡ []) × ((the refused_change.0).outcome.requires_save ≡ false)
blocked-silent_example =
    blocked-silent switch_client digest (some host) (some host) open_lock file set_description gi
      (some long) false obedient (the refused_change.0) refused_ok refused_status
