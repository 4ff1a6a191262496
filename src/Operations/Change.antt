-- ===== src/Operations/Change.antt =====
-- The steps that change the device: backup, execution, verification and rollback. A step that ends
-- the transaction calls `result`; the others go on with the next step.
use switch_ops.Prelude.{
  Bool, true, false, ◌&&◌, not, Option, none, some, List, ◌++◌, if◌then◌else◌, Result, ok, err,
}
use switch_ops.Text.{Text}
use switch_ops.Operations.Catalogue.{
  is_poe, operation_commands, classify_ios_response, rollback_verified, postcondition_met,
}
use switch_ops.Operations.Exec.{
  Observed, success, failed, rolled_back, Client, backup, execute, verify, rollback, passed,
  failed_stage, Run, Exec, ◌>>=◌, pure, run_raw_action, backup_running_config, begin, finish, skip,
}
use switch_ops.Operations.Reads.{
  OperationResult, Plan, Seen, refused, observe, before_state, or_unseen, or_false, is_description,
  result, read_interface, poe_if, read_config, config_if,
}

module _ {S : Type 0} (c : Client S) where
  -- What is read after the rollback commands were sent.
  unfoldable pub check_restored : Plan → Text → Exec S Bool
  unfolding ◌>>=◌ pure classify_ios_response read_interface poe_if read_config rollback_verified
  check_restored p output = do
    restored ← read_interface c p.canonical
    poe ← poe_if c (is_poe p.kind) p.canonical
    config ← read_config c p.canonical
    pure (
        elim (classify_ios_response output) [ none ↦ true | some _ ↦ false ]
        && rollback_verified p.kind p.before_config restored poe config)

  -- The `try` of the rollback, whose exceptions count as not rolled back.
  unfoldable pub restore : Plan → Exec S Bool
  unfolding ◌>>=◌ run_raw_action check_restored
  restore p = do output ← run_raw_action c p.rollback_commands; check_restored p output

  unfoldable pub run_rollback :
      Plan → List Text → Option Text → Option Observed → Run S → OperationResult × Run S
  unfolding begin finish restore or_false result before_state
  run_rollback p commands backup_path after r =
      let (answer, r1) = restore p (begin rollback r) in
      let done = or_false answer in
      result c p.kind p.interface
        (record {
          status = if done then rolled_back else failed;
          before = some (before_state p);
          after = after;
          commands = commands ++ p.rollback_commands;
          rolled_back = some done;
          backup_path = backup_path;
          requires_save = not done;
        })
        (finish (if done then passed else failed_stage) r1)

  unfoldable pub look : Plan → Exec S Seen
  unfolding ◌>>=◌ pure read_interface poe_if config_if postcondition_met observe is_description
  look p = do
    interface ← read_interface c p.canonical
    poe ← poe_if c (is_poe p.kind) p.canonical
    config ← config_if c (is_description p.kind) p.canonical
    pure (record {
      after = elim interface [ none ↦ none | some i ↦ some (observe i poe) ];
      is_met = postcondition_met p.kind interface poe p.value config;
    })

  unfoldable pub run_verify : Plan → List Text → Option Text → Run S → OperationResult × Run S
  unfolding begin finish look or_unseen result before_state run_rollback
  run_verify p commands backup_path r =
      let (answer, r1) = look p (begin verify r) in
      let seen = or_unseen answer in
      let verified =
        result c p.kind p.interface
          (record {
            status = success;
            before = some (before_state p);
            after = seen.after;
            commands = commands;
            rolled_back = none;
            backup_path = backup_path;
            requires_save = true;
          })
          (finish passed r1) in
      let undone = run_rollback p commands backup_path seen.after (finish failed_stage r1) in
      if seen.is_met then verified else undone

  -- A failed session, or a rejection in the text that IOS answered.
  unfoldable pub execution_failed :
      Plan → List Text → Option Text → Bool → Run S → OperationResult × Run S
  unfolding finish result before_state
  execution_failed p commands backup_path requires_save r =
      result c p.kind p.interface
        (record {
          status = failed;
          before = some (before_state p);
          after = none;
          commands = commands;
          rolled_back = none;
          backup_path = backup_path;
          requires_save = requires_save;
        })
        (finish failed_stage r)

  -- What IOS rejected is not verified.
  unfoldable pub after_answer :
      Plan → List Text → Option Text → Option Text → Run S → OperationResult × Run S
  unfolding finish execution_failed run_verify
  after_answer p commands backup_path (some line) r =
      execution_failed p commands backup_path false r
  after_answer p commands backup_path none r = run_verify p commands backup_path (finish passed r)

  unfoldable pub after_execution :
      Plan → List Text → Option Text → Result Text → Run S → OperationResult × Run S
  unfolding classify_ios_response execution_failed after_answer
  after_execution p commands backup_path (err e) r = execution_failed p commands backup_path true r
  after_execution p commands backup_path (ok output) r =
      after_answer p commands backup_path (classify_ios_response output) r

  unfoldable pub run_execute : Plan → Option Text → Run S → OperationResult × Run S
  unfolding begin operation_commands run_raw_action after_execution
  run_execute p backup_path r =
      let commands = operation_commands p.kind p.canonical p.value in
      let (answer, r1) = run_raw_action c commands (begin execute r) in
      after_execution p commands backup_path answer r1

  unfoldable pub after_backup : Plan → Result Text → Run S → OperationResult × Run S
  unfolding finish result before_state run_execute
  after_backup p (ok path) r = run_execute p (some path) (finish passed r)
  after_backup p (err e) r =
      result c p.kind p.interface (record refused { before = some (before_state p) })
        (finish failed_stage r)

  unfoldable pub run_backup : Bool → Plan → Run S → OperationResult × Run S
  unfolding begin skip backup_running_config run_execute after_backup
  run_backup is_fresh p r =
      let fresh = run_execute p none (skip backup r) in
      let (answer, r1) = backup_running_config c p.running_config (begin backup r) in
      let taken = after_backup p answer r1 in if is_fresh then fresh else taken
