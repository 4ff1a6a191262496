-- ===== src/Operations/Pipeline/Story/Steps.antt =====
-- The story of a planned transaction, step by step.
use mathlib.Core.List.{append-nil, append_assoc}
use switch_ops.Prelude.{
  ◌≡◌, refl, sym, ap, List, All, ◌∙◌, inl, inr, Bool, true, false, Option, none, some, [], ◌∷◌,
  ◌++◌, if◌then◌else◌, Bool-cases, Result, ok, err,
}
use switch_ops.Text.{Text}
use switch_ops.Operations.Catalogue.{classify_ios_response, postcondition_met}
use switch_ops.Operations.Exec.{
  success, Client, Call, configured, Run, run_raw_action, begin, finish, skip, backup, execute,
  verify, passed, failed_stage, backup_running_config,
}
use switch_ops.Operations.Reads.{Plan, before_state, Seen, or_unseen, result}
use switch_ops.Operations.Change.{
  run_rollback, look, run_verify, execution_failed, after_answer, after_execution, run_execute,
  after_backup, run_backup,
}
use switch_ops.Operations.Pipeline.{already_satisfied, run_plan}
use switch_ops.Operations.Pipeline.Silent.{Silent-look, Silent-backup}
use switch_ops.Operations.Pipeline.Story.{
  forward, Observes, unneeded, no_backup, not_accepted, verified, IsSeen, Extends-trans, Begun,
  Told,
}
use switch_ops.Operations.Pipeline.Story.Looks.{look-IsSeen, run_rollback-Story}
use switch_ops.Operations.Pipeline.Readings.{IsReading}
use switch_ops.Operations.Pipeline.Readings.Logged.{Logs-backup}

module _ {S : Type 0} (c : Client S) where
  run_verify-Story :
      (p : Plan) (backup_path : Option Text) (r : Run S)
      → r.sent ≡ forward p ∷ []
      → Begun p r.log
      → let (res, r') = run_verify c p (forward p) backup_path r in Told p res.outcome r r'
  unfolding run_verify result begin finish
  run_verify-Story p backup_path r h begun =
      by_test (or_unseen (look c p (begin verify r)).0) (look-IsSeen c p (begin verify r))
        ((Silent-look c p).sent (begin verify r) ∙ h)
    where
      looked : Run S
      looked = (look c p (begin verify r)).1

      by_test :
          (seen : Seen)
          → (new : List Call) × (looked.log ≡ r.log ++ new) × All IsReading new × IsSeen p seen new
          → looked.sent ≡ forward p ∷ []
          → let (res, r') =
              if seen.is_met
              then result c p.kind p.interface
                  (record {
                    status = success;
                    before = some (before_state p);
                    after = seen.after;
                    commands = forward p;
                    rolled_back = none;
                    backup_path = backup_path;
                    requires_save = true;
                  })
                  (finish passed looked)
              else run_rollback c p
                  (forward p)
                  backup_path
                  seen.after
                  (finish failed_stage looked) in
            Told p res.outcome r r'
      by_test seen (new, log, quiet, is) e = elim (Bool-cases seen.is_met) [
        | inl m ↦
            let (early, answer, sent_last) = begun in
            let call = configured (forward p) answer in
            let observes : Observes p seen.after looked.log = record {
              early = early;
              answer = answer;
              later = new;
              order = log ∙ ap (λ l. l ++ new) sent_last ∙ append_assoc early (call ∷ []) new;
              quiet = quiet;
              seen = is m;
            } in
            rw m (verified refl observes refl refl e, (new, log))
        | inr m ↦
            let (story, more) =
              run_rollback-Story c p backup_path seen.after (finish failed_stage looked) e in
            rw m (story, Extends-trans r.log looked.log _ (new, log) more)
      ]

  execution_failed-Story :
      (p : Plan) (backup_path : Option Text) (save : Bool) (r : Run S)
      → r.sent ≡ forward p ∷ []
      → let (res, r') = execution_failed c p (forward p) backup_path save r in
        Told p res.outcome r r'
  unfolding execution_failed result begin finish
  execution_failed-Story p backup_path save r h =
      (not_accepted refl refl refl h, ([], sym (append-nil r.log)))

  after_execution-Story :
      (p : Plan) (backup_path : Option Text) (output : Result Text) (r : Run S)
      → r.sent ≡ forward p ∷ []
      → Begun p r.log
      → let (res, r') = after_execution c p (forward p) backup_path output r in
        Told p res.outcome r r'
  unfolding after_execution after_answer finish
  after_execution-Story p backup_path (err e) r h begun =
      execution_failed-Story p backup_path true r h
  after_execution-Story p backup_path (ok output) r h begun =
      by_answer (classify_ios_response output)
    where
      by_answer :
          (rejection : Option Text)
          → let (res, r') = after_answer c p (forward p) backup_path rejection r in
            Told p res.outcome r r'
      by_answer (some line) = execution_failed-Story p backup_path false r h
      by_answer none = run_verify-Story p backup_path (finish passed r) h begun

  run_execute-Story :
      (p : Plan) (backup_path : Option Text) (r : Run S)
      → r.sent ≡ []
      → let (res, r') = run_execute c p backup_path r in Told p res.outcome r r'
  unfolding run_execute run_raw_action begin
  run_execute-Story p backup_path r h =
      let (output, w) = c.run_raw_action (forward p) r.world in
      let call = configured (forward p) output in
      let (story, more) =
        after_execution-Story p backup_path output
          (record (begin execute r) {
            world = w;
            sent = r.sent ++ forward p ∷ [];
            log = r.log ++ call ∷ [];
          })
          (ap (λ l. l ++ forward p ∷ []) h) (r.log, output, refl) in
      (story, Extends-trans r.log (r.log ++ call ∷ []) _ (call ∷ [], refl) more)

  run_backup-Story :
      (is_fresh : Bool) (p : Plan) (r : Run S)
      → r.sent ≡ []
      → let (res, r') = run_backup c is_fresh p r in Told p res.outcome r r'
  unfolding run_backup begin skip
  run_backup-Story true p r h = run_execute-Story p none (skip backup r) h
  run_backup-Story false p r h =
      let (new, log, quiet, is) = (Logs-backup c p.running_config).at (begin backup r) in
      let (story, more) =
        taken (backup_running_config c p.running_config (begin backup r)).0
          (backup_running_config c p.running_config (begin backup r)).1
          ((Silent-backup c p.running_config).sent (begin backup r) ∙ h) in
      (story, Extends-trans r.log _ _ (new, log) more)
    where
      taken :
          (answer : Result Text) (r' : Run S)
          → r'.sent ≡ []
          → let (res, r'') = after_backup c p answer r' in Told p res.outcome r' r''
      taken (ok path) r' e =
          unfold after_backup finish in run_execute-Story p (some path) (finish passed r') e
      taken (err x) r' e =
          unfold after_backup result begin finish in
          (no_backup refl refl refl e, ([], sym (append-nil r'.log)))

  pub run_plan-Story :
      (is_fresh : Bool) (p : Plan) (r : Run S)
      → r.sent ≡ []
      → let (res, r') = run_plan c is_fresh p r in Told p res.outcome r r'
  unfolding run_plan already_satisfied result begin finish skip
  run_plan-Story is_fresh p r h =
      elim (Bool-cases (
        postcondition_met p.kind (some p.before_interface) p.before_poe p.value
          (some p.before_config))) [
            | inl m ↦ rw m (unneeded refl m refl refl h, ([], sym (append-nil r.log)))
            | inr m ↦ rw m (run_backup-Story is_fresh p (finish passed r) h)
          ]
