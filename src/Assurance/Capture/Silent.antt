-- ===== src/Assurance/Capture/Silent.antt =====
-- What taking a snapshot sends.
use switch_ops.Prelude.{refl, Option, Result}
use switch_ops.Text.{Text, codes}
use switch_ops.Operations.Exec.{Client}
use switch_ops.Operations.Pipeline.Silent.{Silent, Silent-bind, Silent-pure, Silent-run_and_audit}
use switch_ops.Operations.Catalogue.{OperationKind}
use switch_ops.Assurance.Context.{Context}
use switch_ops.Assurance.Snapshot.{canonical_and_short, plan_value}
use switch_ops.Assurance.Capture.{capture_assurance_snapshot, read_outputs, answer, assemble}

module _ {S : Type 0} where
  Silent-answer : {A : Type 0} (result : Result A) → Silent {S = S} (answer result)
  unfolding answer
  Silent-answer result = record { sent = λ r. refl; stages = λ r. refl }

module _ {S : Type 0} (c : Client S) where
  Silent-read_outputs : Silent (read_outputs c)
  unfolding read_outputs
  Silent-read_outputs =
      Silent-bind _ _ (Silent-run_and_audit c (codes "show_interfaces_status")) (λ a.
        Silent-bind _ _ (Silent-run_and_audit c (codes "show_power_inline")) (λ b.
          Silent-bind _ _ (Silent-run_and_audit c (codes "show_interfaces_counters_errors")) (λ d.
            Silent-bind _ _ (Silent-run_and_audit c (codes "show_mac_address_table")) (λ e.
              Silent-bind _ _ (Silent-run_and_audit c (codes "show_running_config")) (λ f.
                Silent-bind _ _ (Silent-run_and_audit c (codes "show_startup_config")) (λ g.
                  Silent-pure (record {
                    interfaces = a;
                    power = b;
                    counters = d;
                    addresses = e;
                    running = f;
                    startup = g;
                  })))))))

  pub Silent-capture :
      (digest : Text → Text) (device_id interface : Text) (kind : OperationKind)
      (value : Option Text) (context : Context)
      → Silent (capture_assurance_snapshot c digest device_id interface kind value context)
  unfolding capture_assurance_snapshot
  Silent-capture digest device_id interface kind value context =
      Silent-bind _ _ (Silent-answer (canonical_and_short interface)) (λ names.
        Silent-bind _ _ (Silent-answer (plan_value kind value)) (λ safe.
          Silent-bind _ _ Silent-read_outputs
            (λ outputs. Silent-answer (assemble digest device_id kind names context outputs))))
