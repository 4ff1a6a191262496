-- ===== src/Operations/Pipeline/Story/Looks.antt =====
-- Verification (`look`) and the rollback of run_operation of backend/app/operations.py: what they read.
use mathlib.Core.List.{append-nil, append_assoc}
use switch_ops.Prelude.{
  ◌≡◌, refl, sym, ap, ◌∙◌, subst, All, Bool, true, false, not, Option, none, some, List, [], ◌∷◌,
  ◌++◌, ◌&&◌, arith, if◌then◌else◌, Result, ok, err,
}
use switch_ops.Text.{Text}
use switch_ops.Models.{InterfaceStatus}
use switch_ops.Operations.Config.{InterfaceConfig}
use switch_ops.Operations.Catalogue.{
  is_poe, classify_ios_response, rollback_verified, postcondition_met,
}
use switch_ops.Operations.Exec.{
  Observed, failed, rolled_back, Client, Call, configured, Run, continue, ◌>>=◌, run_raw_action,
  begin, finish, rollback,
}
use switch_ops.Operations.Reads.{
  Plan, observe, before_state, Seen, or_unseen, or_false, is_description, result,
}
use switch_ops.Operations.Change.{check_restored, restore, run_rollback, look}
use switch_ops.Operations.Pipeline.Silent.{
  Silent, Silent-bind, Silent-pure, Silent-read_interface, Silent-poe_if, Silent-read_config,
  sent-bind,
}
use switch_ops.Operations.Pipeline.Readings.{
  IsReading, RowRead, PoeRead, ConfigRead, ConfigReadIf, RowRead-front, PoeRead-front, PoeRead-back,
  ConfigRead-front, ConfigRead-back, ConfigReadIf-back,
}
use switch_ops.Operations.Pipeline.Readings.Logged.{
  Logs, Logs-pure, Logs-bind, Logs-read_interface, Logs-poe_if, Logs-read_config, Logs-config_if,
}
use switch_ops.Operations.Pipeline.Story.{
  forward, Return, IsRestored, Story, undone, not_undone, IsSeen, Extends, Told,
}

module _ {S : Type 0} (c : Client S) where
  Silent-check_restored : (p : Plan) (output : Text) → Silent (check_restored c p output)
  unfolding check_restored
  Silent-check_restored p output =
      search (Silent-pure, Silent-bind, Silent-read_interface, Silent-poe_if, Silent-read_config)

  -- The rollback sends its commands, once.
  restore_sent :
      (p : Plan) (r : Run S) → (restore c p r).1.sent ≡ r.sent ++ p.rollback_commands ∷ []
  unfolding restore run_raw_action
  restore_sent p r = sent-bind (run_raw_action c p.rollback_commands) _ (Silent-check_restored p) r

  abbrev BackIf : Plan → Text → Bool → List Call → Type 0
  BackIf p output b calls = b ≡ true → (classify_ios_response output ≡ none) × Return p calls

  Logs-check_restored :
      (p : Plan) (output : Text) → Logs (BackIf p output) (check_restored c p output)
  unfolding check_restored
  Logs-check_restored p output =
      Logs-bind (RowRead p.canonical) _ _ _ (Logs-read_interface c p.canonical) λ interface one row.
        Logs-bind (PoeRead (is_poe p.kind) p.canonical) _ _ _
          (Logs-poe_if c (is_poe p.kind) p.canonical)
          λ poe two power.
            Logs-bind (ConfigRead p.canonical) _ _ _ (Logs-read_config c p.canonical)
              λ config three block. Logs-pure _ _ (λ h.
                let all = two ++ (three ++ []) in
                (
                  accepted (classify_ios_response output) _ h,
                  back interface poe config (one ++ all)
                      (RowRead-front p.canonical interface one all row)
                      (PoeRead-back (is_poe p.kind) p.canonical poe one all
                        (PoeRead-front (is_poe p.kind) p.canonical poe two (three ++ []) power))
                      (ConfigRead-back p.canonical config one all (
                        ConfigRead-back p.canonical config two (three ++ [])
                          (ConfigRead-front p.canonical config three [] block)))
                      (and_right _ _ h),
                ))
    where
      and_right : (a b : Bool) → (a && b) ≡ true → b ≡ true
      and_right a b h = ground arith

      accepted :
          (rejection : Option Text) (b : Bool)
          → (elim rejection [ none ↦ true | some _ ↦ false ] && b) ≡ true
          → rejection ≡ none
      accepted none b h = refl
      accepted (some line) b h = absurd (cc (h))

      back :
          (interface : Option InterfaceStatus) (poe : Option Text) (config : Option InterfaceConfig)
          (calls : List Call)
          → RowRead p.canonical interface calls
          → PoeRead (is_poe p.kind) p.canonical poe calls
          → ConfigRead p.canonical config calls
          → rollback_verified p.kind p.before_config interface poe config ≡ true
          → Return p calls
      back none poe config calls row power block h = unfold rollback_verified in absurd (cc)
      back (some i) poe none calls row power block h = unfold rollback_verified in absurd (cc)
      back (some i) poe (some d) calls row power block h = record {
        interface = i;
        poe = poe;
        config = d;
        read = (row, power, block);
        back = h;
      }

  -- What the rollback adds to the log, and what it has seen when it says that it was done.
  restore-IsRestored :
      (p : Plan) (r : Run S)
      → (or_false (restore c p r).0 ≡ true → IsRestored p (restore c p r).1.log)
        × Extends r.log (restore c p r).1.log
  unfolding restore ◌>>=◌ continue run_raw_action
  restore-IsRestored p r =
      let (answer, w) = c.run_raw_action p.rollback_commands r.world in from answer w
    where
      after : Result Text → S → Run S
      after answer w = record r {
        world = w;
        sent = r.sent ++ p.rollback_commands ∷ [];
        log = r.log ++ configured p.rollback_commands answer ∷ [];
      }

      from :
          (answer : Result Text) (w : S)
          → let (done, r') = continue answer (check_restored c p) (after answer w) in
            (or_false done ≡ true → IsRestored p r'.log) × Extends r.log r'.log
      from (err e) w = (
        (λ h. absurd (unfold or_false in cc (h))),
        (configured p.rollback_commands (err e) ∷ [], refl),
      )
      from (ok output) w =
          let (new, log, quiet, is) = (Logs-check_restored p output).at (after (ok output) w) in
          let call = configured p.rollback_commands (ok output) in
          let order = log ∙ append_assoc r.log (call ∷ []) new in
          (
            (λ h.
                let (accepted, seen) =
                  done (check_restored c p output (after (ok output) w)).0 new is h in
                record {
                  early = r.log;
                  output = output;
                  later = new;
                  order = order;
                  accepted = accepted;
                  quiet = quiet;
                  seen = seen;
                }),
            (call ∷ new, order),
          )
        where
          done :
              (a : Result Bool) (new : List Call)
              → ((b : Bool) → a ≡ ok b → BackIf p output b new)
              → or_false a ≡ true
              → (classify_ios_response output ≡ none) × Return p new
          done (ok b) new is h = is b refl (unfold or_false in h)
          done (err e) new is h = absurd (unfold or_false in cc (h))

  pub run_rollback-Story :
      (p : Plan) (backup_path : Option Text) (after : Option Observed) (r : Run S)
      → r.sent ≡ forward p ∷ []
      → let (res, r') = run_rollback c p (forward p) backup_path after r in Told p res.outcome r r'
  unfolding run_rollback result begin finish
  run_rollback-Story p backup_path after r h =
      let (restored, extends) = restore-IsRestored p (begin rollback r) in
      (
        told (or_false (restore c p (begin rollback r)).0) restored
            (restore_sent p (begin rollback r) ∙ ap (λ l. l ++ p.rollback_commands ∷ []) h),
        extends,
      )
    where
      told :
          (done : Bool) {sent : List (List Text)} {log : List Call}
          → (done ≡ true → IsRestored p log)
          → sent ≡ forward p ∷ p.rollback_commands ∷ []
          → Story p
              (record {
                status = if done then rolled_back else failed;
                before = some (before_state p);
                after = after;
                commands = forward p ++ p.rollback_commands;
                rolled_back = some done;
                backup_path = backup_path;
                requires_save = not done;
              })
              sent
              log
      told true is e = undone refl (is refl) refl refl refl e
      told false is e = not_undone refl refl refl refl e

  Logs-look : (p : Plan) → Logs (IsSeen p) (look c p)
  unfolding look
  Logs-look p =
      Logs-bind (RowRead p.canonical) _ _ _ (Logs-read_interface c p.canonical) λ interface one row.
        Logs-bind (PoeRead (is_poe p.kind) p.canonical) _ _ _
          (Logs-poe_if c (is_poe p.kind) p.canonical)
          λ poe two power.
            Logs-bind (ConfigReadIf (is_description p.kind) p.canonical) _ _ _
              (Logs-config_if c (is_description p.kind) p.canonical)
              λ config three block. Logs-pure _ _ (
                let all = two ++ (three ++ []) in
                seen interface poe config (one ++ all)
                  (RowRead-front p.canonical interface one all row)
                  (PoeRead-back (is_poe p.kind) p.canonical poe one all
                    (PoeRead-front (is_poe p.kind) p.canonical poe two (three ++ []) power))
                  (ConfigReadIf-back (is_description p.kind) p.canonical config one all (
                    ConfigReadIf-back (is_description p.kind) p.canonical config two (three ++ []) (
                      subst (ConfigReadIf (is_description p.kind) p.canonical config)
                        (sym (append-nil three)) block))))
    where
      seen :
          (interface : Option InterfaceStatus) (poe : Option Text) (config : Option InterfaceConfig)
          (calls : List Call)
          → RowRead p.canonical interface calls
          → PoeRead (is_poe p.kind) p.canonical poe calls
          → ConfigReadIf (is_description p.kind) p.canonical config calls
          → IsSeen p
              (record {
                after = elim interface [ none ↦ none | some i ↦ some (observe i poe) ];
                is_met = postcondition_met p.kind interface poe p.value config;
              })
              calls
      seen none poe config calls row power block h = unfold postcondition_met in absurd (cc)
      seen (some i) poe config calls row power block h = record {
        interface = i;
        poe = poe;
        config = config;
        row = row;
        power = power;
        block = block;
        meets = h;
        shown = refl;
      }

  -- What verification has seen, among what it adds to the log.
  pub look-IsSeen :
      (p : Plan) (r : Run S)
      → (new : List Call) × ((look c p r).1.log ≡ r.log ++ new)
        × All IsReading new
        × IsSeen p (or_unseen (look c p r).0) new
  look-IsSeen p r =
      let (new, log, quiet, is) = (Logs-look p).at r in
      (new, log, quiet, seen (look c p r).0 new is)
    where
      seen :
          (a : Result Seen) (new : List Call)
          → ((s : Seen) → a ≡ ok s → IsSeen p s new)
          → IsSeen p (or_unseen a) new
      seen (ok s) new is = unfold or_unseen in is s refl
      seen (err x) new is = unfold or_unseen in λ h. absurd (cc (h))
