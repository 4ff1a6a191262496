-- ===== src/Operations/Save.antt =====
-- `configuration_fingerprint`, `config_fingerprints` and `save_running_config`.
use switch_ops.Prelude.{
  ◌≡◌, refl, ◌∙◌, arith, Bool, true, false, not, Option, none, some, List, [], ◌∷◌, ◌++◌,
  if◌then◌else◌, any, Result, ok, err, other_error,
}
use switch_ops.Text.{Text, codes, strip, starts_with, join}
use switch_ops.Text.Lines.{splitlines}
use switch_ops.Operations.Lock
use switch_ops.Operations.Lock.{WriteLock}
use switch_ops.Operations.Catalogue.{classify_ios_response}
use switch_ops.Operations.Exec.{
  AuditEntry, save_config, Client, Run, Exec, ◌>>=◌, pure, run_and_audit, run_raw_action,
}

-- Lines that change without a change of the configuration.
volatile_prefixes : List Text
volatile_prefixes =
    codes "!"
    ∷ codes "Current configuration"
    ∷ codes "Using "
    ∷ codes "Building configuration"
    ∷ codes "ntp clock-period"
    ∷ []

is_kept : Text → Bool
unfolding volatile_prefixes
is_kept [] = false
is_kept (c ∷ s) = not (any (λ prefix. starts_with prefix (c ∷ s)) volatile_prefixes)

unfoldable pub kept_lines : List Text → List Text
unfolding strip is_kept
kept_lines [] = []
kept_lines (line ∷ rest) =
    let others = kept_lines rest in
    let stripped = strip line in if is_kept stripped then stripped ∷ others else others

unfoldable pub configuration_fingerprint : (Text → Text) → Text → Text
unfolding splitlines kept_lines join
configuration_fingerprint digest text = digest (join 10 (kept_lines (splitlines text)))

write_memory : List Text
write_memory = codes "write memory" ∷ []

save_entry : Bool → AuditEntry
unfolding write_memory
save_entry saved = record {
  action = save_config;
  commands = write_memory;
  success = saved;
  before_state = none;
  after_state = none;
}

module _ {S : Type 0} (c : Client S) where
  unfoldable pub config_fingerprints : (Text → Text) → Exec S (Text × Text)
  unfolding ◌>>=◌ pure run_and_audit configuration_fingerprint
  config_fingerprints digest = do
    running ← run_and_audit c (codes "show_running_config")
    startup ← run_and_audit c (codes "show_startup_config")
    pure (configuration_fingerprint digest running, configuration_fingerprint digest startup)

  -- An exception of the audit trail takes the place of the answer.
  record_save_of : Bool → Run S → Result Bool × Run S
  unfolding save_entry
  record_save_of saved r =
      let (recorded, w) = c.record_audit (save_entry saved) r.world in
      (if recorded then ok saved else err other_error, record r { world = w })

  after_write : Result Text × Run S → Result Bool × Run S
  unfolding classify_ios_response record_save_of
  after_write (err e, r) = (err e, r)
  after_write (ok output, r) =
      record_save_of (elim (classify_ios_response output) [ none ↦ true | some _ ↦ false ]) r

  save_authorized : Run S → Result Bool × Run S
  unfolding run_raw_action write_memory after_write
  save_authorized r = after_write (run_raw_action c write_memory r)

  guarded : Result (Unit {0}) → Run S → Result Bool × Run S
  unfolding save_authorized
  guarded (err e) r = (err e, r)
  guarded (ok _) r = save_authorized r

  -- Whether the switch has saved; `enabled` is the setting of the policy store.
  unfoldable pub save_running_config : Bool → WriteLock → Run S → Result Bool × Run S
  unfolding guarded Lock.operation_guard
  save_running_config enabled lock r = guarded (Lock.operation_guard enabled lock) r

  saved_if :
      (rejection : Option Text)
      → (elim rejection [ none ↦ true | some _ ↦ false ]) ≡ true
      → rejection ≡ none
  saved_if none h = refl
  saved_if (some line) h = absurd (cc)

  record_save_of-true :
      (saved : Bool) (r : Run S) → (record_save_of saved r).0 ≡ ok true → saved ≡ true
  unfolding record_save_of
  record_save_of-true saved r h = ground (arith, h)

  after_write-sent : (x : Result Text × Run S) → (after_write x).1.sent ≡ x.1.sent
  unfolding after_write record_save_of
  after_write-sent (err e, r) = refl
  after_write-sent (ok output, r) = refl

  after_write-true :
      (x : Result Text × Run S)
      → (after_write x).0 ≡ ok true
      → (output : Text) × (x.0 ≡ ok output) × (classify_ios_response output ≡ none)
  unfolding after_write
  after_write-true (err e, r) h = absurd (cc)
  after_write-true (ok output, r) h =
      (output, refl, saved_if (classify_ios_response output) (record_save_of-true _ r h))

  guarded-true :
      (gate : Result (Unit {0})) (r : Run S)
      → (guarded gate r).0 ≡ ok true
      → (gate ≡ ok tt)
        × ((guarded gate r).1.sent ≡ r.sent ++ (codes "write memory" ∷ []) ∷ [])
        × ((output : Text) × ((c.run_raw_action (codes "write memory" ∷ []) r.world).0 ≡ ok output)
            × (classify_ios_response output ≡ none))
  unfolding guarded save_authorized write_memory
  guarded-true (err e) r h = absurd (cc)
  guarded-true (ok u) r h = (
    refl,
    after_write-sent (run_raw_action c write_memory r) ∙ sends r,
    after_write-true (run_raw_action c write_memory r) h,
  )
    where
      sends :
          (r : Run S)
          → (run_raw_action c (codes "write memory" ∷ []) r).1.sent
            ≡ r.sent ++ (codes "write memory" ∷ []) ∷ []
      sends r = unfold run_raw_action in refl

  -- `save_running_config` says that the configuration is saved only if the session is unlocked, writes
  -- are enabled, `write memory` was sent, alone and once, and the switch answered without a rejection.
  pub save_running_config-saved :
      (enabled : Bool) (lock : WriteLock) (r : Run S)
      → (save_running_config enabled lock r).0 ≡ ok true
      → (lock.is_unlocked ≡ true)
        × (enabled ≡ true)
        × ((save_running_config enabled lock r).1.sent ≡ r.sent ++ (codes "write memory" ∷ []) ∷ [])
        × ((output : Text) × ((c.run_raw_action (codes "write memory" ∷ []) r.world).0 ≡ ok output)
            × (classify_ios_response output ≡ none))
  unfolding save_running_config
  save_running_config-saved enabled lock r h =
      let (gate, sent, answer) = guarded-true (Lock.operation_guard enabled lock) r h in
      let (is_unlocked, is_enabled) = Lock.operation_guard-open enabled lock gate in
      (is_unlocked, is_enabled, sent, answer)
