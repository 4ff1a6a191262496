-- ===== src/Operations/Exec.antt =====
-- What an operation runs on: the client of the device, the audit trail and the backup folder as an
-- interface over a state of the world, and the progress record of one transaction.
use switch_ops.Prelude.{
  Bool, true, false, Option, none, List, [], ◌∷◌, ◌++◌, if◌then◌else◌, Result, ok, err, other_error,
}
use switch_ops.Text.{Text, codes}
use switch_ops.Registry.Actions.{resolve_read_command}
use switch_ops.Operations.Catalogue.{OperationKind}

-- What is told of an observed interface in the states before and after.
pub record Observed : Type 0 where
  pub status : Text
  pub description : Text
  pub poe : Option Text

pub data OperationStatus : Type 0 where
  success failed blocked rolled_back : OperationStatus

pub data AuditAction : Type 0 where
  read : Text → AuditAction
  operation : OperationKind → OperationStatus → AuditAction
  backup_config save_config : AuditAction

-- An entry of the audit trail, without its times and messages.
pub record AuditEntry : Type 0 where
  pub action : AuditAction
  pub commands : List Text
  pub success : Bool
  pub before_state : Option Observed
  pub after_state : Option Observed

-- The calls that leave the modelled code. Each may raise; `record_audit` answers false if it does.
pub record Client (S : Type 0) : Type 0 where
  pub run : Text → S → Result Text × S
  pub run_raw_action : List Text → S → Result Text × S
  pub record_audit : AuditEntry → S → Bool × S
  pub write_backup : Text → S → Result Text × S

pub data StageName : Type 0 where
  precheck backup execute verify audit rollback : StageName

pub data StageStatus : Type 0 where
  running passed failed_stage skipped : StageStatus

pub record Stage : Type 0 where
  pub name : StageName
  pub status : StageStatus

-- A command that was read, or the commands that were sent, with what came back.
pub data Call : Type 0 where
  asked : Text → Result Text → Call
  configured : List Text → Result Text → Call

-- `sent` is the trace of the calls of `run_raw_action`, the only ones that configure the device, and
-- `log` the trace of all calls of the device, in their order.
pub record Run (S : Type 0) : Type 0 where
  pub world : S
  pub stages : List Stage
  pub sent : List (List Text)
  pub log : List Call

abbrev pub Exec : Type 0 → Type 0 → Type 0
Exec S A = Run S → Result A × Run S

module _ {S A B : Type 0} where
  unfoldable pub continue : Result A → (A → Exec S B) → Exec S B
  continue (ok a) f r = f a r
  continue (err e) f r = (err e, r)

  infixl 10 ◌>>=◌
  unfoldable pub ◌>>=◌ : Exec S A → (A → Exec S B) → Exec S B
  unfolding continue
  ◌>>=◌ m f r = let (a, r') = m r in continue a f r'

module _ {S A : Type 0} where
  unfoldable pub pure : A → Exec S A
  pure a r = (ok a, r)

-- An exception of the audit trail takes the place of the output.
unfoldable pub audited : Bool → Result Text → Result Text
audited true output = output
audited false output = err other_error

read_entry : Text → Text → Result Text → AuditEntry
read_entry symbol command output = record {
  action = read symbol;
  commands = command ∷ [];
  success = elim output [ ok _ ↦ true | err _ ↦ false ];
  before_state = none;
  after_state = none;
}

backup_entry : AuditEntry
backup_entry = record {
  action = backup_config;
  commands = codes "terminal length 0" ∷ codes "show running-config" ∷ [];
  success = true;
  before_state = none;
  after_state = none;
}

module _ {S : Type 0} (c : Client S) where
  -- The audit entry is written whether the command raises or not.
  unfoldable pub run_resolved : Text → Result Text → Exec S Text
  unfolding audited read_entry
  run_resolved symbol (err e) r = (err e, r)
  run_resolved symbol (ok command) r =
      let (output, w) = c.run symbol r.world in
      let (recorded, w') = c.record_audit (read_entry symbol command output) w in
      (audited recorded output, record r { world = w'; log = r.log ++ asked symbol output ∷ [] })

  unfoldable pub run_and_audit : Text → Exec S Text
  unfolding resolve_read_command run_resolved
  run_and_audit symbol = run_resolved symbol (resolve_read_command symbol)

  unfoldable pub run_raw_action : List Text → Exec S Text
  run_raw_action commands r =
      let (output, w) = c.run_raw_action commands r.world in
      (
        output,
        record r {
          world = w;
          sent = r.sent ++ commands ∷ [];
          log = r.log ++ configured commands output ∷ [];
        },
      )

  record_backup : Result Text → S → Result Text × S
  unfolding backup_entry
  record_backup (err e) w = (err e, w)
  record_backup (ok path) w =
      let (recorded, w') = c.record_audit backup_entry w in
      (if recorded then ok path else err other_error, w')

  -- `backup_running_config` with the text given: paging is turned off, whatever comes of that.
  unfoldable pub backup_running_config : Text → Exec S Text
  unfolding record_backup
  backup_running_config text r =
      let (ignored, w) = c.run (codes "terminal_length_0") r.world in
      let (path, w') = c.write_backup text w in
      let (done, w'') = record_backup path w' in
      let call = asked (codes "terminal_length_0") ignored in
      (done, record r { world = w''; log = r.log ++ call ∷ [] })

-- The last stage gets its status; with no stage there is nothing to do.
unfoldable pub finish_last : StageStatus → List Stage → List Stage
finish_last status [] = []
finish_last status (s ∷ []) = record s { status = status } ∷ []
finish_last status (s ∷ t ∷ rest) = s ∷ finish_last status (t ∷ rest)

module _ {S : Type 0} where
  unfoldable pub begin : StageName → Run S → Run S
  begin name r = record r { stages = r.stages ++ record { name = name; status = running } ∷ [] }

  unfoldable pub finish : StageStatus → Run S → Run S
  unfolding finish_last
  finish status r = record r { stages = finish_last status r.stages }

  unfoldable pub skip : StageName → Run S → Run S
  skip name r = record r { stages = r.stages ++ record { name = name; status = skipped } ∷ [] }
