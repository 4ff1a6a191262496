-- ===== src/Assurance/Desk.antt =====
-- change_store.py and what a session runs on: the stored sessions, what the listener has heard, the
-- device, and the configuration commands that were sent to it.
pub mod Laws
pub mod Recovery
use switch_ops.Prelude.{Bool, true, false, Option, List, [], ◌∷◌, ◌++◌, map, if◌then◌else◌, Result}
use switch_ops.Text.{Text}
use switch_ops.Text.Dict.{Dict, lookup, insert}
use switch_ops.Operations.Exec.{Exec}
use switch_ops.Assurance.Model.{
  Status, executing, verifying, rolling_back, indeterminate, Detail, interrupted, ChangeSession,
}

-- A listener is given, and what it raises is ignored.
pub record Desk (S : Type 0) : Type 0 where
  pub sessions : Dict ChangeSession
  pub heard : List ChangeSession
  pub world : S
  pub sent : List (List Text)

unfoldable pub is_in_flight : Status → Bool
is_in_flight executing = true
is_in_flight verifying = true
is_in_flight rolling_back = true
is_in_flight _ = false

unfoldable pub settle : Status → Detail → ChangeSession → ChangeSession
settle status detail s = record s { status = status; outcome_detail = detail }

module _ {S : Type 0} where
  -- `store.save`, with a database that can be written
  unfoldable pub store : ChangeSession → Desk S → Desk S
  unfolding insert
  store s d = record d { sessions = insert s.id s d.sessions }

  -- `_save`: stored, and then told to the listener.
  unfoldable pub save : ChangeSession → Desk S → Desk S
  unfolding store
  save s d = let stored = store s d in record stored { heard = d.heard ++ s ∷ [] }

  -- `store.get`
  unfoldable pub find : Text → Desk S → Option ChangeSession
  unfolding lookup
  find id d = lookup id d.sessions

  -- A run on the device that begins from here.
  unfoldable pub on_client : {A : Type 0} → Exec S A → Desk S → Result A × Desk S
  on_client m d =
      let (answer, r) = m (record { world = d.world; stages = []; sent = []; log = [] }) in
      (answer, record d { world = r.world; sent = d.sent ++ r.sent })

recover_one : ChangeSession → ChangeSession
unfolding is_in_flight settle
recover_one s = if is_in_flight s.status then settle indeterminate interrupted s else s

-- `_recover_incomplete`, when the store is opened.
unfoldable pub recover : Dict ChangeSession → Dict ChangeSession
unfolding recover_one
recover = map (λ e. (e.0, recover_one e.1))
