-- ===== src/Examples/Sessions.antt =====
-- The lock of a session, the save tracker and a save.
use switch_ops.Prelude.{refl, none, ◌++◌, ◌≡◌, ◌<◌, ◌↔◌, true, false, some, List, [], ◌∷◌, ok}
use switch_ops.Text.{Text, codes}
use switch_ops.Operations.Lock
use switch_ops.Operations.Lock.{unlock_event, lock_event}
use switch_ops.Operations.SaveTracker
use switch_ops.Operations.SaveTracker.{
  change, save, compare, pending_changes, matches, EndsInMatch, state-run,
}
use switch_ops.Operations.Catalogue.{classify_ios_response}
use switch_ops.Operations.Exec.{Run}
use switch_ops.Operations.Save.{save_running_config, save_running_config-saved}
use switch_ops.Examples.Device.{Switch, switch_client, obedient, open_lock}

abbrev session : List Lock.Event
session = unlock_event true 3 ∷ lock_event ∷ unlock_event false 4 ∷ unlock_event true 5 ∷ []

abbrev history : List SaveTracker.Event
history = change 3 ∷ save 4 ∷ compare (codes "a") (codes "b") ∷ change 6 ∷ []

state-run_example :
    let t = SaveTracker.run SaveTracker.init history in
    (((SaveTracker.state t).running_modified ≡ true) ↔ (t.fingerprint_differs ≡ some true))
    × (((SaveTracker.state t).detail ≡ pending_changes) ↔ (0 < t.pending))
    × (((SaveTracker.state t).detail ≡ matches) ↔ (t.fingerprint_differs ≡ some false))
    × (((SaveTracker.state t).detail ≡ matches) ↔ EndsInMatch history)
state-run_example = state-run history

abbrev idle_run : Run Switch
idle_run = record { world = obedient; stages = []; sent = []; log = [] }

saves : (save_running_config switch_client true open_lock idle_run).0 ≡ ok true
unfolding save_running_config
saves = refl

save_running_config-saved_example :
    (open_lock.is_unlocked ≡ true)
    × (true ≡ true)
    × ((save_running_config switch_client true open_lock idle_run).1.sent
        ≡ [] ++ (codes "write memory" ∷ []) ∷ [])
    × ((output : Text) × ((switch_client.run_raw_action (codes "write memory" ∷ []) obedient).0
          ≡ ok output)
        × (classify_ios_response output ≡ none))
save_running_config-saved_example =
    save_running_config-saved switch_client true open_lock idle_run saves
