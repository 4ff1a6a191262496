-- ===== src/Operations/Lock.antt =====
-- `WriteLock`: the approval for this session. `enabled` is the policy store's
-- `controlled_writes_enabled()` at the call, `now` the time.
use switch_ops.Prelude.{
  ℕ, ◌≡◌, ◌↔◌, refl, Bool, true, false, ◌&&◌, ◌||◌, not, Option, none, some, List, [], ◌∷◌, arith,
  if◌then◌else◌, Result, ok, err, write_actions_disabled,
}

pub record WriteLock : Type 0 where
  pub is_unlocked : Bool
  pub unlocked_at : Option ℕ

-- Every launch starts locked.
unfoldable pub init : WriteLock
init = record { is_unlocked = false; unlocked_at = none }

unfoldable pub unlock : Bool → ℕ → WriteLock → Result WriteLock
unlock enabled now l =
    if enabled
    then ok (record l { is_unlocked = true; unlocked_at = some now })
    else err write_actions_disabled

unfoldable pub lock : WriteLock → WriteLock
lock l = record l { is_unlocked = false; unlocked_at = none }

unfoldable pub unlocked : Bool → WriteLock → Bool
unlocked enabled l = l.is_unlocked && enabled

unfoldable pub require_unlocked : Bool → WriteLock → Result (Unit {0})
unfolding unlocked
require_unlocked enabled l =
    if not enabled
    then err write_actions_disabled
    else if not (unlocked enabled l)
    then err write_actions_disabled
    else ok tt

-- The guard's entry.
unfoldable pub operation_guard : Bool → WriteLock → Result (Unit {0})
operation_guard enabled l =
    if not l.is_unlocked || not enabled then err write_actions_disabled else ok tt

pub operation_guard-open :
    (enabled : Bool) (l : WriteLock)
    → operation_guard enabled l ≡ ok tt
    → (l.is_unlocked ≡ true) × (enabled ≡ true)
unfolding operation_guard
operation_guard-open enabled l h = ground arith

pub record LockStatus : Type 0 where
  pub capability : Bool
  pub is_unlocked : Bool
  pub unlocked_at : Option ℕ

unfoldable pub status : Bool → WriteLock → LockStatus
unfolding unlocked
status enabled l = record {
  capability = enabled;
  is_unlocked = unlocked enabled l;
  unlocked_at = l.unlocked_at;
}

-- What a session does to the lock, with the setting of the store at that moment.
pub data Event : Type 0 where
  unlock_event : Bool → ℕ → Event
  lock_event : Event

-- A refused `unlock` leaves the lock as it is.
unfoldable pub step : WriteLock → Event → WriteLock
unfolding unlock lock
step l (unlock_event enabled now) = elim (unlock enabled now l) [ ok l' ↦ l' | err _ ↦ l ]
step l lock_event = lock l

unfoldable pub run : WriteLock → List Event → WriteLock
unfolding step
run l [] = l
run l (e ∷ es) = run (step l e) es

-- The last event that changed the lock was a granted unlock.
abbrev pub granted : Bool → List Event → Bool
granted before [] = before
granted before (unlock_event enabled now ∷ es) = granted (enabled || before) es
granted before (lock_event ∷ es) = granted false es

run-granted : (l : WriteLock) (es : List Event) → (run l es).is_unlocked ≡ granted l.is_unlocked es
unfolding run step unlock lock
run-granted l [] = refl
run-granted l (unlock_event true now ∷ es) = run-granted (step l (unlock_event true now)) es
run-granted l (unlock_event false now ∷ es) = run-granted l es
run-granted l (lock_event ∷ es) = run-granted (lock l) es

-- From the launch on, the guard of an operation is passed exactly when writes are enabled now and an
-- unlock was granted, while they were enabled, after the last lock.
pub operation_guard-run :
    (enabled : Bool) (es : List Event)
    → (operation_guard enabled (run init es) ≡ ok tt)
      ↔ ((enabled ≡ true) × (granted false es ≡ true))
unfolding operation_guard init
operation_guard-run enabled es =
    (λ h. ground (arith, run-granted init es), λ h. ground (arith, run-granted init es))

-- The three gates agree: the property, the check that raises and the guard.
pub gates_agree :
    (enabled : Bool) (l : WriteLock)
    → (require_unlocked enabled l ≡ operation_guard enabled l)
      × ((operation_guard enabled l ≡ ok tt) ↔ (unlocked enabled l ≡ true))
      × ((status enabled l).is_unlocked ≡ unlocked enabled l)
unfolding require_unlocked operation_guard unlocked status
gates_agree enabled l = (ground arith, (λ h. ground arith, λ h. ground arith), refl)
