-- ===== src/Operations/SaveTracker.antt =====
-- `ConfigSaveTracker` of backend/app/operations.py: has the running configuration drifted from startup?
use switch_ops.Prelude.{
  ℕ, ◌+◌, ◌<◌, ◌≡◌, ◌↔◌, refl, sym, ap, ◌∙◌, Bool, true, false, ◌&&◌, ◌||◌, not, Option, none, some,
  List, [], ◌∷◌, ◌++◌, arith, ltb, if◌then◌else◌,
}
use switch_ops.Text.{Text, text_eq, text_eq_iff}

pub record Tracker : Type 0 where
  pub pending : ℕ
  pub last_change : Option ℕ
  pub last_saved : Option ℕ
  pub fingerprint_differs : Option Bool

unfoldable pub init : Tracker
init = record { pending = 0; last_change = none; last_saved = none; fingerprint_differs = none }

-- `at or now` is the time that is given.
unfoldable pub record_change : ℕ → Tracker → Tracker
record_change at t = record t {
  pending = t.pending + 1;
  last_change = some at;
  fingerprint_differs = some true;
}

unfoldable pub record_save : ℕ → Tracker → Tracker
record_save at t = record t { pending = 0; last_saved = some at; fingerprint_differs = some false }

unfoldable pub record_fingerprints : Text → Text → Tracker → Tracker
record_fingerprints running startup t =
    let differs = not (text_eq running startup) in
    record t { fingerprint_differs = some differs; pending = if differs then t.pending else 0 }

unfoldable pub reset : Tracker → Tracker
reset t = record t {
  pending = 0;
  last_change = none;
  last_saved = none;
  fingerprint_differs = none;
}

-- The four explanations of `state`.
pub data Detail : Type 0 where
  pending_changes changed_outside not_compared matches : Detail

pub record ConfigSaveState : Type 0 where
  pub running_modified : Bool
  pub last_change_at : Option ℕ
  pub last_saved_at : Option ℕ
  pub pending_operations : ℕ
  pub detail : Detail

truthy : Option Bool → Bool
truthy none = false
truthy (some b) = b

unfoldable pub state : Tracker → ConfigSaveState
unfolding truthy
state t =
    let modified = truthy t.fingerprint_differs || ltb 0 t.pending in
    record {
      running_modified = modified;
      last_change_at = t.last_change;
      last_saved_at = t.last_saved;
      pending_operations = t.pending;
      detail =
          if modified && ltb 0 t.pending
          then pending_changes
          else if modified
          then changed_outside
          else elim t.fingerprint_differs [ none ↦ not_compared | some _ ↦ matches ];
    }

pub data Event : Type 0 where
  change save : ℕ → Event
  compare : Text → Text → Event
  reset_event : Event

unfoldable pub step : Tracker → Event → Tracker
unfolding record_change record_save record_fingerprints reset
step t (change at) = record_change at t
step t (save at) = record_save at t
step t (compare running startup) = record_fingerprints running startup t
step t reset_event = reset t

unfoldable pub run : Tracker → List Event → Tracker
unfolding step
run t [] = t
run t (e ∷ es) = run (step t e) es

-- A change that is pending is never reported as matching or unknown.
abbrev pub IsConsistent : Tracker → Type 0
IsConsistent t = 0 < t.pending → t.fingerprint_differs ≡ some true

step-IsConsistent : (t : Tracker) (e : Event) → IsConsistent t → IsConsistent (step t e)
unfolding step
step-IsConsistent t (change at) h p = refl
step-IsConsistent t (save at) h p = absurd (omega arith)
step-IsConsistent t (compare running startup) h p = ground arith
step-IsConsistent t reset_event h p = absurd (omega arith)

run-IsConsistent : (t : Tracker) (es : List Event) → IsConsistent t → IsConsistent (run t es)
unfolding run
run-IsConsistent t [] h = h
run-IsConsistent t (e ∷ es) h = run-IsConsistent (step t e) es (step-IsConsistent t e h)

-- What shows that the two configurations are the same: a save, or a comparison that finds them equal.
abbrev pub ShowsMatch : Event → Type 0
ShowsMatch (change at) = true ≡ false
ShowsMatch (save at) = Unit
ShowsMatch (compare running startup) = running ≡ startup
ShowsMatch reset_event = true ≡ false

step-ShowsMatch :
    (t : Tracker) (e : Event) → ((step t e).fingerprint_differs ≡ some false) ↔ ShowsMatch e
unfolding step record_change record_save record_fingerprints reset
step-ShowsMatch t (change at) = ((λ h. absurd (cc (h))), (λ h. absurd (cc (h))))
step-ShowsMatch t (save at) = ((λ h. tt), (λ h. refl))
step-ShowsMatch t (compare running startup) = (
  (λ h. ground (arith, h, text_eq_iff running startup)),
  (λ h. ground (arith, h, text_eq_iff running startup)),
)
step-ShowsMatch t reset_event = ((λ h. absurd (cc (h))), (λ h. absurd (cc (h))))

run-last : (t : Tracker) (es : List Event) (e : Event) → run t (es ++ e ∷ []) ≡ step (run t es) e
unfolding run
run-last t [] e = refl
run-last t (x ∷ es) e = run-last (step t x) es e

-- The last of the events shows that the configurations are the same.
abbrev pub EndsInMatch : List Event → Type 0
EndsInMatch es = (before : List Event) × (e : Event) × (es ≡ before ++ e ∷ []) × ShowsMatch e

last_of :
    (e : Event) (es : List Event)
    → (before : List Event) × (l : Event) × (e ∷ es ≡ before ++ l ∷ [])
last_of e [] = ([], e, refl)
last_of e (x ∷ es) = let (before, l, h) = last_of x es in (e ∷ before, l, ap (λ k. e ∷ k) h)

run-EndsInMatch :
    (es : List Event) → ((run init es).fingerprint_differs ≡ some false) ↔ EndsInMatch es
run-EndsInMatch es = (from es, to)
  where
    from : (es : List Event) → (run init es).fingerprint_differs ≡ some false → EndsInMatch es
    from [] h = absurd (unfold run init in cc (h))
    from (x ∷ es) h =
        let (before, l, e) = last_of x es in
        (
          before,
          l,
          e,
          (step-ShowsMatch (run init before) l).0 (
              ap (λ t. t.fingerprint_differs) (sym (run-last init before l) ∙ ap (run init) (sym e))
              ∙ h),
        )

    to : EndsInMatch es → (run init es).fingerprint_differs ≡ some false
    to (before, l, e, shows) =
        ap (λ t. t.fingerprint_differs) (ap (run init) e ∙ run-last init before l)
        ∙ (step-ShowsMatch (run init before) l).1 shows

-- After any sequence of changes, saves, comparisons and resets from the launch: the configuration is
-- reported as modified exactly when the tracked fingerprints differ, the pending changes are named
-- exactly when there are some, and it is reported as matching exactly when the last event is a save or
-- a comparison that found the two configurations equal.
pub state-run :
    (es : List Event)
    → let t = run init es in
      (((state t).running_modified ≡ true) ↔ (t.fingerprint_differs ≡ some true))
      × (((state t).detail ≡ pending_changes) ↔ (0 < t.pending))
      × (((state t).detail ≡ matches) ↔ (t.fingerprint_differs ≡ some false))
      × (((state t).detail ≡ matches) ↔ EndsInMatch es)
unfolding state
state-run es =
    let (modified, named, shown) =
      of_consistent (run init es)
        (run-IsConsistent init es (λ p. unfold init in absurd (omega arith))) in
    let (ends, begins) = run-EndsInMatch es in
    (modified, named, shown, ((λ h. ends (shown.0 h)), (λ h. shown.1 (begins h))))
  where
    of_consistent :
        (t : Tracker)
        → IsConsistent t
        → (((state t).running_modified ≡ true) ↔ (t.fingerprint_differs ≡ some true))
          × (((state t).detail ≡ pending_changes) ↔ (0 < t.pending))
          × (((state t).detail ≡ matches) ↔ (t.fingerprint_differs ≡ some false))
    of_consistent t h = (
      (λ e. ground arith, λ e. ground arith),
      (λ e. ground arith, λ e. ground arith),
      (λ e. ground arith, λ e. ground arith),
    )
