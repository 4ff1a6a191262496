-- ===== src/Assurance/Execute/Contract.antt =====
-- When an execution runs, and the status that it leaves.
use switch_ops.Prelude.{
  ◌≡◌, refl, sym, ap, ◌∙◌, subst, ◌⊎◌, inl, inr, Bool, true, false, some, List, ◌++◌, arith,
  if◌then◌else◌, Result, ok, err, Error, command_not_allowed, not_ready,
}
use switch_ops.Text.{Text}
use switch_ops.Policy.Store.{operation_guard as policy_guard, controlled_writes_enabled}
use switch_ops.Policy.Store.Authority.Grants.{operation_guard_sound}
use switch_ops.Operations.Lock
use switch_ops.Operations.Reads.{OperationResult}
use switch_ops.Assurance.Model
use switch_ops.Assurance.Model.{Status, ready, ChangeComparison, ChangeSession}
use switch_ops.Assurance.Desk.{Desk, find}
use switch_ops.Assurance.Service.{is_ready, is_complete, verdict}
use switch_ops.Assurance.Sessions.{with_session-found}
use switch_ops.Assurance.Execute.{Setting, authorized, let_in, execute_session, execute}
use switch_ops.Assurance.Execute.Story.{Ends, stopped, inconclusive, unobserved, concluded, EndsBy}
use switch_ops.Assurance.Execute.Returns.{authorized-Returns}
use switch_ops.Assurance.Execute.Ends.{authorized-EndsBy}

-- The status of a session that no execution is at work on any more.
abbrev pub IsSettled : Status → Type 0
IsSettled status = (status ≡ Model.blocked) ⊎ (is_complete status ≡ true)

pub verdict-IsSettled :
    (result : OperationResult) (comparison : ChangeComparison)
    → is_complete (verdict result comparison).0 ≡ true
unfolding verdict is_complete
verdict-IsSettled result comparison = ground arith

Ends-IsSettled :
    {S : Type 0} (x : Setting S) {s ended : ChangeSession} {w : S} {sent : List (List Text)}
    → Ends x s w ended sent
    → IsSettled ended.status
unfolding is_complete
Ends-IsSettled x (stopped e q) = inl e
Ends-IsSettled x (inconclusive before clear e q) = inr (rw e refl)
Ends-IsSettled x (unobserved before clear result ran q e) = inr (rw e refl)
Ends-IsSettled x (concluded before after clear result ran q look e first second kept k) =
    inr (rw e (verdict-IsSettled result _))

-- A refusal leaves the desk as it is, or the session is ready, both guards are passed and it runs.
abbrev pub Cases :
    {S : Type 0} → Setting S → ChangeSession → Desk S → Result ChangeSession × Desk S → Type 0
Cases x s d run =
    ((e : Error) × (run ≡ (err e, d)))
    ⊎ ((s.status ≡ ready)
        × (Lock.operation_guard (controlled_writes_enabled x.stored) x.lock ≡ ok tt)
        × ((c : Text) × (policy_guard x.digest x.host s.plan.target_interface x.stored ≡ ok c))
        × (run ≡ authorized x s d))

is_ready-eq : (status : Status) → is_ready status ≡ true → status ≡ ready
unfolding is_ready
is_ready-eq status h = ground arith

module _ {S : Type 0} (x : Setting S) where
  execute_session-Cases : (s : ChangeSession) (d : Desk S) → Cases x s d (execute_session x s d)
  unfolding execute_session
  execute_session-Cases s d = by_ready (is_ready s.status) refl
    where
      by_gates :
          is_ready s.status ≡ true
          → (a : Result (Unit {0})) (b : Result Text)
          → Lock.operation_guard (controlled_writes_enabled x.stored) x.lock ≡ a
          → policy_guard x.digest x.host s.plan.target_interface x.stored ≡ b
          → Cases x s d (let_in x a b s d)
      by_gates h (err e) b p q = unfold let_in in inl (e, refl)
      by_gates h (ok u) (err e) p q = unfold let_in in inl (e, refl)
      by_gates h (ok u) (ok c) p q = unfold let_in in inr (is_ready-eq s.status h, p, (c, q), refl)

      by_ready :
          (b : Bool)
          → is_ready s.status ≡ b
          → Cases x s d (
              if b
              then let_in x
                  (Lock.operation_guard (controlled_writes_enabled x.stored) x.lock)
                  (policy_guard x.digest x.host s.plan.target_interface x.stored)
                  s
                  d
              else (err (command_not_allowed not_ready), d))
      by_ready true h = by_gates h _ _ refl refl
      by_ready false h = inl (command_not_allowed not_ready, refl)

module _ {S : Type 0} (x : Setting S) (id : Text) (d : Desk S) (s : ChangeSession)
    (known : find id d ≡ some s) where
  abbrev pub ran : Result ChangeSession × Desk S
  ran = execute x id d

  -- A session that is not ready is refused.
  pub execute-not_ready : is_ready s.status ≡ false → ran ≡ (err (command_not_allowed not_ready), d)
  unfolding execute
  execute-not_ready h =
      with_session-found id (execute_session x) d s known ∙ (unfold execute_session in rw h refl)

  pub ran-Cases : Cases x s d ran
  unfolding execute
  ran-Cases =
      subst (λ run. Cases x s d run) (sym (with_session-found id (execute_session x) d s known))
        (execute_session-Cases x s d)

  -- As long as the store of the sessions can be written, an execution of a known session ends in one of
  -- two ways: it raises, and then nothing has changed and nothing was sent; or it returns a session
  -- whose status is BLOCKED or final, and that is the one that is stored.
  pub execute-Settles :
      ((e : Error) × (ran ≡ (err e, d)))
      ⊎ ((ended : ChangeSession) × (ran.0 ≡ ok ended)
          × IsSettled ended.status
          × (find s.id ran.1 ≡ some ended))
  execute-Settles = elim ran-Cases [
    | inl refused ↦ inl refused
    | inr (is, unlocked, (c, permitted), run) ↦
        let (enabled, port, normal, state) =
          operation_guard_sound x.digest x.host s.plan.target_interface c x.stored permitted in
        let (ended, returned) = authorized-Returns x s d state in
        inr (
          subst
            (λ r.
              (ended : ChangeSession) × (r.0 ≡ ok ended)
              × IsSettled ended.status
              × (find s.id r.1 ≡ some ended))
            (sym run) (from (authorized x s d) returned (authorized-EndsBy x s d)))
  ]
    where
      from :
          (r : Result ChangeSession × Desk S) {ended : ChangeSession}
          → r.0 ≡ ok ended
          → EndsBy x s d.world d.sent r
          → (ended : ChangeSession) × (r.0 ≡ ok ended)
            × IsSettled ended.status
            × (find s.id r.1 ≡ some ended)
      from (ok ended, d1) h (more, sent, ends, found) = (ended, refl, Ends-IsSettled x ends, found)
      from (err e, d1) h ends = absurd (cc)

  -- What a returned session ends by.
  pub returned :
      (ended : ChangeSession)
      → ran.0 ≡ ok ended
      → (s.status ≡ ready)
        × ((c : Text) × (policy_guard x.digest x.host s.plan.target_interface x.stored ≡ ok c))
        × ((more : List (List Text)) × (ran.1.sent ≡ d.sent ++ more) × Ends x s d.world ended more)
  returned ended h = elim ran-Cases [
    | inl (e, refused) ↦ absurd (cc (ap (λ r. r.0) (sym refused) ∙ h))
    | inr (is, unlocked, permitted, run) ↦ (
      is,
      permitted,
      subst
          (λ r.
            (more : List (List Text)) × (r.1.sent ≡ d.sent ++ more) × Ends x s d.world ended more)
          (sym run)
          (from (authorized x s d) (ap (λ r. r.0) (sym run) ∙ h) (authorized-EndsBy x s d)),
    )
  ]
    where
      from :
          (r : Result ChangeSession × Desk S)
          → r.0 ≡ ok ended
          → EndsBy x s d.world d.sent r
          → (more : List (List Text)) × (r.1.sent ≡ d.sent ++ more) × Ends x s d.world ended more
      from (ok ended', d1) h (more, sent, ends, found) =
          let same : ended' ≡ ended = cc h in
          (more, sent, subst (λ e. Ends x s d.world e more) same ends)
      from (err e, d1) h ends = absurd (cc)
