-- ===== src/Assurance/Sessions/Preflights.antt =====
-- A preflight of a session: when it is refused, and what a ready one has established.
use mathlib.Core.List.{append_assoc}
use switch_ops.Prelude.{
  ◌≡◌, refl, sym, ap, ◌∙◌, subst, Bool, true, false, ◌||◌, Option, some, List, [], ◌∷◌, ◌++◌,
  Result, ok, err, Error, Reason, command_not_allowed, in_progress, immutable, ◌⊎◌, inl, inr,
}
use switch_ops.Text.{Text}
use switch_ops.Policy.Model.{Stored}
use switch_ops.Operations.Lock.{WriteLock}
use switch_ops.Operations.Exec.{Client}
use switch_ops.Assurance.Model
use switch_ops.Assurance.Model.{
  preflight, ready, AssuranceSnapshot, Outcome, outcome_ready, outcome_blocked, ChangePreflight,
  collecting, ChangeSession,
}
use switch_ops.Assurance.Context.{Context}
use switch_ops.Assurance.Capture.Silent.{Silent-capture}
use switch_ops.Assurance.Preflight.{run_checks}
use switch_ops.Assurance.Preflight.Verdict.{IsClear, run_checks-ready_iff}
use switch_ops.Assurance.Desk.{Desk, settle, store, save, find, on_client}
use switch_ops.Assurance.Desk.Laws.{on_client-sent, find-save_key}
use switch_ops.Assurance.Service.{is_at_work, is_complete, decide_by, decide}
use switch_ops.Assurance.Sessions.{
  with_session-found, saved, snapshot_of, checks_if, checked, admitted, preflight_session,
  run_preflight,
}
use switch_ops.Assurance.States.{Next, begin, pass, fail, Follows, last}

module _ {S : Type 0} (c : Client S) (digest : Text → Text) (host : Option Text) (stored : Stored)
    (lock : WriteLock) where
  -- What a preflight decides on what was taken of the device: READY on a snapshot that passes the checks;
  -- BLOCKED if there is no snapshot, if a check of it fails, or if the checks cannot be made.
  abbrev pub Decided : Result AssuranceSnapshot → ChangeSession → ChangeSession → Type 0
  Decided taken s ended =
      ((ended.status ≡ ready)
        × ((now : AssuranceSnapshot) × (taken ≡ ok now) × IsClear digest host stored s.plan now))
      ⊎ ((ended.status ≡ Model.blocked)
          × ((now : AssuranceSnapshot)
              → taken ≡ ok now
              → (¬ IsClear digest host stored s.plan now)
                ⊎ ((e : Error) × (run_checks digest host stored lock s.plan now ≡ err e))))

  -- The session with its decision, which is a step from PREFLIGHT.
  abbrev IsStep : Result AssuranceSnapshot → ChangeSession → ChangeSession → Type 0
  IsStep taken s ended = Decided taken s ended × (ended.id ≡ s.id) × Next preflight ended.status

  decide_by-IsStep :
      (s s1 : ChangeSession) (p : ChangePreflight) (now : AssuranceSnapshot)
      → run_checks digest host stored lock s.plan now ≡ ok p
      → s1.id ≡ s.id
      → (o : Outcome) → p.outcome ≡ o
      → IsStep (ok now) s (decide_by o s1)
  unfolding decide_by settle
  decide_by-IsStep s s1 p now found key outcome_ready h = (
    inl (refl, (now, refl, (run_checks-ready_iff digest host stored lock s.plan now p found).0 h)),
    key,
    pass,
  )
  decide_by-IsStep s s1 p now found key outcome_blocked h = (
    inr (
      refl,
      (λ again e.
          let same : now ≡ again = cc e in
          inl (λ clear.
            let is_ready =
              (run_checks-ready_iff digest host stored lock s.plan now p found).1
                (subst (IsClear digest host stored s.plan) (sym same) clear) in
            absurd (cc (h, is_ready)))),
    ),
    key,
    fail,
  )

  checked-IsStep :
      (s s1 : ChangeSession) (captured : Result AssuranceSnapshot)
      → s1.plan ≡ s.plan
      → s1.id ≡ s.id
      → IsStep captured s
          (checked c digest host stored lock s1 (checks_if c digest host stored lock s1 captured))
  unfolding checks_if
  checked-IsStep s s1 (err e) same key =
      unfold checked settle in (inr (refl, (λ now h. absurd (cc (h)))), key, fail)
  checked-IsStep s s1 (ok now) same key =
      by_checks (run_checks digest host stored lock s1.plan now) refl
    where
      by_checks :
          (p : Result ChangePreflight)
          → run_checks digest host stored lock s1.plan now ≡ p
          → IsStep (ok now) s (checked c digest host stored lock s1 p)
      by_checks (err e) found =
          unfold checked settle in
          (
            inr (
              refl,
              (λ again h.
                  let is : now ≡ again = cc h in
                  inr (
                    e,
                    subst (λ n. run_checks digest host stored lock s.plan n ≡ err e) is
                        (ap (λ q. run_checks digest host stored lock q now) (sym same) ∙ found),
                  )),
            ),
            key,
            fail,
          )
      by_checks (ok p) found =
          unfold checked decide in
          decide_by-IsStep s (record s1 { preflight = some p }) p now
            (ap (λ q. run_checks digest host stored lock q now) (sym same) ∙ found) key p.outcome
            refl

  module _ (id : Text) (context : Context) (d : Desk S) (s : ChangeSession)
      (known : find id d ≡ some s) where
    abbrev tried : Result ChangeSession × Desk S
    tried = run_preflight c digest host stored lock id context d

    tried-eq : tried ≡ preflight_session c digest host stored lock context s d
    unfolding run_preflight
    tried-eq = with_session-found id (preflight_session c digest host stored lock context) d s known

    -- A preflight of a session that is in flight or complete is refused, and nothing has changed.
    pub run_preflight-refused :
        (is_at_work s.status || is_complete s.status) ≡ true
        → (reason : Reason) × (tried ≡ (err (command_not_allowed reason), d))
    run_preflight-refused h =
        subst (λ r. (reason : Reason) × (r ≡ (err (command_not_allowed reason), d))) (sym tried-eq)
          (unfold preflight_session in refused (is_at_work s.status) (is_complete s.status) _ h)
      where
        refused :
            (busy over : Bool) (go : Result ChangeSession × Desk S)
            → (busy || over) ≡ true
            → (reason : Reason) × (admitted busy over go d ≡ (err (command_not_allowed reason), d))
        refused true over go h = unfold admitted in (in_progress, refl)
        refused false true go h = unfold admitted in (immutable, refl)
        refused false false go h = absurd (cc)

    -- What is taken of the target when the device is as it stands.
    abbrev pub taken : Result AssuranceSnapshot
    taken =
        (snapshot_of c digest s context
          (record { world = d.world; stages = []; sent = []; log = [] })).0

    abbrev Decision : Result ChangeSession × Desk S → Type 0
    Decision run =
        (ended : ChangeSession) × (run.0 ≡ ok ended)
        × Decided taken s ended
        × (find s.id run.1 ≡ some ended)
        × (run.1.sent ≡ d.sent)
        × ((news : List ChangeSession) × (run.1.heard ≡ d.heard ++ news)
            × Follows s.status news
            × (last s.status news ≡ ended.status))

    -- A session that is not at work on the device and not complete gets a decision, which is stored and
    -- nothing is sent. It is READY, and then the checks are clear on the snapshot that was taken of the
    -- device; or it is BLOCKED, and then no snapshot could be taken, or the checks on it are not clear
    -- or raise. What is saved on the way follows the state machine.
    pub run_preflight-decides :
        is_at_work s.status ≡ false → is_complete s.status ≡ false → Decision tried
    run_preflight-decides idle fresh =
        subst Decision (sym tried-eq)
          (unfold preflight_session admitted in rw (idle, fresh) decision)
      where
        begun : ChangeSession
        begun = settle preflight collecting s

        captured : Result AssuranceSnapshot × Desk S
        captured = on_client (snapshot_of c digest begun context) (save begun d)

        ended : ChangeSession
        ended =
            checked c digest host stored lock begun
              (checks_if c digest host stored lock begun captured.0)

        step : IsStep captured.0 s ended
        step = checked-IsStep s begun captured.0 (unfold settle in refl) (unfold settle in refl)

        same_taken : captured.0 ≡ taken
        same_taken = unfold on_client snapshot_of settle save store in refl

        decision : Decision (saved ended captured.1)
        decision = (
          ended,
          unfold saved in refl,
          subst (λ t. Decided t s ended) same_taken step.0,
          unfold saved in find-save_key ended captured.1 step.1,
          unfold saved save store in
              on_client-sent (snapshot_of c digest begun context) (save begun d) (
                unfold snapshot_of in
                Silent-capture c digest begun.plan.device_id begun.plan.target_interface
                  begun.plan.step.kind begun.plan.step.value context),
          (
            begun ∷ ended ∷ [],
            unfold saved save store on_client in append_assoc d.heard (begun ∷ []) (ended ∷ []),
            unfold settle in (begin idle fresh, (step.2, tt)),
            refl,
          ),
        )
