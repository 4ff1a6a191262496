-- ===== src/Assurance/Desk/Recovery.antt =====
-- What is left of the sessions when the store is opened again.
use switch_ops.Prelude.{
  ◌≡◌, refl, subst, Bool, true, false, some, [], ◌∷◌, if◌then◌else◌, Bool-cases, ◌⊎◌, ◌↔◌, inl, inr,
  arith,
}
use switch_ops.Text.{Text, text_eq}
use switch_ops.Text.Dict.{Dict, lookup}
use switch_ops.Assurance.Model.{
  Status, executing, verifying, rolling_back, indeterminate, interrupted, ChangeSession,
}
use switch_ops.Assurance.Desk.{is_in_flight, settle, recover_one, recover}

-- A session with this status is at work on the device, or was when the program ended.
abbrev pub IsUnfinished : Status → Type 0
IsUnfinished status = (status ≡ executing) ⊎ (status ≡ verifying) ⊎ (status ≡ rolling_back)

-- What becomes of a stored session: nobody is at work on it; if somebody was, it is INDETERMINATE, with
-- nothing else changed but its explanation; and else it is the same.
pub record IsRecovered (stored after : ChangeSession) : Type 0 where
  pub idle : ¬ IsUnfinished after.status
  pub stopped :
      IsUnfinished stored.status
      → after ≡ record stored { status = indeterminate; outcome_detail = interrupted }
  pub kept : ¬ IsUnfinished stored.status → after ≡ stored

in_flight_iff : (status : Status) → (is_in_flight status ≡ true) ↔ IsUnfinished status
unfolding is_in_flight
in_flight_iff status = ((λ h. ground (arith, h)), (λ h. ground (arith, h)))

recover_one-IsRecovered : (s : ChangeSession) → IsRecovered s (recover_one s)
unfolding recover_one
recover_one-IsRecovered s = by_test (is_in_flight s.status) refl
  where
    by_test :
        (b : Bool)
        → is_in_flight s.status ≡ b
        → IsRecovered s (if◌then◌else◌ {A = ChangeSession} b (settle indeterminate interrupted s) s)
    by_test true h =
        unfold settle in
        record {
          idle =
              λ u. elim u [ inl e ↦ cc (e) | inr v ↦ elim v [ inl e ↦ cc (e) | inr e ↦ cc (e) ] ];
          stopped = λ u. refl;
          kept = λ n. absurd (n ((in_flight_iff s.status).0 h));
        }
    by_test false h = record {
      idle = λ u. let e = (in_flight_iff s.status).1 u in cc (h, e);
      stopped = λ u. let e = (in_flight_iff s.status).1 u in absurd (cc (h, e));
      kept = λ n. refl;
    }

-- After a restart no stored session is EXECUTING, VERIFYING or ROLLING_BACK: one that was is
-- INDETERMINATE, and says that it was interrupted; every other one is as it was stored.
pub recover-IsRecovered :
    (id : Text) (d : Dict ChangeSession) (s : ChangeSession)
    → lookup id d ≡ some s
    → (after : ChangeSession) × (lookup id (recover d) ≡ some after) × IsRecovered s after
unfolding lookup recover
recover-IsRecovered id [] s h = absurd (cc)
recover-IsRecovered id ((k, r) ∷ d) s h = elim (Bool-cases (text_eq k id)) [
  | inl e ↦
      let same : r ≡ s = cc (rw e at h) in
      rw e (
        recover_one r,
        refl,
        subst (λ t. IsRecovered t (recover_one r)) same (recover_one-IsRecovered r),
      )
  | inr e ↦ rw e (recover-IsRecovered id d s (rw e at h))
]
