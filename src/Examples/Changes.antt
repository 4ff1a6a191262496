-- ===== src/Examples/Changes.antt =====
-- Change sessions on the simulated switch: one that succeeds, one that is undone, and repeated requests.
use switch_ops.Prelude.{
  ◌≡◌, ◌≢◌, refl, ◌↔◌, Bool, true, false, ◌||◌, none, some, List, [], ◌∷◌, ◌++◌, if◌then◌else◌,
  Result, ok, err, Error, ◌⊎◌, pos,
}
use switch_ops.Text.{Text, codes, text_eq, is_space}
use switch_ops.Text.Dict.{lookup}
use switch_ops.Policy.Model.{is_device_key}
use switch_ops.Policy.File.{written}
use switch_ops.Policy.Store.{assert_operable, controlled_writes_enabled}
use switch_ops.Operations.Lock.{require_unlocked}
use switch_ops.Operations.Catalogue.{admin_down, is_poe}
use switch_ops.Operations.Exec.{Client, verify, running, success}
use switch_ops.Operations.Reads.{OperationResult, Plan, refused, safe_value}
use switch_ops.Operations.Pipeline.{run_operation}
use switch_ops.Operations.Pipeline.Story.{forward, IsRestored}
use switch_ops.Operations.Pipeline.Story.Gates.{IsMeasured}
use switch_ops.Operations.Pipeline.Story.Ends.{IsPlan}
use switch_ops.Assurance.Execute.Story.{run_from}
use switch_ops.Operations.SaveTracker.{init, record_change}
use switch_ops.Assurance.Model
use switch_ops.Assurance.Model.{
  planned, ready, succeeded, plan_created, ChangePlan, ChangeSession, ChangePreflight,
  AssuranceInterfaceSnapshot, AssuranceSnapshot, device_live, outcome_ready,
}
use switch_ops.Assurance.Context.{Context}
use switch_ops.Assurance.Preflight.{run_checks}
use switch_ops.Assurance.Preflight.Verdict.{IsClear, run_checks-ready_iff}
use switch_ops.Assurance.Compare.{compare_snapshots}
use switch_ops.Assurance.Compare.Quiet.{IsQuiet, compare_snapshots-IsQuiet}
use switch_ops.Assurance.Desk.{Desk, find, recover}
use switch_ops.Assurance.Desk.Recovery.{IsRecovered, recover-IsRecovered}
use switch_ops.Assurance.Service.{is_at_work, is_complete, no_evidence}
use switch_ops.Assurance.Sessions.{create_plan, run_preflight}
use switch_ops.Assurance.Sessions.Preflights.{Decided, taken, run_preflight-decides}
use switch_ops.Assurance.States.{Follows, last}
use switch_ops.Assurance.Execute.{Setting, execute}
use switch_ops.Assurance.Execute.Contract.{IsSettled, execute-Settles}
use switch_ops.Assurance.Execute.Claims.{
  IsGated, IsProven, execute-IsGated, execute-IsProven, execute-IsRestored,
}
use switch_ops.Assurance.Execute.Follows.{execute-Follows}
use switch_ops.Assurance.Routes.{post_change_preflight, post_change_execute}
use switch_ops.Assurance.Routes.Repeats.{
  post_change_preflight-overwrites, post_change_execute-recounts,
}
use switch_ops.Examples.Device.{
  Switch, switch_client, obedient, stubborn, digest, host, file, open_lock, closed_lock,
}

-- Its startup configuration stays as it is.
abbrev bench : Client Switch
bench = record switch_client {
  run = λ symbol w. (
    (if text_eq symbol (codes "show_startup_config")
        then ok (codes "hostname sw\n")
        else (switch_client.run symbol w).0),
    w,
  );
}

abbrev context : Context
context = record {
  interfaces =
      record {
        port = some (codes "Gi0/1");
        expected_name = none;
        role = some (codes "access");
        freshness = some (codes "current");
        evidence_ids = [];
      }
      ∷ [];
  links = [];
  devices = [];
  reconciliation = [];
  health = none;
  connection_state = some (codes "live");
}

abbrev device_id : Text
device_id = codes "device-baaaaaaaaaaaaaaa"

abbrev id : Text
id = codes "change-1"

abbrev setting : Setting Switch
setting = record {
  client = bench;
  digest = digest;
  host = some host;
  guard_host = some host;
  run_host = some host;
  stored = file;
  lock = open_lock;
  is_fresh = false;
  provide = λ w. (ok context, w);
  reports = (record { name = verify; status = running } ∷ []) ∷ [];
}

abbrev desk : Switch → Desk Switch
desk w = record { sessions = []; heard = []; world = w; sent = [] }

abbrev blank : ChangeSession
blank = record {
  id = [];
  plan = record {
    id = [];
    device_id = [];
    target_interface = [];
    step = record { interface = []; kind = admin_down; value = none };
    expected_postconditions = [];
  };
  status = planned;
  preflight = none;
  before_snapshot = none;
  after_snapshot = none;
  comparison = none;
  operation_result = none;
  operation_stages = [];
  outcome_detail = plan_created;
}

abbrev the : Result ChangeSession → ChangeSession
the (ok s) = s
the (err e) = blank

abbrev is_ok : Result ChangeSession → Bool
is_ok (ok s) = true
is_ok (err e) = false

ok_the : (r : Result ChangeSession) → is_ok r ≡ true → r ≡ ok (the r)
ok_the (ok s) h = refl
ok_the (err e) h = absurd (cc)

abbrev plan_on : Switch → Result ChangeSession × Desk Switch
plan_on w = create_plan id (codes "plan-1") device_id admin_down (codes "gi0/1") none (desk w)

abbrev ready_on : Switch → Result ChangeSession × Desk Switch
ready_on w = run_preflight bench digest (some host) file open_lock id context (plan_on w).1

abbrev done_on : Switch → Result ChangeSession × Desk Switch
done_on w = execute setting id (ready_on w).1

abbrev session_on : Switch → ChangeSession
session_on w = the (ready_on w).0

abbrev ended_on : Switch → ChangeSession
ended_on w = the (done_on w).0

abbrev shut : List Text
shut =
    codes "configure terminal"
    ∷ codes "interface GigabitEthernet0/1"
    ∷ codes "shutdown"
    ∷ codes "end"
    ∷ []

ready_known : find id (ready_on obedient).1 ≡ some (session_on obedient)
unfolding create_plan run_preflight execute run_operation written is_device_key is_space is_poe
ready_known = refl

done_ok : (done_on obedient).0 ≡ ok (ended_on obedient)
unfolding create_plan run_preflight execute run_operation written is_device_key is_space is_poe
done_ok = ok_the (done_on obedient).0 refl

done_status : (ended_on obedient).status ≡ succeeded
unfolding create_plan run_preflight execute run_operation written is_device_key is_space is_poe
done_status = refl

done_sent : (done_on obedient).1.sent ≡ shut ∷ []
unfolding create_plan run_preflight execute run_operation written is_device_key is_space is_poe
done_sent = refl

ready_sent : (ready_on obedient).1.sent ≡ []
unfolding create_plan run_preflight execute run_operation written is_device_key is_space is_poe
ready_sent = refl

undone_known : find id (ready_on stubborn).1 ≡ some (session_on stubborn)
unfolding create_plan run_preflight execute run_operation written is_device_key is_space is_poe
undone_known = refl

undone_ok : (done_on stubborn).0 ≡ ok (ended_on stubborn)
unfolding create_plan run_preflight execute run_operation written is_device_key is_space is_poe
undone_ok = ok_the (done_on stubborn).0 refl

undone_status : (ended_on stubborn).status ≡ Model.rolled_back
unfolding create_plan run_preflight execute run_operation written is_device_key is_space is_poe
undone_status = refl

-- A quiet port before and after it is shut down.
abbrev port_up : AssuranceInterfaceSnapshot
port_up = record {
  port = codes "Gi0/1";
  present = true;
  admin_state = codes "up";
  oper_state = codes "up";
  description = codes "lab port";
  vlan = codes "1";
  speed = codes "a-1000";
  duplex = codes "a-full";
  poe_admin = codes "auto";
  poe_oper = codes "off";
  error_total = pos 0;
  learned_mac_count = 0;
}

abbrev calm : AssuranceInterfaceSnapshot → AssuranceSnapshot
calm target = record {
  device_id = device_id;
  target_interface = codes "Gi0/1";
  configuration = record {
    running_fingerprint = target.admin_state;
    startup_fingerprint = [];
    running_differs_from_startup = true;
    rollback_representable = true;
  };
  target = target;
  other_interfaces = record port_up { port = codes "Gi0/2" } ∷ [];
  topology = record {
    relationships = [];
    attached_entity_ids = [];
    learned_behind_entity_ids = [];
    expected_relationship = none;
    reconciliation_state = none;
    target_role = codes "access";
    local_host_correlated = false;
    other_topology_fingerprint = [];
  };
  health = record {
    connection_state = codes "LIVE";
    device_health = codes "HEALTHY";
    target_health = codes "HEALTHY";
    target_error_total = pos 0;
  };
  evidence = record { freshness = codes "current"; evidence_ids = [] };
}

abbrev port_down : AssuranceInterfaceSnapshot
port_down = record port_up { admin_state = codes "down"; oper_state = codes "down" }

abbrev plan : ChangePlan
plan = record blank.plan {
  device_id = device_id;
  target_interface = codes "Gi0/1";
  step = record { interface = codes "Gi0/1"; kind = admin_down; value = none };
}

abbrev the_preflight : Result ChangePreflight → ChangePreflight
the_preflight (ok p) = p
the_preflight (err e) = no_evidence device_live plan

abbrev checks : Result ChangePreflight
checks = run_checks digest (some host) file closed_lock plan (calm port_up)

checks_ok : checks ≡ ok (the_preflight checks)
unfolding run_checks
checks_ok = refl

run_checks-ready_iff_example :
    ((the_preflight checks).outcome ≡ outcome_ready)
    ↔ IsClear digest (some host) file plan (calm port_up)
run_checks-ready_iff_example =
    run_checks-ready_iff digest (some host) file closed_lock plan (calm port_up)
      (the_preflight checks) checks_ok

abbrev saved_nothing : OperationResult
saved_nothing = record {
  kind = admin_down;
  interface = codes "Gi0/1";
  outcome = record refused { status = success; requires_save = true };
  stages = [];
}

no_warnings : (compare_snapshots plan (calm port_up) (calm port_down) saved_nothing).warnings ≡ []
unfolding compare_snapshots
no_warnings = refl

compare_snapshots-IsQuiet_example : IsQuiet admin_down (calm port_up) (calm port_down)
compare_snapshots-IsQuiet_example =
    compare_snapshots-IsQuiet plan (calm port_up) (calm port_down) saved_nothing no_warnings

execute-Settles_example :
    ((e : Error) × (done_on obedient ≡ (err e, (ready_on obedient).1)))
    ⊎ ((ended : ChangeSession) × ((done_on obedient).0 ≡ ok ended)
        × IsSettled ended.status
        × (find (session_on obedient).id (done_on obedient).1 ≡ some ended))
execute-Settles_example =
    execute-Settles setting id (ready_on obedient).1 (session_on obedient) ready_known

something_sent : (done_on obedient).1.sent ≢ (ready_on obedient).1.sent
something_sent h = cc (done_sent, h, ready_sent)

execute-IsGated_example :
    ((session_on obedient).status ≡ ready)
    × IsGated setting (session_on obedient) (ready_on obedient).1.world
execute-IsGated_example =
    execute-IsGated setting id (ready_on obedient).1 (session_on obedient) ready_known
      something_sent

execute-IsProven_example :
    (more : List (List Text)) × ((done_on obedient).1.sent ≡ (ready_on obedient).1.sent ++ more)
    × IsProven setting (session_on obedient) (ready_on obedient).1.world (ended_on obedient) more
execute-IsProven_example =
    execute-IsProven setting id (ready_on obedient).1 (session_on obedient) ready_known
      (ended_on obedient) done_ok done_status

execute-IsRestored_example :
    (p : Plan) × IsPlan
      (session_on stubborn).plan.step.kind
      (assert_operable digest (some host) (session_on stubborn).plan.target_interface file)
      (safe_value (session_on stubborn).plan.step.kind (session_on stubborn).plan.step.value)
      p
    × IsMeasured p (run_from setting (session_on stubborn) (ready_on stubborn).1.world).1.log
    × ((done_on stubborn).1.sent
        ≡ (ready_on stubborn).1.sent ++ forward p ∷ p.rollback_commands ∷ [])
    × IsRestored p (run_from setting (session_on stubborn) (ready_on stubborn).1.world).1.log
execute-IsRestored_example =
    execute-IsRestored setting id (ready_on stubborn).1 (session_on stubborn) undone_known
      (ended_on stubborn) undone_ok undone_status

execute-Follows_example :
    (news : List ChangeSession) × ((done_on obedient).1.heard ≡ (ready_on obedient).1.heard ++ news)
    × Follows (session_on obedient).status news
    × (last (session_on obedient).status news ≡ (ended_on obedient).status)
execute-Follows_example =
    execute-Follows setting id (ready_on obedient).1 (session_on obedient) ready_known
      (ended_on obedient) done_ok

abbrev fresh_session : ChangeSession
fresh_session = the (plan_on obedient).0

fresh_known : find id (plan_on obedient).1 ≡ some fresh_session
unfolding create_plan is_space find
fresh_known = refl

fresh_idle : is_at_work fresh_session.status ≡ false
unfolding create_plan is_space is_at_work
fresh_idle = refl

fresh_open : is_complete fresh_session.status ≡ false
unfolding create_plan is_space is_complete
fresh_open = refl

run_preflight-decides_example :
    (ended : ChangeSession) × ((ready_on obedient).0 ≡ ok ended)
    × Decided bench digest
        (some host)
        file
        open_lock
        (taken bench digest
          (some host)
          file
          open_lock
          id
          context
          (plan_on obedient).1
          fresh_session
          fresh_known)
        fresh_session
        ended
    × (find fresh_session.id (ready_on obedient).1 ≡ some ended)
    × ((ready_on obedient).1.sent ≡ (plan_on obedient).1.sent)
    × ((news : List ChangeSession) × ((ready_on obedient).1.heard
          ≡ (plan_on obedient).1.heard ++ news)
        × Follows fresh_session.status news
        × (last fresh_session.status news ≡ ended.status))
run_preflight-decides_example =
    run_preflight-decides bench digest (some host) file open_lock id context (plan_on obedient).1
      fresh_session fresh_known fresh_idle fresh_open

-- A desk with one session that is complete.
abbrev complete_session : ChangeSession
complete_session = record blank {
  id = id;
  status = succeeded;
  operation_result = some saved_nothing;
}

abbrev old_desk : Desk Switch
old_desk = record (desk obedient) { sessions = (id, complete_session) ∷ [] }

old_known : find id old_desk ≡ some complete_session
unfolding find
old_known = refl

old_over : (is_at_work complete_session.status || is_complete complete_session.status) ≡ true
unfolding is_at_work is_complete
old_over = refl

old_complete : is_complete complete_session.status ≡ true
unfolding is_complete
old_complete = refl

unlocked_now : require_unlocked (controlled_writes_enabled file) open_lock ≡ ok tt
unfolding require_unlocked controlled_writes_enabled written is_device_key
unlocked_now = refl

post_change_preflight-overwrites_example :
    let run =
      post_change_preflight bench digest (some host) file open_lock none id context old_desk in
    (ended : ChangeSession) × (run.0 ≡ ok ended)
    × (ended.status ≡ Model.blocked)
    × (find id run.1 ≡ some ended)
post_change_preflight-overwrites_example =
    post_change_preflight-overwrites id old_desk complete_session old_known bench digest (some host)
      file open_lock context old_over

post_change_execute-recounts_example :
    let run = post_change_execute setting none 7 id old_desk init in
    (run.0 ≡ ok complete_session)
    × (run.1.sessions ≡ old_desk.sessions)
    × (run.1.sent ≡ old_desk.sent)
    × (run.2 ≡ record_change 7 init)
post_change_execute-recounts_example =
    post_change_execute-recounts id old_desk complete_session old_known setting 7 init saved_nothing
      old_complete unlocked_now refl refl

stored_known : lookup id ((id, complete_session) ∷ []) ≡ some complete_session
unfolding lookup
stored_known = refl

recover-IsRecovered_example :
    (after : ChangeSession) × (lookup id (recover ((id, complete_session) ∷ [])) ≡ some after)
    × IsRecovered complete_session after
recover-IsRecovered_example =
    recover-IsRecovered id ((id, complete_session) ∷ []) complete_session stored_known
