-- ===== src/Examples/Jobs.antt =====
-- Jobs on a device that answers with a number, and one whose host key has changed.
use switch_ops.Prelude.{
  ℕ, ◌+◌, ◌≤◌, ◌<◌, ◌≡◌, refl, arith, true, false, ◌&&◌, List, [], ◌∷◌, ltb, leb, if◌then◌else◌,
  Result, ok, err, host_key_changed,
}
use switch_ops.Text.{codes}
use switch_ops.Session.Queue.{Job, waiting}
use switch_ops.Session.Connection.{Device, Session, init}
use switch_ops.Session.Connection.Backoff.{Waits}
use switch_ops.Session.Worker.{wind_up}
use switch_ops.Session.Worker.Futures.{accounts, settled}
use switch_ops.Session.Worker.Events.{
  Event, step, submitted, put_late, started, stopped, ticked, run, run-IsAccounted, wind_up-settled,
}

-- The world is what the device counts.
abbrev counter : Device ℕ
counter = record { connect = λ w. (ok tt, w); is_alive = λ w. (true, w); close = λ w. w }

abbrev changed : Device ℕ
changed = record {
  connect = λ w. (err host_key_changed, w + 1);
  is_alive = λ w. (false, w);
  close = λ w. w;
}

abbrev count : ℕ → Result ℕ × ℕ
count w = (ok w, w + 1)

abbrev busy : List (Event ℕ ℕ)
busy =
    started 1
    ∷ submitted 4 (codes "slow") count
    ∷ submitted 0 (codes "change") count
    ∷ ticked true 2 3
    ∷ stopped
    ∷ put_late 2 (codes "late") count
    ∷ []

abbrev after : Session ℕ ℕ
after = (run counter (init, 7) busy).0

run-IsAccounted_example : accounts 2 after ≡ (if ltb 0 2 && leb 2 after.sequence then 1 else 0)
run-IsAccounted_example = run-IsAccounted counter 7 busy 2

wind_up-settled_example :
    let t = (wind_up counter after 8).0 in
    (t.queue ≡ []) × (settled 1 t.answers ≡ (if ltb 0 1 && leb 1 after.sequence then 1 else 0))
wind_up-settled_example = wind_up-settled counter 7 8 busy 1

abbrev slow : Job ℕ ℕ
slow = record { priority = 4; sequence = 1; kind = codes "slow"; work = count }

abbrev urgent : Job ℕ ℕ
urgent = record { priority = 0; sequence = 2; kind = codes "change"; work = count }

abbrev fresh : Session ℕ ℕ
fresh = init

fresh-Waits : Waits 5 fresh
unfolding init
fresh-Waits = record { least = omega arith; most = omega arith; soon = omega arith }

fresh_without : fresh.has_client ≡ false
unfolding init
fresh_without = refl

fresh_due : fresh.next_attempt_at ≤ 5
unfolding init
fresh_due = omega arith

soon : 6 < 5 + 60000
soon = omega arith

-- A job that is put behind the end of the worker stays in the queue.
put_too_late :
    waiting 5 (step counter (wind_up counter after 0) (put_late 2 (codes "late") count)).0.queue ≡ 1
unfolding step wind_up waiting run init
put_too_late = refl
