-- ===== src/Session/Worker.antt =====
-- Submission and the worker: one job at a time, the idle keepalive, and the drain at the end.
pub mod Futures
pub mod Once
pub mod Runs
pub mod Events
use switch_ops.Prelude.{
  ℕ, suc, zero, ◌+◌, ◌-◌, Bool, true, false, ◌&&◌, ◌||◌, not, Option, none, some, List, [], ◌∷◌,
  ◌++◌, ltb, if◌then◌else◌, length, Result, ok, err, Error, host_key_changed, credentials_missing,
  switchops_error,
}
use switch_ops.Text.{Text, codes, text_eq}
use switch_ops.Session.Queue.{Job, get}
use switch_ops.Session.Connection.{
  Device, Answer, returned, returned_none, raised, Session, idle_keepalive, ensure_client,
  close_client, drop_client,
}

-- The exception for a job that found no client.
unavailable : Option Error → Error
unavailable (some credentials_missing) = credentials_missing
unavailable (some host_key_changed) = host_key_changed
unavailable _ = switchops_error

module _ {W A : Type 0} where
  -- `_submit_raw` of a job with the next number.
  unfoldable pub put : ℕ → Text → (W → Result A × W) → Session W A → Session W A
  put priority kind work s =
      let job : Job W A = record {
        priority = priority;
        sequence = s.sequence + 1;
        kind = kind;
        work = work;
      } in
      record s { sequence = s.sequence + 1; queue = s.queue ++ job ∷ [] }

  -- The number of the job, or the exception that its future has at once. The test and the put are two
  -- steps in the source; what may come between them is among the events of a run.
  unfoldable pub submit : ℕ → Text → (W → Result A × W) → Session W A → Result ℕ × Session W A
  unfolding put
  submit priority kind work s =
      if s.is_stopping
      then (err switchops_error, s)
      else (ok (s.sequence + 1), put priority kind work s)

  unfoldable pub start : ℕ → Session W A → Session W A
  start now s =
      if s.is_running
      then s
      else record s { is_stopping = false; is_running = true; last_activity = now }

  no_work : W → Result A × W
  no_work w = (err switchops_error, w)

  -- The shutdown job unblocks the queue; its work is never run.
  unfoldable pub stop : Session W A → Session W A
  unfolding put no_work
  stop s = put 0 (codes "shutdown") no_work (record s { is_stopping = true })

  unfoldable pub has_pending : Text → Session W A → Bool
  has_pending kind s = any_kind s.queue
    where
      any_kind : List (Job W A) → Bool
      any_kind [] = false
      any_kind (job ∷ jobs) = text_eq job.kind kind || any_kind jobs

  unfoldable pub settle : Job W A → Answer A → Session W A → Session W A
  settle job answer s = record s { answers = s.answers ++ (job.sequence, answer) ∷ [] }

  -- The `finally` of a job that was run.
  measured : ℕ → Bool → Session W A → Session W A
  measured later failed s = record s {
    jobs_run = s.jobs_run + 1;
    jobs_failed = if failed then s.jobs_failed + 1 else s.jobs_failed;
    last_activity = later;
  }

  module _ (d : Device W) where
    -- A failure of the transport drops the client; another error of the job does not.
    drop_if_dead : Session W A → W → Session W A × W
    unfolding drop_client
    drop_if_dead s w =
        let (alive, w1) = d.is_alive w in
        if not s.has_client then (s, w) else if alive then (s, w1) else drop_client d none s w1

    finished : ℕ → Job W A → Session W A → Result A × W → Session W A × W
    unfolding settle measured drop_client drop_if_dead
    finished later job s (ok a, w) = (measured later false (settle job (returned a) s), w)
    finished later job s (err host_key_changed, w) =
        let (s1, w1) =
          drop_client d (some host_key_changed) (settle job (raised host_key_changed) s) w in
        (measured later true s1, w1)
    finished later job s (err e, w) =
        let (s1, w1) = drop_if_dead (settle job (raised e) s) w in (measured later true s1, w1)

    work_on : ℕ → Job W A → Bool × Session W A × W → Session W A × W
    unfolding settle unavailable finished
    work_on later job (false, s, w) = (settle job (raised (unavailable s.last_error)) s, w)
    work_on later job (true, s, w) = finished later job s (job.work w)

    -- The shutdown job ends the loop.
    unfoldable pub serve : ℕ → ℕ → Job W A → Session W A → W → Session W A × W
    unfolding settle work_on ensure_client
    serve now later job s w =
        if text_eq job.kind (codes "shutdown")
        then (settle job returned_none (record s { is_running = false }), w)
        else work_on later job (ensure_client d now s w)

    idle : ℕ → Session W A → W → Session W A × W
    unfolding ensure_client
    idle now s w =
        let (alive, w1) = d.is_alive w in
        let (_, s2, w2) = ensure_client d now s w1 in
        if s.has_client && ltb idle_keepalive (now - s.last_activity)
        then (if alive
            then (record s { last_activity = now }, w1)
            else (record s2 { last_activity = now }, w2))
        else (s, w)

    -- Every job that is left is told that the program is shutting down.
    unfoldable pub drain : ℕ → Session W A → Session W A
    unfolding get settle
    drain zero s = s
    drain (suc fuel) s = elim (get s.queue) [
      | none ↦ s
      | some (job, rest) ↦
          drain fuel (settle job (raised switchops_error) (record s { queue = rest }))
    ]

    -- The end of the worker.
    unfoldable pub wind_up : Session W A → W → Session W A × W
    unfolding close_client drain
    wind_up s w =
        let (s1, w1) = close_client d s w in
        (drain (length s1.queue) (record s1 { is_running = false }), w1)

    -- A job is served, and the loop goes on unless that ended it.
    served : Session W A × W → Session W A × W
    unfolding wind_up
    served (s, w) = if s.is_running then (s, w) else wind_up s w

    -- One round of the loop of `_worker`; `now` and `later` are its two looks at the clock, and
    -- `sees_stop` says that its look at the stop flag was not before the flag was set.
    unfoldable pub tick : Bool → ℕ → ℕ → Session W A → W → Session W A × W
    unfolding get idle serve served wind_up
    tick sees_stop now later s w =
        if not s.is_running
        then (s, w)
        else if s.is_stopping && sees_stop
        then wind_up s w
        else elim (get s.queue) [
          | none ↦ idle now s w
          | some (job, rest) ↦ served (serve now later job (record s { queue = rest }) w)
        ]
