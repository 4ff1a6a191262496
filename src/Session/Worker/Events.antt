-- ===== src/Session/Worker/Events.antt =====
-- Runs of the session: submissions, starts, stops and rounds of the worker in any order.
use switch_ops.Prelude.{
  ℕ, ◌+◌, ◌≡◌, ◌∙◌, Bool, true, false, ◌&&◌, List, [], ◌∷◌, arith, ltb, leb, if◌then◌else◌, Result,
  Bool-cases, inl, inr,
}
use switch_ops.Text.{Text}
use switch_ops.Session.Queue.{Job, waiting, waiting-append}
use switch_ops.Session.Connection.{Device, Session, init, close_client}
use switch_ops.Session.Worker.{put, submit, start, stop, tick, wind_up}
use switch_ops.Session.Worker.Futures.{settled, accounts}
use switch_ops.Session.Worker.Runs.{Conserves, Conserves-tick, Conserves-wind_up, drain-queue}

-- What may happen to a session. A submission tests the stop flag and then puts its job: `submitted` is
-- one that nothing interrupts, and `put_late` the put of one that was interrupted behind its test, by
-- a stop, by the end of the worker or by anything else.
pub data Event (W A : Type 0) : Type 0 where
  submitted put_late : ℕ → Text → (W → Result A × W) → Event W A
  started : ℕ → Event W A
  stopped : Event W A
  ticked : Bool → ℕ → ℕ → Event W A

module _ {W A : Type 0} where
  unfoldable pub step : Device W → Session W A × W → Event W A → Session W A × W
  unfolding submit put start stop tick
  step d (s, w) (put_late priority kind work) = (put priority kind work s, w)
  step d (s, w) (submitted priority kind work) = ((submit priority kind work s).1, w)
  step d (s, w) (started now) = (start now s, w)
  step d (s, w) stopped = (stop s, w)
  step d (s, w) (ticked sees_stop now later) = tick d sees_stop now later s w

  unfoldable pub run : Device W → Session W A × W → List (Event W A) → Session W A × W
  unfolding step
  run d x [] = x
  run d x (e ∷ es) = run d (step d x e) es

  -- Each number that was given out has its future once: it waits, or it is settled.
  abbrev pub IsAccounted : Session W A → Type 0
  IsAccounted s = (n : ℕ) → accounts n s ≡ (if ltb 0 n && leb n s.sequence then 1 else 0)

  IsAccounted-Conserves : (s t : Session W A) → Conserves s t → IsAccounted s → IsAccounted t
  unfolding accounts
  IsAccounted-Conserves s t k h n = rw (k.sequence) (k.accounts n ∙ h n)

  IsAccounted-put :
      (priority : ℕ) (kind : Text) (work : W → Result A × W) (s : Session W A)
      → IsAccounted s
      → IsAccounted (put priority kind work s)
  unfolding put accounts waiting
  IsAccounted-put priority kind work s h n =
      let job : Job W A = record {
        priority = priority;
        sequence = s.sequence + 1;
        kind = kind;
        work = work;
      } in
      let a = waiting-append n s.queue (job ∷ []) in let b = h n in ground (arith, a, b)

  IsAccounted-step :
      (d : Device W) (s : Session W A) (w : W) (e : Event W A)
      → IsAccounted s
      → IsAccounted (step d (s, w) e).0
  unfolding step submit start stop accounts
  IsAccounted-step d s w (submitted priority kind work) h = elim (Bool-cases s.is_stopping) [
    | inl e ↦ rw e h
    | inr e ↦ rw e (IsAccounted-put priority kind work s h)
  ]
  IsAccounted-step d s w (put_late priority kind work) h = IsAccounted-put priority kind work s h
  IsAccounted-step d s w (started now) h = by_test s.is_running
    where
      by_test :
          (running : Bool)
          → IsAccounted (
              if running
              then s
              else record s { is_stopping = false; is_running = true; last_activity = now })
      by_test true = h
      by_test false = h
  IsAccounted-step d s w stopped h = IsAccounted-put 0 _ _ (record s { is_stopping = true }) h
  IsAccounted-step d s w (ticked sees_stop now later) h =
      IsAccounted-Conserves s (tick d sees_stop now later s w).0
        (Conserves-tick d sees_stop now later s w) h

  IsAccounted-run :
      (d : Device W) (x : Session W A × W) (es : List (Event W A))
      → IsAccounted x.0
      → IsAccounted (run d x es).0
  unfolding run
  IsAccounted-run d x [] h = h
  IsAccounted-run d (s, w) (e ∷ es) h =
      IsAccounted-run d (step d (s, w) e) es (IsAccounted-step d s w e h)

  -- Through any run from the start of the program, a job whose number was given out is in the queue or
  -- has its future settled, exactly one of the two and exactly once; no other number has a job.
  pub run-IsAccounted :
      (d : Device W) (w : W) (es : List (Event W A)) (n : ℕ)
      → accounts n (run d (init, w) es).0
        ≡ (if ltb 0 n && leb n (run d (init, w) es).0.sequence then 1 else 0)
  run-IsAccounted d w es n = IsAccounted-run d (init, w) es (λ m. none_yet m) n
    where
      none_yet :
          (m : ℕ)
          → accounts {W = W} {A = A} m init
            ≡ (if ltb 0 m && leb m (init {W = W} {A = A}).sequence then 1 else 0)
      none_yet m = unfold init accounts waiting settled in ground arith

  settled-of_empty :
      {k : ℕ} (n : ℕ) (t : Session W A) → t.queue ≡ [] → accounts n t ≡ k → settled n t.answers ≡ k
  unfolding accounts waiting
  settled-of_empty n t e h = omega (arith, rw e at h)

  -- When the worker winds up, after any run, also one with submissions that were interrupted behind their
  -- test of the stop flag: at that moment the queue is empty, and each number that was given out until
  -- then has its future settled once. Nothing is said of a job that such a submission puts later.
  pub wind_up-settled :
      (d : Device W) (w w' : W) (es : List (Event W A)) (n : ℕ)
      → let s = (run d (init, w) es).0 in
        let t = (wind_up d s w').0 in
        (t.queue ≡ []) × (settled n t.answers ≡ (if ltb 0 n && leb n s.sequence then 1 else 0))
  unfolding wind_up
  wind_up-settled d w w' es n =
      let s = (run d (init, w) es).0 in
      let empty =
        drain-queue d _ (record (close_client d s w').0 { is_running = false }) (omega arith) in
      let a = (Conserves-wind_up d s w').accounts n in
      let b = run-IsAccounted d w es n in
      (empty, settled-of_empty n (wind_up d s w').0 empty (a ∙ b))
