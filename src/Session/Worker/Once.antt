-- ===== src/Session/Worker/Once.antt =====
-- The jobs that a round of the worker settles, and those that its end settles.
use switch_ops.Prelude.{
  ℕ, ◌+◌, ◌≡◌, refl, ap, ◌∙◌, Bool, true, false, not, none, some, [], ◌∷◌, arith, ◌==◌,
  if◌then◌else◌, Result, ok, err, host_key_changed, Bool-cases, inl, inr,
}
use switch_ops.Text.{codes, text_eq}
use switch_ops.Session.Queue.{Job}
use switch_ops.Session.Connection.{
  Device, Answer, returned, returned_none, raised, Session, ensure_client, drop_client,
}
use switch_ops.Session.Worker.{settle, measured, drop_if_dead, finished, work_on, serve}
use switch_ops.Session.Worker.Futures.{
  settled, settled-append, Keeps, Keeps-trans, Keeps-ensure_client, Keeps-drop_client,
}

module _ {W A : Type 0} where
  -- A step that settles the job and does nothing else to the queue, the numbers and the futures.
  pub record Settles (job : Job W A) (s t : Session W A) : Type 0 where
    pub queue : t.queue ≡ s.queue
    pub sequence : t.sequence ≡ s.sequence
    pub answers :
        (n : ℕ) → settled n t.answers ≡ settled n s.answers + (if job.sequence == n then 1 else 0)

  pub Settles-settle :
      (job : Job W A) (a : Answer A) (s : Session W A) → Settles job s (settle job a s)
  unfolding settle settled
  Settles-settle job a s = record {
    queue = refl;
    sequence = refl;
    answers = λ n. let h = settled-append n s.answers ((job.sequence, a) ∷ []) in ground (arith, h);
  }

  Settles-Keeps :
      {job : Job W A} {s u : Session W A} (t : Session W A)
      → Settles job s t
      → Keeps t u
      → Settles job s u
  Settles-Keeps t h k = record {
    queue = k.queue ∙ h.queue;
    sequence = k.sequence ∙ h.sequence;
    answers = λ n. ap (settled n) (k.answers) ∙ h.answers n;
  }

  Keeps-Settles :
      {job : Job W A} {s u : Session W A} (t : Session W A)
      → Keeps s t
      → Settles job t u
      → Settles job s u
  Keeps-Settles {job} t k h = record {
    queue = h.queue ∙ k.queue;
    sequence = h.sequence ∙ k.sequence;
    answers =
        λ n. h.answers n ∙ ap (λ l. settled n l + (if job.sequence == n then 1 else 0)) (k.answers);
  }

  Keeps-measured : (later : ℕ) (failed : Bool) (s : Session W A) → Keeps s (measured later failed s)
  unfolding measured
  Keeps-measured later failed s = record { queue = refl; answers = refl; sequence = refl }

  module _ (d : Device W) where
    Keeps-drop_if_dead : (s : Session W A) (w : W) → Keeps s (drop_if_dead d s w).0
    unfolding drop_if_dead
    Keeps-drop_if_dead s w = by_test s.has_client (d.is_alive w)
      where
        by_test :
            (has : Bool) (answer : Bool × W)
            → Keeps s
                (if not has
                  then (s, w)
                  else if answer.0
                  then (s, answer.1)
                  else drop_client d none s answer.1).0
        by_test false answer = record { queue = refl; answers = refl; sequence = refl }
        by_test true (true, w1) = record { queue = refl; answers = refl; sequence = refl }
        by_test true (false, w1) = Keeps-drop_client d none s w1

    Settles-finished :
        (later : ℕ) (job : Job W A) (s : Session W A) (answer : Result A × W)
        → Settles job s (finished d later job s answer).0
    unfolding finished
    Settles-finished later job s (ok a, w) =
        let t = settle job (returned a) s in
        Settles-Keeps t (Settles-settle job (returned a) s) (Keeps-measured later false t)
    Settles-finished later job s (err host_key_changed, w) =
        let t = settle job (raised host_key_changed) s in
        let u = (drop_client d (some host_key_changed) t w).0 in
        Settles-Keeps t (Settles-settle job (raised host_key_changed) s) (
          Keeps-trans u (Keeps-drop_client d (some host_key_changed) t w)
            (Keeps-measured later true u))
    Settles-finished later job s (err e, w) =
        let t = settle job (raised e) s in
        let u = (drop_if_dead d t w).0 in
        Settles-Keeps t (Settles-settle job (raised e) s)
          (Keeps-trans u (Keeps-drop_if_dead t w) (Keeps-measured later true u))

    Settles-work_on :
        (later : ℕ) (job : Job W A) (s : Session W A) (x : Bool × Session W A × W)
        → Keeps s x.1
        → Settles job s (work_on d later job x).0
    unfolding work_on
    Settles-work_on later job s (false, t, w) k = Keeps-Settles t k (Settles-settle job _ t)
    Settles-work_on later job s (true, t, w) k =
        Keeps-Settles t k (Settles-finished later job t (job.work w))

    pub Settles-serve :
        (now later : ℕ) (job : Job W A) (s : Session W A) (w : W)
        → Settles job s (serve d now later job s w).0
    unfolding serve
    Settles-serve now later job s w = elim (Bool-cases (text_eq job.kind (codes "shutdown"))) [
      | inl e ↦ rw e (
          Keeps-Settles (record s { is_running = false })
            (record { queue = refl; answers = refl; sequence = refl })
            (Settles-settle job returned_none (record s { is_running = false })))
      | inr e ↦
          rw e
            (Settles-work_on later job s (ensure_client d now s w) (Keeps-ensure_client d now s w))
    ]
