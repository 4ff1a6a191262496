-- ===== src/Session/Worker/Runs.antt =====
-- The accounts of the jobs before and after a round of the worker.
use switch_ops.Prelude.{
  ℕ, suc, zero, ◌-◌, ◌≤◌, ◌≡◌, refl, ◌∙◌, Bool, true, false, ◌&&◌, not, Option, none, some, List,
  [], ◌∷◌, arith, ltb, if◌then◌else◌, length, switchops_error,
}
use switch_ops.Session.Queue.{Job, get, waiting, Gets, get-Gets, IsFirst}
use switch_ops.Session.Connection.{
  Device, raised, Session, ensure_client, close_client, idle_keepalive,
}
use switch_ops.Session.Worker.{settle, serve, idle, drain, served, tick, wind_up}
use switch_ops.Session.Worker.Futures.{accounts, Keeps, Keeps-ensure_client, Keeps-close_client}
use switch_ops.Session.Worker.Once.{Settles, Settles-settle, Settles-serve}

module _ {W A : Type 0} where
  -- The same futures are waiting or settled, and no number was given out.
  pub record Conserves (s t : Session W A) : Type 0 where
    pub accounts : (n : ℕ) → accounts n t ≡ accounts n s
    pub sequence : t.sequence ≡ s.sequence

  Conserves-trans :
      {s u : Session W A} (t : Session W A) → Conserves s t → Conserves t u → Conserves s u
  Conserves-trans t h k = record {
    accounts = λ n. k.accounts n ∙ h.accounts n;
    sequence = k.sequence ∙ h.sequence;
  }

  Conserves-of_Keeps : {s t : Session W A} → Keeps s t → Conserves s t
  unfolding accounts
  Conserves-of_Keeps k = record {
    accounts = λ n. rw (k.queue) (rw (k.answers) refl);
    sequence = k.sequence;
  }

  -- A job that is taken and settled.
  Conserves-taken :
      (job : Job W A) (rest : List (Job W A)) (s t : Session W A)
      → IsFirst job rest s.queue
      → Settles job (record s { queue = rest }) t
      → Conserves s t
  unfolding accounts waiting
  Conserves-taken job rest s t first h = record {
    accounts =
        λ n. let a = first.same n in let b = h.answers n in rw (h.queue) (omega (arith, a, b));
    sequence = h.sequence;
  }

  module _ (d : Device W) where
    Conserves-drain : (fuel : ℕ) (s : Session W A) → Conserves s (drain d fuel s)
    unfolding drain
    Conserves-drain zero s = record { accounts = λ n. refl; sequence = refl }
    Conserves-drain (suc fuel) s =
        by_job (λ t. Conserves-drain fuel t) (get s.queue) (get-Gets s.queue)
      where
        by_job :
            ((t : Session W A) → Conserves t (drain d fuel t))
            → (found : Option (Job W A × List (Job W A))) → Gets s.queue found
            → Conserves s (elim found [
              | none ↦ s
              | some (job, rest) ↦
                  drain d fuel (settle job (raised switchops_error) (record s { queue = rest }))
            ])
        by_job go none h = record { accounts = λ n. refl; sequence = refl }
        by_job go (some (job, rest)) h =
            let t = settle job (raised switchops_error) (record s { queue = rest }) in
            Conserves-trans t (Conserves-taken job rest s t h (Settles-settle job _ _)) (go t)

    -- Fuel for each job is enough.
    pub drain-queue :
        (fuel : ℕ) (s : Session W A) → length s.queue ≤ fuel → (drain d fuel s).queue ≡ []
    unfolding drain
    drain-queue zero s h = by_queue s.queue h
      where
        by_queue : (q : List (Job W A)) → length q ≤ 0 → q ≡ []
        by_queue [] h = refl
        by_queue (x ∷ q) h = absurd (omega (arith, h))
    drain-queue (suc fuel) s h = by_job (λ t. drain-queue fuel t) (get s.queue) (get-Gets s.queue)
      where
        by_job :
            ((t : Session W A) → length t.queue ≤ fuel → (drain d fuel t).queue ≡ [])
            → (found : Option (Job W A × List (Job W A))) → Gets s.queue found
            → (elim found as (λ _. Session W A) [
              | none ↦ s
              | some (job, rest) ↦
                  drain d fuel (settle job (raised switchops_error) (record s { queue = rest }))
            ]).queue
              ≡ []
        by_job go none k = k
        by_job go (some (job, rest)) k =
            unfold settle in
            go (settle job (raised switchops_error) (record s { queue = rest }))
              (let e = k.size in omega (arith, e, h))

    pub Conserves-wind_up : (s : Session W A) (w : W) → Conserves s (wind_up d s w).0
    unfolding wind_up
    Conserves-wind_up s w =
        let t = (close_client d s w).0 in
        let u = record t { is_running = false } in
        Conserves-trans t (Conserves-of_Keeps (Keeps-close_client d s w)) (
          Conserves-trans u
            (Conserves-of_Keeps (record { queue = refl; answers = refl; sequence = refl }))
            (Conserves-drain (length t.queue) u))

    Conserves-idle : (now : ℕ) (s : Session W A) (w : W) → Conserves s (idle d now s w).0
    unfolding idle
    Conserves-idle now s w =
        Conserves-of_Keeps
          (by_test (s.has_client && ltb idle_keepalive (now - s.last_activity)) (d.is_alive w))
      where
        by_test :
            (due : Bool) (answer : Bool × W)
            → Keeps s
                (if◌then◌else◌ {A = Session W A × W} due
                  (if◌then◌else◌ {A = Session W A × W}
                    (answer.0)
                    (record s { last_activity = now }, answer.1)
                    (
                      record (ensure_client d now s answer.1).1 { last_activity = now },
                      (ensure_client d now s answer.1).2,
                    ))
                  (s, w)).0
        by_test false answer = record { queue = refl; answers = refl; sequence = refl }
        by_test true (true, w1) = record { queue = refl; answers = refl; sequence = refl }
        by_test true (false, w1) =
            let k = Keeps-ensure_client d now s w1 in
            record { queue = k.queue; answers = k.answers; sequence = k.sequence }

    Conserves-served : (x : Session W A × W) → Conserves x.0 (served d x).0
    unfolding served
    Conserves-served (s, w) = by_test s.is_running
      where
        by_test :
            (running : Bool)
            → Conserves s (if◌then◌else◌ {A = Session W A × W} running (s, w) (wind_up d s w)).0
        by_test true = record { accounts = λ n. refl; sequence = refl }
        by_test false = Conserves-wind_up s w

    pub Conserves-tick :
        (sees_stop : Bool) (now later : ℕ) (s : Session W A) (w : W)
        → Conserves s (tick d sees_stop now later s w).0
    unfolding tick
    Conserves-tick sees_stop now later s w =
        by_test s.is_running (s.is_stopping && sees_stop) (get s.queue) (get-Gets s.queue)
      where
        by_test :
            (running stopping : Bool) (found : Option (Job W A × List (Job W A)))
            → Gets s.queue found
            → Conserves s
                (if not running then (s, w) else if stopping then wind_up d s w else elim found [
                  | none ↦ idle d now s w
                  | some (job, rest) ↦
                      served d (serve d now later job (record s { queue = rest }) w)
                ]).0
        by_test false stopping found h = record { accounts = λ n. refl; sequence = refl }
        by_test true true found h = Conserves-wind_up s w
        by_test true false none h = Conserves-idle now s w
        by_test true false (some (job, rest)) h =
            let x = serve d now later job (record s { queue = rest }) w in
            Conserves-trans (x.0)
              (Conserves-taken job rest s x.0 h
                (Settles-serve d now later job (record s { queue = rest }) w))
              (Conserves-served x)
