-- ===== src/Session/Worker/Futures.antt =====
-- The accounts of the jobs that were accepted: those that wait and those that are settled.
use switch_ops.Prelude.{
  ℕ, ◌+◌, ◌≡◌, refl, ◌∙◌, Bool, true, false, not, Option, none, some, List, [], ◌∷◌, ◌++◌, arith,
  ltb, ◌==◌, if◌then◌else◌, Result, ok, err, Error, host_key_changed, credentials_missing,
  Bool-cases, inl, inr,
}
use switch_ops.Session.Queue.{waiting}
use switch_ops.Session.Connection.{
  Device, ConnectionState, connecting, live, stale, reconnecting, lose, Answer, Session,
  ensure_client, attempt, connected, set_state, postpone, close_client, drop_client,
}

module _ {A : Type 0} where
  -- How often the future of a job is settled.
  unfoldable pub settled : ℕ → List (ℕ × Answer A) → ℕ
  settled n [] = 0
  settled n ((m, a) ∷ rest) = (if m == n then 1 else 0) + settled n rest

  pub settled-append :
      (n : ℕ) (a b : List (ℕ × Answer A)) → settled n (a ++ b) ≡ settled n a + settled n b
  unfolding settled
  settled-append n [] b = omega arith
  settled-append n ((m, x) ∷ a) b = let h = settled-append n a b in omega (arith, h)

module _ {W A : Type 0} where
  -- What is done with the future: it waits or it is settled.
  unfoldable pub accounts : ℕ → Session W A → ℕ
  unfolding waiting settled
  accounts n s = waiting n s.queue + settled n s.answers

  -- A step that touches neither the queue nor the futures nor the numbers.
  pub record Keeps (s t : Session W A) : Type 0 where
    pub queue : t.queue ≡ s.queue
    pub answers : t.answers ≡ s.answers
    pub sequence : t.sequence ≡ s.sequence

  pub Keeps-trans : {s u : Session W A} (t : Session W A) → Keeps s t → Keeps t u → Keeps s u
  Keeps-trans t h k = record {
    queue = k.queue ∙ h.queue;
    answers = k.answers ∙ h.answers;
    sequence = k.sequence ∙ h.sequence;
  }

  Keeps-set_state :
      (x : ConnectionState) (e : Option Error) (s : Session W A) → Keeps s (set_state x e s)
  unfolding set_state
  Keeps-set_state x (some e) s = record { queue = refl; answers = refl; sequence = refl }
  Keeps-set_state live none s = record { queue = refl; answers = refl; sequence = refl }
  Keeps-set_state _ none s = record { queue = refl; answers = refl; sequence = refl }

  Keeps-postpone : (now : ℕ) (e : Error) (s : Session W A) → Keeps s (postpone now e s)
  unfolding postpone
  Keeps-postpone now host_key_changed s = record { queue = refl; answers = refl; sequence = refl }
  Keeps-postpone now credentials_missing s = record {
    queue = refl;
    answers = refl;
    sequence = refl;
  }
  Keeps-postpone now _ s = record { queue = refl; answers = refl; sequence = refl }

  Keeps-connected :
      (now : ℕ) (s : Session W A) (answer : Result (Unit {0}) × W)
      → Keeps s (connected now s answer).1
  unfolding connected
  Keeps-connected now s (ok u, w) = record { queue = refl; answers = refl; sequence = refl }
  Keeps-connected now s (err e, w) =
      let k = Keeps-postpone now e s in
      record { queue = k.queue; answers = k.answers; sequence = k.sequence }

  module _ (d : Device W) where
    Keeps-attempt : (now : ℕ) (s : Session W A) (w : W) → Keeps s (attempt d now s w).1
    unfolding attempt
    Keeps-attempt now s w = elim (Bool-cases (ltb now s.next_attempt_at)) [
      | inl e ↦ rw e (record { queue = refl; answers = refl; sequence = refl })
      | inr e ↦ rw e (
          let x = if s.reconnects == 0 then connecting else reconnecting in
          Keeps-trans (set_state x none s) (Keeps-set_state x none s)
            (Keeps-connected now (set_state x none s) (d.connect w)))
    ]

    pub Keeps-ensure_client :
        (now : ℕ) (s : Session W A) (w : W) → Keeps s (ensure_client d now s w).1
    unfolding ensure_client
    Keeps-ensure_client now s w = by_test s.has_client (d.is_alive w)
      where
        by_test :
            (has : Bool) (answer : Bool × W)
            → Keeps s
                (if not has
                  then attempt d now s w
                  else if answer.0
                  then (true, s, answer.1)
                  else attempt d now (lose s) (d.close answer.1)).1
        by_test false answer = Keeps-attempt now s w
        by_test true (true, w1) = record { queue = refl; answers = refl; sequence = refl }
        by_test true (false, w1) =
            unfold lose in
            Keeps-trans (lose s) (record { queue = refl; answers = refl; sequence = refl })
              (Keeps-attempt now (lose s) (d.close w1))

    pub Keeps-close_client : (s : Session W A) (w : W) → Keeps s (close_client d s w).0
    unfolding close_client
    Keeps-close_client s w = elim (Bool-cases s.has_client) [
      | inl e ↦ rw e (record { queue = refl; answers = refl; sequence = refl })
      | inr e ↦ rw e (record { queue = refl; answers = refl; sequence = refl })
    ]

    pub Keeps-drop_client :
        (e : Option Error) (s : Session W A) (w : W) → Keeps s (drop_client d e s w).0
    unfolding drop_client
    Keeps-drop_client e s w =
        let s1 = (close_client d s w).0 in
        Keeps-trans s1 (Keeps-close_client s w) (Keeps-set_state stale e s1)
