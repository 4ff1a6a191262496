-- ===== src/Session/Connection/Backoff.antt =====
-- How long the session waits before it tries to connect again.
use switch_ops.Prelude.{
  ℕ, ◌+◌, ◌≤◌, ◌<◌, ◌≡◌, refl, ◌∙◌, Bool, true, false, not, Option, none, some, arith, ltb, ◌==◌,
  if◌then◌else◌, Bool-cases, inl, inr, ◌⊎◌, Result, ok, err, Error, host_key_changed,
  credentials_missing,
}
use switch_ops.Session.Connection.{
  Device, ConnectionState, offline, connecting, live, reconnecting, Session, backoff_start,
  backoff_max, set_state, postpone, back_off, as_switchops, connected, lose, attempt, ensure_client,
}

module _ {W A : Type 0} where
  -- The wait is between two seconds and a minute, and no attempt is due later than a minute from now.
  pub record Waits (now : ℕ) (s : Session W A) : Type 0 where
    pub least : backoff_start ≤ s.backoff
    pub most : s.backoff ≤ backoff_max
    pub soon : s.next_attempt_at ≤ now + backoff_max

  Waits-set_state :
      (now : ℕ) (x : ConnectionState) (e : Option Error) (s : Session W A)
      → Waits now s
      → Waits now (set_state x e s)
  unfolding set_state
  Waits-set_state now x (some e) s h = record { least = h.least; most = h.most; soon = h.soon }
  Waits-set_state now live none s h = record { least = h.least; most = h.most; soon = h.soon }
  Waits-set_state now _ none s h = record { least = h.least; most = h.most; soon = h.soon }

  Waits-back_off : (now : ℕ) (s : Session W A) → Waits now s → Waits now (back_off now s)
  unfolding back_off
  Waits-back_off now s h =
      let a = h.least in
      let b = h.most in
      record { least = omega (arith, a, b); most = omega arith; soon = omega arith }

  Waits-postpone :
      (now : ℕ) (e : Error) (s : Session W A) → Waits now s → Waits now (postpone now e s)
  unfolding postpone
  Waits-postpone now host_key_changed s h = record {
    least = h.least;
    most = h.most;
    soon = omega arith;
  }
  Waits-postpone now credentials_missing s h = record {
    least = h.least;
    most = h.most;
    soon = omega arith;
  }
  Waits-postpone now _ s h = Waits-back_off now s h

  Waits-connected :
      (now : ℕ) (s : Session W A) (answer : Result (Unit {0}) × W)
      → Waits now s
      → Waits now (connected now s answer).1
  unfolding connected
  Waits-connected now s (ok u, w) h = record {
    least = omega arith;
    most = omega arith;
    soon = omega arith;
  }
  Waits-connected now s (err e, w) h =
      Waits-set_state now offline (some (as_switchops e)) (postpone now e s)
        (Waits-postpone now e s h)

  -- There is no client, and no attempt before a minute from `now`.
  record IsRefused (now : ℕ) (s : Session W A) : Type 0 where
    no_client : s.has_client ≡ false
    until : s.next_attempt_at ≡ now + backoff_max

  connected-IsRefused :
      (now : ℕ) (s : Session W A) (w : W) (e : Error)
      → s.has_client ≡ false
      → (e ≡ host_key_changed) ⊎ (e ≡ credentials_missing)
      → IsRefused now (connected now s (err e, w)).1
  unfolding connected set_state postpone as_switchops
  connected-IsRefused now s w host_key_changed h k = record { no_client = h; until = refl }
  connected-IsRefused now s w credentials_missing h k = record { no_client = h; until = refl }
  connected-IsRefused now s w _ h (inl k) = absurd (cc)
  connected-IsRefused now s w _ h (inr k) = absurd (cc)

  set_state-has_client :
      (x : ConnectionState) (s : Session W A) → (set_state x none s).has_client ≡ s.has_client
  unfolding set_state
  set_state-has_client live s = refl
  set_state-has_client _ s = refl

  module _ (d : Device W) where
    Waits-attempt :
        (now : ℕ) (s : Session W A) (w : W) → Waits now s → Waits now (attempt d now s w).1
    unfolding attempt
    Waits-attempt now s w h = elim (Bool-cases (ltb now s.next_attempt_at)) [
      | inl e ↦ rw e h
      | inr e ↦ rw e (
          let x = if s.reconnects == 0 then connecting else reconnecting in
          Waits-connected now (set_state x none s) (d.connect w) (Waits-set_state now x none s h))
    ]

    -- Whatever `_ensure_client` meets, the wait stays between two seconds and a minute, and the next
    -- attempt is due within a minute.
    pub ensure_client-Waits :
        (now : ℕ) (s : Session W A) (w : W) → Waits now s → Waits now (ensure_client d now s w).1
    unfolding ensure_client
    ensure_client-Waits now s w h = by_test s.has_client (d.is_alive w)
      where
        by_test :
            (has : Bool) (answer : Bool × W)
            → Waits now
                (if not has
                  then attempt d now s w
                  else if answer.0
                  then (true, s, answer.1)
                  else attempt d now (lose s) (d.close answer.1)).1
        by_test false answer = Waits-attempt now s w h
        by_test true (true, w1) = h
        by_test true (false, w1) =
            unfold lose in
            Waits-attempt now (lose s) (d.close w1)
              (record { least = h.least; most = h.most; soon = h.soon })

    too_early :
        (later : ℕ) (t : Session W A) (w : W)
        → t.has_client ≡ false
        → later < t.next_attempt_at
        → ensure_client d later t w ≡ (false, t, w)
    unfolding ensure_client attempt
    too_early later t w h early = ground (arith, h, early)

    attempt-IsRefused :
        (now : ℕ) (s : Session W A) (w w1 : W) (e : Error)
        → s.has_client ≡ false
        → s.next_attempt_at ≤ now
        → d.connect w ≡ (err e, w1)
        → (e ≡ host_key_changed) ⊎ (e ≡ credentials_missing)
        → IsRefused now (attempt d now s w).1
    unfolding attempt
    attempt-IsRefused now s w w1 e h due answer k =
        by_test (ltb now s.next_attempt_at) (ground (arith, due))
      where
        x : ConnectionState
        x = if s.reconnects == 0 then connecting else reconnecting

        by_test :
            (early : Bool)
            → early ≡ false
            → IsRefused now
                (if early
                  then (false, s, w)
                  else connected now (set_state x none s) (d.connect w)).1
        by_test true q = absurd (cc)
        by_test false q =
            rw answer
              (connected-IsRefused now (set_state x none s) w1 e (set_state-has_client x s ∙ h) k)

    -- The host key has changed or the credentials are missing, with no client at hand: for a minute
    -- from then on `_ensure_client` gives no client, and touches neither the switch nor the session.
    pub ensure_client-refused :
        (now later : ℕ) (s : Session W A) (w w1 w2 : W) (e : Error)
        → s.has_client ≡ false
        → s.next_attempt_at ≤ now
        → d.connect w ≡ (err e, w1)
        → (e ≡ host_key_changed) ⊎ (e ≡ credentials_missing)
        → later < now + backoff_max
        → let t = (ensure_client d now s w).1 in ensure_client d later t w2 ≡ (false, t, w2)
    unfolding ensure_client
    ensure_client-refused now later s w w1 w2 e no_client due answer k early =
        by_test s.has_client (d.is_alive w) no_client
      where
        first : IsRefused now (attempt d now s w).1
        first = attempt-IsRefused now s w w1 e no_client due answer k

        by_test :
            (has : Bool) (alive : Bool × W)
            → has ≡ false
            → let t =
                (if not has
                  then attempt d now s w
                  else if alive.0
                  then (true, s, alive.1)
                  else attempt d now (lose s) (d.close alive.1)).1 in
              ensure_client d later t w2 ≡ (false, t, w2)
        by_test true alive q = absurd (cc)
        by_test false alive q =
            too_early later (attempt d now s w).1 w2 first.no_client
              (let u = first.until in omega (arith, u, early))
