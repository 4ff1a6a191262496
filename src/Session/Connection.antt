-- ===== src/Session/Connection.antt =====
-- The session and its connection: `_set_state`, `_ensure_client`, `_drop_client`, `_close_client`.
pub mod Backoff
use switch_ops.Prelude.{
  ℕ, ◌+◌, ◌*◌, min, Bool, true, false, not, Option, none, some, List, [], ltb, ◌==◌, if◌then◌else◌,
  Result, ok, err, Error, host_key_changed, credentials_missing, switchops_error, value_error,
  other_error,
}
use switch_ops.Session.Queue.{Job}

-- The client of the switch and what opens one, over the world W. Each call may change the world.
pub record Device (W : Type 0) : Type 0 where
  pub connect : W → Result (Unit {0}) × W
  pub is_alive : W → Bool × W
  pub close : W → W

pub data ConnectionState : Type 0 where
  offline connecting live stale reconnecting : ConnectionState

-- What a future is settled with.
pub data Answer (A : Type 0) : Type 0 where
  returned : A → Answer A
  returned_none : Answer A
  raised : Error → Answer A

-- `answers` are the settled futures by the sequence numbers of their jobs.
pub record Session (W A : Type 0) : Type 0 where
  pub queue : List (Job W A)
  pub sequence : ℕ
  pub is_stopping : Bool
  pub is_running : Bool
  pub has_client : Bool
  pub state : ConnectionState
  pub last_error : Option Error
  pub backoff : ℕ
  pub next_attempt_at : ℕ
  pub reconnects : ℕ
  pub jobs_run : ℕ
  pub jobs_failed : ℕ
  pub last_activity : ℕ
  pub answers : List (ℕ × Answer A)

abbrev pub backoff_start : ℕ
backoff_start = 2000

abbrev pub backoff_max : ℕ
backoff_max = 60000

abbrev pub idle_keepalive : ℕ
idle_keepalive = 45000

-- Another exception than a SwitchOpsError is told as one.
as_switchops : Error → Error
as_switchops value_error = switchops_error
as_switchops other_error = switchops_error
as_switchops e = e

module _ {W A : Type 0} where
  unfoldable pub init : Session W A
  init = record {
    queue = [];
    sequence = 0;
    is_stopping = false;
    is_running = false;
    has_client = false;
    state = offline;
    last_error = none;
    backoff = backoff_start;
    next_attempt_at = 0;
    reconnects = 0;
    jobs_run = 0;
    jobs_failed = 0;
    last_activity = 0;
    answers = [];
  }

  -- The last error is kept until the session is live.
  unfoldable pub set_state : ConnectionState → Option Error → Session W A → Session W A
  set_state state (some e) s = record s { state = state; last_error = some e }
  set_state live none s = record s { state = live; last_error = none }
  set_state state none s = record s { state = state }

  back_off : ℕ → Session W A → Session W A
  back_off now s =
      let backoff = min backoff_max (s.backoff * 2) in
      record s { backoff = backoff; next_attempt_at = now + backoff }

  -- A changed host key and missing credentials wait for the longest time.
  unfoldable pub postpone : ℕ → Error → Session W A → Session W A
  unfolding back_off
  postpone now host_key_changed s = record s { next_attempt_at = now + backoff_max }
  postpone now credentials_missing s = record s { next_attempt_at = now + backoff_max }
  postpone now _ s = back_off now s

  unfoldable pub connected : ℕ → Session W A → Result (Unit {0}) × W → Bool × Session W A × W
  unfolding set_state postpone as_switchops
  connected now s (ok _, w) = (
    true,
    set_state live none
        (record s { has_client = true; backoff = backoff_start; next_attempt_at = 0 }),
    w,
  )
  connected now s (err e, w) =
      (false, set_state offline (some (as_switchops e)) (postpone now e s), w)

  unfoldable pub lose : Session W A → Session W A
  unfolding set_state
  lose s =
      set_state reconnecting none (record s { has_client = false; reconnects = s.reconnects + 1 })

  module _ (d : Device W) where
    -- An attempt to connect, unless it is too early for one.
    unfoldable pub attempt : ℕ → Session W A → W → Bool × Session W A × W
    unfolding set_state connected
    attempt now s w =
        if ltb now s.next_attempt_at
        then (false, s, w)
        else connected now
            (set_state (if s.reconnects == 0 then connecting else reconnecting) none s)
            (d.connect w)

    -- Whether there is a client to work with, after an attempt to get one.
    unfoldable pub ensure_client : ℕ → Session W A → W → Bool × Session W A × W
    unfolding lose attempt
    ensure_client now s w =
        let (alive, w1) = d.is_alive w in
        if not s.has_client
        then attempt now s w
        else if alive
        then (true, s, w1)
        else attempt now (lose s) (d.close w1)

    unfoldable pub close_client : Session W A → W → Session W A × W
    close_client s w = if s.has_client then (record s { has_client = false }, d.close w) else (s, w)

    unfoldable pub drop_client : Option Error → Session W A → W → Session W A × W
    unfolding close_client set_state
    drop_client error s w = let (s1, w1) = close_client s w in (set_state stale error s1, w1)
