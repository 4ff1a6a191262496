-- ===== src/Live/Collector.antt =====
-- `TierConfig` and `LiveCollector`: the intervals, the ticks and the rounds of the loop. Times are
-- milliseconds; what a tick does on the device is the work of its job, which is passed in.
pub mod Counted
pub mod Pace
use switch_ops.Prelude.{
  none, some, ℕ, ◌+◌, ◌%◌, max, min, Bool, true, false, ◌&&◌, not, List, [], ◌∷◌, leb, ◌==◌,
  if◌then◌else◌, Result,
}
use switch_ops.Text.{Text, codes}
use switch_ops.Session.Queue.{get}
use switch_ops.Session.Connection.{Session}
use switch_ops.Session.Worker.{has_pending, submit}

abbrev pub Bounds : Type 0
Bounds = ℕ × ℕ

abbrev pub fast_bounds : Bounds
fast_bounds = (2000, 60000)

abbrev pub medium_bounds : Bounds
medium_bounds = (10000, 300000)

abbrev pub slow_bounds : Bounds
slow_bounds = (30000, 900000)

abbrev pub history_bounds : Bounds
history_bounds = (30000, 3600000)

-- `_clamp`
unfoldable pub clamp : ℕ → Bounds → ℕ
clamp value bounds = max bounds.0 (min bounds.1 value)

pub record TierConfig : Type 0 where
  pub fast : ℕ
  pub medium : ℕ
  pub slow : ℕ
  pub history : ℕ

abbrev pub default_tiers : TierConfig
default_tiers = record { fast = 5000; medium = 20000; slow = 60000; history = 60000 }

unfoldable pub clamped : TierConfig → TierConfig
unfolding clamp
clamped config = record {
  fast = clamp config.fast fast_bounds;
  medium = clamp config.medium medium_bounds;
  slow = clamp config.slow slow_bounds;
  history = clamp config.history history_bounds;
}

-- The rotating slots of the medium tier.
pub data Slot : Type 0 where
  poe errors environment load : Slot

unfoldable pub slot_at : ℕ → Slot
slot_at index =
    let r = index % 4 in
    if r == 0 then poe else if r == 1 then errors else if r == 2 then environment else load

slot_kind : Slot → Text
slot_kind poe = codes "live-medium-poe"
slot_kind errors = codes "live-medium-errors"
slot_kind environment = codes "live-medium-environment"
slot_kind load = codes "live-medium-load"

pub record Collector (W A : Type 0) : Type 0 where
  pub session : Session W A
  pub config : TierConfig
  pub paused : Bool
  pub stopping : Bool
  pub medium_index : ℕ
  pub ticks_skipped : ℕ
  pub ticks_run : ℕ

-- The variables of `_loop`, when each tier ran in it, the latest first, and how many ticks were asked for
-- from outside the loop.
pub record Times : Type 0 where
  pub next_fast : ℕ
  pub next_medium : ℕ
  pub next_slow : ℕ
  pub next_history : ℕ
  pub fast_log : List ℕ
  pub medium_log : List ℕ
  pub slow_log : List ℕ
  pub direct : ℕ

-- The work of the ticks.
pub record Works (W A : Type 0) : Type 0 where
  pub fast : W → Result A × W
  pub medium : Slot → W → Result A × W
  pub slow : W → Result A × W

-- What happens to a collector; `take_event` is the worker that takes the next job, and `collect_event` is
-- a call of `collect_fast` from outside the loop, as main.py makes it after `resume`.
pub data Event : Type 0 where
  round_event : ℕ → Bool → Event
  pause_event resume_event stop_event take_event collect_event : Event
  configure_event : TierConfig → Event

-- The start of the loop, at a time.
abbrev pub first_times : ℕ → Times
first_times now = record {
  next_fast = now;
  next_medium = now;
  next_slow = now;
  next_history = now;
  fast_log = [];
  medium_log = [];
  slow_log = [];
  direct = 0;
}

module _ {W A : Type 0} where
  unfoldable pub init : Session W A → TierConfig → Collector W A
  unfolding clamped
  init session config = record {
    session = session;
    config = clamped config;
    paused = false;
    stopping = false;
    medium_index = 0;
    ticks_skipped = 0;
    ticks_run = 0;
  }

  -- `_submit`: a tick whose kind waits already is skipped.
  unfoldable pub submit_tick : Text → ℕ → (W → Result A × W) → Collector W A → Collector W A
  unfolding has_pending submit
  submit_tick kind priority work c =
      if has_pending kind c.session
      then record c { ticks_skipped = c.ticks_skipped + 1 }
      else record c {
        ticks_run = c.ticks_run + 1;
        session = (submit priority kind work c.session).1;
      }

  module _ (works : Works W A) where
    unfoldable pub collect_fast : Collector W A → Collector W A
    unfolding submit_tick
    collect_fast = submit_tick (codes "live-fast") 2 works.fast

    unfoldable pub collect_medium : Collector W A → Collector W A
    unfolding submit_tick slot_at slot_kind
    collect_medium c =
        let slot = slot_at c.medium_index in
        submit_tick (slot_kind slot) 3 (works.medium slot)
          (record c { medium_index = c.medium_index + 1 })

    unfoldable pub collect_slow : Collector W A → Collector W A
    unfolding submit_tick
    collect_slow = submit_tick (codes "live-slow") 4 works.slow

    try_fast : ℕ → Collector W A × Times → Collector W A × Times
    unfolding collect_fast
    try_fast now (c, t) =
        let due = leb t.next_fast now in
        (
          (if due then collect_fast c else c),
          (if due
              then record t { next_fast = now + c.config.fast; fast_log = now ∷ t.fast_log }
              else t),
        )

    try_medium : ℕ → Collector W A × Times → Collector W A × Times
    unfolding collect_medium
    try_medium now (c, t) =
        let due = leb t.next_medium now in
        (
          (if due then collect_medium c else c),
          (if due
              then record t { next_medium = now + c.config.medium; medium_log = now ∷ t.medium_log }
              else t),
        )

    try_slow : ℕ → Collector W A × Times → Collector W A × Times
    unfolding collect_slow
    try_slow now (c, t) =
        let due = leb t.next_slow now in
        (
          (if due then collect_slow c else c),
          (if due
              then record t { next_slow = now + c.config.slow; slow_log = now ∷ t.slow_log }
              else t),
        )

    -- The listener of the history may raise, and then its time stays as it is.
    try_history : ℕ → Bool → Collector W A × Times → Collector W A × Times
    try_history now raises (c, t) = (
      c,
      (if leb t.next_history now && not raises
          then record t { next_history = now + c.config.history }
          else t),
    )

    -- One round of `_loop`; while paused it does nothing.
    unfoldable pub round : ℕ → Bool → Collector W A × Times → Collector W A × Times
    unfolding try_fast try_medium try_slow try_history
    round now raises (c, t) =
        let done = try_history now raises (try_slow now (try_medium now (try_fast now (c, t)))) in
        if c.stopping then (c, t) else if c.paused then (c, t) else done

    without_first : Collector W A → Collector W A
    unfolding get
    without_first c = elim (get c.session.queue) [
      | none ↦ c
      | some (job, rest) ↦ record c { session = record (c.session) { queue = rest } }
    ]

    unfoldable pub step : Collector W A × Times → Event → Collector W A × Times
    unfolding round clamped without_first collect_fast
    step s (round_event now raises) = round now raises s
    step (c, t) pause_event = (record c { paused = true }, t)
    step (c, t) resume_event = (record c { paused = false }, t)
    step (c, t) stop_event = (record c { stopping = true }, t)
    step (c, t) take_event = (without_first c, t)
    step (c, t) collect_event = (collect_fast c, record t { direct = t.direct + 1 })
    step (c, t) (configure_event config) = (record c { config = clamped config }, t)

    unfoldable pub run : Collector W A × Times → List Event → Collector W A × Times
    unfolding step
    run s [] = s
    run s (e ∷ es) = run (step s e) es
