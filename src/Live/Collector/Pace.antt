-- ===== src/Live/Collector/Pace.antt =====
-- The intervals of the collector and the times of its ticks, through any run of the loop.
use switch_ops.Prelude.{ℕ, ◌+◌, ◌≤◌, List, [], ◌∷◌}
use switch_ops.Text.{Text}
use switch_ops.Session.Connection.{Session}
use switch_ops.Live.Collector.{TierConfig, Collector, Times}

-- Times that come `gap` apart, the latest first, and the last of them as far before `next`.
abbrev pub Apart : ℕ → ℕ → List ℕ → Type 0
Apart gap next [] = Unit
Apart gap next (now ∷ older) = (now + gap ≤ next) × Apart gap now older

-- What holds all the time: the intervals are within their bounds, and each tier keeps its distance.
pub record IsPaced (config : TierConfig) (t : Times) : Type 0 where
  pub fast : 2000 ≤ config.fast
  pub medium : 10000 ≤ config.medium
  pub slow : 30000 ≤ config.slow
  pub fast_log : Apart 2000 t.next_fast t.fast_log
  pub medium_log : Apart 10000 t.next_medium t.medium_log
  pub slow_log : Apart 30000 t.next_slow t.slow_log

abbrev IsPacedOf : {W A : Type 0} → Collector W A × Times → Type 0
IsPacedOf (c, t) = IsPaced c.config t
