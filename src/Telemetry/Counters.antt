-- ===== src/Telemetry/Counters.antt =====
-- A counter of 32 bits that grows between two observations.
use switch_ops.Prelude.{ℕ, ◌+◌, ◌%◌, ◌≤◌, ◌<◌, ◌≡◌, arith, some}
use switch_ops.Telemetry.{calculate_counter_delta}

-- A counter of 32 bits that goes on by at most a tenth of its range is read right, whether it passes
-- its end or not: the difference is what it went on by.
pub calculate_counter_delta-growth :
    (previous growth : ℕ)
    → previous < 4294967296
    → growth ≤ 429496730
    → (calculate_counter_delta (some previous) ((previous + growth) % 4294967296)).0 ≡ some growth
unfolding calculate_counter_delta
calculate_counter_delta-growth previous growth h k = ground (arith, h, k)
