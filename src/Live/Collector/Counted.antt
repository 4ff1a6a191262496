-- ===== src/Live/Collector/Counted.antt =====
-- The ticks that were run or skipped, against those of the rounds and those asked for from outside.
use switch_ops.Prelude.{
  ℕ, ◌+◌, ◌≡◌, ◌∙◌, Bool, true, false, List, [], ◌∷◌, arith, if◌then◌else◌, length, Result,
}
use switch_ops.Text.{Text, codes}
use switch_ops.Live.Collector.{
  Collector, Times, Works, submit_tick, collect_fast, collect_medium, collect_slow, try_fast,
  try_medium, try_slow, try_history, round, Event, round_event, pause_event, resume_event,
  stop_event, take_event, collect_event, configure_event, without_first, step, run, slot_at,
  slot_kind,
}

-- Every tick was due in a round, or was asked for from outside the loop.
abbrev pub IsCounted : {W A : Type 0} → Collector W A × Times → Type 0
IsCounted (c, t) =
    c.ticks_run + c.ticks_skipped
    ≡ length t.fast_log + length t.medium_log + length t.slow_log + t.direct

module _ {W A : Type 0} where
  -- A tick is run or skipped.
  submit_tick-count :
      (kind : Text) (priority : ℕ) (work : W → Result A × W) (c : Collector W A)
      → (submit_tick kind priority work c).ticks_run
          + (submit_tick kind priority work c).ticks_skipped
        ≡ c.ticks_run + c.ticks_skipped + 1
  unfolding submit_tick
  submit_tick-count kind priority work c = ground arith

  module _ (works : Works W A) where
    try_fast-IsCounted :
        (now : ℕ) (c : Collector W A) (t : Times)
        → IsCounted (c, t)
        → IsCounted (try_fast works now (c, t))
    unfolding try_fast collect_fast
    try_fast-IsCounted now c t h =
        let k = submit_tick-count (codes "live-fast") 2 works.fast c in ground (arith, h, k)

    try_medium-IsCounted :
        (now : ℕ) (c : Collector W A) (t : Times)
        → IsCounted (c, t)
        → IsCounted (try_medium works now (c, t))
    unfolding try_medium collect_medium
    try_medium-IsCounted now c t h =
        let slot = slot_at c.medium_index in
        let k =
          submit_tick-count (slot_kind slot) 3 (works.medium slot)
            (record c { medium_index = c.medium_index + 1 }) in
        ground (arith, h, k)

    try_slow-IsCounted :
        (now : ℕ) (c : Collector W A) (t : Times)
        → IsCounted (c, t)
        → IsCounted (try_slow works now (c, t))
    unfolding try_slow collect_slow
    try_slow-IsCounted now c t h =
        let k = submit_tick-count (codes "live-slow") 4 works.slow c in ground (arith, h, k)

    try_history-IsCounted :
        (now : ℕ) (raises : Bool) (c : Collector W A) (t : Times)
        → IsCounted (c, t)
        → IsCounted (try_history works now raises (c, t))
    unfolding try_history
    try_history-IsCounted now raises c t h = ground (arith, h)

    round-IsCounted :
        (now : ℕ) (raises : Bool) (c : Collector W A) (t : Times)
        → IsCounted (c, t)
        → IsCounted (round works now raises (c, t))
    unfolding round
    round-IsCounted now raises c t h = by_test c.stopping c.paused
      where
        done : Collector W A × Times
        done =
            try_history works now raises
              (try_slow works now (try_medium works now (try_fast works now (c, t))))

        counted : IsCounted done
        counted =
            let (c1, t1) = try_fast works now (c, t) in
            let (c2, t2) = try_medium works now (c1, t1) in
            let (c3, t3) = try_slow works now (c2, t2) in
            try_history-IsCounted now raises c3 t3 (
              try_slow-IsCounted now c2 t2
                (try_medium-IsCounted now c1 t1 (try_fast-IsCounted now c t h)))

        by_test : (a b : Bool) → IsCounted (if a then (c, t) else if b then (c, t) else done)
        by_test true b = h
        by_test false true = h
        by_test false false = counted

    without_first-count :
        (c : Collector W A)
        → (without_first works c).ticks_run + (without_first works c).ticks_skipped
          ≡ c.ticks_run + c.ticks_skipped
    unfolding without_first
    without_first-count c = ground arith

    step-IsCounted :
        (c : Collector W A) (t : Times) (e : Event)
        → IsCounted (c, t)
        → IsCounted (step works (c, t) e)
    unfolding step collect_fast
    step-IsCounted c t (round_event now raises) h = round-IsCounted now raises c t h
    step-IsCounted c t pause_event h = h
    step-IsCounted c t resume_event h = h
    step-IsCounted c t stop_event h = h
    step-IsCounted c t take_event h = without_first-count c ∙ h
    step-IsCounted c t collect_event h =
        let k = submit_tick-count (codes "live-fast") 2 works.fast c in omega (arith, h, k)
    step-IsCounted c t (configure_event config) h = h

    pub run-IsCounted :
        (es : List Event) (c : Collector W A) (t : Times)
        → IsCounted (c, t)
        → IsCounted (run works (c, t) es)
    unfolding run
    run-IsCounted [] c t h = h
    run-IsCounted (e ∷ es) c t h =
        let (c1, t1) = step works (c, t) e in run-IsCounted es c1 t1 (step-IsCounted c t e h)
