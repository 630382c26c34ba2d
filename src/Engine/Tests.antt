-- ===== src/Engine/Tests.antt =====
-- Runs of the verdict, the capture and the life of a run.
use kubemq_gcp_pub_sub.Base.{
  ℕ, ◌≡◌, ◌≤◌, refl, List, [], ◌∷◌, some, true, false, all, length, String, if◌then◌else◌,
}
use kubemq_gcp_pub_sub.Base.Int.{pos}
use kubemq_gcp_pub_sub.Base.Words.{add64}
use kubemq_gcp_pub_sub.Samples.{milli, samples, no_percentiles, defaults, quiet, lossy, busy_worker}
use kubemq_gcp_pub_sub.Config.Names.{is_fanout_worker}
use kubemq_gcp_pub_sub.Tracker.{total_lost}
use kubemq_gcp_pub_sub.Engine.{WorkerSnapshot}
use kubemq_gcp_pub_sub.Engine.Capture.{capture_group}
use kubemq_gcp_pub_sub.Engine.Capture.Totals.{capture_group_lem, summed}
use kubemq_gcp_pub_sub.Engine.Verdict.{compute_verdict}
use kubemq_gcp_pub_sub.Engine.Verdict.Decision.{is_clean, memory_grew, compute_verdict_lem}
use kubemq_gcp_pub_sub.Engine.Lifecycle.{
  Event, LoopEvent, new, steps, can_start, step, step_loop, start_run, finish_loop, state_after,
  close_channel,
}
use kubemq_gcp_pub_sub.Engine.Lifecycle.Coherent.{belongs, is_hasty, is_patient, patient_run}
use kubemq_gcp_pub_sub.Engine.Setup.{
  Answers, WorkerGroup, build_groups, put_group, new_worker_group, count_up, channels_of,
  try_workers, try_groups, call_groups, warmup, run_setup,
}
use kubemq_gcp_pub_sub.Engine.Setup.Order.{IsOrdered, run_setup_lem}
use kubemq_gcp_pub_sub.Config.Lookup.{get_worker_config, get_worker_channels, get_worker}

abbrev two : List (String × WorkerSnapshot ℕ)
two = ("dead_letter", lossy) ∷ ("fan_out", quiet) ∷ []

abbrev swapped : List (String × WorkerSnapshot ℕ)
swapped = ("fan_out", quiet) ∷ ("dead_letter", lossy) ∷ []

compute_verdict_lem_example :
    ((compute_verdict milli defaults (pos 1000) two 5 20).passed
      ≡ all (is_clean milli defaults (pos 1000)) two)
    × ((compute_verdict milli defaults (pos 1000) two 5 20).result ≡ (
        if all (is_clean milli defaults (pos 1000)) two
        then (if memory_grew milli defaults (pos 1000) two 5 20
            then "PASSED_WITH_WARNINGS"
            else "PASSED")
        else "FAILED"))
compute_verdict_lem_example = compute_verdict_lem milli defaults (pos 1000) two 5 20

capture_group_lem_example :
    ((capture_group milli samples no_percentiles "fan_out" (busy_worker ∷ [])).sent
      ≡ summed milli samples no_percentiles (λ w. w.sent) (busy_worker ∷ []))
    × ((capture_group milli samples no_percentiles "fan_out" (busy_worker ∷ [])).received
        ≡ summed milli samples no_percentiles (λ w. w.received) (busy_worker ∷ []))
    × ((capture_group milli samples no_percentiles "fan_out" (busy_worker ∷ [])).errors
        ≡ summed milli samples no_percentiles (λ w. w.errors) (busy_worker ∷ []))
    × ((capture_group milli samples no_percentiles "fan_out" (busy_worker ∷ [])).corrupted
        ≡ summed milli samples no_percentiles (λ w. w.corrupted) (busy_worker ∷ []))
    × ((capture_group milli samples no_percentiles "fan_out" (busy_worker ∷ [])).lost ≡ (
        if is_fanout_worker "fan_out"
        then 0
        else summed milli samples no_percentiles (λ w. total_lost w.trk) (busy_worker ∷ [])))
    × ((capture_group milli samples no_percentiles "fan_out" (busy_worker ∷ [])).fanout_dropped ≡ (
        if is_fanout_worker "fan_out"
        then add64
            (summed milli samples no_percentiles (λ w. w.fanout_dropped) (busy_worker ∷ []))
            (summed milli samples no_percentiles (λ w. total_lost w.trk) (busy_worker ∷ []))
        else summed milli samples no_percentiles (λ w. w.fanout_dropped) (busy_worker ∷ [])))
capture_group_lem_example =
    capture_group_lem milli samples no_percentiles "fan_out" (busy_worker ∷ [])

-- A run that fails, ends, and is followed by one that is stopped, beside a start that is refused.
abbrev patient_events : List Event
patient_events =
    Event.start
    ∷ Event.loop 0 LoopEvent.set_error
    ∷ Event.loop 0 LoopEvent.finish
    ∷ Event.start
    ∷ Event.close 0
    ∷ Event.loop 0 LoopEvent.run
    ∷ Event.start
    ∷ Event.loop 0 LoopEvent.stop
    ∷ Event.loop 0 LoopEvent.finish
    ∷ Event.close 0
    ∷ []

patient_run_example :
    (length (steps patient_events new).loops ≤ 1)
    × (belongs (steps patient_events new).state (steps patient_events new).loops ≡ true)
    × ((steps patient_events new).panicked ≡ false)
unfolding is_patient is_hasty new can_start step step_loop start_run finish_loop state_after
    close_channel
patient_run_example = patient_run patient_events refl

-- A start between a failed run's error and its deferred function: the new run is marked stopped
-- while it is set up, and its own end closes the channel again.
hasty_start_panics :
    (steps
      (Event.start
        ∷ Event.loop 0 LoopEvent.set_error
        ∷ Event.start
        ∷ Event.loop 0 LoopEvent.finish
        ∷ Event.loop 0 LoopEvent.finish
        ∷ Event.close 0
        ∷ Event.close 0
        ∷ [])
      new).panicked
    ≡ true
unfolding steps new can_start step step_loop start_run finish_loop state_after close_channel
hasty_start_panics = refl

-- The groups of two worker types in the default configuration.
abbrev some_groups : List WorkerGroup
some_groups =
    record { name = "fan_out"; workers = 1 ∷ [] }
    ∷ record { name = "dead_letter"; workers = 1 ∷ [] }
    ∷ []

groups_built : build_groups defaults ("fan_out" ∷ "dead_letter" ∷ []) ≡ some some_groups
unfolding build_groups put_group new_worker_group count_up channels_of get_worker_config
    get_worker_channels get_worker kubemq_gcp_pub_sub.Config.Default.default_config
    kubemq_gcp_pub_sub.Config.Default.default_workers
groups_built = refl

abbrev welcome : Answers
welcome = record {
  starts = λ name i. true;
  is_ready = λ name i. true;
  cancelled_ready = false;
  cancelled_draining = false;
  cancelled_warm = false;
  stop_order = some_groups;
  reset_order = some_groups;
}

run_setup_lem_example : IsOrdered welcome some_groups (run_setup welcome some_groups).1
unfolding run_setup try_workers try_groups call_groups warmup
run_setup_lem_example = run_setup_lem welcome some_groups refl
