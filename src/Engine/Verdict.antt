-- ===== src/Engine/Verdict.antt =====
-- burnin/engine/verdict.go: computeVerdict and checkLatency. Go goes through the map of snapshots
-- in no fixed order: the list of snapshots stands for the order of one run.
pub mod Decision
pub mod Gates
use kubemq_gcp_pub_sub.Base.{
  ℕ, String, List, [], ◌∷◌, ◌++◌, map, Bool, true, false, not, ◌&&◌, ◌||◌, check, ltb, ◌==◌,
  if◌then◌else◌,
}
use kubemq_gcp_pub_sub.Base.Words.{add64}
use kubemq_gcp_pub_sub.Base.Int.{ℤ, pos, ltb_ℤ}
use kubemq_gcp_pub_sub.Base.Floats.{Floats}
use kubemq_gcp_pub_sub.Config.{Config}
use kubemq_gcp_pub_sub.Config.Lookup.{get_worker_rate}
use kubemq_gcp_pub_sub.Config.Names.{
  is_ordering_worker, is_exactly_once_worker, is_dead_letter_worker, is_fanout_worker,
  is_interop_worker, is_filtering_worker, is_schema_enforce_worker, is_seek_snapshot_worker,
  is_inflight_cap_worker, is_streaming_pull_worker, is_latency_gate_exempt,
  is_duplication_gate_exempt,
}
use kubemq_gcp_pub_sub.Engine.{WorkerSnapshot, VerdictResult, Gate, Warning}

-- The closure `fail`, once for each failure.
unfoldable pub fail_each : String → List Gate → VerdictResult → VerdictResult
fail_each name [] v = v
fail_each name (g ∷ gs) v = fail_each name gs (record {
  result = "FAILED";
  passed = false;
  warnings = v.warnings ++ Warning.failed name g ∷ [];
})

module _ (F : Floats) where
  open F use {Float, ratio, gt, of_uint, of_int, mul, div, seconds}

  -- a / b * 100
  abbrev pub percent : Float → Float → Float
  percent a b = mul (div a b) (ratio 100 1)

  unfoldable pub boundary_loss_pct : Float
  boundary_loss_pct = ratio 1 2

  unfoldable pub check_latency : String → Float → Float → List Gate
  check_latency label value threshold =
      check (gt value (ratio 0 1) && gt threshold (ratio 0 1) && gt value threshold)
        (Gate.latency label)

  module _ (c : Config Float) (measurement_duration : ℤ) (name : String)
      (snap : WorkerSnapshot Float) where
    -- The gates on the rates, in the order of the source.
    unfoldable pub rate_gates : List Gate
    rate_gates =
        let total = add64 snap.sent snap.received in
        let loss_pct = percent (of_uint snap.lost) (of_uint snap.sent) in
        let target_rate = of_int (get_worker_rate c name) in
        let actual_rate = div (of_uint snap.sent) (seconds measurement_duration) in
        check (ltb 0 snap.corrupted) Gate.corrupted
        ++ check
            (ltb 0 snap.sent
              && gt loss_pct c.thresholds.max_loss_pct
              && gt loss_pct boundary_loss_pct)
            Gate.loss
        ++ check
            (ltb 0 snap.received
              && not (is_duplication_gate_exempt name)
              && gt (percent (of_uint snap.duplicated) (of_uint snap.received))
                  c.thresholds.max_duplication_pct)
            Gate.duplication
        ++ (if is_latency_gate_exempt name
            then []
            else check_latency "p50" snap.latency_p50 c.thresholds.max_p50_latency_ms
              ++ check_latency "p95" snap.latency_p95 c.thresholds.max_p95_latency_ms
              ++ check_latency "p99" snap.latency_p99 c.thresholds.max_p99_latency_ms
              ++ check_latency "p999" snap.latency_p999 c.thresholds.max_p999_latency_ms)
        ++ check
            (ltb 0 total
              && gt (percent (of_uint snap.errors) (of_uint total)) c.thresholds.max_error_rate_pct)
            Gate.error_rate
        ++ check
            (ltb_ℤ (pos 0) measurement_duration
              && ltb 0 snap.sent
              && not (is_dead_letter_worker name)
              && not (is_seek_snapshot_worker name)
              && not (is_filtering_worker name)
              && gt target_rate (ratio 0 1)
              && gt c.thresholds.min_throughput_pct (percent actual_rate target_rate))
            Gate.throughput
        ++ check
            (ltb_ℤ (pos 0) measurement_duration
              && gt snap.downtime_seconds (ratio 0 1)
              && gt (percent snap.downtime_seconds (seconds measurement_duration))
                  c.thresholds.max_downtime_pct)
            Gate.downtime

    -- The gates on events that must not occur, and on probes that must have been confirmed.
    unfoldable pub fidelity_gates : List Gate
    fidelity_gates =
        check (is_ordering_worker name && ltb 0 snap.ordering_violations) Gate.ordering
        ++ check (is_exactly_once_worker name && ltb 0 snap.exactly_once_unreconciled)
            Gate.exactly_once
        ++ check (is_dead_letter_worker name && ltb 0 snap.dead_letter_lost) Gate.dead_letter
        ++ check (is_fanout_worker name && ltb 0 snap.fanout_dropped) Gate.fan_out
        ++ check (is_interop_worker name && ltb 0 snap.interop_diverged) Gate.interop
        ++ check (ltb 0 snap.batch_atomicity_violations) Gate.batch_atomicity
        ++ check (is_filtering_worker name && ltb 0 snap.filter_mismatch) Gate.filtering
        ++ check (is_schema_enforce_worker name && ltb 0 snap.schema_reject_violations)
            Gate.schema_accepted
        ++ check
            (is_schema_enforce_worker name
              && snap.schema_enforce_probe_ran
              && snap.schema_enforce_confirmed == 0)
            Gate.schema_unconfirmed
        ++ check (is_seek_snapshot_worker name && ltb 0 snap.seek_replay_mismatch) Gate.seek_replay
        ++ check (is_inflight_cap_worker name && ltb 0 snap.inflight_cap_lost) Gate.inflight_cap
        ++ check
            (is_exactly_once_worker name
              && snap.invalid_ack_probe_ran
              && snap.exactly_once_invalid_ack_confirmed == 0)
            Gate.invalid_ack
        ++ check
            (is_exactly_once_worker name
              && snap.confirmations_probe_ran
              && snap.exactly_once_confirmed == 0)
            Gate.confirmations
        ++ check (ltb 0 snap.flow_control_violations) Gate.flow_control
        ++ check (snap.lease_extend_probe_ran && snap.lease_extend_confirmed == 0) Gate.lease_extend
        ++ check (snap.lease_extend_probe_ran && snap.lease_extend_reject_confirmed == 0)
            Gate.lease_reject
        ++ check (snap.cross_stream_ack_probe_ran && snap.cross_stream_ack_confirmed == 0)
            Gate.cross_stream
        ++ check
            (is_dead_letter_worker name
              && ltb 0 snap.dead_letter_republished
              && snap.delivery_attempt_max == 0)
            Gate.delivery_attempt

    unfoldable pub gates : List Gate
    gates = rate_gates ++ fidelity_gates

    -- The notes that never fail a run.
    unfoldable pub notes : List Warning
    notes =
        check (is_dead_letter_worker name && c.gcp.retry_backoff_probe) (
          if ltb 0 snap.retry_backoff_observed
          then Warning.backoff_observed name
          else Warning.backoff_not_observed name)
        ++ check (is_streaming_pull_worker name) (
            if ltb 0 snap.periodic_close_observed
            then Warning.close_observed name
            else Warning.close_not_exercised name)

    -- One pass through the loop's body.
    unfoldable pub judge_worker : VerdictResult → VerdictResult
    judge_worker v =
        let failed_v = fail_each name gates v in
        record failed_v { warnings = failed_v.warnings ++ notes }

  unfoldable pub judge_workers :
      Config Float → ℤ → List (String × WorkerSnapshot Float) → VerdictResult → VerdictResult
  judge_workers c d [] v = v
  judge_workers c d ((name, snap) ∷ snaps) v =
      judge_workers c d snaps (judge_worker c d name snap v)

  -- The advisory on the growth of the resident memory.
  unfoldable pub judge_memory : Config Float → ℕ → ℕ → VerdictResult → VerdictResult
  judge_memory c baseline peak v =
      if ltb 0 baseline
        && ltb baseline peak
        && gt (div (of_uint peak) (of_uint baseline)) c.thresholds.max_memory_growth_factor
      then record v {
        result = if v.passed then "PASSED_WITH_WARNINGS" else v.result;
        warnings = v.warnings ++ Warning.memory_growth ∷ [];
      }
      else v

  unfoldable pub compute_verdict :
      Config Float → ℤ → List (String × WorkerSnapshot Float) → ℕ → ℕ → VerdictResult
  compute_verdict c measurement_duration snaps baseline peak = judge_memory c baseline peak (
      judge_workers c measurement_duration snaps
        (record { result = "PASSED"; passed = true; warnings = [] }))
