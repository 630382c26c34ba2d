-- ===== src/Engine/Capture.antt =====
-- burnin/engine/engine.go: captureWorkerSnapshots, the counters of a group of workers folded into one
-- snapshot. The percentiles of a histogram are the library's, a parameter.
pub mod Totals
use kubemq_gcp_pub_sub.Base.{
  ℕ, String, List, [], ◌∷◌, Bool, false, ◌||◌, Option, none, some, ltb, if◌then◌else◌,
}
use kubemq_gcp_pub_sub.Base.Words.{add64}
use kubemq_gcp_pub_sub.Base.Floats.{Floats}
use kubemq_gcp_pub_sub.Config.Names.{is_fanout_worker}
use kubemq_gcp_pub_sub.Metrics.{rate}
use kubemq_gcp_pub_sub.Tracker.{total_lost, total_out_of_order}
use kubemq_gcp_pub_sub.Worker.{Histogram, BaseWorker}
use kubemq_gcp_pub_sub.Engine.{WorkerSnapshot}

pub record Percentiles (Float : Type 0) : Type 0 where
  pub p50 : Float
  pub p95 : Float
  pub p99 : Float
  pub p999 : Float

module _ (F : Floats) (H : Histogram) (percentiles : H.State → Percentiles F.Float) where
  open F use {Float, ratio, gt, of_uint, add, div}

  unfoldable pub downtime_seconds : BaseWorker H.State → Float
  downtime_seconds w = div (of_uint w.downtime) (ratio 1000000000 1)

  -- RateWindow().Rate() and PeakRate().Peak() as float64.
  unfoldable pub average_rate : BaseWorker H.State → Float
  average_rate w = let (n, d) = rate w.rate_window in div (of_uint n) (of_uint d)

  unfoldable pub peak_of : BaseWorker H.State → Float
  peak_of w = div (of_uint w.peak_rate.peak) (ratio 10 1)

  unfoldable pub empty_snapshot : WorkerSnapshot Float
  empty_snapshot = record {
    sent = 0;
    received = 0;
    errors = 0;
    corrupted = 0;
    reconnections = 0;
    duplicated = 0;
    lost = 0;
    out_of_order = 0;
    acked = 0;
    ordering_violations = 0;
    fanout_deliveries = 0;
    fanout_dropped = 0;
    exactly_once_confirmed = 0;
    exactly_once_unreconciled = 0;
    dead_letter_republished = 0;
    dead_letter_lost = 0;
    interop_converged = 0;
    interop_diverged = 0;
    nack_redelivered = 0;
    batch_atomicity_violations = 0;
    filter_mismatch = 0;
    filter_matched_delivered = 0;
    schema_reject_violations = 0;
    schema_enforce_confirmed = 0;
    seek_replay_expected = 0;
    seek_replay_observed = 0;
    seek_replay_mismatch = 0;
    inflight_cap_tail_redelivered = 0;
    inflight_cap_lost = 0;
    exactly_once_invalid_ack_confirmed = 0;
    flow_control_violations = 0;
    retry_backoff_observed = 0;
    lease_extend_confirmed = 0;
    lease_extend_reject_confirmed = 0;
    cross_stream_ack_confirmed = 0;
    periodic_close_observed = 0;
    delivery_attempt_max = 0;
    flow_control_probe_ran = false;
    invalid_ack_probe_ran = false;
    confirmations_probe_ran = false;
    cross_stream_ack_probe_ran = false;
    lease_extend_probe_ran = false;
    schema_enforce_probe_ran = false;
    downtime_seconds = ratio 0 1;
    latency_p50 = ratio 0 1;
    latency_p95 = ratio 0 1;
    latency_p99 = ratio 0 1;
    latency_p999 = ratio 0 1;
    peak_rate = ratio 0 1;
    avg_rate = ratio 0 1;
  }

  -- The snapshot so far, with the histogram of the most samples and their number.
  pub record Capture : Type 0 where
    pub snap : WorkerSnapshot Float
    pub best_lat : Option H.State
    pub best_lat_count : ℕ

  unfoldable pub capture_worker : BaseWorker H.State → WorkerSnapshot Float → WorkerSnapshot Float
  capture_worker w snap = record {
    sent = add64 snap.sent w.sent;
    received = add64 snap.received w.received;
    errors = add64 snap.errors w.errors;
    corrupted = add64 snap.corrupted w.corrupted;
    reconnections = add64 snap.reconnections w.reconnections;
    duplicated = add64 snap.duplicated w.duplicated;
    acked = add64 snap.acked w.acked;
    ordering_violations = add64 snap.ordering_violations w.ordering_violations;
    fanout_deliveries = add64 snap.fanout_deliveries w.fanout_deliveries;
    fanout_dropped = add64 snap.fanout_dropped w.fanout_dropped;
    exactly_once_confirmed = add64 snap.exactly_once_confirmed w.exactly_once_confirmed;
    exactly_once_unreconciled = add64 snap.exactly_once_unreconciled w.exactly_once_unreconciled;
    dead_letter_republished = add64 snap.dead_letter_republished w.dead_letter_republished;
    dead_letter_lost = add64 snap.dead_letter_lost w.dead_letter_lost;
    interop_converged = add64 snap.interop_converged w.interop_converged;
    interop_diverged = add64 snap.interop_diverged w.interop_diverged;
    nack_redelivered = add64 snap.nack_redelivered w.nack_redelivered;
    batch_atomicity_violations = add64 snap.batch_atomicity_violations w.batch_atomicity_violations;
    filter_mismatch = add64 snap.filter_mismatch w.filter_mismatch;
    filter_matched_delivered = add64 snap.filter_matched_delivered w.filter_matched_delivered;
    schema_reject_violations = add64 snap.schema_reject_violations w.schema_reject_violations;
    schema_enforce_confirmed = add64 snap.schema_enforce_confirmed w.schema_enforce_confirmed;
    seek_replay_expected = add64 snap.seek_replay_expected w.seek_replay_expected;
    seek_replay_observed = add64 snap.seek_replay_observed w.seek_replay_observed;
    seek_replay_mismatch = add64 snap.seek_replay_mismatch w.seek_replay_mismatch;
    inflight_cap_tail_redelivered =
        add64 snap.inflight_cap_tail_redelivered w.inflight_cap_tail_redelivered;
    inflight_cap_lost = add64 snap.inflight_cap_lost w.inflight_cap_lost;
    exactly_once_invalid_ack_confirmed =
        add64 snap.exactly_once_invalid_ack_confirmed w.exactly_once_invalid_ack_confirmed;
    flow_control_violations = add64 snap.flow_control_violations w.flow_control_violations;
    retry_backoff_observed = add64 snap.retry_backoff_observed w.retry_backoff_observed;
    lease_extend_confirmed = add64 snap.lease_extend_confirmed w.lease_extend_confirmed;
    lease_extend_reject_confirmed =
        add64 snap.lease_extend_reject_confirmed w.lease_extend_reject_confirmed;
    cross_stream_ack_confirmed = add64 snap.cross_stream_ack_confirmed w.cross_stream_ack_confirmed;
    periodic_close_observed = add64 snap.periodic_close_observed w.periodic_close_observed;
    lost = add64 snap.lost (total_lost w.trk);
    out_of_order = add64 snap.out_of_order (total_out_of_order w.trk);
    delivery_attempt_max =
        if ltb snap.delivery_attempt_max w.delivery_attempt_max
        then w.delivery_attempt_max
        else snap.delivery_attempt_max;
    flow_control_probe_ran = snap.flow_control_probe_ran || w.flow_control_probe_ran;
    invalid_ack_probe_ran = snap.invalid_ack_probe_ran || w.invalid_ack_probe_ran;
    confirmations_probe_ran = snap.confirmations_probe_ran || w.confirmations_probe_ran;
    cross_stream_ack_probe_ran = snap.cross_stream_ack_probe_ran || w.cross_stream_ack_probe_ran;
    lease_extend_probe_ran = snap.lease_extend_probe_ran || w.lease_extend_probe_ran;
    schema_enforce_probe_ran = snap.schema_enforce_probe_ran || w.schema_enforce_probe_ran;
    downtime_seconds = add snap.downtime_seconds (downtime_seconds w);
    latency_p50 = snap.latency_p50;
    latency_p95 = snap.latency_p95;
    latency_p99 = snap.latency_p99;
    latency_p999 = snap.latency_p999;
    peak_rate = if gt (peak_of w) snap.peak_rate then peak_of w else snap.peak_rate;
    avg_rate = add snap.avg_rate (average_rate w);
  }

  unfoldable pub capture_latency : BaseWorker H.State → Capture → Capture
  capture_latency w k =
      if ltb k.best_lat_count (H.count w.lat_accum)
      then record k { best_lat_count = H.count w.lat_accum; best_lat = some w.lat_accum }
      else k

  unfoldable pub capture_workers : List (BaseWorker H.State) → Capture → Capture
  capture_workers [] k = k
  capture_workers (w ∷ ws) k =
      capture_workers ws (capture_latency w (record k { snap = capture_worker w k.snap }))

  unfoldable pub set_percentiles : Option H.State → WorkerSnapshot Float → WorkerSnapshot Float
  set_percentiles none snap = snap
  set_percentiles (some lat) snap = record snap {
    latency_p50 = (percentiles lat).p50;
    latency_p95 = (percentiles lat).p95;
    latency_p99 = (percentiles lat).p99;
    latency_p999 = (percentiles lat).p999;
  }

  -- The losses of the fan_out worker are charged to its dropped deliveries.
  unfoldable pub fold_fanout : String → WorkerSnapshot Float → WorkerSnapshot Float
  fold_fanout name snap =
      if is_fanout_worker name
      then record snap { fanout_dropped = add64 snap.fanout_dropped snap.lost; lost = 0 }
      else snap

  -- The snapshot of one group.
  unfoldable pub capture_group : String → List (BaseWorker H.State) → WorkerSnapshot Float
  capture_group name workers =
      let k =
        capture_workers workers
          (record { snap = empty_snapshot; best_lat = none; best_lat_count = 0 }) in
      fold_fanout name (set_percentiles k.best_lat k.snap)

  unfoldable pub capture_worker_snapshots :
      List (String × List (BaseWorker H.State)) → List (String × WorkerSnapshot Float)
  capture_worker_snapshots [] = []
  capture_worker_snapshots ((name, workers) ∷ groups) =
      (name, capture_group name workers) ∷ capture_worker_snapshots groups
