-- ===== src/Worker.antt =====
-- burnin/worker/worker.go: BaseWorker, the state that all workers share. An atomic counter is a
-- uint64 as a native number, and each helper is one atomic step. The HDR histogram behind the
-- latency accumulator is the interface Histogram; the Prometheus vectors, the clients, the limiter
-- and the contexts belong to libraries and are left out.
pub mod Attrs
pub mod ExactlyOnce
pub mod Probes
pub mod Seek
pub mod Inflight
pub mod Batch
pub mod Schema
pub mod Handling
pub mod Receiving
pub mod Start
pub mod Nack
pub mod Interop
pub mod Reconcile
pub mod DeadLetter
pub mod Publishing
pub mod Reset
pub mod Counting
pub mod Exporting
pub mod Ordering
mod Scenarios
mod Tests
use kubemq_gcp_pub_sub.Base.{ℕ, ◌-◌, String, Bool, true, false, ltb, leb, ◌==◌, ◌≡◌, if◌then◌else◌}
use kubemq_gcp_pub_sub.Base.Words.{add64}
use kubemq_gcp_pub_sub.Base.Int.{ℤ}
use kubemq_gcp_pub_sub.Metrics.{
  SlidingRateWindow, PeakRateTracker, new_sliding_rate_window, new_peak_rate_tracker, slide_record,
  slide_advance, slide_reset, peak_record, peak_advance,
}
use kubemq_gcp_pub_sub.Tracker.{Tracker}
use kubemq_gcp_pub_sub.Tracker

-- The latency accumulator: durations in nanoseconds go in; reset empties it.
pub record Histogram : Type 1 where
  pub State : Type 0
  pub empty : State
  pub observe : ℕ → State → State
  pub clear : State → State
  pub count : State → ℕ
  pub clear_lem : (h : State) → clear h ≡ empty

pub record BaseWorker (Hist : Type 0) : Type 0 where
  pub name : String
  pub channel_name : String
  pub channel_index : ℤ
  pub trk : Tracker
  pub lat_accum : Hist
  pub peak_rate : PeakRateTracker
  pub rate_window : SlidingRateWindow
  pub disconnect_gen : ℕ
  pub sent : ℕ
  pub received : ℕ
  pub errors : ℕ
  pub corrupted : ℕ
  pub reconnections : ℕ
  pub downtime : ℕ
  pub duplicated : ℕ
  pub acked : ℕ
  pub ordering_violations : ℕ
  pub fanout_deliveries : ℕ
  pub fanout_dropped : ℕ
  pub exactly_once_confirmed : ℕ
  pub exactly_once_unreconciled : ℕ
  pub dead_letter_republished : ℕ
  pub dead_letter_lost : ℕ
  pub interop_converged : ℕ
  pub interop_diverged : ℕ
  pub nack_redelivered : ℕ
  pub batch_atomicity_violations : ℕ
  pub filter_mismatch : ℕ
  pub filter_matched_delivered : ℕ
  pub schema_reject_violations : ℕ
  pub schema_enforce_confirmed : ℕ
  pub seek_replay_expected : ℕ
  pub seek_replay_observed : ℕ
  pub seek_replay_mismatch : ℕ
  pub inflight_cap_tail_redelivered : ℕ
  pub inflight_cap_lost : ℕ
  pub exactly_once_invalid_ack_confirmed : ℕ
  pub flow_control_violations : ℕ
  pub retry_backoff_observed : ℕ
  pub lease_extend_confirmed : ℕ
  pub lease_extend_reject_confirmed : ℕ
  pub delivery_attempt_max : ℕ
  pub cross_stream_ack_confirmed : ℕ
  pub periodic_close_observed : ℕ
  pub flow_control_probe_ran : Bool
  pub invalid_ack_probe_ran : Bool
  pub confirmations_probe_ran : Bool
  pub cross_stream_ack_probe_ran : Bool
  pub lease_extend_probe_ran : Bool
  pub schema_enforce_probe_ran : Bool

module _ (H : Histogram) where
  open H use {State}

  unfoldable pub new_base_worker : String → String → ℤ → ℕ → BaseWorker State
  new_base_worker name channel_name channel_index reorder_window = record {
    name = name;
    channel_name = channel_name;
    channel_index = channel_index;
    trk = Tracker.new reorder_window;
    lat_accum = H.empty;
    peak_rate = new_peak_rate_tracker;
    rate_window = new_sliding_rate_window;
    disconnect_gen = 0;
    sent = 0;
    received = 0;
    errors = 0;
    corrupted = 0;
    reconnections = 0;
    downtime = 0;
    duplicated = 0;
    acked = 0;
    ordering_violations = 0;
    fanout_deliveries = 0;
    fanout_dropped = 0;
    exactly_once_confirmed = 0;
    exactly_once_unreconciled = 0;
    dead_letter_republished = 0;
    dead_letter_lost = 0;
    interop_converged = 0;
    interop_diverged = 0;
    nack_redelivered = 0;
    batch_atomicity_violations = 0;
    filter_mismatch = 0;
    filter_matched_delivered = 0;
    schema_reject_violations = 0;
    schema_enforce_confirmed = 0;
    seek_replay_expected = 0;
    seek_replay_observed = 0;
    seek_replay_mismatch = 0;
    inflight_cap_tail_redelivered = 0;
    inflight_cap_lost = 0;
    exactly_once_invalid_ack_confirmed = 0;
    flow_control_violations = 0;
    retry_backoff_observed = 0;
    lease_extend_confirmed = 0;
    lease_extend_reject_confirmed = 0;
    delivery_attempt_max = 0;
    cross_stream_ack_confirmed = 0;
    periodic_close_observed = 0;
    flow_control_probe_ran = false;
    invalid_ack_probe_ran = false;
    confirmations_probe_ran = false;
    cross_stream_ack_probe_ran = false;
    lease_extend_probe_ran = false;
    schema_enforce_probe_ran = false;
  }

  unfoldable pub record_latency : ℕ → BaseWorker State → BaseWorker State
  record_latency d w = record w { lat_accum = H.observe d w.lat_accum }

  unfoldable pub reset_after_warmup : BaseWorker State → BaseWorker State
  reset_after_warmup w = record w {
    trk = Tracker.reset w.trk;
    lat_accum = H.clear w.lat_accum;
    peak_rate = new_peak_rate_tracker;
    rate_window = slide_reset w.rate_window;
    sent = 0;
    received = 0;
    errors = 0;
    corrupted = 0;
    reconnections = 0;
    downtime = 0;
    duplicated = 0;
    acked = 0;
    ordering_violations = 0;
    fanout_deliveries = 0;
    fanout_dropped = 0;
    exactly_once_confirmed = 0;
    exactly_once_unreconciled = 0;
    dead_letter_republished = 0;
    dead_letter_lost = 0;
    interop_converged = 0;
    interop_diverged = 0;
    nack_redelivered = 0;
    batch_atomicity_violations = 0;
    filter_mismatch = 0;
    filter_matched_delivered = 0;
    schema_reject_violations = 0;
    schema_enforce_confirmed = 0;
    seek_replay_expected = 0;
    seek_replay_observed = 0;
    seek_replay_mismatch = 0;
    inflight_cap_tail_redelivered = 0;
    inflight_cap_lost = 0;
    exactly_once_invalid_ack_confirmed = 0;
    flow_control_violations = 0;
    retry_backoff_observed = 0;
    lease_extend_confirmed = 0;
    lease_extend_reject_confirmed = 0;
    delivery_attempt_max = 0;
    cross_stream_ack_confirmed = 0;
    periodic_close_observed = 0;
    flow_control_probe_ran = false;
    invalid_ack_probe_ran = false;
    confirmations_probe_ran = false;
    cross_stream_ack_probe_ran = false;
    lease_extend_probe_ran = false;
    schema_enforce_probe_ran = false;
  }

module _ {Hist : Type 0} where
  unfoldable pub record_sent : BaseWorker Hist → BaseWorker Hist
  record_sent w = record w {
    sent = add64 w.sent 1;
    rate_window = slide_record w.rate_window;
    peak_rate = peak_record w.peak_rate;
  }

  unfoldable pub record_received : BaseWorker Hist → BaseWorker Hist
  record_received w = record w { received = add64 w.received 1 }

  unfoldable pub record_acked : BaseWorker Hist → BaseWorker Hist
  record_acked w = record w { acked = add64 w.acked 1 }

  unfoldable pub record_error : BaseWorker Hist → BaseWorker Hist
  record_error w = record w { errors = add64 w.errors 1 }

  unfoldable pub record_corrupted : BaseWorker Hist → BaseWorker Hist
  record_corrupted w = record w { corrupted = add64 w.corrupted 1 }

  unfoldable pub record_duplicated : BaseWorker Hist → BaseWorker Hist
  record_duplicated w = record w { duplicated = add64 w.duplicated 1 }

  unfoldable pub record_reconnection : BaseWorker Hist → BaseWorker Hist
  record_reconnection w = record w { reconnections = add64 w.reconnections 1 }

  unfoldable pub record_ordering_violation : BaseWorker Hist → BaseWorker Hist
  record_ordering_violation w = record w { ordering_violations = add64 w.ordering_violations 1 }

  unfoldable pub record_fanout_delivery : BaseWorker Hist → BaseWorker Hist
  record_fanout_delivery w = record w { fanout_deliveries = add64 w.fanout_deliveries 1 }

  unfoldable pub record_dead_letter_republished : BaseWorker Hist → BaseWorker Hist
  record_dead_letter_republished w = record w {
    dead_letter_republished = add64 w.dead_letter_republished 1;
  }

  unfoldable pub record_interop_converged : BaseWorker Hist → BaseWorker Hist
  record_interop_converged w = record w { interop_converged = add64 w.interop_converged 1 }

  unfoldable pub record_nack_redelivered : BaseWorker Hist → BaseWorker Hist
  record_nack_redelivered w = record w { nack_redelivered = add64 w.nack_redelivered 1 }

  unfoldable pub record_batch_atomicity_violation : BaseWorker Hist → BaseWorker Hist
  record_batch_atomicity_violation w = record w {
    batch_atomicity_violations = add64 w.batch_atomicity_violations 1;
  }

  unfoldable pub record_filter_mismatch : BaseWorker Hist → BaseWorker Hist
  record_filter_mismatch w = record w { filter_mismatch = add64 w.filter_mismatch 1 }

  unfoldable pub record_filter_matched_delivered : BaseWorker Hist → BaseWorker Hist
  record_filter_matched_delivered w = record w {
    filter_matched_delivered = add64 w.filter_matched_delivered 1;
  }

  unfoldable pub record_schema_reject_violation : BaseWorker Hist → BaseWorker Hist
  record_schema_reject_violation w = record w {
    schema_reject_violations = add64 w.schema_reject_violations 1;
  }

  unfoldable pub record_schema_enforce_confirmed : BaseWorker Hist → BaseWorker Hist
  record_schema_enforce_confirmed w = record w {
    schema_enforce_confirmed = add64 w.schema_enforce_confirmed 1;
  }

  unfoldable pub record_seek_replay_mismatch : BaseWorker Hist → BaseWorker Hist
  record_seek_replay_mismatch w = record w { seek_replay_mismatch = add64 w.seek_replay_mismatch 1 }

  unfoldable pub record_inflight_cap_tail_redelivered : BaseWorker Hist → BaseWorker Hist
  record_inflight_cap_tail_redelivered w = record w {
    inflight_cap_tail_redelivered = add64 w.inflight_cap_tail_redelivered 1;
  }

  unfoldable pub record_exactly_once_invalid_ack_confirmed : BaseWorker Hist → BaseWorker Hist
  record_exactly_once_invalid_ack_confirmed w = record w {
    exactly_once_invalid_ack_confirmed = add64 w.exactly_once_invalid_ack_confirmed 1;
  }

  unfoldable pub record_flow_control_violation : BaseWorker Hist → BaseWorker Hist
  record_flow_control_violation w = record w {
    flow_control_violations = add64 w.flow_control_violations 1;
  }

  unfoldable pub record_retry_backoff_observed : BaseWorker Hist → BaseWorker Hist
  record_retry_backoff_observed w = record w {
    retry_backoff_observed = add64 w.retry_backoff_observed 1;
  }

  unfoldable pub record_lease_extend_confirmed : BaseWorker Hist → BaseWorker Hist
  record_lease_extend_confirmed w = record w {
    lease_extend_confirmed = add64 w.lease_extend_confirmed 1;
  }

  unfoldable pub record_lease_extend_reject_confirmed : BaseWorker Hist → BaseWorker Hist
  record_lease_extend_reject_confirmed w = record w {
    lease_extend_reject_confirmed = add64 w.lease_extend_reject_confirmed 1;
  }

  unfoldable pub record_cross_stream_ack_confirmed : BaseWorker Hist → BaseWorker Hist
  record_cross_stream_ack_confirmed w = record w {
    cross_stream_ack_confirmed = add64 w.cross_stream_ack_confirmed 1;
  }

  unfoldable pub record_periodic_close_observed : BaseWorker Hist → BaseWorker Hist
  record_periodic_close_observed w = record w {
    periodic_close_observed = add64 w.periodic_close_observed 1;
  }

  unfoldable pub record_fanout_dropped : ℕ → BaseWorker Hist → BaseWorker Hist
  record_fanout_dropped n w = record w { fanout_dropped = add64 w.fanout_dropped n }

  unfoldable pub record_dead_letter_lost : ℕ → BaseWorker Hist → BaseWorker Hist
  record_dead_letter_lost n w = record w { dead_letter_lost = add64 w.dead_letter_lost n }

  unfoldable pub record_interop_diverged : ℕ → BaseWorker Hist → BaseWorker Hist
  record_interop_diverged n w = record w { interop_diverged = add64 w.interop_diverged n }

  unfoldable pub record_seek_replay_expected : ℕ → BaseWorker Hist → BaseWorker Hist
  record_seek_replay_expected n w = record w {
    seek_replay_expected = add64 w.seek_replay_expected n;
  }

  unfoldable pub record_seek_replay_observed : ℕ → BaseWorker Hist → BaseWorker Hist
  record_seek_replay_observed n w = record w {
    seek_replay_observed = add64 w.seek_replay_observed n;
  }

  unfoldable pub record_inflight_cap_lost : ℕ → BaseWorker Hist → BaseWorker Hist
  record_inflight_cap_lost n w = record w { inflight_cap_lost = add64 w.inflight_cap_lost n }

  unfoldable pub add_downtime : ℕ → BaseWorker Hist → BaseWorker Hist
  add_downtime n w = record w { downtime = add64 w.downtime n }

  unfoldable pub mark_flow_control_probe_ran : BaseWorker Hist → BaseWorker Hist
  mark_flow_control_probe_ran w = record w { flow_control_probe_ran = true }

  unfoldable pub mark_invalid_ack_probe_ran : BaseWorker Hist → BaseWorker Hist
  mark_invalid_ack_probe_ran w = record w { invalid_ack_probe_ran = true }

  unfoldable pub mark_confirmations_probe_ran : BaseWorker Hist → BaseWorker Hist
  mark_confirmations_probe_ran w = record w { confirmations_probe_ran = true }

  unfoldable pub mark_cross_stream_ack_probe_ran : BaseWorker Hist → BaseWorker Hist
  mark_cross_stream_ack_probe_ran w = record w { cross_stream_ack_probe_ran = true }

  unfoldable pub mark_lease_extend_probe_ran : BaseWorker Hist → BaseWorker Hist
  mark_lease_extend_probe_ran w = record w { lease_extend_probe_ran = true }

  unfoldable pub mark_schema_enforce_probe_ran : BaseWorker Hist → BaseWorker Hist
  mark_schema_enforce_probe_ran w = record w { schema_enforce_probe_ran = true }

  unfoldable pub record_exactly_once_ack : Bool → BaseWorker Hist → BaseWorker Hist
  record_exactly_once_ack true w = record w {
    exactly_once_confirmed = add64 w.exactly_once_confirmed 1;
  }
  record_exactly_once_ack false w = record w {
    exactly_once_unreconciled = add64 w.exactly_once_unreconciled 1;
  }

  -- The round of the compare-and-swap loop that succeeds.
  unfoldable pub reconcile_exactly_once : BaseWorker Hist → BaseWorker Hist
  reconcile_exactly_once w =
      if w.exactly_once_unreconciled == 0
      then w
      else record w { exactly_once_unreconciled = w.exactly_once_unreconciled - 1 }

  -- The round of the compare-and-swap loop that succeeds.
  unfoldable pub set_delivery_attempt_max : ℕ → BaseWorker Hist → BaseWorker Hist
  set_delivery_attempt_max v w =
      if leb v w.delivery_attempt_max then w else record w { delivery_attempt_max = v }

  -- The result is whether the arrival is a duplicate.
  unfoldable pub record_tracked : String → ℕ → BaseWorker Hist → Bool × BaseWorker Hist
  record_tracked producer_id seq w =
      let (trk, dup, out_of_order) = Tracker.record_sequence w.trk producer_id seq in
      let tracked = record w { trk = trk } in
      (dup, if dup then record_duplicated tracked else tracked)

  unfoldable pub advance_rate_windows : BaseWorker Hist → BaseWorker Hist
  advance_rate_windows w = record w {
    rate_window = slide_advance w.rate_window;
    peak_rate = peak_advance w.peak_rate;
  }

  unfoldable pub disconnect_consumers : BaseWorker Hist → BaseWorker Hist
  disconnect_consumers w = record w { disconnect_gen = add64 w.disconnect_gen 1 }
