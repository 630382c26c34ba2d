-- ===== src/Worker/Exporting.antt =====
-- burnin/worker/worker.go: the counter helpers as they are called, each of which moves a counter of the worker
-- and a vector of burnin/metrics/metrics.go.
pub mod InStep
mod Tests
use kubemq_gcp_pub_sub.Base.{ℕ, Bool, true, false, String, List, [], ◌∷◌, leb, if◌then◌else◌}
use kubemq_gcp_pub_sub.Tracker
use kubemq_gcp_pub_sub.Base.Floats.{Floats}
use kubemq_gcp_pub_sub.Metrics.Exported.{
  Vectors, Exported, inc_sent, inc_received, inc_duplicated, inc_corrupted, inc_error,
  inc_reconnection, inc_ack, add_downtime as export_downtime, inc_ordering_violation,
  inc_fanout_delivery, add_fanout_dropped, inc_exactly_once_confirmed, inc_dead_letter_republished,
  add_dead_letter_lost, inc_interop_converged, add_interop_diverged, inc_nack_redelivered,
  inc_batch_atomicity_violation, inc_filter_mismatch, inc_filter_matched_delivered,
  inc_schema_reject_violation, inc_schema_enforce_confirmed, add_seek_replay_expected,
  add_seek_replay_observed, inc_seek_replay_mismatch, inc_inflight_cap_tail_redelivered,
  add_inflight_cap_lost, inc_exactly_once_invalid_ack_confirmed, inc_flow_control_violation,
  inc_retry_backoff_observed, inc_lease_extend_confirmed, inc_lease_extend_reject_confirmed,
  inc_cross_stream_ack_confirmed, inc_periodic_close_observed, add_lost, inc_out_of_order,
  record_bytes_sent, record_bytes_received, inc_exactly_once_unreconciled,
  set_delivery_attempt_max as export_delivery_attempt_max,
}
use kubemq_gcp_pub_sub.Worker.{
  BaseWorker, record_sent, record_received, record_duplicated, record_corrupted, record_error,
  record_reconnection, record_acked, add_downtime, record_ordering_violation,
  record_fanout_delivery, record_fanout_dropped, record_dead_letter_republished,
  record_dead_letter_lost, record_interop_converged, record_interop_diverged,
  record_nack_redelivered, record_batch_atomicity_violation, record_filter_mismatch,
  record_filter_matched_delivered, record_schema_reject_violation, record_schema_enforce_confirmed,
  record_seek_replay_expected, record_seek_replay_observed, record_seek_replay_mismatch,
  record_inflight_cap_tail_redelivered, record_inflight_cap_lost,
  record_exactly_once_invalid_ack_confirmed, record_flow_control_violation,
  record_retry_backoff_observed, record_lease_extend_confirmed,
  record_lease_extend_reject_confirmed, record_cross_stream_ack_confirmed,
  record_periodic_close_observed, record_tracked, record_exactly_once_ack, reconcile_exactly_once,
  set_delivery_attempt_max,
}

-- The arguments: the bytes, the nanoseconds, the number counted, the message tracked.
pub data Call : Type 0 where
  duplicated corrupted error reconnection acked ordering_violation fanout_delivery
        dead_letter_republished interop_converged nack_redelivered batch_atomicity_violation
        filter_mismatch filter_matched_delivered schema_reject_violation schema_enforce_confirmed
        seek_replay_mismatch inflight_cap_tail_redelivered exactly_once_invalid_ack_confirmed
        flow_control_violation retry_backoff_observed lease_extend_confirmed
        lease_extend_reject_confirmed cross_stream_ack_confirmed periodic_close_observed :
      Call
  sent received downtime fanout_dropped dead_letter_lost interop_diverged seek_replay_expected
        seek_replay_observed inflight_cap_lost :
      ℕ → Call
  exactly_once_ack : Bool → Call
  reconciled : Call
  delivery_attempt : ℕ → Call
  tracked : String → ℕ → Call

pub record Counted (Hist Value : Type 0) : Type 0 where
  pub worker : BaseWorker Hist
  pub exported : Exported Value

module _ (F : Floats) (V : Vectors F) where
  open V use {Value}

  -- recordTracked counts duplicates with recordDuplicated.
  unfoldable pub export_tracked : Bool → Bool → Exported Value → Exported Value
  export_tracked dup out_of_order e =
      let counted = if dup then inc_duplicated F V e else e in
      if out_of_order then inc_out_of_order F V counted else counted

module _ (F : Floats) (V : Vectors F) {Hist : Type 0} where
  open V use {Value}

  -- setDeliveryAttemptMax sets the gauge in the round that succeeds.
  unfoldable pub raise_attempt : ℕ → Exported Value → BaseWorker Hist → Exported Value
  raise_attempt v e w =
      if leb v w.delivery_attempt_max then e else export_delivery_attempt_max F V v e

  unfoldable pub call : Call → Counted Hist Value → Counted Hist Value
  call (Call.sent bytes) s = record {
    worker = record_sent s.worker;
    exported = record_bytes_sent F V bytes (inc_sent F V s.exported);
  }
  call (Call.received bytes) s = record {
    worker = record_received s.worker;
    exported = record_bytes_received F V bytes (inc_received F V s.exported);
  }
  call Call.duplicated s = record {
    worker = record_duplicated s.worker;
    exported = inc_duplicated F V s.exported;
  }
  call Call.corrupted s = record {
    worker = record_corrupted s.worker;
    exported = inc_corrupted F V s.exported;
  }
  call Call.error s = record { worker = record_error s.worker; exported = inc_error F V s.exported }
  call Call.reconnection s = record {
    worker = record_reconnection s.worker;
    exported = inc_reconnection F V s.exported;
  }
  call Call.acked s = record { worker = record_acked s.worker; exported = inc_ack F V s.exported }
  call (Call.downtime n) s = record {
    worker = add_downtime n s.worker;
    exported = export_downtime F V n s.exported;
  }
  call Call.ordering_violation s = record {
    worker = record_ordering_violation s.worker;
    exported = inc_ordering_violation F V s.exported;
  }
  call Call.fanout_delivery s = record {
    worker = record_fanout_delivery s.worker;
    exported = inc_fanout_delivery F V s.exported;
  }
  call (Call.fanout_dropped n) s = record {
    worker = record_fanout_dropped n s.worker;
    exported = add_fanout_dropped F V n s.exported;
  }
  call Call.dead_letter_republished s = record {
    worker = record_dead_letter_republished s.worker;
    exported = inc_dead_letter_republished F V s.exported;
  }
  call (Call.dead_letter_lost n) s = record {
    worker = record_dead_letter_lost n s.worker;
    exported = add_dead_letter_lost F V n s.exported;
  }
  call Call.interop_converged s = record {
    worker = record_interop_converged s.worker;
    exported = inc_interop_converged F V s.exported;
  }
  call (Call.interop_diverged n) s = record {
    worker = record_interop_diverged n s.worker;
    exported = add_interop_diverged F V n s.exported;
  }
  call Call.nack_redelivered s = record {
    worker = record_nack_redelivered s.worker;
    exported = inc_nack_redelivered F V s.exported;
  }
  call Call.batch_atomicity_violation s = record {
    worker = record_batch_atomicity_violation s.worker;
    exported = inc_batch_atomicity_violation F V s.exported;
  }
  call Call.filter_mismatch s = record {
    worker = record_filter_mismatch s.worker;
    exported = inc_filter_mismatch F V s.exported;
  }
  call Call.filter_matched_delivered s = record {
    worker = record_filter_matched_delivered s.worker;
    exported = inc_filter_matched_delivered F V s.exported;
  }
  call Call.schema_reject_violation s = record {
    worker = record_schema_reject_violation s.worker;
    exported = inc_schema_reject_violation F V s.exported;
  }
  call Call.schema_enforce_confirmed s = record {
    worker = record_schema_enforce_confirmed s.worker;
    exported = inc_schema_enforce_confirmed F V s.exported;
  }
  call (Call.seek_replay_expected n) s = record {
    worker = record_seek_replay_expected n s.worker;
    exported = add_seek_replay_expected F V n s.exported;
  }
  call (Call.seek_replay_observed n) s = record {
    worker = record_seek_replay_observed n s.worker;
    exported = add_seek_replay_observed F V n s.exported;
  }
  call Call.seek_replay_mismatch s = record {
    worker = record_seek_replay_mismatch s.worker;
    exported = inc_seek_replay_mismatch F V s.exported;
  }
  call Call.inflight_cap_tail_redelivered s = record {
    worker = record_inflight_cap_tail_redelivered s.worker;
    exported = inc_inflight_cap_tail_redelivered F V s.exported;
  }
  call (Call.inflight_cap_lost n) s = record {
    worker = record_inflight_cap_lost n s.worker;
    exported = add_inflight_cap_lost F V n s.exported;
  }
  call Call.exactly_once_invalid_ack_confirmed s = record {
    worker = record_exactly_once_invalid_ack_confirmed s.worker;
    exported = inc_exactly_once_invalid_ack_confirmed F V s.exported;
  }
  call Call.flow_control_violation s = record {
    worker = record_flow_control_violation s.worker;
    exported = inc_flow_control_violation F V s.exported;
  }
  call Call.retry_backoff_observed s = record {
    worker = record_retry_backoff_observed s.worker;
    exported = inc_retry_backoff_observed F V s.exported;
  }
  call Call.lease_extend_confirmed s = record {
    worker = record_lease_extend_confirmed s.worker;
    exported = inc_lease_extend_confirmed F V s.exported;
  }
  call Call.lease_extend_reject_confirmed s = record {
    worker = record_lease_extend_reject_confirmed s.worker;
    exported = inc_lease_extend_reject_confirmed F V s.exported;
  }
  call Call.cross_stream_ack_confirmed s = record {
    worker = record_cross_stream_ack_confirmed s.worker;
    exported = inc_cross_stream_ack_confirmed F V s.exported;
  }
  call Call.periodic_close_observed s = record {
    worker = record_periodic_close_observed s.worker;
    exported = inc_periodic_close_observed F V s.exported;
  }
  call (Call.exactly_once_ack true) s = record {
    worker = record_exactly_once_ack true s.worker;
    exported = inc_exactly_once_confirmed F V s.exported;
  }
  call (Call.exactly_once_ack false) s = record {
    worker = record_exactly_once_ack false s.worker;
    exported = inc_exactly_once_unreconciled F V s.exported;
  }
  call Call.reconciled s = record s { worker = reconcile_exactly_once s.worker }
  call (Call.delivery_attempt v) s = record {
    worker = set_delivery_attempt_max v s.worker;
    exported = raise_attempt v s.exported s.worker;
  }
  call (Call.tracked id seq) s =
      let (trk, dup, out_of_order) = Tracker.record_sequence s.worker.trk id seq in
      record {
        worker = (record_tracked id seq s.worker).1;
        exported = export_tracked F V dup out_of_order s.exported;
      }

  unfoldable pub calls : List Call → Counted Hist Value → Counted Hist Value
  calls [] s = s
  calls (c ∷ cs) s = calls cs (call c s)
