-- ===== src/Metrics/Exported.antt =====
-- burnin/metrics/metrics.go: the Prometheus counters and the gauge of a worker's vectors, at the label of one
-- worker, each over its other labels. The values and what Inc, Add and Set make of them are the library's,
-- and parameters here. The gauges that the engine sets and the histograms are left out.
use kubemq_gcp_pub_sub.Base.{ℕ}
use kubemq_gcp_pub_sub.Base.Int.{pos}
use kubemq_gcp_pub_sub.Base.Floats.{Floats}

-- The value behind a label of a vector of github.com/prometheus/client_golang, over a float64.
pub record Vectors (F : Floats) : Type 1 where
  pub Value : Type 0
  pub inc : Value → Value
  pub add : F.Float → Value → Value
  pub set : F.Float → Value → Value

pub record Exported (Value : Type 0) : Type 0 where
  pub messages_sent : Value
  pub messages_received : Value
  pub messages_duplicated : Value
  pub messages_corrupted : Value
  pub errors : Value
  pub reconnections : Value
  pub acks : Value
  pub downtime_seconds : Value
  pub ordering_violations : Value
  pub fanout_deliveries : Value
  pub fanout_dropped : Value
  pub exactly_once_confirmed : Value
  pub dead_letter_republished : Value
  pub dead_letter_lost : Value
  pub interop_converged : Value
  pub interop_diverged : Value
  pub nack_redelivered : Value
  pub batch_atomicity_violations : Value
  pub filter_mismatch : Value
  pub filter_matched_delivered : Value
  pub schema_reject_violations : Value
  pub schema_enforce_confirmed : Value
  pub seek_replay_expected : Value
  pub seek_replay_observed : Value
  pub seek_replay_mismatch : Value
  pub inflight_cap_tail_redelivered : Value
  pub inflight_cap_lost : Value
  pub exactly_once_invalid_ack_confirmed : Value
  pub flow_control_violations : Value
  pub retry_backoff_observed : Value
  pub lease_extend_confirmed : Value
  pub lease_extend_reject_confirmed : Value
  pub cross_stream_ack_confirmed : Value
  pub periodic_close_observed : Value
  pub messages_lost : Value
  pub messages_out_of_order : Value
  pub bytes_sent : Value
  pub bytes_received : Value
  pub exactly_once_unreconciled : Value
  pub delivery_attempt_max : Value

module _ (F : Floats) (V : Vectors F) where
  open V use {Value}

  unfoldable pub inc_sent : Exported Value → Exported Value
  inc_sent e = record e { messages_sent = V.inc e.messages_sent }

  unfoldable pub inc_received : Exported Value → Exported Value
  inc_received e = record e { messages_received = V.inc e.messages_received }

  unfoldable pub inc_duplicated : Exported Value → Exported Value
  inc_duplicated e = record e { messages_duplicated = V.inc e.messages_duplicated }

  unfoldable pub inc_corrupted : Exported Value → Exported Value
  inc_corrupted e = record e { messages_corrupted = V.inc e.messages_corrupted }

  unfoldable pub inc_error : Exported Value → Exported Value
  inc_error e = record e { errors = V.inc e.errors }

  unfoldable pub inc_reconnection : Exported Value → Exported Value
  inc_reconnection e = record e { reconnections = V.inc e.reconnections }

  unfoldable pub inc_ack : Exported Value → Exported Value
  inc_ack e = record e { acks = V.inc e.acks }

  -- The caller passes Duration.Seconds of the nanoseconds.
  unfoldable pub add_downtime : ℕ → Exported Value → Exported Value
  add_downtime ns e = record e { downtime_seconds = V.add (F.seconds (pos ns)) e.downtime_seconds }

  unfoldable pub inc_ordering_violation : Exported Value → Exported Value
  inc_ordering_violation e = record e { ordering_violations = V.inc e.ordering_violations }

  unfoldable pub inc_fanout_delivery : Exported Value → Exported Value
  inc_fanout_delivery e = record e { fanout_deliveries = V.inc e.fanout_deliveries }

  unfoldable pub add_fanout_dropped : ℕ → Exported Value → Exported Value
  add_fanout_dropped delta e = record e {
    fanout_dropped = V.add (F.of_uint delta) e.fanout_dropped;
  }

  unfoldable pub inc_exactly_once_confirmed : Exported Value → Exported Value
  inc_exactly_once_confirmed e = record e {
    exactly_once_confirmed = V.inc e.exactly_once_confirmed;
  }

  unfoldable pub inc_dead_letter_republished : Exported Value → Exported Value
  inc_dead_letter_republished e = record e {
    dead_letter_republished = V.inc e.dead_letter_republished;
  }

  unfoldable pub add_dead_letter_lost : ℕ → Exported Value → Exported Value
  add_dead_letter_lost delta e = record e {
    dead_letter_lost = V.add (F.of_uint delta) e.dead_letter_lost;
  }

  unfoldable pub inc_interop_converged : Exported Value → Exported Value
  inc_interop_converged e = record e { interop_converged = V.inc e.interop_converged }

  unfoldable pub add_interop_diverged : ℕ → Exported Value → Exported Value
  add_interop_diverged delta e = record e {
    interop_diverged = V.add (F.of_uint delta) e.interop_diverged;
  }

  unfoldable pub inc_nack_redelivered : Exported Value → Exported Value
  inc_nack_redelivered e = record e { nack_redelivered = V.inc e.nack_redelivered }

  unfoldable pub inc_batch_atomicity_violation : Exported Value → Exported Value
  inc_batch_atomicity_violation e = record e {
    batch_atomicity_violations = V.inc e.batch_atomicity_violations;
  }

  unfoldable pub inc_filter_mismatch : Exported Value → Exported Value
  inc_filter_mismatch e = record e { filter_mismatch = V.inc e.filter_mismatch }

  unfoldable pub inc_filter_matched_delivered : Exported Value → Exported Value
  inc_filter_matched_delivered e = record e {
    filter_matched_delivered = V.inc e.filter_matched_delivered;
  }

  unfoldable pub inc_schema_reject_violation : Exported Value → Exported Value
  inc_schema_reject_violation e = record e {
    schema_reject_violations = V.inc e.schema_reject_violations;
  }

  unfoldable pub inc_schema_enforce_confirmed : Exported Value → Exported Value
  inc_schema_enforce_confirmed e = record e {
    schema_enforce_confirmed = V.inc e.schema_enforce_confirmed;
  }

  unfoldable pub add_seek_replay_expected : ℕ → Exported Value → Exported Value
  add_seek_replay_expected delta e = record e {
    seek_replay_expected = V.add (F.of_uint delta) e.seek_replay_expected;
  }

  unfoldable pub add_seek_replay_observed : ℕ → Exported Value → Exported Value
  add_seek_replay_observed delta e = record e {
    seek_replay_observed = V.add (F.of_uint delta) e.seek_replay_observed;
  }

  unfoldable pub inc_seek_replay_mismatch : Exported Value → Exported Value
  inc_seek_replay_mismatch e = record e { seek_replay_mismatch = V.inc e.seek_replay_mismatch }

  unfoldable pub inc_inflight_cap_tail_redelivered : Exported Value → Exported Value
  inc_inflight_cap_tail_redelivered e = record e {
    inflight_cap_tail_redelivered = V.inc e.inflight_cap_tail_redelivered;
  }

  unfoldable pub add_inflight_cap_lost : ℕ → Exported Value → Exported Value
  add_inflight_cap_lost delta e = record e {
    inflight_cap_lost = V.add (F.of_uint delta) e.inflight_cap_lost;
  }

  unfoldable pub inc_exactly_once_invalid_ack_confirmed : Exported Value → Exported Value
  inc_exactly_once_invalid_ack_confirmed e = record e {
    exactly_once_invalid_ack_confirmed = V.inc e.exactly_once_invalid_ack_confirmed;
  }

  unfoldable pub inc_flow_control_violation : Exported Value → Exported Value
  inc_flow_control_violation e = record e {
    flow_control_violations = V.inc e.flow_control_violations;
  }

  unfoldable pub inc_retry_backoff_observed : Exported Value → Exported Value
  inc_retry_backoff_observed e = record e {
    retry_backoff_observed = V.inc e.retry_backoff_observed;
  }

  unfoldable pub inc_lease_extend_confirmed : Exported Value → Exported Value
  inc_lease_extend_confirmed e = record e {
    lease_extend_confirmed = V.inc e.lease_extend_confirmed;
  }

  unfoldable pub inc_lease_extend_reject_confirmed : Exported Value → Exported Value
  inc_lease_extend_reject_confirmed e = record e {
    lease_extend_reject_confirmed = V.inc e.lease_extend_reject_confirmed;
  }

  unfoldable pub inc_cross_stream_ack_confirmed : Exported Value → Exported Value
  inc_cross_stream_ack_confirmed e = record e {
    cross_stream_ack_confirmed = V.inc e.cross_stream_ack_confirmed;
  }

  unfoldable pub inc_periodic_close_observed : Exported Value → Exported Value
  inc_periodic_close_observed e = record e {
    periodic_close_observed = V.inc e.periodic_close_observed;
  }

  unfoldable pub add_lost : ℕ → Exported Value → Exported Value
  add_lost delta e = record e { messages_lost = V.add (F.of_uint delta) e.messages_lost }

  unfoldable pub inc_out_of_order : Exported Value → Exported Value
  inc_out_of_order e = record e { messages_out_of_order = V.inc e.messages_out_of_order }

  unfoldable pub record_bytes_sent : ℕ → Exported Value → Exported Value
  record_bytes_sent n e = record e { bytes_sent = V.add (F.of_int (pos n)) e.bytes_sent }

  unfoldable pub record_bytes_received : ℕ → Exported Value → Exported Value
  record_bytes_received n e = record e {
    bytes_received = V.add (F.of_int (pos n)) e.bytes_received;
  }

  unfoldable pub inc_exactly_once_unreconciled : Exported Value → Exported Value
  inc_exactly_once_unreconciled e = record e {
    exactly_once_unreconciled = V.inc e.exactly_once_unreconciled;
  }

  -- The caller passes the float64 of the count.
  unfoldable pub set_delivery_attempt_max : ℕ → Exported Value → Exported Value
  set_delivery_attempt_max n e = record e {
    delivery_attempt_max = V.set (F.of_uint n) e.delivery_attempt_max;
  }
