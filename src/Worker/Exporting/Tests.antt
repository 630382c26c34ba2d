-- ===== src/Worker/Exporting/Tests.antt =====
-- A run of the counter helpers beside what is scraped.
use kubemq_gcp_pub_sub.Base.{ℕ, ◌≡◌, ◌+◌, List, [], ◌∷◌, true, false}
use kubemq_gcp_pub_sub.Samples.{milli, samples, busy_worker}
use kubemq_gcp_pub_sub.Metrics.Exported.{Vectors, Exported}
use kubemq_gcp_pub_sub.Worker.{reset_after_warmup}
use kubemq_gcp_pub_sub.Worker.Exporting.{Call, Counted, calls}
use kubemq_gcp_pub_sub.Worker.Exporting.InStep.{
  AreFed, kinds, series, counters, times, failed_acks, scraped_since_warmup,
}

-- Thousandths.
abbrev vectors : Vectors milli
vectors = record { Value = ℕ; inc = λ v. v + 1000; add = λ a v. v + a; set = λ a v. a }

-- What the warmup has left in the vectors.
abbrev scraped : Exported ℕ
scraped = record {
  messages_sent = 7000;
  messages_received = 0;
  messages_duplicated = 1000;
  messages_corrupted = 0;
  errors = 0;
  reconnections = 0;
  acks = 6000;
  downtime_seconds = 0;
  ordering_violations = 0;
  fanout_deliveries = 0;
  fanout_dropped = 0;
  exactly_once_confirmed = 0;
  dead_letter_republished = 0;
  dead_letter_lost = 0;
  interop_converged = 0;
  interop_diverged = 0;
  nack_redelivered = 0;
  batch_atomicity_violations = 0;
  filter_mismatch = 0;
  filter_matched_delivered = 0;
  schema_reject_violations = 0;
  schema_enforce_confirmed = 0;
  seek_replay_expected = 0;
  seek_replay_observed = 0;
  seek_replay_mismatch = 0;
  inflight_cap_tail_redelivered = 0;
  inflight_cap_lost = 0;
  exactly_once_invalid_ack_confirmed = 0;
  flow_control_violations = 0;
  retry_backoff_observed = 0;
  lease_extend_confirmed = 0;
  lease_extend_reject_confirmed = 0;
  cross_stream_ack_confirmed = 0;
  periodic_close_observed = 0;
  messages_lost = 0;
  messages_out_of_order = 0;
  bytes_sent = 0;
  bytes_received = 0;
  exactly_once_unreconciled = 0;
  delivery_attempt_max = 0;
}

-- A failed ack whose retry succeeds, and a message that comes twice.
abbrev made : List Call
made =
    Call.sent 100
    ∷ Call.received 100
    ∷ Call.tracked "p" 1
    ∷ Call.exactly_once_ack false
    ∷ Call.error
    ∷ Call.exactly_once_ack true
    ∷ Call.reconciled
    ∷ Call.acked
    ∷ Call.tracked "p" 1
    ∷ Call.fanout_dropped 3
    ∷ Call.downtime 1500000000
    ∷ Call.delivery_attempt 2
    ∷ []

abbrev after : Counted (List ℕ) ℕ
after =
    calls milli vectors made
      (record { worker = reset_after_warmup samples busy_worker; exported = scraped })

scraped_since_warmup_example :
    AreFed milli vectors kinds (series scraped) (counters after.worker) (series after.exported)
    × (after.exported.exactly_once_unreconciled ≡ times milli vectors (failed_acks made) 0)
scraped_since_warmup_example = scraped_since_warmup milli vectors samples busy_worker scraped made
