-- ===== src/Engine.antt =====
-- burnin/engine/engine.go and verdict.go: the data of a run. A uint64 counter is a native number
-- below 2 ^ 64, a float64 is the parameter Float.
pub mod Capture
pub mod Verdict
pub mod Drain
pub mod Exit
pub mod Lifecycle
pub mod Setup
pub mod Shutdown
pub mod Periodic
mod Tests
use kubemq_gcp_pub_sub.Base.{ℕ, String, List, Bool}

-- The counters of one worker type, frozen when the producers have stopped.
pub record WorkerSnapshot (Float : Type 0) : Type 0 where
  pub sent : ℕ
  pub received : ℕ
  pub errors : ℕ
  pub corrupted : ℕ
  pub reconnections : ℕ
  pub duplicated : ℕ
  pub lost : ℕ
  pub out_of_order : ℕ
  pub acked : ℕ
  pub ordering_violations : ℕ
  pub fanout_deliveries : ℕ
  pub fanout_dropped : ℕ
  pub exactly_once_confirmed : ℕ
  pub exactly_once_unreconciled : ℕ
  pub dead_letter_republished : ℕ
  pub dead_letter_lost : ℕ
  pub interop_converged : ℕ
  pub interop_diverged : ℕ
  pub nack_redelivered : ℕ
  pub batch_atomicity_violations : ℕ
  pub filter_mismatch : ℕ
  pub filter_matched_delivered : ℕ
  pub schema_reject_violations : ℕ
  pub schema_enforce_confirmed : ℕ
  pub seek_replay_expected : ℕ
  pub seek_replay_observed : ℕ
  pub seek_replay_mismatch : ℕ
  pub inflight_cap_tail_redelivered : ℕ
  pub inflight_cap_lost : ℕ
  pub exactly_once_invalid_ack_confirmed : ℕ
  pub flow_control_violations : ℕ
  pub retry_backoff_observed : ℕ
  pub lease_extend_confirmed : ℕ
  pub lease_extend_reject_confirmed : ℕ
  pub delivery_attempt_max : ℕ
  pub cross_stream_ack_confirmed : ℕ
  pub periodic_close_observed : ℕ
  pub flow_control_probe_ran : Bool
  pub invalid_ack_probe_ran : Bool
  pub confirmations_probe_ran : Bool
  pub cross_stream_ack_probe_ran : Bool
  pub lease_extend_probe_ran : Bool
  pub schema_enforce_probe_ran : Bool
  pub downtime_seconds : Float
  pub latency_p50 : Float
  pub latency_p95 : Float
  pub latency_p99 : Float
  pub latency_p999 : Float
  pub peak_rate : Float
  pub avg_rate : Float

-- What the texts of the failures and notes say, without the numbers printed in them.
pub data Gate : Type 0 where
  corrupted loss duplication error_rate throughput downtime ordering exactly_once dead_letter : Gate
  latency : String → Gate
  fan_out interop batch_atomicity filtering schema_accepted schema_unconfirmed seek_replay : Gate
  inflight_cap invalid_ack confirmations flow_control lease_extend lease_reject : Gate
  cross_stream delivery_attempt : Gate

pub data Warning : Type 0 where
  failed : String → Gate → Warning
  backoff_observed backoff_not_observed : String → Warning
  close_observed close_not_exercised : String → Warning
  memory_growth : Warning

pub record VerdictResult : Type 0 where
  pub result : String
  pub passed : Bool
  pub warnings : List Warning
