-- ===== src/Config.antt =====
-- burnin/config/config.go: the configuration model. Every `int` is a signed integer, a duration is
-- its number of nanoseconds, and float64 is the parameter Float. A struct's field of a type that
-- the harness only copies (json and yaml tags) has no counterpart.
pub mod Names
pub mod Lookup
pub mod Validate
pub mod Default
pub mod Environment
pub mod Durations
mod Tests
use kubemq_gcp_pub_sub.Base.{ℕ, String, List, Bool}
use kubemq_gcp_pub_sub.Base.Int.{ℤ}

pub record BrokerConfig : Type 0 where
  pub address : String
  pub grpc_address : String
  pub client_id_prefix : String

pub record GcpConfig (Float : Type 0) : Type 0 where
  pub project_id : String
  pub emulator_host : String
  pub ack_deadline_seconds : ℤ
  pub enable_message_ordering : Bool
  pub enable_exactly_once : Bool
  pub filter : String
  pub dead_letter_topic : String
  pub max_delivery_attempts : ℤ
  pub fanout_subscriptions : ℤ
  pub batch_size : ℤ
  pub schema_type : String
  pub schema_encoding : String
  pub nack_fraction : Float
  pub max_outstanding_bytes : ℤ
  pub inflight_backlog_target : ℤ
  pub seek_replay_count : ℤ
  pub exactly_once_probe : Bool
  pub lease_extend_probe : Bool
  pub cross_stream_probe : Bool
  pub flow_control_probe : Bool
  pub retry_backoff_probe : Bool
  pub batch_atomicity_probe : Bool

pub record WorkerConfig : Type 0 where
  pub enabled : Bool
  pub channels : ℤ
  pub producers_per_channel : ℤ
  pub consumers_per_channel : ℤ
  pub subscriptions : ℤ
  pub rate : ℤ

pub record WorkersConfig : Type 0 where
  pub publish_pull_round_trip : WorkerConfig
  pub streaming_pull : WorkerConfig
  pub ordering_keys : WorkerConfig
  pub exactly_once : WorkerConfig
  pub dead_letter : WorkerConfig
  pub fan_out : WorkerConfig
  pub cross_protocol : WorkerConfig
  pub nack_redelivery : WorkerConfig
  pub filtering : WorkerConfig
  pub schema_enforce : WorkerConfig
  pub seek_snapshot : WorkerConfig
  pub inflight_cap : WorkerConfig

pub record MessageConfig : Type 0 where
  pub size_mode : String
  pub size_bytes : ℤ
  pub size_distribution : String
  pub reorder_window : ℤ

pub record MetricsConfig : Type 0 where
  pub port : ℤ
  pub report_interval : String

pub record LoggingConfig : Type 0 where
  pub format : String
  pub level : String

pub record ForcedDisconnConfig : Type 0 where
  pub interval : String
  pub duration : String

pub record RecoveryConfig (Float : Type 0) : Type 0 where
  pub reconnect_interval : String
  pub reconnect_max_interval : String
  pub reconnect_multiplier : Float

pub record ShutdownConfig : Type 0 where
  pub drain_timeout_seconds : ℤ

pub record OutputConfig : Type 0 where
  pub report_file : String
  pub sdk_version : String

pub record ThresholdsConfig (Float : Type 0) : Type 0 where
  pub max_loss_pct : Float
  pub max_duplication_pct : Float
  pub max_p50_latency_ms : Float
  pub max_p95_latency_ms : Float
  pub max_p99_latency_ms : Float
  pub max_p999_latency_ms : Float
  pub min_throughput_pct : Float
  pub max_error_rate_pct : Float
  pub max_memory_growth_factor : Float
  pub max_downtime_pct : Float
  pub max_duration : String

pub record WarmupConfig : Type 0 where
  pub max_parallel_channels : ℤ
  pub timeout_per_channel_ms : ℤ

pub record CorsConfig : Type 0 where
  pub origins : String

pub record Config (Float : Type 0) : Type 0 where
  pub version : String
  pub broker : BrokerConfig
  pub mode : String
  pub duration : String
  pub run_id : String
  pub warmup_duration : String
  pub gcp : GcpConfig Float
  pub workers : WorkersConfig
  pub message : MessageConfig
  pub metrics : MetricsConfig
  pub logging : LoggingConfig
  pub forced_disconnect : ForcedDisconnConfig
  pub recovery : RecoveryConfig Float
  pub shutdown : ShutdownConfig
  pub output : OutputConfig
  pub thresholds : ThresholdsConfig Float
  pub warmup : WarmupConfig
  pub cors : CorsConfig
  pub duration_parsed : ℤ
  pub warmup_duration_parsed : ℤ
  pub report_interval_parsed : ℤ
  pub forced_disconn_interval : ℤ
  pub forced_disconn_duration : ℤ
  pub reconnect_interval : ℤ
  pub reconnect_max_interval : ℤ
  pub max_duration_parsed : ℤ
  pub warnings : List String
