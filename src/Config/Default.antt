-- ===== src/Config/Default.antt =====
-- burnin/config/config.go: DefaultConfig. A field that it does not set has Go's zero value.
use kubemq_gcp_pub_sub.Base.{[], true, false}
use kubemq_gcp_pub_sub.Base.Int.{pos}
use kubemq_gcp_pub_sub.Base.Floats.{Floats}
use kubemq_gcp_pub_sub.Config.{Config, WorkersConfig}

unfoldable pub default_workers : WorkersConfig
default_workers = record {
  publish_pull_round_trip = record {
    enabled = true;
    channels = pos 1;
    producers_per_channel = pos 1;
    consumers_per_channel = pos 2;
    subscriptions = pos 0;
    rate = pos 100;
  };
  streaming_pull = record {
    enabled = true;
    channels = pos 1;
    producers_per_channel = pos 1;
    consumers_per_channel = pos 1;
    subscriptions = pos 0;
    rate = pos 100;
  };
  ordering_keys = record {
    enabled = true;
    channels = pos 1;
    producers_per_channel = pos 1;
    consumers_per_channel = pos 1;
    subscriptions = pos 0;
    rate = pos 50;
  };
  exactly_once = record {
    enabled = true;
    channels = pos 1;
    producers_per_channel = pos 1;
    consumers_per_channel = pos 1;
    subscriptions = pos 0;
    rate = pos 50;
  };
  dead_letter = record {
    enabled = true;
    channels = pos 1;
    producers_per_channel = pos 1;
    consumers_per_channel = pos 1;
    subscriptions = pos 0;
    rate = pos 30;
  };
  fan_out = record {
    enabled = true;
    channels = pos 1;
    producers_per_channel = pos 1;
    consumers_per_channel = pos 0;
    subscriptions = pos 3;
    rate = pos 30;
  };
  cross_protocol = record {
    enabled = true;
    channels = pos 1;
    producers_per_channel = pos 1;
    consumers_per_channel = pos 1;
    subscriptions = pos 0;
    rate = pos 50;
  };
  nack_redelivery = record {
    enabled = true;
    channels = pos 1;
    producers_per_channel = pos 1;
    consumers_per_channel = pos 1;
    subscriptions = pos 0;
    rate = pos 50;
  };
  filtering = record {
    enabled = true;
    channels = pos 1;
    producers_per_channel = pos 1;
    consumers_per_channel = pos 1;
    subscriptions = pos 0;
    rate = pos 50;
  };
  schema_enforce = record {
    enabled = false;
    channels = pos 1;
    producers_per_channel = pos 1;
    consumers_per_channel = pos 1;
    subscriptions = pos 0;
    rate = pos 25;
  };
  seek_snapshot = record {
    enabled = false;
    channels = pos 1;
    producers_per_channel = pos 1;
    consumers_per_channel = pos 1;
    subscriptions = pos 0;
    rate = pos 25;
  };
  inflight_cap = record {
    enabled = false;
    channels = pos 1;
    producers_per_channel = pos 1;
    consumers_per_channel = pos 1;
    subscriptions = pos 0;
    rate = pos 100;
  };
}

module _ (F : Floats) where
  open F use {Float, ratio}

  unfoldable pub default_config : Config Float
  default_config = record {
    version = "2";
    broker = record {
      address = "localhost:8085";
      grpc_address = "localhost:50000";
      client_id_prefix = "burnin-gcp";
    };
    mode = "soak";
    duration = "1h";
    run_id = "";
    warmup_duration = "";
    gcp = record {
      project_id = "burnin";
      emulator_host = "";
      ack_deadline_seconds = pos 10;
      enable_message_ordering = false;
      enable_exactly_once = false;
      filter = "";
      dead_letter_topic = "";
      max_delivery_attempts = pos 5;
      fanout_subscriptions = pos 3;
      batch_size = pos 1;
      schema_type = "avro";
      schema_encoding = "json";
      nack_fraction = ratio 1 4;
      max_outstanding_bytes = pos 0;
      inflight_backlog_target = pos 25000;
      seek_replay_count = pos 500;
      exactly_once_probe = true;
      lease_extend_probe = true;
      cross_stream_probe = true;
      flow_control_probe = true;
      retry_backoff_probe = false;
      batch_atomicity_probe = true;
    };
    workers = default_workers;
    message = record {
      size_mode = "fixed";
      size_bytes = pos 1024;
      size_distribution = "256:80,4096:15,65536:5";
      reorder_window = pos 10000;
    };
    metrics = record { port = pos 8899; report_interval = "30s" };
    logging = record { format = "text"; level = "info" };
    forced_disconnect = record { interval = "0"; duration = "5s" };
    recovery = record {
      reconnect_interval = "1s";
      reconnect_max_interval = "30s";
      reconnect_multiplier = ratio 2 1;
    };
    shutdown = record { drain_timeout_seconds = pos 10 };
    output = record { report_file = ""; sdk_version = "" };
    thresholds = record {
      max_loss_pct = ratio 0 1;
      max_duplication_pct = ratio 1 1;
      max_p50_latency_ms = ratio 2000 1;
      max_p95_latency_ms = ratio 5000 1;
      max_p99_latency_ms = ratio 8000 1;
      max_p999_latency_ms = ratio 15000 1;
      min_throughput_pct = ratio 80 1;
      max_error_rate_pct = ratio 1 1;
      max_memory_growth_factor = ratio 2 1;
      max_downtime_pct = ratio 10 1;
      max_duration = "168h";
    };
    warmup = record { max_parallel_channels = pos 10; timeout_per_channel_ms = pos 5000 };
    cors = record { origins = "*" };
    duration_parsed = pos 0;
    warmup_duration_parsed = pos 0;
    report_interval_parsed = pos 0;
    forced_disconn_interval = pos 0;
    forced_disconn_duration = pos 0;
    reconnect_interval = pos 0;
    reconnect_max_interval = pos 0;
    max_duration_parsed = pos 0;
    warnings = [];
  }
