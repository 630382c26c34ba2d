-- ===== src/Config/Validate.antt =====
-- burnin/config/config.go: Validate. An error is a constructor in place of its text; the two whose
-- text begins with "WARNING:" are advisory. Comparisons of float64 are those of the interface.
pub mod Accepted
pub mod Ranges
use kubemq_gcp_pub_sub.Base.{
  ℕ, suc, ◌<◌, String, List, [], ◌∷◌, ◌++◌, Bool, true, false, not, ◌&&◌, ◌||◌, Option, none, some,
  any, check, ◌==◌, if◌then◌else◌,
}
use kubemq_gcp_pub_sub.Base.Int.{ℤ, pos, ltb_ℤ, leb_ℤ, eqb_ℤ, add_int, mul_int}
use kubemq_gcp_pub_sub.Base.Floats.{Floats}
use kubemq_gcp_pub_sub.Base.Assoc.{eqs}
use kubemq_gcp_pub_sub.Config.{Config, WorkerConfig}
use kubemq_gcp_pub_sub.Config.Names.{all_worker_names, worker_fan_out}
use kubemq_gcp_pub_sub.Config.Lookup.{get_worker_config}

pub data ConfigError : Type 0 where
  version address project_id ack_deadline_seconds max_delivery_attempts batch_size : ConfigError
  nack_fraction schema_type schema_encoding inflight_backlog_target : ConfigError
  seek_replay_count max_outstanding_bytes small_reorder_window : ConfigError
  channels rate producers_per_channel fanout_subscriptions consumers_per_channel :
      String → ConfigError
  none_enabled size_mode size_bytes_low size_bytes_high reorder_window : ConfigError
  drain_timeout port max_loss max_duplication : ConfigError
  max_p50 max_p95 max_p99 max_p999 min_throughput max_error_rate : ConfigError
  max_memory_growth max_downtime reconnect_multiplier high_worker_count : ConfigError

-- strings.HasPrefix(e.Error(), "WARNING:")
unfoldable pub is_warning : ConfigError → Bool
is_warning small_reorder_window = true
is_warning high_worker_count = true
is_warning _ = false

module _ (F : Floats) where
  open F use {Float, ratio, gt, le}

  -- Outside lo..hi.
  unfoldable pub outside : ℤ → ℤ → ℤ → Bool
  outside lo hi n = ltb_ℤ n lo || ltb_ℤ hi n

  unfoldable pub outside_pct : Float → Bool
  outside_pct x = gt (ratio 0 1) x || gt x (ratio 100 1)

  unfoldable pub gcp_errors : Config Float → List ConfigError
  gcp_errors c =
      check (not (eqs c.version "2")) version
      ++ check (eqs c.broker.address "") address
      ++ check (eqs c.gcp.project_id "") project_id
      ++ check (outside (pos 10) (pos 600) c.gcp.ack_deadline_seconds) ack_deadline_seconds
      ++ check
          (not (eqb_ℤ c.gcp.max_delivery_attempts (pos 0))
            && outside (pos 5) (pos 100) c.gcp.max_delivery_attempts)
          max_delivery_attempts
      ++ check (outside (pos 1) (pos 1000) c.gcp.batch_size) batch_size
      ++ check (gt (ratio 0 1) c.gcp.nack_fraction || gt c.gcp.nack_fraction (ratio 1 1))
          nack_fraction
      ++ check (not (eqs c.gcp.schema_type "avro") && not (eqs c.gcp.schema_type "protobuf"))
          schema_type
      ++ check (not (eqs c.gcp.schema_encoding "json") && not (eqs c.gcp.schema_encoding "binary"))
          schema_encoding
      ++ check (ltb_ℤ c.gcp.inflight_backlog_target (pos 1)) inflight_backlog_target
      ++ check (ltb_ℤ c.gcp.seek_replay_count (pos 1)) seek_replay_count
      ++ check (ltb_ℤ c.gcp.max_outstanding_bytes (pos 0)) max_outstanding_bytes
      ++ check
          (c.workers.inflight_cap.enabled
            && ltb_ℤ c.message.reorder_window c.gcp.inflight_backlog_target)
          small_reorder_window

  -- The receivers per channel that a worker needs, for the count of workers.
  unfoldable pub consumers : Config Float → String → WorkerConfig → ℤ
  consumers c name wc =
      if eqs name worker_fan_out
      then (if ltb_ℤ wc.subscriptions (pos 1) then c.gcp.fanout_subscriptions else wc.subscriptions)
      else wc.consumers_per_channel

  unfoldable pub worker_errors : Config Float → String → WorkerConfig → List ConfigError
  worker_errors c name wc =
      check (outside (pos 1) (pos 1000) wc.channels) (channels name)
      ++ check (leb_ℤ wc.rate (pos 0)) (rate name)
      ++ check (ltb_ℤ wc.producers_per_channel (pos 1)) (producers_per_channel name)
      ++ (if eqs name worker_fan_out
          then check (ltb_ℤ wc.subscriptions (pos 1) && ltb_ℤ c.gcp.fanout_subscriptions (pos 1))
              (fanout_subscriptions name)
          else check (ltb_ℤ wc.consumers_per_channel (pos 1)) (consumers_per_channel name))

  -- What the loop over the workers keeps: the errors, how many are enabled, how many in all.
  pub record Tally : Type 0 where
    pub errors : List ConfigError
    pub enabled_count : ℕ
    pub total_workers : ℤ

  unfoldable pub tally_worker : Config Float → String → Option WorkerConfig → Tally → Tally
  tally_worker c name none t = t
  tally_worker c name (some wc) t =
      if wc.enabled
      then record {
        errors = t.errors ++ worker_errors c name wc;
        enabled_count = suc t.enabled_count;
        total_workers =
            add_int t.total_workers
              (mul_int wc.channels (add_int wc.producers_per_channel (consumers c name wc)));
      }
      else t

  unfoldable pub tally_workers : Config Float → List String → Tally → Tally
  tally_workers c [] t = t
  tally_workers c (name ∷ names) t =
      tally_workers c names (tally_worker c name (get_worker_config c name) t)

  unfoldable pub message_errors : Config Float → List ConfigError
  message_errors c =
      check (not (eqs c.message.size_mode "fixed") && not (eqs c.message.size_mode "distribution"))
        size_mode
      ++ check (eqs c.message.size_mode "fixed" && ltb_ℤ c.message.size_bytes (pos 64))
          size_bytes_low
      ++ check (eqs c.message.size_mode "fixed" && ltb_ℤ (pos 10485760) c.message.size_bytes)
          size_bytes_high
      ++ check (ltb_ℤ c.message.reorder_window (pos 100)) reorder_window
      ++ check (leb_ℤ c.shutdown.drain_timeout_seconds (pos 0)) drain_timeout
      ++ check (outside (pos 1) (pos 65535) c.metrics.port) port

  -- Go goes through the four latency thresholds in no fixed order.
  unfoldable pub threshold_errors : Config Float → List ConfigError
  threshold_errors c =
      check (outside_pct c.thresholds.max_loss_pct) max_loss
      ++ check (outside_pct c.thresholds.max_duplication_pct) max_duplication
      ++ check (le c.thresholds.max_p50_latency_ms (ratio 0 1)) max_p50
      ++ check (le c.thresholds.max_p95_latency_ms (ratio 0 1)) max_p95
      ++ check (le c.thresholds.max_p99_latency_ms (ratio 0 1)) max_p99
      ++ check (le c.thresholds.max_p999_latency_ms (ratio 0 1)) max_p999
      ++ check
          (le c.thresholds.min_throughput_pct (ratio 0 1)
            || gt c.thresholds.min_throughput_pct (ratio 100 1))
          min_throughput
      ++ check (outside_pct c.thresholds.max_error_rate_pct) max_error_rate
      ++ check (gt (ratio 1 1) c.thresholds.max_memory_growth_factor) max_memory_growth
      ++ check (outside_pct c.thresholds.max_downtime_pct) max_downtime
      ++ check (gt (ratio 1 1) c.recovery.reconnect_multiplier) reconnect_multiplier

  unfoldable pub validate : Config Float → List ConfigError
  validate c =
      let t =
        tally_workers c all_worker_names
          (record { errors = gcp_errors c; enabled_count = 0; total_workers = pos 0 }) in
      t.errors
      ++ check (t.enabled_count == 0) none_enabled
      ++ message_errors c
      ++ threshold_errors c
      ++ check (ltb_ℤ (pos 1000) t.total_workers) high_worker_count

  -- The tests of burnin/main.go and of ToInternalConfig: some error is no warning.
  unfoldable pub rejected : Config Float → Bool
  rejected c = any (λ e. not (is_warning e)) (validate c)
