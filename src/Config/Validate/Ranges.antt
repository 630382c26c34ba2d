-- ===== src/Config/Validate/Ranges.antt =====
-- burnin/config/config.go: the ranges that Validate asks for, field by field.
use kubemq_gcp_pub_sub.Base.{
  ◌≡◌, ◌∙◌, refl, String, List, [], ◌∷◌, ◌++◌, Bool, true, false, not, ◌&&◌, ◌||◌, Option, none,
  some, any, all, check, arith, if◌then◌else◌,
}
use kubemq_gcp_pub_sub.Base.Int.{ℤ, pos, leb_ℤ, ltb_ℤ, eqb_ℤ}
use kubemq_gcp_pub_sub.Base.Floats.{Floats}
use kubemq_gcp_pub_sub.Base.Assoc.{eqs}
use kubemq_gcp_pub_sub.Config.{Config, WorkerConfig}
use kubemq_gcp_pub_sub.Config.Names.{all_worker_names, worker_fan_out}
use kubemq_gcp_pub_sub.Config.Lookup.{get_worker_config}
use kubemq_gcp_pub_sub.Config.Validate.{
  ConfigError, is_warning, outside, outside_pct, gcp_errors, worker_errors, message_errors,
  threshold_errors, rejected,
}
use kubemq_gcp_pub_sub.Config.Validate.Accepted.{
  has_hard, is_bad, is_enabled, some_bad, some_enabled, rejected_lem,
}

abbrev pub between : ℤ → ℤ → ℤ → Bool
between lo hi n = leb_ℤ lo n && leb_ℤ n hi

abbrev pub at_least : ℤ → ℤ → Bool
at_least lo n = leb_ℤ lo n

outside_lem : (F : Floats) (lo hi n : ℤ) → outside F lo hi n ≡ not (between lo hi n)
unfolding outside
outside_lem F lo hi n = ground arith

below_lem : (lo n : ℤ) → ltb_ℤ n lo ≡ not (at_least lo n)
below_lem lo n = ground arith

gcp_tests :
    (version address project deadline zero attempts batch low high avro protobuf json binary target
      replay bytes small : Bool)
    → has_hard (
        check (not version) ConfigError.version
        ++ check address ConfigError.address
        ++ check project ConfigError.project_id
        ++ check (not deadline) ConfigError.ack_deadline_seconds
        ++ check (not zero && not attempts) ConfigError.max_delivery_attempts
        ++ check (not batch) ConfigError.batch_size
        ++ check (low || high) ConfigError.nack_fraction
        ++ check (not avro && not protobuf) ConfigError.schema_type
        ++ check (not json && not binary) ConfigError.schema_encoding
        ++ check (not target) ConfigError.inflight_backlog_target
        ++ check (not replay) ConfigError.seek_replay_count
        ++ check (not bytes) ConfigError.max_outstanding_bytes
        ++ check small ConfigError.small_reorder_window)
      ≡ not (
          version
          && not address
          && not project
          && deadline
          && (zero || attempts)
          && batch
          && (not low && not high)
          && (avro || protobuf)
          && (json || binary)
          && target
          && replay
          && bytes)
unfolding has_hard is_warning
gcp_tests v a p d z m b l h x y j k t r o s = ground arith

five :
    (gcp message thresholds workers some_on : Bool)
    → (not gcp || not workers || not some_on || not message || not thresholds)
      ≡ not (gcp && message && thresholds && workers && some_on)
five g m t w s = ground arith

positive_lem : (n : ℤ) → leb_ℤ n (pos 0) ≡ not (at_least (pos 1) n)
positive_lem n = ground arith

block_tests :
    (name : String) (channels rate producers fan_out subscriptions fanout consumers : Bool)
    → has_hard (
        check (not channels) (ConfigError.channels name)
        ++ check (not rate) (ConfigError.rate name)
        ++ check (not producers) (ConfigError.producers_per_channel name)
        ++ (if fan_out
            then check (not subscriptions && not fanout) (ConfigError.fanout_subscriptions name)
            else check (not consumers) (ConfigError.consumers_per_channel name)))
      ≡ not (
          channels && rate && producers && (if fan_out then subscriptions || fanout else consumers))
unfolding has_hard is_warning
block_tests name ch r p f s g co = ground arith

module _ (F : Floats) (c : Config F.Float) where
  open F use {Float, gt, le, ratio}

  -- Not below lo and not above hi, as float64 compares: so is a value that is not a number.
  abbrev pub within : Float → Float → Float → Bool
  within lo hi x = not (gt lo x) && not (gt x hi)

  abbrev pub gcp_fits : Bool
  gcp_fits =
      eqs c.version "2"
      && not (eqs c.broker.address "")
      && not (eqs c.gcp.project_id "")
      && between (pos 10) (pos 600) c.gcp.ack_deadline_seconds
      && (eqb_ℤ c.gcp.max_delivery_attempts (pos 0)
          || between (pos 5) (pos 100) c.gcp.max_delivery_attempts)
      && between (pos 1) (pos 1000) c.gcp.batch_size
      && within (ratio 0 1) (ratio 1 1) c.gcp.nack_fraction
      && (eqs c.gcp.schema_type "avro" || eqs c.gcp.schema_type "protobuf")
      && (eqs c.gcp.schema_encoding "json" || eqs c.gcp.schema_encoding "binary")
      && at_least (pos 1) c.gcp.inflight_backlog_target
      && at_least (pos 1) c.gcp.seek_replay_count
      && at_least (pos 0) c.gcp.max_outstanding_bytes

  abbrev pub message_fits : Bool
  message_fits =
      (eqs c.message.size_mode "fixed" || eqs c.message.size_mode "distribution")
      && (not (eqs c.message.size_mode "fixed")
          || between (pos 64) (pos 10485760) c.message.size_bytes)
      && at_least (pos 100) c.message.reorder_window
      && at_least (pos 1) c.shutdown.drain_timeout_seconds
      && between (pos 1) (pos 65535) c.metrics.port

  abbrev pub thresholds_fit : Bool
  thresholds_fit =
      within (ratio 0 1) (ratio 100 1) c.thresholds.max_loss_pct
      && within (ratio 0 1) (ratio 100 1) c.thresholds.max_duplication_pct
      && not (le c.thresholds.max_p50_latency_ms (ratio 0 1))
      && not (le c.thresholds.max_p95_latency_ms (ratio 0 1))
      && not (le c.thresholds.max_p99_latency_ms (ratio 0 1))
      && not (le c.thresholds.max_p999_latency_ms (ratio 0 1))
      && not (le c.thresholds.min_throughput_pct (ratio 0 1))
      && not (gt c.thresholds.min_throughput_pct (ratio 100 1))
      && within (ratio 0 1) (ratio 100 1) c.thresholds.max_error_rate_pct
      && not (gt (ratio 1 1) c.thresholds.max_memory_growth_factor)
      && within (ratio 0 1) (ratio 100 1) c.thresholds.max_downtime_pct
      && not (gt (ratio 1 1) c.recovery.reconnect_multiplier)

  -- The block of an enabled worker; one that is disabled fits anyway.
  abbrev pub block_fits : String → WorkerConfig → Bool
  block_fits name wc =
      between (pos 1) (pos 1000) wc.channels
      && at_least (pos 1) wc.rate
      && at_least (pos 1) wc.producers_per_channel
      && (if eqs name worker_fan_out
          then at_least (pos 1) wc.subscriptions || at_least (pos 1) c.gcp.fanout_subscriptions
          else at_least (pos 1) wc.consumers_per_channel)

  abbrev pub worker_fits : String → Option WorkerConfig → Bool
  worker_fits name none = true
  worker_fits name (some wc) = not wc.enabled || block_fits name wc

  abbrev pub is_on : Option WorkerConfig → Bool
  is_on none = false
  is_on (some wc) = wc.enabled

  gcp_lem : has_hard (gcp_errors F c) ≡ not gcp_fits
  unfolding gcp_errors
  gcp_lem =
      rw
        (
          outside_lem F (pos 10) (pos 600) c.gcp.ack_deadline_seconds,
          outside_lem F (pos 5) (pos 100) c.gcp.max_delivery_attempts,
          outside_lem F (pos 1) (pos 1000) c.gcp.batch_size,
          below_lem (pos 1) c.gcp.inflight_backlog_target,
          below_lem (pos 1) c.gcp.seek_replay_count,
          below_lem (pos 0) c.gcp.max_outstanding_bytes,
        )
        (gcp_tests _ _ _ _ _ _ _ _ _ _ _ _ _ _ _ _ _)

  message_lem : has_hard (message_errors F c) ≡ not message_fits
  unfolding message_errors has_hard is_warning outside
  message_lem = ground arith

  thresholds_lem : has_hard (threshold_errors F c) ≡ not thresholds_fit
  unfolding threshold_errors has_hard is_warning outside_pct
  thresholds_lem = ground arith

  block_lem :
      (name : String) (wc : WorkerConfig)
      → has_hard (worker_errors F c name wc) ≡ not (block_fits name wc)
  unfolding worker_errors
  block_lem name wc =
      rw
        (
          outside_lem F (pos 1) (pos 1000) wc.channels,
          positive_lem wc.rate,
          below_lem (pos 1) wc.producers_per_channel,
          below_lem (pos 1) wc.subscriptions,
          below_lem (pos 1) c.gcp.fanout_subscriptions,
          below_lem (pos 1) wc.consumers_per_channel,
        )
        (block_tests name _ _ _ _ _ _ _)

  worker_lem :
      (name : String) (o : Option WorkerConfig) → is_bad F c name o ≡ not (worker_fits name o)
  unfolding is_bad
  worker_lem name none = refl
  worker_lem name (some wc) = ground (arith, block_lem name wc)

  workers_lem :
      (names : List String)
      → some_bad F c names ≡ not (all (λ name. worker_fits name (get_worker_config c name)) names)
  unfolding some_bad
  workers_lem [] = refl
  workers_lem (name ∷ names) =
      ground (arith, workers_lem names, worker_lem name (get_worker_config c name))

  enabled_lem : (o : Option WorkerConfig) → is_enabled F c o ≡ is_on o
  unfolding is_enabled
  enabled_lem none = refl
  enabled_lem (some wc) = refl

  some_lem :
      (names : List String)
      → some_enabled F c names ≡ any (λ name. is_on (get_worker_config c name)) names
  unfolding some_enabled
  some_lem [] = refl
  some_lem (name ∷ names) = ground (arith, some_lem names, enabled_lem (get_worker_config c name))

  -- Validate rejects a configuration exactly when a general field lies outside its range, the block of an enabled
  -- worker has a field outside its range, or no worker is enabled. The ranges are those written out in
  -- gcp_fits, message_fits, thresholds_fit and block_fits; a disabled worker's block, a reorder window below
  -- the backlog target and a high count of workers never reject.
  pub rejected_ranges :
      rejected F c
      ≡ not (
          gcp_fits
          && message_fits
          && thresholds_fit
          && all (λ name. worker_fits name (get_worker_config c name)) all_worker_names
          && any (λ name. is_on (get_worker_config c name)) all_worker_names)
  rejected_ranges =
      rejected_lem F c
      ∙ rw
          (
            gcp_lem,
            message_lem,
            thresholds_lem,
            workers_lem all_worker_names,
            some_lem all_worker_names,
          )
          (five _ _ _ _ _)
