-- ===== src/Config/Lookup.antt =====
-- burnin/config/config.go: access to the worker blocks by name. GetWorkerConfig returns a pointer
-- into the configuration; a write through it is set_worker_config, and nil is `none`.
use kubemq_gcp_pub_sub.Base.{String, List, [], ◌∷◌, Option, none, some, if◌then◌else◌}
use kubemq_gcp_pub_sub.Base.Int.{ℤ, pos, ltb_ℤ, add_int}
use kubemq_gcp_pub_sub.Base.Assoc.{eqs}
use kubemq_gcp_pub_sub.Config.{Config, WorkerConfig, WorkersConfig}
use kubemq_gcp_pub_sub.Config.Names.{
  worker_publish_pull_round_trip, worker_streaming_pull, worker_ordering_keys, worker_exactly_once,
  worker_dead_letter, worker_fan_out, worker_cross_protocol, worker_nack_redelivery,
  worker_filtering, worker_schema_enforce, worker_seek_snapshot, worker_inflight_cap,
  all_worker_names,
}

unfoldable pub get_worker : WorkersConfig → String → Option WorkerConfig
get_worker w name =
    if eqs name worker_publish_pull_round_trip
    then some w.publish_pull_round_trip
    else if eqs name worker_streaming_pull
    then some w.streaming_pull
    else if eqs name worker_ordering_keys
    then some w.ordering_keys
    else if eqs name worker_exactly_once
    then some w.exactly_once
    else if eqs name worker_dead_letter
    then some w.dead_letter
    else if eqs name worker_fan_out
    then some w.fan_out
    else if eqs name worker_cross_protocol
    then some w.cross_protocol
    else if eqs name worker_nack_redelivery
    then some w.nack_redelivery
    else if eqs name worker_filtering
    then some w.filtering
    else if eqs name worker_schema_enforce
    then some w.schema_enforce
    else if eqs name worker_seek_snapshot
    then some w.seek_snapshot
    else if eqs name worker_inflight_cap
    then some w.inflight_cap
    else none

-- The write through the pointer that get_worker gives.
unfoldable pub set_worker : WorkersConfig → String → WorkerConfig → WorkersConfig
set_worker w name c =
    if eqs name worker_publish_pull_round_trip
    then record w { publish_pull_round_trip = c }
    else if eqs name worker_streaming_pull
    then record w { streaming_pull = c }
    else if eqs name worker_ordering_keys
    then record w { ordering_keys = c }
    else if eqs name worker_exactly_once
    then record w { exactly_once = c }
    else if eqs name worker_dead_letter
    then record w { dead_letter = c }
    else if eqs name worker_fan_out
    then record w { fan_out = c }
    else if eqs name worker_cross_protocol
    then record w { cross_protocol = c }
    else if eqs name worker_nack_redelivery
    then record w { nack_redelivery = c }
    else if eqs name worker_filtering
    then record w { filtering = c }
    else if eqs name worker_schema_enforce
    then record w { schema_enforce = c }
    else if eqs name worker_seek_snapshot
    then record w { seek_snapshot = c }
    else if eqs name worker_inflight_cap
    then record w { inflight_cap = c }
    else w

module _ {Float : Type 0} where
  unfoldable pub get_worker_config : Config Float → String → Option WorkerConfig
  get_worker_config c name = get_worker c.workers name

  unfoldable pub get_worker_rate : Config Float → String → ℤ
  get_worker_rate c name = elim (get_worker_config c name) [ none ↦ pos 100 | some wc ↦ wc.rate ]

  unfoldable pub get_worker_channels : Config Float → String → ℤ
  get_worker_channels c name = elim (get_worker_config c name) [
    | none ↦ pos 1
    | some wc ↦ if ltb_ℤ (pos 0) wc.channels then wc.channels else pos 1
  ]

  unfoldable pub fanout_subscription_count : Config Float → ℤ
  fanout_subscription_count c =
      if ltb_ℤ (pos 0) c.workers.fan_out.subscriptions
      then c.workers.fan_out.subscriptions
      else if ltb_ℤ (pos 0) c.gcp.fanout_subscriptions
      then c.gcp.fanout_subscriptions
      else pos 2

  -- The loop of TotalChannelCount over the names that are left.
  unfoldable pub channel_count : Config Float → List String → ℤ → ℤ
  channel_count c [] total = total
  channel_count c (name ∷ names) total = channel_count c names (elim (get_worker_config c name) [
    | none ↦ total
    | some wc ↦ if wc.enabled then add_int total wc.channels else total
  ])

  unfoldable pub total_channel_count : Config Float → ℤ
  total_channel_count c = channel_count c all_worker_names (pos 0)
