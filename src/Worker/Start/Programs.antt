-- ===== src/Worker/Start/Programs.antt =====
-- burnin/worker: Start of each worker, and which one NewWorkerGroup builds for a name. The environment and
-- the padding of fmt are parameters, as in Transport.
use kubemq_gcp_pub_sub.Base.{
  ℕ, zero, suc, ◌+◌, String, true, ◌||◌, none, some, List, [], ◌∷◌, if◌then◌else◌,
}
use kubemq_gcp_pub_sub.Base.Int.{ℤ, pos, pos_part, ltb_ℤ}
use kubemq_gcp_pub_sub.Base.Assoc.{eqs}
use kubemq_gcp_pub_sub.Config.{Config}
use kubemq_gcp_pub_sub.Config.Names.{
  worker_publish_pull_round_trip, worker_streaming_pull, worker_ordering_keys, worker_exactly_once,
  worker_dead_letter, worker_fan_out, worker_cross_protocol, worker_nack_redelivery,
  worker_filtering, worker_schema_enforce, worker_seek_snapshot, worker_inflight_cap,
}
use kubemq_gcp_pub_sub.Config.Lookup.{get_worker_config, fanout_subscription_count}
use kubemq_gcp_pub_sub.Transport.{
  topic_name, subscription_name, fanout_subscription_name, schema_name, dead_letter_topic_name,
  dead_letter_subscription_name, mapped_topic_channel,
}
use kubemq_gcp_pub_sub.Worker.Schema.{schema_encoding_of}
use kubemq_gcp_pub_sub.Worker.Start.{
  SchemaType, Call, Loop, Act, Step, plain_config, filtered_subscription_config,
  ordering_subscription_config, configure_receive_with_bytes, configure_receive_of, at_least_one,
  topic_path,
}

abbrev pub filter_expr : String
filter_expr = "attributes.match = \"yes\""

abbrev pub max_ack_deadline_seconds : ℤ
max_ack_deadline_seconds = pos 600

module _ (getenv : String → String) (pad : ℕ → ℤ → String) {Float : Type 0} (c : Config Float)
    (idx : ℤ) where
  abbrev pub topic_id : String → String
  topic_id name = topic_name getenv pad name idx

  abbrev pub sub_id : String → String
  sub_id name = subscription_name getenv pad name idx

  unfoldable pub consumers_of : String → ℤ
  consumers_of name = elim (get_worker_config c name) [
    | none ↦ pos 0
    | some wc ↦ wc.consumers_per_channel
  ]

  -- The client, the topic and one plain subscription on it.
  abbrev pub plain_start : String → List Step → List Step
  plain_start name steps =
      Step.call Call.pubsub_client
      ∷ Step.call (Call.ensure_topic (topic_id name))
      ∷ Step.call (
          Call.ensure_subscription (sub_id name)
            (plain_config (topic_id name) c.gcp.ack_deadline_seconds))
      ∷ steps

  abbrev pub receive_with : String → ℤ → List Step → List Step
  receive_with name streams steps =
      Step.act (Act.configure_receive (sub_id name) (configure_receive_of streams))
      ∷ Step.act (Act.launch (Loop.receive_loop (sub_id name)))
      ∷ steps

  unfoldable pub start_round_trip : List Step
  start_round_trip =
      let name = worker_publish_pull_round_trip in
      plain_start name (
        receive_with name (consumers_of name)
          (if c.gcp.batch_atomicity_probe then Step.act Act.atomicity_probe ∷ [] else []))

  unfoldable pub start_streaming_pull : List Step
  start_streaming_pull =
      let name = worker_streaming_pull in
      let settings = configure_receive_with_bytes (pos 1) c.gcp.max_outstanding_bytes in
      let launches =
        Step.act (Act.launch (Loop.receive_loop (sub_id name)))
        ∷ Step.act (Act.launch Loop.run_probes)
        ∷ [] in
      plain_start name (
        Step.act (Act.configure_receive (sub_id name) settings)
        ∷ (if c.gcp.flow_control_probe || c.gcp.lease_extend_probe || c.gcp.cross_stream_probe
            then Step.call Call.subscriber_client ∷ launches
            else launches))

  unfoldable pub start_ordering_keys : List Step
  start_ordering_keys =
      let name = worker_ordering_keys in
      Step.call Call.pubsub_client
      ∷ Step.call (Call.ensure_topic (topic_id name))
      ∷ Step.act (Act.enable_ordering (topic_id name))
      ∷ Step.call (
          Call.ensure_subscription (sub_id name)
            (ordering_subscription_config (topic_id name) c.gcp.ack_deadline_seconds))
      ∷ receive_with name (pos 1) []

  unfoldable pub start_exactly_once : List Step
  start_exactly_once =
      let name = worker_exactly_once in
      let config = plain_config (topic_id name) c.gcp.ack_deadline_seconds in
      Step.call Call.pubsub_client
      ∷ Step.call (Call.ensure_topic (topic_id name))
      ∷ Step.call (
          Call.ensure_subscription (sub_id name)
            (record config { enable_exactly_once_delivery = true }))
      ∷ Step.act (Act.configure_receive (sub_id name) (configure_receive_of (pos 1)))
      ∷ Step.act Act.invalid_ack_probe
      ∷ Step.act (Act.launch (Loop.receive_loop (sub_id name)))
      ∷ []

  unfoldable pub start_dead_letter : List Step
  start_dead_letter =
      let name = worker_dead_letter in
      let dlt = dead_letter_topic_name getenv pad name idx in
      let dlt_sub = dead_letter_subscription_name getenv pad name idx in
      let attempts = c.gcp.max_delivery_attempts in
      let config = plain_config (topic_id name) c.gcp.ack_deadline_seconds in
      let source = record config {
        dead_letter_policy = some (record {
          dead_letter_topic = topic_path c.gcp.project_id dlt;
          max_delivery_attempts = if ltb_ℤ attempts (pos 5) then pos 5 else attempts;
        });
        retry_policy = some (record { minimum_backoff = 10000000; maximum_backoff = 50000000 });
      } in
      Step.call Call.pubsub_client
      ∷ Step.call (Call.ensure_topic (topic_id name))
      ∷ Step.call (Call.ensure_topic dlt)
      ∷ Step.call (Call.ensure_subscription (sub_id name) source)
      ∷ Step.call (Call.ensure_subscription dlt_sub (plain_config dlt c.gcp.ack_deadline_seconds))
      ∷ Step.call Call.subscriber_client
      ∷ Step.act (Act.configure_receive dlt_sub (configure_receive_of (pos 1)))
      ∷ Step.act (Act.launch (Loop.dlq_consume_loop dlt_sub))
      ∷ Step.act (Act.launch (Loop.source_drive_loop (sub_id name)))
      ∷ (if c.gcp.retry_backoff_probe
          then Step.act (Act.launch Loop.retry_backoff_probe) ∷ []
          else [])

  -- The subscriptions of fan_out from a number on, and what follows.
  unfoldable pub fanout_ids : ℕ → ℕ → List String
  fanout_ids i zero = []
  fanout_ids i (suc n) =
      fanout_subscription_name getenv pad worker_fan_out idx (pos i) ∷ fanout_ids (i + 1) n

  unfoldable pub launch_all : List String → List Step
  launch_all [] = []
  launch_all (id ∷ ids) = Step.act (Act.launch (Loop.receive_loop id)) ∷ launch_all ids

  unfoldable pub subscribe_all : List String → List Step → List Step
  subscribe_all [] steps = steps
  subscribe_all (id ∷ ids) steps =
      Step.call (
        Call.ensure_subscription id
          (plain_config (topic_id worker_fan_out) c.gcp.ack_deadline_seconds))
      ∷ Step.act (Act.configure_receive id (configure_receive_of (pos 1)))
      ∷ subscribe_all ids steps

  unfoldable pub start_fan_out : List Step
  start_fan_out =
      let ids = fanout_ids 0 (pos_part (fanout_subscription_count c)) in
      Step.call Call.pubsub_client
      ∷ Step.call (Call.ensure_topic (topic_id worker_fan_out))
      ∷ subscribe_all ids (launch_all ids)

  unfoldable pub start_interop : List Step
  start_interop =
      let name = worker_cross_protocol in
      Step.call Call.pubsub_client
      ∷ Step.call (Call.ensure_topic (topic_id name))
      ∷ Step.call Call.native_client
      ∷ Step.call (Call.native_subscribe (mapped_topic_channel (topic_id name)))
      ∷ Step.act Act.signal_ready
      ∷ []

  unfoldable pub start_nack_redelivery : List Step
  start_nack_redelivery =
      let name = worker_nack_redelivery in
      plain_start name (receive_with name (at_least_one (consumers_of name)) [])

  unfoldable pub start_filtering : List Step
  start_filtering =
      let name = worker_filtering in
      Step.call Call.pubsub_client
      ∷ Step.call (Call.ensure_topic (topic_id name))
      ∷ Step.call (
          Call.ensure_subscription (sub_id name)
            (filtered_subscription_config (topic_id name) c.gcp.ack_deadline_seconds filter_expr))
      ∷ receive_with name (consumers_of name) []

  unfoldable pub start_schema_enforce : List Step
  start_schema_enforce =
      let name = worker_schema_enforce in
      let schema = schema_name getenv pad name idx in
      let kind =
        if eqs c.gcp.schema_type "protobuf" then SchemaType.protobuf else SchemaType.avro in
      Step.call Call.schema_client
      ∷ Step.call (Call.create_schema kind schema)
      ∷ Step.call Call.pubsub_client
      ∷ Step.call (
          Call.ensure_topic_with_schema (topic_id name) schema
            (schema_encoding_of c.gcp.schema_encoding))
      ∷ Step.call (
          Call.ensure_subscription (sub_id name)
            (plain_config (topic_id name) c.gcp.ack_deadline_seconds))
      ∷ receive_with name (consumers_of name) []

  unfoldable pub start_seek_snapshot : List Step
  start_seek_snapshot =
      plain_start worker_seek_snapshot
        (Step.call Call.subscriber_client ∷ Step.act Act.signal_ready ∷ [])

  unfoldable pub start_inflight_cap : List Step
  start_inflight_cap =
      let name = worker_inflight_cap in
      Step.call Call.pubsub_client
      ∷ Step.call (Call.ensure_topic (topic_id name))
      ∷ Step.call (
          Call.ensure_subscription (sub_id name)
            (plain_config (topic_id name) max_ack_deadline_seconds))
      ∷ Step.call Call.subscriber_client
      ∷ Step.act (Act.launch (Loop.pull_loop (sub_id name)))
      ∷ []

  -- The switch of NewWorkerGroup; another name gives no worker.
  unfoldable pub start_of : String → List Step
  start_of name =
      if eqs name worker_publish_pull_round_trip
      then start_round_trip
      else if eqs name worker_streaming_pull
      then start_streaming_pull
      else if eqs name worker_ordering_keys
      then start_ordering_keys
      else if eqs name worker_exactly_once
      then start_exactly_once
      else if eqs name worker_dead_letter
      then start_dead_letter
      else if eqs name worker_fan_out
      then start_fan_out
      else if eqs name worker_cross_protocol
      then start_interop
      else if eqs name worker_nack_redelivery
      then start_nack_redelivery
      else if eqs name worker_filtering
      then start_filtering
      else if eqs name worker_schema_enforce
      then start_schema_enforce
      else if eqs name worker_seek_snapshot
      then start_seek_snapshot
      else if eqs name worker_inflight_cap
      then start_inflight_cap
      else []
