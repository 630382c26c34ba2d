-- ===== src/Config/Names.antt =====
-- burnin/config/config.go: the worker names, and the predicates on them that choose gates.
use kubemq_gcp_pub_sub.Base.{String, List, [], ◌∷◌, Bool, ◌||◌}
use kubemq_gcp_pub_sub.Base.Assoc.{eqs}

abbrev pub worker_publish_pull_round_trip : String
worker_publish_pull_round_trip = "publish_pull_round_trip"

abbrev pub worker_streaming_pull : String
worker_streaming_pull = "streaming_pull"

abbrev pub worker_ordering_keys : String
worker_ordering_keys = "ordering_keys"

abbrev pub worker_exactly_once : String
worker_exactly_once = "exactly_once"

abbrev pub worker_dead_letter : String
worker_dead_letter = "dead_letter"

abbrev pub worker_fan_out : String
worker_fan_out = "fan_out"

abbrev pub worker_cross_protocol : String
worker_cross_protocol = "cross_protocol_interop"

abbrev pub worker_nack_redelivery : String
worker_nack_redelivery = "nack_redelivery"

abbrev pub worker_filtering : String
worker_filtering = "filtering"

abbrev pub worker_schema_enforce : String
worker_schema_enforce = "schema_enforce"

abbrev pub worker_seek_snapshot : String
worker_seek_snapshot = "seek_snapshot"

abbrev pub worker_inflight_cap : String
worker_inflight_cap = "inflight_cap"

abbrev pub all_worker_names : List String
all_worker_names =
    worker_publish_pull_round_trip ∷ worker_streaming_pull ∷ worker_ordering_keys
    ∷ worker_exactly_once ∷ worker_dead_letter ∷ worker_fan_out ∷ worker_cross_protocol
    ∷ worker_nack_redelivery ∷ worker_filtering ∷ worker_schema_enforce ∷ worker_seek_snapshot
    ∷ worker_inflight_cap ∷ []

unfoldable pub is_ordering_worker : String → Bool
is_ordering_worker name = eqs name worker_ordering_keys

unfoldable pub is_streaming_pull_worker : String → Bool
is_streaming_pull_worker name = eqs name worker_streaming_pull

unfoldable pub is_exactly_once_worker : String → Bool
is_exactly_once_worker name = eqs name worker_exactly_once

unfoldable pub is_dead_letter_worker : String → Bool
is_dead_letter_worker name = eqs name worker_dead_letter

unfoldable pub is_fanout_worker : String → Bool
is_fanout_worker name = eqs name worker_fan_out

unfoldable pub is_interop_worker : String → Bool
is_interop_worker name = eqs name worker_cross_protocol

unfoldable pub is_filtering_worker : String → Bool
is_filtering_worker name = eqs name worker_filtering

unfoldable pub is_schema_enforce_worker : String → Bool
is_schema_enforce_worker name = eqs name worker_schema_enforce

unfoldable pub is_seek_snapshot_worker : String → Bool
is_seek_snapshot_worker name = eqs name worker_seek_snapshot

unfoldable pub is_inflight_cap_worker : String → Bool
is_inflight_cap_worker name = eqs name worker_inflight_cap

unfoldable pub is_nack_redelivery_worker : String → Bool
is_nack_redelivery_worker name = eqs name worker_nack_redelivery

unfoldable pub is_unary_pull_worker : String → Bool
is_unary_pull_worker name = eqs name worker_publish_pull_round_trip

unfoldable pub is_latency_gate_exempt : String → Bool
is_latency_gate_exempt name =
    eqs name worker_dead_letter
    || eqs name worker_inflight_cap
    || eqs name worker_seek_snapshot
    || eqs name worker_publish_pull_round_trip

unfoldable pub is_duplication_gate_exempt : String → Bool
is_duplication_gate_exempt name =
    eqs name worker_dead_letter
    || eqs name worker_nack_redelivery
    || eqs name worker_inflight_cap
    || eqs name worker_seek_snapshot
    || eqs name worker_publish_pull_round_trip
