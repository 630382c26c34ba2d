-- ===== src/Worker/Schema.antt =====
-- burnin/worker/schema_enforce.go: the instrumentation in the body, and the probe with a body that the
-- schema forbids. The JSON decoder is the parameter `unmarshal`.
use kubemq_gcp_pub_sub.Base.{
  ℕ, String, Bool, true, false, not, ◌&&◌, Option, none, some, if◌then◌else◌,
}
use kubemq_gcp_pub_sub.Base.Int.{ℤ, pos, ltb_ℤ}
use kubemq_gcp_pub_sub.Base.Assoc.{eqs}
use kubemq_gcp_pub_sub.Base.Codec.{Codec}
use kubemq_gcp_pub_sub.Worker.{
  Histogram, BaseWorker, record_received, record_acked, record_error, record_corrupted,
  record_latency, record_tracked, mark_schema_enforce_probe_ran, record_schema_reject_violation,
  record_schema_enforce_confirmed,
}
use kubemq_gcp_pub_sub.Worker.Attrs.{verify_crc}
use kubemq_gcp_pub_sub.Worker.Handling.{Message}
use kubemq_gcp_pub_sub.Worker.Publishing.{PublishResult, Publisher, publish_taken, drop_place}

pub record SchemaBody : Type 0 where
  pub worker_id : String
  pub seq : ℕ
  pub content_hash : String
  pub ts_ns : ℤ
  pub pad : String

pub data SchemaEncoding : Type 0 where
  binary json : SchemaEncoding

unfoldable pub schema_encoding_of : String → SchemaEncoding
schema_encoding_of enc = if eqs enc "binary" then SchemaEncoding.binary else SchemaEncoding.json

-- The publish of the forbidden body: accepted, cut off with the context, refused with
-- InvalidArgument, or failed with another code; or the context had ended before.
pub data SchemaProbe : Type 0 where
  not_run accepted cut_off invalid_argument other_code : SchemaProbe

module _ {Hist : Type 0} where
  unfoldable pub run_non_conforming_probe : SchemaProbe → BaseWorker Hist → BaseWorker Hist
  run_non_conforming_probe SchemaProbe.not_run w = w
  run_non_conforming_probe SchemaProbe.accepted w =
      record_schema_reject_violation (mark_schema_enforce_probe_ran w)
  run_non_conforming_probe SchemaProbe.cut_off w = mark_schema_enforce_probe_ran w
  run_non_conforming_probe SchemaProbe.invalid_argument w =
      record_schema_enforce_confirmed (mark_schema_enforce_probe_ran w)
  run_non_conforming_probe SchemaProbe.other_code w = record_error (mark_schema_enforce_probe_ran w)

  -- The rest of a pass of produceLoop once its number is taken; `encoded` is whether the body could be
  -- encoded.
  unfoldable pub produce_conforming : Bool → ℕ → PublishResult → Publisher Hist → Publisher Hist
  produce_conforming true place r p = publish_taken place r p
  produce_conforming false place r p = record p {
    in_flight = drop_place place p.in_flight;
    base = record_error p.base;
  }

module _ (C : Codec) (H : Histogram) (age : ℤ → ℕ) (unmarshal : String → Option SchemaBody) where
  unfoldable pub observe_body : SchemaBody → BaseWorker H.State → BaseWorker H.State
  observe_body sb w =
      let checked =
        if not (eqs sb.content_hash "") && not (verify_crc C sb.pad sb.content_hash)
        then record_corrupted w
        else w in
      let timed =
        if ltb_ℤ (pos 0) sb.ts_ns then record_latency H (age sb.ts_ns) checked else checked in
      (record_tracked sb.worker_id sb.seq timed).1

  unfoldable pub handle_decoded : Option SchemaBody → BaseWorker H.State → BaseWorker H.State
  handle_decoded none w = record_corrupted w
  handle_decoded (some sb) w = if eqs sb.worker_id "" then record_corrupted w else observe_body sb w

  unfoldable pub handle_schema : Message → BaseWorker H.State → BaseWorker H.State
  handle_schema msg w = record_acked (handle_decoded (unmarshal msg.body) (record_received w))
