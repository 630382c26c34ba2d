-- ===== src/Worker/Handling.antt =====
-- burnin/worker/streaming_pull.go, fan_out.go, ordering_keys.go and filtering.go: handleMessage, what
-- a worker does with one delivered message. The age of a message, time.Since(sentAt), is the parameter
-- `age`, in the nanoseconds that the latency accumulator takes.
pub mod Intact
use kubemq_gcp_pub_sub.Base.{
  ℕ, String, Bool, true, false, not, ◌&&◌, Option, none, some, if◌then◌else◌,
}
use kubemq_gcp_pub_sub.Base.Int.{ℤ}
use kubemq_gcp_pub_sub.Base.Assoc.{eqs}
use kubemq_gcp_pub_sub.Base.Codec.{Codec}
use kubemq_gcp_pub_sub.Worker.{
  Histogram, BaseWorker, record_latency, record_received, record_acked, record_corrupted,
  record_tracked, record_fanout_delivery, record_filter_mismatch, record_filter_matched_delivered,
}
use kubemq_gcp_pub_sub.Worker.Attrs.{Attributes, Meta, attr, extract_meta, verify_crc}
use kubemq_gcp_pub_sub.Worker.Ordering.{OrderingState, check_ordering}

pub record Message : Type 0 where
  pub body : String
  pub attributes : Option Attributes
  pub ordering_key : String

abbrev pub attr_ordering_seq : String
attr_ordering_seq = "orderingSeq"

abbrev pub filter_match_attr : String
filter_match_attr = "match"

abbrev pub filter_match_yes : String
filter_match_yes = "yes"

-- A read of m.Attributes; the nil map has no keys.
abbrev pub attr_of : String → Option Attributes → String
attr_of k none = ""
attr_of k (some attrs) = attr k attrs

-- An ordering_keys worker, with the map and the counter of checkOrdering.
pub record OrderingKeysWorker (Hist : Type 0) : Type 0 where
  pub base : BaseWorker Hist
  pub ordering : OrderingState

module _ (C : Codec) (H : Histogram) (age : ℤ → ℕ) where
  unfoldable pub check_body : String → Meta → BaseWorker H.State → BaseWorker H.State
  check_body body m w =
      if not (eqs m.crc_hex "") && not (verify_crc C body m.crc_hex) then record_corrupted w else w

  unfoldable pub time_message : Option ℤ → BaseWorker H.State → BaseWorker H.State
  time_message none w = w
  time_message (some sent_at) w = record_latency H (age sent_at) w

  -- The checks of an instrumented message, tracked under `tracked_id`.
  unfoldable pub observe : String → String → Meta → BaseWorker H.State → Bool × BaseWorker H.State
  observe tracked_id body m w =
      record_tracked tracked_id m.seq (time_message m.sent_at (check_body body m w))

  -- The message was acked: transport.Ack only tells the client.
  unfoldable pub handle_message : Message → BaseWorker H.State → BaseWorker H.State
  handle_message msg w =
      let m = extract_meta C msg.attributes in
      let received = record_received w in
      record_acked (if m.ok then (observe m.producer_id msg.body m received).1 else received)

  -- `subscribed` is `producerID + "@" + subID`.
  unfoldable pub handle_fan_out :
      (String → String) → Message → BaseWorker H.State → BaseWorker H.State
  handle_fan_out subscribed msg w =
      let m = extract_meta C msg.attributes in
      let received = record_fanout_delivery (record_received w) in
      record_acked
        (if m.ok then (observe (subscribed m.producer_id) msg.body m received).1 else received)

  -- A filtered-out message that is delivered after all is a mismatch, and is not tracked.
  unfoldable pub handle_filtering : Message → BaseWorker H.State → BaseWorker H.State
  handle_filtering msg w =
      let m = extract_meta C msg.attributes in
      let received = record_received w in
      let matched = record_filter_matched_delivered received in
      if not (eqs (attr_of filter_match_attr msg.attributes) filter_match_yes)
      then record_acked (record_filter_mismatch received)
      else record_acked (if m.ok then (observe m.producer_id msg.body m matched).1 else matched)

  -- Only a message that the tracker has not seen is checked for its order.
  unfoldable pub handle_ordering_keys :
      (String → String → String) → Message → OrderingKeysWorker H.State → OrderingKeysWorker H.State
  handle_ordering_keys map_key msg w =
      let m = extract_meta C msg.attributes in
      let received = record_received w.base in
      let (dup, seen) = observe m.producer_id msg.body m received in
      let ordered =
        check_ordering C.parse_uint map_key m.producer_id msg.ordering_key
          (attr_of attr_ordering_seq msg.attributes) w.ordering in
      if m.ok
      then record { base = record_acked seen; ordering = if dup then w.ordering else ordered }
      else record { base = record_acked received; ordering = w.ordering }
