-- ===== src/Worker/Batch.antt =====
-- burnin/worker/publish_pull_round_trip.go: batches of messages, and the probe of their atomicity.
use kubemq_gcp_pub_sub.Base.{ℕ, zero, suc, String, ◌&&◌, List, ◌∷◌, if◌then◌else◌}
use kubemq_gcp_pub_sub.Base.Words.{add64}
use kubemq_gcp_pub_sub.Base.Int.{ℤ, pos, ltb_ℤ, pos_part}
use kubemq_gcp_pub_sub.Base.Assoc.{eqs}
use kubemq_gcp_pub_sub.Base.Codec.{Codec}
use kubemq_gcp_pub_sub.Worker.{
  Histogram, BaseWorker, record_received, record_acked, record_sent, record_error,
  record_batch_atomicity_violation,
}
use kubemq_gcp_pub_sub.Worker.Attrs.{extract_meta}
use kubemq_gcp_pub_sub.Worker.Handling.{Message, observe}
use kubemq_gcp_pub_sub.Worker.Publishing.{PublishResult, Publisher}

abbrev pub batch_probe_producer_id : String
batch_probe_producer_id = "batch-probe"

-- What PublishBatch made of the forbidden batch: accepted, refused with InvalidArgument, or refused
-- with another code.
pub data BatchProbe : Type 0 where
  accepted invalid_argument other_code : BatchProbe

unfoldable pub batch_size_of : ℤ → ℕ
batch_size_of configured = if ltb_ℤ configured (pos 1) then 1 else pos_part configured

-- The last number after n more, and those numbers as messages of a producer, the last one first.
unfoldable pub take_numbers : ℕ → ℕ → ℕ
take_numbers zero seq = seq
take_numbers (suc n) seq = take_numbers n (add64 seq 1)

unfoldable pub fill_batch : String → ℕ → ℕ → List (String × ℕ) → List (String × ℕ)
fill_batch producer_id zero seq msgs = msgs
fill_batch producer_id (suc n) seq msgs =
    fill_batch producer_id n (add64 seq 1) ((producer_id, add64 seq 1) ∷ msgs)

module _ {Hist : Type 0} where
  unfoldable pub run_atomicity_probe : BatchProbe → BaseWorker Hist → BaseWorker Hist
  run_atomicity_probe BatchProbe.accepted w = record_batch_atomicity_violation w
  run_atomicity_probe BatchProbe.other_code w = record_batch_atomicity_violation w
  run_atomicity_probe BatchProbe.invalid_argument w = w

  unfoldable pub count_batch : ℕ → BaseWorker Hist → BaseWorker Hist
  count_batch zero w = w
  count_batch (suc n) w = count_batch n (record_sent w)

  -- A pass of a producer that no other overtakes. The numbers are taken before the call: a batch that
  -- is refused uses them up.
  unfoldable pub produce_batch : String → ℕ → PublishResult → Publisher Hist → Publisher Hist
  produce_batch producer_id n PublishResult.published p = record p {
    seq = take_numbers n p.seq;
    base = count_batch n p.base;
    topic = fill_batch producer_id n p.seq p.topic;
  }
  produce_batch producer_id n PublishResult.failed p = record p {
    seq = take_numbers n p.seq;
    base = record_error p.base;
  }
  produce_batch producer_id n PublishResult.cancelled p = record p { seq = take_numbers n p.seq }

module _ (C : Codec) (H : Histogram) (age : ℤ → ℕ) where
  -- A delivered message of the probe is a violation, and is not tracked.
  unfoldable pub handle_round_trip : Message → BaseWorker H.State → BaseWorker H.State
  handle_round_trip msg w =
      let m = extract_meta C msg.attributes in
      let received = record_received w in
      if m.ok && eqs m.producer_id batch_probe_producer_id
      then record_acked (record_batch_atomicity_violation received)
      else record_acked
          (if m.ok then (observe C H age m.producer_id msg.body m received).1 else received)
