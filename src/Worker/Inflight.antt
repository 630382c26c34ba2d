-- ===== src/Worker/Inflight.antt =====
-- burnin/worker/inflight_cap.go: the worker that holds its leases until the producers stop. What an
-- Acknowledge returned is an event; a time is in nanoseconds.
pub mod Release
pub mod Pulling
mod Tests
use kubemq_gcp_pub_sub.Base.{
  ℕ, zero, suc, ◌+◌, String, Bool, true, false, not, ◌&&◌, List, [], ◌∷◌, length, ltb, leb,
  if◌then◌else◌,
}
use kubemq_gcp_pub_sub.Base.Words.{add64}
use kubemq_gcp_pub_sub.Base.Int.{ℤ, pos, ltb_ℤ, leb_ℤ, int_of_pattern}
use kubemq_gcp_pub_sub.Base.Assoc.{eqs}
use kubemq_gcp_pub_sub.Base.Codec.{Codec}
use kubemq_gcp_pub_sub.Config.{GcpConfig}
use kubemq_gcp_pub_sub.Tracker.{total_lost}
use kubemq_gcp_pub_sub.Worker.{
  Histogram, BaseWorker, reset_after_warmup, record_received, record_acked, record_error,
  record_inflight_cap_tail_redelivered, record_inflight_cap_lost,
}
use kubemq_gcp_pub_sub.Worker.Attrs.{extract_meta}
use kubemq_gcp_pub_sub.Worker.Handling.{Message, observe}
use kubemq_gcp_pub_sub.Worker.Publishing.{PublishResult, count_publish, accept}
use kubemq_gcp_pub_sub.Worker.Reconcile.{has}
use kubemq_gcp_pub_sub.Worker.Seek.{AckEnd}

-- connectorInflightCap + 5000 where none is configured.
unfoldable pub backlog_target_of : {Float : Type 0} → GcpConfig Float → ℤ
backlog_target_of gcp =
    if ltb_ℤ gcp.inflight_backlog_target (pos 1) then pos 25000 else gcp.inflight_backlog_target

-- The topic's numbers are kept, the last one first.
pub record InflightCapWorker (Hist : Type 0) : Type 0 where
  pub base : BaseWorker Hist
  pub seq : ℕ
  pub backlog_target : ℤ
  pub draining : Bool
  pub released : ℕ
  pub held : List String
  pub topic : List ℕ

abbrev pub batch : ℕ
batch = 1000

module _ {ℓ} {A : Type ℓ} where
  abbrev pub take : ℕ → List A → List A
  take zero xs = []
  take (suc n) [] = []
  take (suc n) (x ∷ xs) = x ∷ take n xs

  abbrev pub drop : ℕ → List A → List A
  drop zero xs = xs
  drop (suc n) [] = []
  drop (suc n) (x ∷ xs) = drop n xs

module _ {Hist : Type 0} where
  -- An error counts unless the context has ended.
  unfoldable pub count_refusal : AckEnd → BaseWorker Hist → BaseWorker Hist
  count_refusal AckEnd.acknowledged w = w
  count_refusal AckEnd.refused w = record_error w
  count_refusal AckEnd.cut_off w = w

  unfoldable pub ack_one : AckEnd → String → BaseWorker Hist → BaseWorker Hist
  ack_one end ack_id w = if eqs ack_id "" then w else count_refusal end w

  unfoldable pub count_chunk : List String → BaseWorker Hist → BaseWorker Hist
  count_chunk [] w = w
  count_chunk (id ∷ ids) w = count_chunk ids (record_acked w)

  -- The loop over the chunks; `ends k` is what the k-th Acknowledge returned. A fuel of the number of
  -- ids is enough, since each chunk takes one at least.
  unfoldable pub ack_many : ℕ → (ℕ → AckEnd) → ℕ → List String → BaseWorker Hist → BaseWorker Hist
  ack_many zero ends k ids w = w
  ack_many (suc fuel) ends k [] w = w
  ack_many (suc fuel) ends k (id ∷ ids) w =
      ack_many fuel ends (k + 1) (drop batch (id ∷ ids))
        (count_chunk (take batch (id ∷ ids)) (count_refusal (ends k) w))

  unfoldable pub stop_producers : ℕ → (ℕ → AckEnd) → InflightCapWorker Hist → InflightCapWorker Hist
  stop_producers now ends w = record w {
    released = now;
    draining = true;
    held = [];
    base = ack_many (length w.held) ends 0 w.held w.base;
  }

  -- The check at the head of produceLoop: at the target the loop idles.
  unfoldable pub is_at_target : InflightCapWorker Hist → Bool
  is_at_target w = leb_ℤ w.backlog_target (int_of_pattern w.seq)

  -- The first argument says that the number is above the target.
  unfoldable pub publish_within :
      Bool → PublishResult → InflightCapWorker Hist → InflightCapWorker Hist
  publish_within true r w = w
  publish_within false r w = record w {
    base = count_publish r w.base;
    topic = accept r w.seq w.topic;
  }

  -- The rest of a pass, which other producers may have overtaken since the check.
  unfoldable pub produce_capped : PublishResult → InflightCapWorker Hist → InflightCapWorker Hist
  produce_capped r w =
      let seq = add64 w.seq 1 in
      publish_within (ltb_ℤ w.backlog_target (int_of_pattern seq)) r (record w { seq = seq })

  -- What StopConsumers adds to the base worker's.
  unfoldable pub reconcile_inflight : InflightCapWorker Hist → InflightCapWorker Hist
  reconcile_inflight w =
      let lost = total_lost w.base.trk in
      if ltb 0 lost then record w { base = record_inflight_cap_lost lost w.base } else w

module _ (C : Codec) (H : Histogram) (age : ℤ → ℕ) where
  -- `drain` was read before the batch of the message.
  unfoldable pub handle_pulled :
      Bool → ℕ → AckEnd → String → Message → InflightCapWorker H.State → InflightCapWorker H.State
  handle_pulled drain now end ack_id msg w =
      let m = extract_meta C msg.attributes in
      let received = record_received w.base in
      let seen = if m.ok then (observe C H age m.producer_id msg.body m received).1 else received in
      let acked = record_acked (ack_one end ack_id seen) in
      if not drain
      then record w { base = seen; held = if has ack_id w.held then w.held else ack_id ∷ w.held }
      else record w {
        base =
            if ltb 0 w.released && leb w.released now
            then record_inflight_cap_tail_redelivered acked
            else acked;
      }

  unfoldable pub reset_inflight : InflightCapWorker H.State → InflightCapWorker H.State
  reset_inflight w = record w {
    base = reset_after_warmup H w.base;
    draining = false;
    released = 0;
    seq = 0;
    held = [];
  }
