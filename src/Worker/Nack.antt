-- ===== src/Worker/Nack.antt =====
-- burnin/worker/nack_redelivery.go: handleMessage. The key of a message, `producerID#seq`, is the
-- parameter `key_of`, and the draw of rng.Float64 an argument.
pub mod Once
use kubemq_gcp_pub_sub.Base.{
  ℕ, String, Bool, true, false, Option, none, some, List, [], ◌∷◌, if◌then◌else◌,
}
use kubemq_gcp_pub_sub.Base.Int.{ℤ}
use kubemq_gcp_pub_sub.Base.Floats.{Floats}
use kubemq_gcp_pub_sub.Base.Assoc.{lookup, insert}
use kubemq_gcp_pub_sub.Base.Codec.{Codec}
use kubemq_gcp_pub_sub.Worker.{
  Histogram, BaseWorker, record_received, record_acked, record_nack_redelivered,
}
use kubemq_gcp_pub_sub.Worker.Attrs.{extract_meta}
use kubemq_gcp_pub_sub.Worker.Handling.{Message, observe}

-- Nacked once, its redelivery pending; or its redelivery acked. An id that is not in the map is new.
pub data NackState : Type 0 where
  nacked redelivered : NackState

-- What the client is told.
pub data Settlement : Type 0 where
  ack nack : Settlement

pub record NackWorker (Hist : Type 0) : Type 0 where
  pub base : BaseWorker Hist
  pub states : List (String × NackState)

module _ {Hist : Type 0} where
  unfoldable pub ack_and_count : NackWorker Hist → Settlement × NackWorker Hist
  ack_and_count w = (Settlement.ack, record w { base = record_acked w.base })

  -- The switch on the state of the key, and the draw for a new key.
  unfoldable pub settle :
      Option NackState → Bool → String → NackWorker Hist → Settlement × NackWorker Hist
  settle (some NackState.nacked) drawn key w = (
    Settlement.ack,
    record {
      base = record_nack_redelivered (record_acked w.base);
      states = insert key NackState.redelivered w.states;
    },
  )
  settle (some NackState.redelivered) drawn key w = ack_and_count w
  settle none true key w =
      (Settlement.nack, record w { states = insert key NackState.nacked w.states })
  settle none false key w = ack_and_count w

  unfoldable pub deliver : String → Bool → NackWorker Hist → Settlement × NackWorker Hist
  deliver key drawn w = settle (lookup key w.states) drawn key w

module _ (F : Floats) where
  open F use {Float, ratio, gt}

  unfoldable pub clamp_fraction : Float → Float
  clamp_fraction nf =
      let floored = if gt (ratio 0 1) nf then ratio 0 1 else nf in
      if gt floored (ratio 1 1) then ratio 1 1 else floored

  module _ (C : Codec) (H : Histogram) (age : ℤ → ℕ) (key_of : String → ℕ → String) where
    -- Every receipt is tracked, the redelivery too.
    unfoldable pub handle_nack_redelivery :
        Float → Float → Message → NackWorker H.State → Settlement × NackWorker H.State
    handle_nack_redelivery nack_fraction draw msg w =
        let m = extract_meta C msg.attributes in
        let received = record_received w.base in
        let seen = (observe C H age m.producer_id msg.body m received).1 in
        if m.ok
        then deliver (key_of m.producer_id m.seq) (gt nack_fraction draw) (record w { base = seen })
        else ack_and_count (record w { base = received })
