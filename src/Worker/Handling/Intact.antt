-- ===== src/Worker/Handling/Intact.antt =====
-- burnin/worker: from the build and the stamp of a message to the worker that handles it.
use kubemq_gcp_pub_sub.Base.{ℕ, ◌<◌, ◌^◌, ◌≡◌, refl, String, true, false, some, arith}
use kubemq_gcp_pub_sub.Base.Int.{ℤ, pos}
use kubemq_gcp_pub_sub.Base.Assoc.{eqs, eqs_iff}
use kubemq_gcp_pub_sub.Base.Codec.{Codec}
use kubemq_gcp_pub_sub.Worker.{
  Histogram, BaseWorker, record_latency, record_received, record_acked, record_tracked,
}
use kubemq_gcp_pub_sub.Worker.Attrs.{Meta, stamp_attrs, build, verify_crc, extract_meta-stamp_attrs}
use kubemq_gcp_pub_sub.Worker.Handling.{Message, handle_message, observe, check_body, time_message}

module _ (C : Codec) (H : Histogram) (age : ℤ → ℕ) where
  -- The message that a producer builds and stamps.
  unfoldable pub outgoing : (ℤ → String) → ℤ → String → ℕ → ℤ → Message
  outgoing random_hex size producer_id seq now =
      let (body, crc_hex) = build C random_hex size in
      record {
        body = body;
        attributes = some (stamp_attrs C producer_id seq crc_hex now);
        ordering_key = "";
      }

  is_intact : (body : String) → verify_crc C body (C.crc32_hex body) ≡ true
  unfolding verify_crc
  is_intact body = (eqs_iff (C.crc32_hex body) (C.crc32_hex body)).1 refl

  check_intact :
      (body : String) (m : Meta) (w : BaseWorker H.State)
      → m.crc_hex ≡ C.crc32_hex body
      → check_body C H age body m w ≡ w
  unfolding check_body
  check_intact body m w h = ground (arith, h, is_intact body)

  -- A message that arrives as it was built and stamped is never counted as corrupted: its worker
  -- counts it as received and acked, records its age, and feeds the tracker the number and the
  -- producer that were stamped, whatever the worker's state. The producer has a name, the number is
  -- a uint64, and the time an int64 from 1970 on.
  pub handle_outgoing :
      (random_hex : ℤ → String) (size : ℤ) (producer_id : String) (seq now : ℕ)
      (w : BaseWorker H.State)
      → eqs producer_id "" ≡ false
      → seq < 2 ^ 64
      → now < 2 ^ 63
      → handle_message C H age (outgoing random_hex size producer_id seq (pos now)) w
        ≡ record_acked (
            (record_tracked producer_id seq
              (record_latency H (age (pos now)) (record_received w))).1)
  unfolding handle_message outgoing build observe time_message
  handle_outgoing random_hex size producer_id seq now w named hs ht = simp (
    extract_meta-stamp_attrs C producer_id seq (build C random_hex size).1 now hs ht,
    named,
    check_intact,
  )
