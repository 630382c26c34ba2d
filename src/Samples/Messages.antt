-- ===== src/Samples/Messages.antt =====
-- A message for the tests, the age of every message, and an id that leaves the number out.
use kubemq_gcp_pub_sub.Base.{ℕ, String, some}
use kubemq_gcp_pub_sub.Base.Int.{ℤ, pos}
use kubemq_gcp_pub_sub.Samples.Strokes.{codec}
use kubemq_gcp_pub_sub.Worker.Attrs.{stamp_attrs}
use kubemq_gcp_pub_sub.Worker.Handling.{Message}

abbrev pub age : ℤ → ℕ
age t = 5

abbrev pub id_of : String → ℕ → String
id_of producer_id seq = producer_id

abbrev pub returned : Message
returned = record {
  body = "0f3a";
  attributes = some (stamp_attrs codec "p" 1 "0f3a" (pos 3));
  ordering_key = "";
}
