-- ===== src/Worker/Inflight/Tests.antt =====
-- A run of pullLoop in which StopProducers comes between two messages of a batch.
use kubemq_gcp_pub_sub.Base.{ℕ, ◌≡◌, not, ◌&&◌, false, List, [], ◌∷◌}
use kubemq_gcp_pub_sub.Base.Int.{pos}
use kubemq_gcp_pub_sub.Samples.{samples, fresh_worker}
use kubemq_gcp_pub_sub.Samples.Strokes.{codec}
use kubemq_gcp_pub_sub.Samples.Messages.{returned, age}
use kubemq_gcp_pub_sub.Worker.Reconcile.{has}
use kubemq_gcp_pub_sub.Worker.Seek.{AckEnd}
use kubemq_gcp_pub_sub.Worker.Inflight.{take}
use kubemq_gcp_pub_sub.Worker.Inflight.Pulling.{
  PullEvent, Pulling, stop_while_pulling, pull_loop, handles, ids, held_after_release,
}

-- The first message of the batch is held, the second one still in hand.
abbrev half_way : Pulling (List ℕ)
half_way = record {
  worker = record {
    base = fresh_worker;
    seq = 2;
    backlog_target = pos 25000;
    draining = false;
    released = 0;
    held = "a" ∷ [];
    topic = 2 ∷ 1 ∷ [];
  };
  in_hand = record { ack_id = "b"; message = returned } ∷ [];
  drain = false;
}

abbrev next : List PullEvent
next =
    PullEvent.handled 20 AckEnd.acknowledged
    ∷ PullEvent.pulled (record { ack_id = "c"; message = returned } ∷ [])
    ∷ PullEvent.handled 30 AckEnd.acknowledged
    ∷ []

held_after_release_example :
    has "b"
      (pull_loop codec samples age next
        (stop_while_pulling 10 (λ k. AckEnd.acknowledged) half_way)).worker.held
    ≡ (not half_way.drain && has "b" (ids (take (handles next) half_way.in_hand)))
held_after_release_example =
    held_after_release codec samples age next 10 (λ k. AckEnd.acknowledged) half_way "b"
