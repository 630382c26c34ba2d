-- ===== src/Worker/Scenarios.antt =====
-- Runs of the workers on concrete messages, publishes and acknowledgements.
use kubemq_gcp_pub_sub.Base.{
  ℕ, ◌+◌, ◌<◌, ◌≡◌, ◌⊎◌, ◌≤◌, refl, String, Bool, true, false, List, [], ◌∷◌, arith,
}
use kubemq_gcp_pub_sub.Base.Int.{ℤ, pos}
use kubemq_gcp_pub_sub.Samples.{samples, fresh_worker}
use kubemq_gcp_pub_sub.Samples.Strokes.{codec}
use kubemq_gcp_pub_sub.Samples.Messages.{age, returned}
use kubemq_gcp_pub_sub.Tracker
use kubemq_gcp_pub_sub.Worker.{
  BaseWorker, new_base_worker, record_acked, record_tracked, record_latency, record_received,
}
use kubemq_gcp_pub_sub.Worker.Handling.{handle_message}
use kubemq_gcp_pub_sub.Worker.Handling.Intact.{outgoing, handle_outgoing}
use kubemq_gcp_pub_sub.Worker.Publishing.{
  PublishResult, Publisher, FilteringPublisher, take_number, publish_taken, picked, drop_place,
}
use kubemq_gcp_pub_sub.Worker.Publishing.Numbers.{
  Step, copies, steps, step, steps-numbered_once, countdown, produce_filtered_run,
  produce_filtered_run_lem,
}
use kubemq_gcp_pub_sub.Worker.ExactlyOnce.{AckStatus, AckResult, ack_all}
use kubemq_gcp_pub_sub.Worker.ExactlyOnce.Acks.{IsCountedBy, confirmed_in, failed_in, ack_all_lem}
use kubemq_gcp_pub_sub.Worker.Nack.{NackWorker}
use kubemq_gcp_pub_sub.Worker.Nack.Once.{nacks_of, acks_of, redelivered_acked}
use kubemq_gcp_pub_sub.Worker.Seek.{Pull, AckEnd}
use kubemq_gcp_pub_sub.Worker.Seek.Drain.{Ends, drain-Ends}
use kubemq_gcp_pub_sub.Worker.Seek.Round.{RoundCalls, run_round}
use kubemq_gcp_pub_sub.Worker.Seek.Failed.{FailsQuietly, run_round-FailsQuietly}
use kubemq_gcp_pub_sub.Worker.Inflight.{InflightCapWorker}
use kubemq_gcp_pub_sub.Worker.Inflight.Release.{
  IsWithin, produce_capped_run, produce_capped_run-IsWithin,
}

abbrev hex_body : ℤ → String
hex_body size = "0f3a"

handle_outgoing_example :
    handle_message codec samples age
      (outgoing codec samples age hex_body (pos 4) "p" 2 (pos 3))
      fresh_worker
    ≡ record_acked (
        (record_tracked "p" 2
          (record_latency samples (age (pos 3)) (record_received fresh_worker))).1)
handle_outgoing_example =
    handle_outgoing codec samples age hex_body (pos 4) "p" 2 3 fresh_worker refl (omega arith)
      (omega arith)

abbrev quiet_topic : Publisher (List ℕ)
quiet_topic = record { seq = 0; in_flight = []; base = fresh_worker; topic = [] }

-- p-1 overtakes p-0, whose publish fails.
abbrev overtaking : List Step
overtaking =
    Step.takes "p-0"
    ∷ Step.takes "p-1"
    ∷ Step.ends 0 PublishResult.published
    ∷ Step.takes "p-1"
    ∷ Step.ends 1 PublishResult.failed
    ∷ Step.ends 0 PublishResult.published
    ∷ Step.takes "p-0"
    ∷ []

steps-numbered_once_example :
    let p = steps overtaking quiet_topic in
    let found = copies 3 p.in_flight + copies 3 p.topic in
    (found ≡ 0) ⊎ ((found ≡ 1) × (0 < 3) × (3 ≤ p.seq))
steps-numbered_once_example = steps-numbered_once overtaking quiet_topic 3 (omega arith) refl refl

overtaken : (steps overtaking quiet_topic).topic ≡ ("p-1", 3) ∷ ("p-1", 2) ∷ []
unfolding steps step take_number publish_taken picked drop_place
    kubemq_gcp_pub_sub.Worker.Publishing.accept
overtaken = refl

-- Each producer publishes what it has numbered before another takes its turn.
abbrev in_turn : List (String × PublishResult) → List Step
in_turn [] = []
in_turn ((id, r) ∷ turns) = Step.takes id ∷ Step.ends 0 r ∷ in_turn turns

-- The topic's messages in the order of their numbers, all delivered to a tracker with a window of 2.
abbrev deliver_all_of : List (String × ℕ) → Tracker.Tracker
deliver_all_of [] = Tracker.new 2
deliver_all_of ((id, n) ∷ ms) = (Tracker.record_sequence (deliver_all_of ms) id n).0

abbrev first_fails : List (String × PublishResult)
first_fails =
    ("p", PublishResult.published)
    ∷ ("p", PublishResult.failed)
    ∷ ("p", PublishResult.published)
    ∷ ("p", PublishResult.published)
    ∷ ("p", PublishResult.published)
    ∷ ("p", PublishResult.published)
    ∷ []

-- Every message of the topic is delivered once and in order, and still one counts as lost.
failed_publish_is_lost :
    Tracker.total_lost (deliver_all_of (steps (in_turn first_fails) quiet_topic).topic) ≡ 1
unfolding steps step take_number publish_taken picked drop_place Tracker.total_lost Tracker.sum_in
    kubemq_gcp_pub_sub.Worker.Publishing.accept Tracker.record_sequence Tracker.new
    kubemq_gcp_pub_sub.Tracker.Producer.record_known kubemq_gcp_pub_sub.Tracker.Producer.place
    kubemq_gcp_pub_sub.Tracker.Producer.count_arrival
    kubemq_gcp_pub_sub.Tracker.Producer.new_producer
    kubemq_gcp_pub_sub.Tracker.Producer.advance_contiguous
    kubemq_gcp_pub_sub.Tracker.Producer.advance kubemq_gcp_pub_sub.Tracker.Window.get_bit
    kubemq_gcp_pub_sub.Tracker.Window.set_bit kubemq_gcp_pub_sub.Tracker.Window.shift_left
    kubemq_gcp_pub_sub.Tracker.Producer.slide_window kubemq_gcp_pub_sub.Tracker.Producer.slide_to
    kubemq_gcp_pub_sub.Tracker.Pending.delete kubemq_gcp_pub_sub.Tracker.Pending.mem
    kubemq_gcp_pub_sub.Tracker.Pending.put kubemq_gcp_pub_sub.Tracker.Producer.evict
    kubemq_gcp_pub_sub.Tracker.Producer.mark kubemq_gcp_pub_sub.Tracker.Producer.shift_times
failed_publish_is_lost = refl

abbrev taking_turns : List (String × PublishResult)
taking_turns =
    ("p", PublishResult.published)
    ∷ ("q", PublishResult.published)
    ∷ ("p", PublishResult.published)
    ∷ ("q", PublishResult.published)
    ∷ ("p", PublishResult.published)
    ∷ ("q", PublishResult.published)
    ∷ []

-- Two producers take turns, no publish fails, every message is delivered once and in order.
shared_counter_is_lost :
    Tracker.total_lost (deliver_all_of (steps (in_turn taking_turns) quiet_topic).topic) ≡ 2
unfolding steps step take_number publish_taken picked drop_place Tracker.total_lost Tracker.sum_in
    kubemq_gcp_pub_sub.Worker.Publishing.accept Tracker.record_sequence Tracker.new
    kubemq_gcp_pub_sub.Tracker.Producer.record_known kubemq_gcp_pub_sub.Tracker.Producer.place
    kubemq_gcp_pub_sub.Tracker.Producer.count_arrival
    kubemq_gcp_pub_sub.Tracker.Producer.new_producer
    kubemq_gcp_pub_sub.Tracker.Producer.advance_contiguous
    kubemq_gcp_pub_sub.Tracker.Producer.advance kubemq_gcp_pub_sub.Tracker.Window.get_bit
    kubemq_gcp_pub_sub.Tracker.Window.set_bit kubemq_gcp_pub_sub.Tracker.Window.shift_left
    kubemq_gcp_pub_sub.Tracker.Producer.slide_window kubemq_gcp_pub_sub.Tracker.Producer.slide_to
    kubemq_gcp_pub_sub.Tracker.Pending.delete kubemq_gcp_pub_sub.Tracker.Pending.mem
    kubemq_gcp_pub_sub.Tracker.Pending.put kubemq_gcp_pub_sub.Tracker.Producer.evict
    kubemq_gcp_pub_sub.Tracker.Producer.mark kubemq_gcp_pub_sub.Tracker.Producer.shift_times
shared_counter_is_lost = refl

abbrev filtering_start : FilteringPublisher (List ℕ)
filtering_start = record {
  match_seq = 0;
  tick = 0;
  non_match_seq = 0;
  base = fresh_worker;
  matching = [];
  non_matching = [];
}

abbrev publishes : List PublishResult
publishes =
    PublishResult.published ∷ PublishResult.published ∷ PublishResult.failed
    ∷ PublishResult.published ∷ PublishResult.published ∷ []

produce_filtered_run_lem_example :
    (produce_filtered_run publishes filtering_start).matching
    ≡ countdown (produce_filtered_run publishes filtering_start).match_seq
produce_filtered_run_lem_example =
    produce_filtered_run_lem publishes filtering_start (omega arith) refl

abbrev ok_result : AckResult
ok_result = record { status = AckStatus.success; erred = false }

abbrev bad_result : AckResult
bad_result = record { status = AckStatus.invalid_ack_id; erred = false }

abbrev ack_results : List (AckResult × AckResult)
ack_results = (ok_result, ok_result) ∷ (bad_result, ok_result) ∷ (bad_result, bad_result) ∷ []

ack_all_lem_example :
    IsCountedBy
      (confirmed_in ack_results)
      (failed_in ack_results)
      fresh_worker
      (ack_all ack_results fresh_worker)
unfolding new_base_worker
ack_all_lem_example =
    ack_all_lem ack_results fresh_worker (omega arith, omega arith, omega arith, omega arith)

abbrev no_states : NackWorker (List ℕ)
no_states = record { base = fresh_worker; states = [] }

abbrev deliveries : List (String × Bool)
deliveries = ("p#1", true) ∷ ("p#2", false) ∷ ("p#1", true) ∷ ("p#1", true) ∷ []

redelivered_acked_example : 1 ≤ acks_of "p#1" deliveries no_states
redelivered_acked_example = redelivered_acked "p#1" deliveries no_states 1 (omega arith)

nacked_once : nacks_of "p#1" deliveries no_states ≡ 1
unfolding nacks_of kubemq_gcp_pub_sub.Worker.Nack.deliver kubemq_gcp_pub_sub.Worker.Nack.settle
    kubemq_gcp_pub_sub.Worker.Nack.ack_and_count
nacked_once = refl

-- Two empty pulls before the message that is wanted.
abbrev pulls : List Pull
pulls =
    Pull.pulled [] AckEnd.acknowledged
    ∷ Pull.pulled [] AckEnd.acknowledged
    ∷ Pull.pulled (returned ∷ []) AckEnd.acknowledged
    ∷ Pull.failed
    ∷ Pull.failed
    ∷ Pull.failed
    ∷ []

drain-Ends_example : Ends codec samples age "p" 1 pulls 0 0 fresh_worker
drain-Ends_example =
    drain-Ends codec samples age "p" 1 1 pulls 0 0 fresh_worker
      (omega arith, (omega arith, (omega arith, tt))) (omega arith) (omega arith) (omega arith)

abbrev holding : InflightCapWorker (List ℕ)
holding = record {
  base = fresh_worker;
  seq = 0;
  backlog_target = pos 2;
  draining = false;
  released = 0;
  held = "a" ∷ "b" ∷ [];
  topic = [];
}

produce_capped_run-IsWithin_example :
    IsWithin
      (produce_capped_run publishes holding).backlog_target
      (produce_capped_run publishes holding).topic
produce_capped_run-IsWithin_example = produce_capped_run-IsWithin publishes holding tt

-- The replay set is drained, and then the seek fails.
abbrev failed_seek : RoundCalls
failed_seek = record {
  baseline = PublishResult.published ∷ [];
  baseline_pulls = pulls;
  cursor_ok = true;
  replay = PublishResult.published ∷ [];
  replay_set_pulls = pulls;
  seek_ok = false;
  replay_pulls = [];
}

run_round-FailsQuietly_example :
    FailsQuietly codec samples age
      (λ n. 0)
      "p"
      fresh_worker
      (run_round codec samples age (λ n. 0) "p" failed_seek fresh_worker)
run_round-FailsQuietly_example =
    run_round-FailsQuietly codec samples age (λ n. 0) "p" failed_seek fresh_worker
