-- ===== src/Worker/Start/Order.antt =====
-- burnin/worker: the order of the steps of Start, for every worker.
use kubemq_gcp_pub_sub.Base.{
  ◌≡◌, refl, String, Bool, true, false, not, ◌&&◌, Option, none, some, List, [], ◌∷◌, any, arith,
}
use kubemq_gcp_pub_sub.Base.Assoc.{eqs, eqs_iff}
use kubemq_gcp_pub_sub.Worker.Start.{DeadLetterPolicy, Call, Loop, Act, Step, run_start, topic_path}

abbrev pub is_launch : Step → Bool
is_launch (Step.act (Act.launch loop)) = true
is_launch _ = false

abbrev pub is_call : Step → Bool
is_call (Step.call k) = true
is_call (Step.act a) = false

-- No call comes after a launch.
abbrev pub calls_first : List Step → Bool
calls_first [] = true
calls_first (Step.act (Act.launch loop) ∷ steps) = not (any is_call steps) && calls_first steps
calls_first (s ∷ steps) = calls_first steps

-- A run of steps among which there is no call has no error.
no_call_no_error :
    (ok : Call → Bool) (steps : List Step)
    → any is_call steps ≡ false
    → (run_start ok steps).0 ≡ true
unfolding run_start
no_call_no_error ok [] h = refl
no_call_no_error ok (Step.call k ∷ steps) h = absurd_call h
  where
    absurd_call : true ≡ false → (run_start ok (Step.call k ∷ steps)).0 ≡ true
    absurd_call e = cc
no_call_no_error ok (Step.act a ∷ steps) h = no_call_no_error ok steps h

pub failed_launches_none :
    (ok : Call → Bool) (steps : List Step)
    → calls_first steps ≡ true
    → (run_start ok steps).0 ≡ false
    → any is_launch (run_start ok steps).1 ≡ false
unfolding run_start
failed_launches_none ok [] first h = refl
failed_launches_none ok (Step.call k ∷ steps) first h =
    ground (arith, failed_launches_none ok steps)
failed_launches_none ok (Step.act (Act.launch loop) ∷ steps) first h =
    ground (arith, no_call_no_error ok steps)
failed_launches_none ok (Step.act (Act.enable_ordering t) ∷ steps) first h =
    failed_launches_none ok steps first h
failed_launches_none ok (Step.act (Act.configure_receive s r) ∷ steps) first h =
    failed_launches_none ok steps first h
failed_launches_none ok (Step.act Act.invalid_ack_probe ∷ steps) first h =
    failed_launches_none ok steps first h
failed_launches_none ok (Step.act Act.atomicity_probe ∷ steps) first h =
    failed_launches_none ok steps first h
failed_launches_none ok (Step.act Act.signal_ready ∷ steps) first h =
    failed_launches_none ok steps first h

abbrev pub has : List String → String → Bool
has names name = any (eqs name) names

-- The dead-letter topic of a policy is among the topics.
abbrev pub has_dead_letter : String → List String → Option DeadLetterPolicy → Bool
has_dead_letter project topics none = true
has_dead_letter project topics (some p) =
    any (λ t. eqs (topic_path project t) p.dead_letter_topic) topics

abbrev pub has_source : List String → Loop → Bool
has_source subs (Loop.receive_loop s) = has subs s
has_source subs (Loop.dlq_consume_loop s) = has subs s
has_source subs (Loop.source_drive_loop s) = has subs s
has_source subs (Loop.pull_loop s) = has subs s
has_source subs Loop.retry_backoff_probe = true
has_source subs Loop.run_probes = true

-- Every subscription is made on a topic that has been made before, with its dead-letter topic, and every
-- configured or launched loop has its subscription; the topics and subscriptions made so far are given.
abbrev pub is_provisioned : String → List String → List String → List Step → Bool
is_provisioned project topics subs [] = true
is_provisioned project topics subs (Step.call (Call.ensure_topic t) ∷ steps) =
    is_provisioned project (t ∷ topics) subs steps
is_provisioned project topics subs (Step.call (Call.ensure_topic_with_schema t s e) ∷ steps) =
    is_provisioned project (t ∷ topics) subs steps
is_provisioned project topics subs (Step.call (Call.ensure_subscription s config) ∷ steps) =
    has topics config.topic
    && has_dead_letter project topics config.dead_letter_policy
    && is_provisioned project topics (s ∷ subs) steps
is_provisioned project topics subs (Step.act (Act.configure_receive s r) ∷ steps) =
    has subs s && is_provisioned project topics subs steps
is_provisioned project topics subs (Step.act (Act.launch loop) ∷ steps) =
    has_source subs loop && is_provisioned project topics subs steps
is_provisioned project topics subs (step ∷ steps) = is_provisioned project topics subs steps

-- The steps taken before an error are no less in order.
pub run_start-is_provisioned :
    (project : String) (ok : Call → Bool) (steps : List Step) (topics subs : List String)
    → is_provisioned project topics subs steps ≡ true
    → is_provisioned project topics subs (run_start ok steps).1 ≡ true
unfolding run_start
run_start-is_provisioned project ok [] topics subs h = refl
run_start-is_provisioned project ok (Step.call Call.pubsub_client ∷ steps) topics subs h =
    ground (arith, run_start-is_provisioned project ok steps topics subs)
run_start-is_provisioned project ok (Step.call Call.native_client ∷ steps) topics subs h =
    ground (arith, run_start-is_provisioned project ok steps topics subs)
run_start-is_provisioned project ok (Step.call Call.schema_client ∷ steps) topics subs h =
    ground (arith, run_start-is_provisioned project ok steps topics subs)
run_start-is_provisioned project ok (Step.call Call.subscriber_client ∷ steps) topics subs h =
    ground (arith, run_start-is_provisioned project ok steps topics subs)
run_start-is_provisioned project ok (Step.call (Call.create_schema k i) ∷ steps) topics subs h =
    ground (arith, run_start-is_provisioned project ok steps topics subs)
run_start-is_provisioned project ok (Step.call (Call.ensure_topic t) ∷ steps) topics subs h =
    ground (arith, run_start-is_provisioned project ok steps (t ∷ topics) subs)
run_start-is_provisioned project ok (Step.call (Call.ensure_topic_with_schema t i e) ∷ steps) topics
      subs h =
    ground (arith, run_start-is_provisioned project ok steps (t ∷ topics) subs)
run_start-is_provisioned project ok (Step.call (Call.ensure_subscription s r) ∷ steps) topics subs
      h =
    ground (arith, run_start-is_provisioned project ok steps topics (s ∷ subs))
run_start-is_provisioned project ok (Step.call (Call.native_subscribe n) ∷ steps) topics subs h =
    ground (arith, run_start-is_provisioned project ok steps topics subs)
run_start-is_provisioned project ok (Step.act (Act.enable_ordering t) ∷ steps) topics subs h =
    ground (arith, run_start-is_provisioned project ok steps topics subs)
run_start-is_provisioned project ok (Step.act (Act.configure_receive s r) ∷ steps) topics subs h =
    ground (arith, run_start-is_provisioned project ok steps topics subs)
run_start-is_provisioned project ok (Step.act (Act.launch l) ∷ steps) topics subs h =
    ground (arith, run_start-is_provisioned project ok steps topics subs)
run_start-is_provisioned project ok (Step.act Act.invalid_ack_probe ∷ steps) topics subs h =
    ground (arith, run_start-is_provisioned project ok steps topics subs)
run_start-is_provisioned project ok (Step.act Act.atomicity_probe ∷ steps) topics subs h =
    ground (arith, run_start-is_provisioned project ok steps topics subs)
run_start-is_provisioned project ok (Step.act Act.signal_ready ∷ steps) topics subs h =
    ground (arith, run_start-is_provisioned project ok steps topics subs)

pub eqs_refl : (s : String) → eqs s s ≡ true
eqs_refl s = (eqs_iff s s).1 refl
