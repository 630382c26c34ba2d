-- ===== src/Worker/Start.antt =====
-- burnin/worker: what Start of a worker does, as steps: calls that can fail, each followed by a return of
-- its error, and acts that cannot. With burnin/transport: SubscriptionConfig and the builders of it, the
-- receive settings of pull_ops.go, and SchemaSettings.
pub mod Programs
pub mod Order
pub mod Every
pub mod Erased
mod Tests
use kubemq_gcp_pub_sub.Base.{
  ℕ, String, Bool, true, false, Option, none, some, List, [], ◌∷◌, if◌then◌else◌,
}
use kubemq_gcp_pub_sub.Base.Int.{ℤ, pos, ltb_ℤ, mul_int}
use kubemq_gcp_pub_sub.Base.Assoc.{eqs}
use Prim.Native.String.{◌++◌ as ◌+++◌}
use kubemq_gcp_pub_sub.Worker.Schema.{SchemaEncoding}

pub record DeadLetterPolicy : Type 0 where
  pub dead_letter_topic : String
  pub max_delivery_attempts : ℤ

-- In nanoseconds.
pub record RetryPolicy : Type 0 where
  pub minimum_backoff : ℕ
  pub maximum_backoff : ℕ

pub record SubscriptionConfig : Type 0 where
  pub topic : String
  pub ack_deadline : ℤ
  pub enable_message_ordering : Bool
  pub enable_exactly_once_delivery : Bool
  pub filter : String
  pub dead_letter_policy : Option DeadLetterPolicy
  pub retry_policy : Option RetryPolicy

pub record ReceiveSettings : Type 0 where
  pub num_goroutines : ℤ
  pub max_outstanding_messages : ℕ
  pub max_outstanding_bytes : Option ℤ  -- none where the client's default stays

pub data SchemaType : Type 0 where
  avro protobuf : SchemaType

-- A call that can fail. A topic or a subscription that is already there is no failure.
pub data Call : Type 0 where
  pubsub_client native_client schema_client subscriber_client : Call
  create_schema : SchemaType → String → Call
  ensure_topic : String → Call
  ensure_topic_with_schema : String → String → SchemaEncoding → Call
  ensure_subscription : String → SubscriptionConfig → Call
  native_subscribe : String → Call

-- What a goroutine runs: a receive loop over a subscription, the loops of the dead-letter worker, the
-- pulls of the in-flight worker, or the probes of the streaming worker.
pub data Loop : Type 0 where
  receive_loop dlq_consume_loop source_drive_loop pull_loop : String → Loop
  retry_backoff_probe run_probes : Loop

pub data Act : Type 0 where
  enable_ordering : String → Act
  configure_receive : String → ReceiveSettings → Act
  launch : Loop → Act
  invalid_ack_probe atomicity_probe signal_ready : Act

pub data Step : Type 0 where
  call : Call → Step
  act : Act → Step

-- Whether Start returns no error, and the steps that it has taken.
unfoldable pub run_start : (Call → Bool) → List Step → Bool × List Step
run_start ok [] = (true, [])
run_start ok (Step.call c ∷ steps) =
    let rest = run_start ok steps in
    if ok c then (rest.0, Step.call c ∷ rest.1) else (false, Step.call c ∷ [])
run_start ok (Step.act a ∷ steps) = let rest = run_start ok steps in (rest.0, Step.act a ∷ rest.1)

unfoldable pub ack_deadline_of : ℤ → ℤ
ack_deadline_of seconds = mul_int seconds (pos 1000000000)

unfoldable pub plain_config : String → ℤ → SubscriptionConfig
plain_config topic seconds = record {
  topic = topic;
  ack_deadline = ack_deadline_of seconds;
  enable_message_ordering = false;
  enable_exactly_once_delivery = false;
  filter = "";
  dead_letter_policy = none;
  retry_policy = none;
}

unfoldable pub filtered_subscription_config : String → ℤ → String → SubscriptionConfig
filtered_subscription_config topic seconds filter = record (plain_config topic seconds) {
  filter = filter;
}

unfoldable pub ordering_subscription_config : String → ℤ → SubscriptionConfig
ordering_subscription_config topic seconds = record (plain_config topic seconds) {
  enable_message_ordering = true;
}

abbrev pub default_max_outstanding : ℕ
default_max_outstanding = 1000

unfoldable pub at_least_one : ℤ → ℤ
at_least_one n = if ltb_ℤ n (pos 1) then pos 1 else n

unfoldable pub configure_receive_with_bytes : ℤ → ℤ → ReceiveSettings
configure_receive_with_bytes num_streams max_bytes = record {
  num_goroutines = at_least_one num_streams;
  max_outstanding_messages = default_max_outstanding;
  max_outstanding_bytes = if ltb_ℤ (pos 0) max_bytes then some max_bytes else none;
}

unfoldable pub configure_receive_of : ℤ → ReceiveSettings
configure_receive_of num_streams = configure_receive_with_bytes num_streams (pos 0)

unfoldable pub project_or_default : String → String
project_or_default project = if eqs project "" then "burnin" else project

unfoldable pub schema_path : String → String → String
schema_path project schema = "projects/" +++ project_or_default project +++ "/schemas/" +++ schema

unfoldable pub subscription_path : String → String → String
subscription_path project sub =
    "projects/" +++ project_or_default project +++ "/subscriptions/" +++ sub

unfoldable pub topic_path : String → String → String
topic_path project topic = "projects/" +++ project +++ "/topics/" +++ topic
