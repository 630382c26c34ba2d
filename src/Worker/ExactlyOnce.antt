-- ===== src/Worker/ExactlyOnce.antt =====
-- burnin/worker/exactly_once.go: the acks with their reconciliation, handleMessage, and the probe with
-- an ack id that was never given out; ackStatusString of burnin/worker/util.go. What the client
-- returned is an argument.
pub mod Acks
pub mod Answers
use kubemq_gcp_pub_sub.Base.{
  ℕ, suc, ◌+◌, ◌<◌, ◌^◌, ◌≡◌, refl, String, Bool, true, false, not, ◌&&◌, ◌||◌, List, [], ◌∷◌,
  length, arith, if◌then◌else◌,
}
use kubemq_gcp_pub_sub.Base.Int.{ℤ}
use kubemq_gcp_pub_sub.Base.Assoc.{eqs}
use kubemq_gcp_pub_sub.Base.Codec.{Codec}
use kubemq_gcp_pub_sub.Worker.{
  Histogram, BaseWorker, record_received, record_acked, record_error, record_exactly_once_ack,
  reconcile_exactly_once, mark_confirmations_probe_ran, mark_invalid_ack_probe_ran,
  record_exactly_once_invalid_ack_confirmed,
}
use kubemq_gcp_pub_sub.Worker.Attrs.{extract_meta}
use kubemq_gcp_pub_sub.Worker.Handling.{Message, observe}

-- pubsub.AcknowledgeStatus
pub data AckStatus : Type 0 where
  success permission_denied failed_precondition invalid_ack_id other unlisted : AckStatus

unfoldable pub ack_status_string : AckStatus → String
ack_status_string AckStatus.success = "success"
ack_status_string AckStatus.permission_denied = "permission_denied"
ack_status_string AckStatus.failed_precondition = "failed_precondition"
ack_status_string AckStatus.invalid_ack_id = "invalid_ack_id"
ack_status_string AckStatus.other = "other"
ack_status_string AckStatus.unlisted = "unknown"

abbrev pub is_success : AckStatus → Bool
is_success AckStatus.success = true
is_success AckStatus.permission_denied = false
is_success AckStatus.failed_precondition = false
is_success AckStatus.invalid_ack_id = false
is_success AckStatus.other = false
is_success AckStatus.unlisted = false

abbrev pub is_invalid_ack_id : AckStatus → Bool
is_invalid_ack_id AckStatus.invalid_ack_id = true
is_invalid_ack_id AckStatus.success = false
is_invalid_ack_id AckStatus.permission_denied = false
is_invalid_ack_id AckStatus.failed_precondition = false
is_invalid_ack_id AckStatus.other = false
is_invalid_ack_id AckStatus.unlisted = false

-- What AckExactlyOnce returned: a status, and whether there was an error.
pub record AckResult : Type 0 where
  pub status : AckStatus
  pub erred : Bool

unfoldable pub confirms : AckResult → Bool
confirms r = not r.erred && is_success r.status

-- What the probe met: the client could not be built, or the ack was answered, with the gRPC code
-- of its error (FailedPrecondition or not) and the reason in the error's details.
pub data ProbeResult : Type 0 where
  no_client : ProbeResult
  answered : AckStatus → Bool → String → ProbeResult

abbrev pub invalid_ack_id_reason : String
invalid_ack_id_reason = "PERMANENT_FAILURE_INVALID_ACK_ID"

module _ {Hist : Type 0} where
  -- The second result is that of the retry, if there is one.
  unfoldable pub ack_with_reconciliation : AckResult → AckResult → BaseWorker Hist → BaseWorker Hist
  ack_with_reconciliation first retry w =
      if confirms first
      then record_acked (record_exactly_once_ack true w)
      else if confirms retry
      then record_acked
          (record_exactly_once_ack true (reconcile_exactly_once (record_exactly_once_ack false w)))
      else record_error (record_exactly_once_ack false w)

  unfoldable pub run_invalid_ack_probe : Bool → ProbeResult → BaseWorker Hist → BaseWorker Hist
  run_invalid_ack_probe false r w = w
  run_invalid_ack_probe true ProbeResult.no_client w = record_error w
  run_invalid_ack_probe true (ProbeResult.answered status precondition reason) w =
      if is_invalid_ack_id status || precondition && eqs reason invalid_ack_id_reason
      then record_exactly_once_invalid_ack_confirmed (mark_invalid_ack_probe_ran w)
      else mark_invalid_ack_probe_ran w

  unfoldable pub ack_all : List (AckResult × AckResult) → BaseWorker Hist → BaseWorker Hist
  ack_all [] w = w
  ack_all ((first, retry) ∷ acks) w = ack_all acks (ack_with_reconciliation first retry w)

module _ (C : Codec) (H : Histogram) (age : ℤ → ℕ) where
  unfoldable pub handle_exactly_once :
      AckResult → AckResult → Message → BaseWorker H.State → BaseWorker H.State
  handle_exactly_once first retry msg w =
      let m = extract_meta C msg.attributes in
      let received = mark_confirmations_probe_ran (record_received w) in
      ack_with_reconciliation first retry
        (if m.ok then (observe C H age m.producer_id msg.body m received).1 else received)
