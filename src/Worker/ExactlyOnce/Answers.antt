-- ===== src/Worker/ExactlyOnce/Answers.antt =====
-- burnin/transport/apiv1_ops.go: how the error of a low-level acknowledge is read: AckErrorReason,
-- ackStatusFromError and UnaryAckInvalid.
use kubemq_gcp_pub_sub.Base.{
  ◌≡◌, refl, String, Bool, true, false, ◌&&◌, Option, none, some, List, [], ◌∷◌, arith,
  if◌then◌else◌,
}
use kubemq_gcp_pub_sub.Base.Words.{add64}
use kubemq_gcp_pub_sub.Base.Assoc.{eqs}
use kubemq_gcp_pub_sub.Worker.{
  BaseWorker, mark_invalid_ack_probe_ran, record_exactly_once_invalid_ack_confirmed,
}
use kubemq_gcp_pub_sub.Worker.ExactlyOnce.{
  AckStatus, ProbeResult, invalid_ack_id_reason, run_invalid_ack_probe,
}

pub data RpcCode : Type 0 where
  invalid_argument failed_precondition permission_denied other_code : RpcCode

-- A detail of a gRPC status: an ErrorInfo with its reason, or another one.
pub data Detail : Type 0 where
  error_info : String → Detail
  other_detail : Detail

-- An error that is no gRPC status has the code Unknown, one of the others, and no details.
pub data RpcError : Type 0 where
  no_status : RpcError
  status : RpcCode → List Detail → RpcError

unfoldable pub reason_of : List Detail → String
reason_of [] = ""
reason_of (Detail.error_info reason ∷ ds) = reason
reason_of (Detail.other_detail ∷ ds) = reason_of ds

-- `none` is no error: status.FromError gives a status without details for it.
unfoldable pub ack_error_reason : Option RpcError → String
ack_error_reason none = ""
ack_error_reason (some RpcError.no_status) = ""
ack_error_reason (some (RpcError.status code ds)) = reason_of ds

unfoldable pub is_failed_precondition : Option RpcError → Bool
is_failed_precondition (some (RpcError.status RpcCode.failed_precondition ds)) = true
is_failed_precondition _ = false

unfoldable pub is_invalid_argument : Option RpcError → Bool
is_invalid_argument (some (RpcError.status RpcCode.invalid_argument ds)) = true
is_invalid_argument _ = false

unfoldable pub ack_status_from_error : Option RpcError → AckStatus
ack_status_from_error none = AckStatus.success
ack_status_from_error (some RpcError.no_status) = AckStatus.other
ack_status_from_error (some (RpcError.status RpcCode.failed_precondition ds)) =
    if eqs (reason_of ds) invalid_ack_id_reason
    then AckStatus.invalid_ack_id
    else AckStatus.failed_precondition
ack_status_from_error (some (RpcError.status RpcCode.permission_denied ds)) =
    AckStatus.permission_denied
ack_status_from_error (some (RpcError.status RpcCode.invalid_argument ds)) = AckStatus.other
ack_status_from_error (some (RpcError.status RpcCode.other_code ds)) = AckStatus.other

-- What the probe reads of the answer.
unfoldable pub unary_ack_invalid : Option RpcError → ProbeResult
unary_ack_invalid e =
    ProbeResult.answered (ack_status_from_error e) (is_failed_precondition e) (ack_error_reason e)

module _ {Hist : Type 0} where
  -- The probe with an unknown ack id confirms exactly the documented refusal, a FailedPrecondition whose first
  -- ErrorInfo has the reason PERMANENT_FAILURE_INVALID_ACK_ID, and no other answer, success included; it is
  -- marked as run whatever the answer.
  pub run_invalid_ack_probe_lem :
      (e : Option RpcError) (w : BaseWorker Hist)
      → let judged = run_invalid_ack_probe true (unary_ack_invalid e) w in
        (judged.exactly_once_invalid_ack_confirmed ≡ (
          if is_failed_precondition e && eqs (ack_error_reason e) invalid_ack_id_reason
          then add64 w.exactly_once_invalid_ack_confirmed 1
          else w.exactly_once_invalid_ack_confirmed))
        × (judged.invalid_ack_probe_ran ≡ true)
  unfolding run_invalid_ack_probe unary_ack_invalid ack_status_from_error is_failed_precondition
      ack_error_reason mark_invalid_ack_probe_ran record_exactly_once_invalid_ack_confirmed
  run_invalid_ack_probe_lem none w = (refl, refl)
  run_invalid_ack_probe_lem (some RpcError.no_status) w = (refl, refl)
  run_invalid_ack_probe_lem (some (RpcError.status RpcCode.failed_precondition ds)) w = ground arith
  run_invalid_ack_probe_lem (some (RpcError.status RpcCode.permission_denied ds)) w = (refl, refl)
  run_invalid_ack_probe_lem (some (RpcError.status RpcCode.invalid_argument ds)) w = (refl, refl)
  run_invalid_ack_probe_lem (some (RpcError.status RpcCode.other_code ds)) w = (refl, refl)
