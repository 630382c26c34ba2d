-- ===== src/Worker/Start/Tests.antt =====
-- Starts of workers in the default configuration, with calls that fail and probes that were answered.
use kubemq_gcp_pub_sub.Base.{
  ℕ, ◌≡◌, refl, String, Bool, true, false, some, List, [], ◌∷◌, any, length, not, ◌&&◌, ◌||◌, ltb,
  if◌then◌else◌,
}
use kubemq_gcp_pub_sub.Base.Int.{ℤ}
use kubemq_gcp_pub_sub.Samples.{samples, defaults, fresh_worker}
use kubemq_gcp_pub_sub.Config.Names.{worker_dead_letter}
use kubemq_gcp_pub_sub.Worker.{reset_after_warmup}
use kubemq_gcp_pub_sub.Worker.ExactlyOnce.{ProbeResult, AckStatus, run_invalid_ack_probe}
use kubemq_gcp_pub_sub.Worker.Batch.{BatchProbe, run_atomicity_probe}
use kubemq_gcp_pub_sub.Worker.Probes.{
  flow_control_probe, connector_max_outstanding_ceiling, run_probes, FlowCalls, LeaseCalls,
  StreamCalls,
}
use kubemq_gcp_pub_sub.Base.Words.{add64}
use kubemq_gcp_pub_sub.Worker.Probes.Clamp.{
  StreamEvent, flow_control_clamp_probe, delivered, breaks, flow_control_probe_lem,
}
use kubemq_gcp_pub_sub.Worker.ExactlyOnce.Answers.{
  RpcError, RpcCode, Detail, ack_status_from_error, reason_of,
}
use kubemq_gcp_pub_sub.Worker.Start.{Call, run_start}
use kubemq_gcp_pub_sub.Worker.Start.Programs.{start_of, start_dead_letter}
use kubemq_gcp_pub_sub.Worker.Start.Order.{is_provisioned, is_launch}
use kubemq_gcp_pub_sub.Worker.Start.Every.{start-is_provisioned, failed_start_launches_none}
use kubemq_gcp_pub_sub.Worker.Start.Erased.{start_probes_erased}

abbrev unset : String → String
unset name = ""

abbrev unpadded : ℕ → ℤ → String
unpadded width n = "0001"

-- The low-level client cannot be built.
abbrev no_subscriber : Call → Bool
no_subscriber Call.subscriber_client = false
no_subscriber _ = true

start-is_provisioned_example :
    is_provisioned defaults.gcp.project_id [] []
      (run_start no_subscriber (start_of unset unpadded defaults (ℤ.pos 1) worker_dead_letter)).1
    ≡ true
start-is_provisioned_example =
    start-is_provisioned unset unpadded defaults (ℤ.pos 1) no_subscriber worker_dead_letter

failed_start_launches_none_example :
    any is_launch
      (run_start no_subscriber (start_of unset unpadded defaults (ℤ.pos 1) worker_dead_letter)).1
    ≡ false
unfolding start_of start_dead_letter run_start
failed_start_launches_none_example =
    failed_start_launches_none unset unpadded defaults (ℤ.pos 1) no_subscriber worker_dead_letter
      refl

-- The six steps up to the client that fails.
failed_start_length :
    length
      (run_start no_subscriber (start_of unset unpadded defaults (ℤ.pos 1) worker_dead_letter)).1
    ≡ 6
unfolding start_of start_dead_letter run_start
failed_start_length = refl

abbrev too_many : FlowCalls
too_many = record { provisioned = true; backlog = true ∷ []; peak_unacked = some 5000 }

abbrev lease_kept : LeaseCalls
lease_kept = record {
  provisioned = true;
  published = true;
  pulled = true;
  rejected = true;
  extended = true;
  held = true;
  redelivered = false;
}

abbrev stream_kept : StreamCalls
stream_kept = record {
  provisioned = true;
  published = true;
  streamed = true;
  acked = true;
  redelivered = false;
}

start_probes_erased_example :
    (reset_after_warmup samples
        (run_invalid_ack_probe true (ProbeResult.answered AckStatus.success false "") fresh_worker)
      ≡ reset_after_warmup samples fresh_worker)
    × (reset_after_warmup samples (run_atomicity_probe BatchProbe.accepted fresh_worker)
        ≡ reset_after_warmup samples fresh_worker)
    × (reset_after_warmup samples
          (run_probes defaults.gcp true too_many lease_kept stream_kept fresh_worker)
        ≡ reset_after_warmup samples fresh_worker)
start_probes_erased_example =
    start_probes_erased samples true (ProbeResult.answered AckStatus.success false "")
      BatchProbe.accepted defaults.gcp true too_many lease_kept stream_kept fresh_worker

-- Two batches above the ceiling before the stream falls idle.
abbrev flooded : List StreamEvent
flooded =
    StreamEvent.got 700 ∷ StreamEvent.got 0 ∷ StreamEvent.got 400 ∷ StreamEvent.idle_fired ∷ []

flow_control_probe_lem_example :
    let judged =
      flow_control_probe
        (record {
          provisioned = true;
          backlog = true ∷ true ∷ [];
          peak_unacked = flow_control_clamp_probe true true flooded;
        })
        fresh_worker in
    (judged.flow_control_violations ≡ (
      if not (breaks flooded) && ltb connector_max_outstanding_ceiling (delivered flooded)
      then add64 fresh_worker.flow_control_violations 1
      else fresh_worker.flow_control_violations))
    × (judged.flow_control_probe_ran
        ≡ (fresh_worker.flow_control_probe_ran || not (breaks flooded)))
flow_control_probe_lem_example = flow_control_probe_lem flooded (true ∷ true ∷ []) fresh_worker refl

refused_id :
    ack_status_from_error (
      some (
        RpcError.status RpcCode.failed_precondition
          (Detail.other_detail ∷ Detail.error_info "PERMANENT_FAILURE_INVALID_ACK_ID" ∷ [])))
    ≡ AckStatus.invalid_ack_id
unfolding ack_status_from_error reason_of
refused_id = refl
