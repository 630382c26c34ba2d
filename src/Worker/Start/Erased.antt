-- ===== src/Worker/Start/Erased.antt =====
-- burnin/worker and burnin/engine/engine.go: the probes that Start runs, seen after ResetAfterWarmup.
use kubemq_gcp_pub_sub.Base.{
  ℕ, ◌≡◌, ◌∙◌, refl, Bool, true, false, not, ◌&&◌, ◌||◌, Option, none, some, all, ltb,
  if◌then◌else◌,
}
use kubemq_gcp_pub_sub.Base.Assoc.{eqs}
use kubemq_gcp_pub_sub.Config.{GcpConfig}
use kubemq_gcp_pub_sub.Worker.{
  Histogram, BaseWorker, reset_after_warmup, record_error, mark_flow_control_probe_ran,
  record_flow_control_violation, mark_lease_extend_probe_ran, record_lease_extend_confirmed,
  record_lease_extend_reject_confirmed, mark_cross_stream_ack_probe_ran,
  record_cross_stream_ack_confirmed, mark_invalid_ack_probe_ran,
  record_exactly_once_invalid_ack_confirmed, record_batch_atomicity_violation,
}
use kubemq_gcp_pub_sub.Worker.ExactlyOnce.{
  ProbeResult, run_invalid_ack_probe, is_invalid_ack_id, invalid_ack_id_reason,
}
use kubemq_gcp_pub_sub.Worker.Batch.{BatchProbe, run_atomicity_probe}
use kubemq_gcp_pub_sub.Worker.Probes.{
  FlowCalls, LeaseCalls, StreamCalls, judge_peak, flow_control_probe, lease_extend_probe,
  cross_stream_ack_probe, run_probes, connector_max_outstanding_ceiling,
}

module _ (H : Histogram) where
  -- The two workers are the same after the reset.
  abbrev ResetAlike : BaseWorker H.State → BaseWorker H.State → Type 0
  ResetAlike v w = reset_after_warmup H v ≡ reset_after_warmup H w

  if-ResetAlike :
      (b : Bool) (x y w : BaseWorker H.State)
      → ResetAlike x w
      → ResetAlike y w
      → ResetAlike (if b then x else y) w
  if-ResetAlike true x y w h k = h
  if-ResetAlike false x y w h k = k

  run_invalid_ack_probe-ResetAlike :
      (enabled : Bool) (r : ProbeResult) (w : BaseWorker H.State)
      → ResetAlike (run_invalid_ack_probe enabled r w) w
  unfolding run_invalid_ack_probe reset_after_warmup record_error mark_invalid_ack_probe_ran
      record_exactly_once_invalid_ack_confirmed
  run_invalid_ack_probe-ResetAlike false r w = refl
  run_invalid_ack_probe-ResetAlike true ProbeResult.no_client w = refl
  run_invalid_ack_probe-ResetAlike true (ProbeResult.answered status precondition reason) w =
      if-ResetAlike (is_invalid_ack_id status || precondition && eqs reason invalid_ack_id_reason)
        (record_exactly_once_invalid_ack_confirmed (mark_invalid_ack_probe_ran w))
        (mark_invalid_ack_probe_ran w) w refl refl

  run_atomicity_probe-ResetAlike :
      (r : BatchProbe) (w : BaseWorker H.State) → ResetAlike (run_atomicity_probe r w) w
  unfolding run_atomicity_probe reset_after_warmup record_batch_atomicity_violation
  run_atomicity_probe-ResetAlike BatchProbe.accepted w = refl
  run_atomicity_probe-ResetAlike BatchProbe.other_code w = refl
  run_atomicity_probe-ResetAlike BatchProbe.invalid_argument w = refl

  judge_peak-ResetAlike :
      (peak : Option ℕ) (w : BaseWorker H.State) → ResetAlike (judge_peak peak w) w
  unfolding judge_peak reset_after_warmup record_flow_control_violation mark_flow_control_probe_ran
  judge_peak-ResetAlike none w = refl
  judge_peak-ResetAlike (some peak) w =
      if-ResetAlike (ltb connector_max_outstanding_ceiling peak)
        (record_flow_control_violation (mark_flow_control_probe_ran w))
        (mark_flow_control_probe_ran w) w refl refl

  lease_extend_probe-ResetAlike :
      (c : LeaseCalls) (w : BaseWorker H.State) → ResetAlike (lease_extend_probe c w) w
  unfolding lease_extend_probe reset_after_warmup record_error record_lease_extend_confirmed
      record_lease_extend_reject_confirmed mark_lease_extend_probe_ran
  lease_extend_probe-ResetAlike c w =
      let marked = mark_lease_extend_probe_ran w in
      let judged = if c.rejected then record_lease_extend_reject_confirmed marked else marked in
      let kept : ResetAlike judged w =
        if-ResetAlike c.rejected (record_lease_extend_reject_confirmed marked) marked w refl refl in
      if-ResetAlike (not (c.provisioned && c.published && c.pulled)) w _ w refl (
        if-ResetAlike (not (c.extended && c.held)) judged _ w kept (
          if-ResetAlike c.redelivered (record_error judged) (record_lease_extend_confirmed judged) w
            kept kept))

  cross_stream_ack_probe-ResetAlike :
      (c : StreamCalls) (w : BaseWorker H.State) → ResetAlike (cross_stream_ack_probe c w) w
  unfolding cross_stream_ack_probe reset_after_warmup record_cross_stream_ack_confirmed
      mark_cross_stream_ack_probe_ran
  cross_stream_ack_probe-ResetAlike c w =
      let marked = mark_cross_stream_ack_probe_ran w in
      if-ResetAlike (not (c.provisioned && c.published && c.streamed)) w _ w refl (
        if-ResetAlike (not c.acked || c.redelivered) marked
          (record_cross_stream_ack_confirmed marked) w refl refl)

  flow_control_probe-ResetAlike :
      (c : FlowCalls) (w : BaseWorker H.State) → ResetAlike (flow_control_probe c w) w
  unfolding flow_control_probe
  flow_control_probe-ResetAlike c w =
      if-ResetAlike (c.provisioned && all (λ b. b) c.backlog) (judge_peak c.peak_unacked w) w w
        (judge_peak-ResetAlike c.peak_unacked w) refl

  run_probes-ResetAlike :
      {Float : Type 0} (gcp : GcpConfig Float) (has_client : Bool) (flow : FlowCalls)
      (lease : LeaseCalls) (cross : StreamCalls) (w : BaseWorker H.State)
      → ResetAlike (run_probes gcp has_client flow lease cross w) w
  unfolding run_probes
  run_probes-ResetAlike gcp has_client flow lease cross w =
      let flowed = if gcp.flow_control_probe then flow_control_probe flow w else w in
      let leased = if gcp.lease_extend_probe then lease_extend_probe lease flowed else flowed in
      let crossed =
        if gcp.cross_stream_probe then cross_stream_ack_probe cross leased else leased in
      let f : ResetAlike flowed w =
        if-ResetAlike gcp.flow_control_probe (flow_control_probe flow w) w w
          (flow_control_probe-ResetAlike flow w) refl in
      let l : ResetAlike leased flowed =
        if-ResetAlike gcp.lease_extend_probe (lease_extend_probe lease flowed) flowed flowed
          (lease_extend_probe-ResetAlike lease flowed) refl in
      let x : ResetAlike crossed leased =
        if-ResetAlike gcp.cross_stream_probe (cross_stream_ack_probe cross leased) leased leased
          (cross_stream_ack_probe-ResetAlike cross leased) refl in
      if-ResetAlike has_client crossed w w (x ∙ l ∙ f) refl

  -- Whatever the connector answers to the probes that Start runs, the invalid ack of exactly_once, the
  -- atomicity of publish_pull_round_trip, and those of streaming_pull that end before the reset:
  -- ResetAfterWarmup leaves the worker that it leaves without the probe.
  pub start_probes_erased :
      {Float : Type 0} (enabled : Bool) (ack : ProbeResult) (batch : BatchProbe)
      (gcp : GcpConfig Float) (has_client : Bool) (flow : FlowCalls) (lease : LeaseCalls)
      (cross : StreamCalls) (w : BaseWorker H.State)
      → (reset_after_warmup H (run_invalid_ack_probe enabled ack w) ≡ reset_after_warmup H w)
        × (reset_after_warmup H (run_atomicity_probe batch w) ≡ reset_after_warmup H w)
        × (reset_after_warmup H (run_probes gcp has_client flow lease cross w)
            ≡ reset_after_warmup H w)
  start_probes_erased enabled ack batch gcp has_client flow lease cross w = (
    run_invalid_ack_probe-ResetAlike enabled ack w,
    run_atomicity_probe-ResetAlike batch w,
    run_probes-ResetAlike gcp has_client flow lease cross w,
  )
