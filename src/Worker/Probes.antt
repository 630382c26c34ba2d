-- ===== src/Worker/Probes.antt =====
-- burnin/worker/streaming_pull.go: the probes that run once at the start. What each call to the client
-- returned is an argument, false for an error; the calls after a return are not made.
pub mod Clamp
use kubemq_gcp_pub_sub.Base.{
  ℕ, zero, suc, ◌≤◌, String, Bool, not, ◌&&◌, ◌||◌, Option, none, some, List, [], ◌∷◌, all, ltb,
  arith, if◌then◌else◌, Bool-cases, inl, inr,
}
use kubemq_gcp_pub_sub.Base.Int.{ℤ, pos, ltb_ℤ, add_int, add_int-pos, ◌<ℤ◌}
use kubemq_gcp_pub_sub.Config.{GcpConfig}
use kubemq_gcp_pub_sub.Worker.{
  BaseWorker, record_error, mark_flow_control_probe_ran, record_flow_control_violation,
  mark_lease_extend_probe_ran, record_lease_extend_confirmed, record_lease_extend_reject_confirmed,
  mark_cross_stream_ack_probe_ran, record_cross_stream_ack_confirmed,
}

abbrev pub connector_max_outstanding_ceiling : ℕ
connector_max_outstanding_ceiling = 1000

-- The topic and subscription, each publish of the backlog, and the peak of the unacked messages.
pub record FlowCalls : Type 0 where
  pub provisioned : Bool
  pub backlog : List Bool
  pub peak_unacked : Option ℕ

pub record LeaseCalls : Type 0 where
  pub provisioned : Bool
  pub published : Bool
  pub pulled : Bool
  pub rejected : Bool  -- the deadline out of range gave InvalidArgument
  pub extended : Bool
  pub held : Bool  -- the sleep was not cut off
  pub redelivered : Bool

pub record StreamCalls : Type 0 where
  pub provisioned : Bool
  pub published : Bool
  pub streamed : Bool
  pub acked : Bool
  pub redelivered : Bool

-- One Recv of a stream: an error, or the ack ids of the messages.
pub data Recv : Type 0 where
  recv_failed : Recv
  received : List String → Recv

-- The loop of streamOneAckID, with ten empty receives at most.
unfoldable pub stream_one_ack_id : ℕ → List Recv → Option String
stream_one_ack_id zero recvs = none
stream_one_ack_id (suc budget) [] = none
stream_one_ack_id (suc budget) (Recv.recv_failed ∷ recvs) = none
stream_one_ack_id (suc budget) (Recv.received [] ∷ recvs) = stream_one_ack_id budget recvs
stream_one_ack_id (suc budget) (Recv.received (id ∷ ids) ∷ recvs) = some id

-- In seconds.
unfoldable pub probe_ack_deadline : ℤ → ℤ
probe_ack_deadline configured = if ltb_ℤ configured (pos 10) then pos 10 else configured

unfoldable pub extend_seconds : ℤ → ℤ
extend_seconds ack_deadline =
    let extended = add_int ack_deadline (pos 30) in
    if ltb_ℤ (pos 600) extended then pos 600 else extended

unfoldable pub hold_seconds : ℤ → ℤ
hold_seconds ack_deadline = add_int ack_deadline (pos 3)

module _ {Hist : Type 0} where
  unfoldable pub judge_peak : Option ℕ → BaseWorker Hist → BaseWorker Hist
  judge_peak none w = w
  judge_peak (some peak) w =
      if ltb connector_max_outstanding_ceiling peak
      then record_flow_control_violation (mark_flow_control_probe_ran w)
      else mark_flow_control_probe_ran w

  unfoldable pub flow_control_probe : FlowCalls → BaseWorker Hist → BaseWorker Hist
  flow_control_probe c w =
      if c.provisioned && all (λ b. b) c.backlog then judge_peak c.peak_unacked w else w

  unfoldable pub lease_extend_probe : LeaseCalls → BaseWorker Hist → BaseWorker Hist
  lease_extend_probe c w =
      let marked = mark_lease_extend_probe_ran w in
      let judged = if c.rejected then record_lease_extend_reject_confirmed marked else marked in
      if not (c.provisioned && c.published && c.pulled)
      then w
      else if not (c.extended && c.held)
      then judged
      else if c.redelivered
      then record_error judged
      else record_lease_extend_confirmed judged

  unfoldable pub cross_stream_ack_probe : StreamCalls → BaseWorker Hist → BaseWorker Hist
  cross_stream_ack_probe c w =
      let marked = mark_cross_stream_ack_probe_ran w in
      if not (c.provisioned && c.published && c.streamed)
      then w
      else if not c.acked || c.redelivered
      then marked
      else record_cross_stream_ack_confirmed marked

  -- The probes one after the other, if there is a client, each behind its toggle.
  unfoldable pub run_probes :
      {Float : Type 0}
      → GcpConfig Float
      → Bool
      → FlowCalls
      → LeaseCalls
      → StreamCalls
      → BaseWorker Hist
      → BaseWorker Hist
  run_probes gcp has_client flow lease cross w =
      let flowed = if gcp.flow_control_probe then flow_control_probe flow w else w in
      let leased = if gcp.lease_extend_probe then lease_extend_probe lease flowed else flowed in
      let crossed =
        if gcp.cross_stream_probe then cross_stream_ack_probe cross leased else leased in
      if has_client then crossed else w

-- For an ack deadline of up to 596 seconds the probe looks for a redelivery while the extended lease
-- still runs.
pub hold-lt-extend :
    (n : ℕ)
    → n ≤ 596
    → hold_seconds (probe_ack_deadline (pos n)) <ℤ extend_seconds (probe_ack_deadline (pos n))
unfolding hold_seconds extend_seconds probe_ack_deadline
hold-lt-extend n h = elim (Bool-cases (ltb n 10)) [
  | inl small ↦ ground (arith, small, add_int-pos 10 3, add_int-pos 10 30)
  | inr large ↦ ground (arith, large, add_int-pos n 3 (omega arith), add_int-pos n 30 (omega arith))
]

-- With the largest deadline it looks only after the extended lease has run out.
pub extend-lt-hold :
    extend_seconds (probe_ack_deadline (pos 600)) <ℤ hold_seconds (probe_ack_deadline (pos 600))
unfolding hold_seconds extend_seconds probe_ack_deadline add_int
extend-lt-hold = omega arith
