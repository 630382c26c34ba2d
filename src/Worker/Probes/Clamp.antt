-- ===== src/Worker/Probes/Clamp.antt =====
-- burnin/transport/apiv1_ops.go: FlowControlClampProbe, on what its select meets: a batch of messages, the end
-- of the stream or an error of it, the idle timer, or the end of the context. Of several that are ready at
-- once the first in the list is the one that select takes; the timer fires when the list is over.
use kubemq_gcp_pub_sub.Base.{
  ℕ, ◌+◌, ◌≡◌, ap, Bool, true, false, not, ◌&&◌, ◌||◌, Option, none, some, List, [], ◌∷◌, all, ltb,
  ◌==◌, arith, if◌then◌else◌,
}
use kubemq_gcp_pub_sub.Base.Int.{ℤ, pos, ltb_ℤ, mul_int}
use kubemq_gcp_pub_sub.Base.Words.{add64}
use kubemq_gcp_pub_sub.Worker.{
  BaseWorker, mark_flow_control_probe_ran, record_flow_control_violation,
}
use kubemq_gcp_pub_sub.Worker.Probes.{
  judge_peak, flow_control_probe, connector_max_outstanding_ceiling,
}

-- `recv_failed` is an error other than EOF, with whether the context has ended.
pub data StreamEvent : Type 0 where
  cancelled idle_fired recv_eof : StreamEvent
  recv_failed : Bool → StreamEvent
  got : ℕ → StreamEvent

-- In nanoseconds.
unfoldable pub idle_window : ℤ → ℤ
idle_window recv_budget =
    let budget = if ltb_ℤ recv_budget (pos 1) then pos 1 else recv_budget in
    let window = mul_int budget (pos 50000000) in
    if ltb_ℤ window (pos 1000000000) then pos 1000000000 else window

-- The loop: the count of messages without an ack, none where it returns an error.
unfoldable pub clamp_loop : List StreamEvent → ℕ → Option ℕ
clamp_loop [] unacked = some unacked
clamp_loop (StreamEvent.cancelled ∷ es) unacked = some unacked
clamp_loop (StreamEvent.idle_fired ∷ es) unacked = some unacked
clamp_loop (StreamEvent.recv_eof ∷ es) unacked = some unacked
clamp_loop (StreamEvent.recv_failed ended ∷ es) unacked = if ended then some unacked else none
clamp_loop (StreamEvent.got n ∷ es) unacked =
    clamp_loop es (if n == 0 then unacked else unacked + n)

-- Whether the stream was opened, and the first request sent.
unfoldable pub flow_control_clamp_probe : Bool → Bool → List StreamEvent → Option ℕ
flow_control_clamp_probe opened sent es =
    let peak = clamp_loop es 0 in if not opened then none else if not sent then none else peak

-- The messages that come before anything else does.
abbrev pub delivered : List StreamEvent → ℕ
delivered (StreamEvent.got n ∷ es) = n + delivered es
delivered _ = 0

-- Whether the batches end with an error while the context has not ended.
abbrev pub breaks : List StreamEvent → Bool
breaks (StreamEvent.got n ∷ es) = breaks es
breaks (StreamEvent.recv_failed ended ∷ es) = not ended
breaks _ = false

clamp_loop_lem :
    (es : List StreamEvent) (unacked : ℕ)
    → clamp_loop es unacked ≡ (if breaks es then none else some (unacked + delivered es))
unfolding clamp_loop
clamp_loop_lem [] u = ap some (omega arith)
clamp_loop_lem (StreamEvent.cancelled ∷ es) u = ap some (omega arith)
clamp_loop_lem (StreamEvent.idle_fired ∷ es) u = ap some (omega arith)
clamp_loop_lem (StreamEvent.recv_eof ∷ es) u = ap some (omega arith)
clamp_loop_lem (StreamEvent.recv_failed ended ∷ es) u = ground arith
clamp_loop_lem (StreamEvent.got n ∷ es) u =
    ground (arith, clamp_loop_lem es (if n == 0 then u else u + n))

module _ {Hist : Type 0} where
  -- With the backlog published and the stream opened, the flow-control probe raises the count of violations
  -- by one exactly when the stream does not break and more messages than the ceiling come before it falls
  -- idle, ends or is cut off; and it is marked as run exactly when the stream does not break.
  pub flow_control_probe_lem :
      (es : List StreamEvent) (backlog : List Bool) (w : BaseWorker Hist)
      → all (λ b. b) backlog ≡ true
      → let judged =
          flow_control_probe
            (record {
              provisioned = true;
              backlog = backlog;
              peak_unacked = flow_control_clamp_probe true true es;
            })
            w in
        (judged.flow_control_violations ≡ (
          if not (breaks es) && ltb connector_max_outstanding_ceiling (delivered es)
          then add64 w.flow_control_violations 1
          else w.flow_control_violations))
        × (judged.flow_control_probe_ran ≡ (w.flow_control_probe_ran || not (breaks es)))
  unfolding flow_control_probe flow_control_clamp_probe judge_peak record_flow_control_violation
      mark_flow_control_probe_ran
  flow_control_probe_lem es backlog w h = ground (arith, h, clamp_loop_lem es 0)
