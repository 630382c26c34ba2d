-- ===== src/Report/Clean.antt =====
-- burnin/engine/verdict.go and burnin/report/report.go: what a snapshot on which no gate of the engine
-- fails means for the checks of the report.
use kubemq_gcp_pub_sub.Base.{◌≡◌, ap, ◌∙◌, String, true, false, not, ◌&&◌, ltb, arith}
use kubemq_gcp_pub_sub.Base.Int.{ℤ}
use kubemq_gcp_pub_sub.Base.Words.{add64}
use kubemq_gcp_pub_sub.Base.Floats.{Floats}
use kubemq_gcp_pub_sub.Config.{Config}
use kubemq_gcp_pub_sub.Config.Names.{is_duplication_gate_exempt, is_latency_gate_exempt}
use kubemq_gcp_pub_sub.Engine.{WorkerSnapshot}
use kubemq_gcp_pub_sub.Engine.Verdict.{
  percent, gates, rate_gates, fidelity_gates, boundary_loss_pct, check_latency,
}
use kubemq_gcp_pub_sub.Engine.Verdict.Decision.{is_empty}
use kubemq_gcp_pub_sub.Engine.Verdict.Gates.{is_empty-++, is_empty-check}
use kubemq_gcp_pub_sub.Report

module _ (F : Floats) where
  open F use {Float, gt, le, is_nan, of_uint, ratio}

  pub within : (a b : Float) → is_nan a ≡ false → is_nan b ≡ false → gt a b ≡ false → le a b ≡ true
  within a b ha hb h = F.le-not-gt a b ha hb ∙ ap not h

  pub loss_within :
      (loss base : Float)
      → is_nan loss ≡ false
      → is_nan base ≡ false
      → (gt loss base && gt loss (boundary_loss_pct F)) ≡ false
      → le loss (Report.loss_gate_threshold F base) ≡ true
  unfolding boundary_loss_pct Report.loss_gate_threshold Report.report_boundary_loss_pct
  loss_within loss base hl hb h =
      let half : Float = ratio 1 2 in
      let hh = F.ratio-not_nan 1 2 (omega arith) in
      ground (
        arith,
        h,
        F.le-not-gt loss base hl hb,
        F.le-not-gt loss half hl hh,
        F.le-not-gt half base hh hb,
        F.gt→le half base,
        F.gt_trans loss half base,
        F.gt_trans loss base half,
      )

  -- The parts of a clean snapshot that the report looks at too.
  module _ (c : Config Float) (d : ℤ) (name : String) (s : WorkerSnapshot Float) where
    pub clean_rates :
        is_empty (gates F c d name s) ≡ true → is_empty (rate_gates F c d name s) ≡ true
    unfolding gates
    clean_rates h =
        ground (arith, h, is_empty-++ (rate_gates F c d name s) (fidelity_gates F c d name s))

    pub clean_fidelity :
        is_empty (gates F c d name s) ≡ true → is_empty (fidelity_gates F c d name s) ≡ true
    unfolding gates
    clean_fidelity h =
        ground (arith, h, is_empty-++ (rate_gates F c d name s) (fidelity_gates F c d name s))

    pub clean_p99 :
        is_empty (rate_gates F c d name s) ≡ true
        → (not (is_latency_gate_exempt name)
            && gt s.latency_p99 (ratio 0 1)
            && gt c.thresholds.max_p99_latency_ms (ratio 0 1)
            && gt s.latency_p99 c.thresholds.max_p99_latency_ms)
          ≡ false
    unfolding rate_gates check_latency
    clean_p99 h = ground (arith, h)

    pub clean_loss :
        is_empty (rate_gates F c d name s) ≡ true
        → (ltb 0 s.sent
            && gt (percent F (of_uint s.lost) (of_uint s.sent)) c.thresholds.max_loss_pct
            && gt (percent F (of_uint s.lost) (of_uint s.sent)) (boundary_loss_pct F))
          ≡ false
    unfolding rate_gates
    clean_loss h = ground (arith, h)

    pub clean_duplication :
        is_empty (rate_gates F c d name s) ≡ true
        → (ltb 0 s.received
            && not (is_duplication_gate_exempt name)
            && gt
                (percent F (of_uint s.duplicated) (of_uint s.received))
                c.thresholds.max_duplication_pct)
          ≡ false
    unfolding rate_gates
    clean_duplication h = ground (arith, h)

    pub clean_errors :
        is_empty (rate_gates F c d name s) ≡ true
        → (ltb 0 (add64 s.sent s.received)
            && gt
                (percent F (of_uint s.errors) (of_uint (add64 s.sent s.received)))
                c.thresholds.max_error_rate_pct)
          ≡ false
    unfolding rate_gates
    clean_errors h = grind (arith, h, is_empty-++, is_empty-check)

    pub clean_corrupted : is_empty (rate_gates F c d name s) ≡ true → s.corrupted ≡ 0
    unfolding rate_gates
    clean_corrupted h = ground (arith, h)
