-- ===== src/Report/Workers.antt =====
-- burnin/report/report.go: the loop of GenerateVerdict over the rollups.
use kubemq_gcp_pub_sub.Base.{
  ◌≡◌, refl, String, Bool, true, false, not, ◌&&◌, ltb, arith, if◌then◌else◌, ltb→lt, ◌==◌,
}
use kubemq_gcp_pub_sub.Base.Int.{ℤ}
use kubemq_gcp_pub_sub.Base.Words.{add64}
use kubemq_gcp_pub_sub.Base.Floats.{Floats}
use kubemq_gcp_pub_sub.Config.{Config, WorkerConfig}
use kubemq_gcp_pub_sub.Config.Names.{
  is_duplication_gate_exempt, is_latency_gate_exempt, is_fanout_worker, is_interop_worker,
  is_dead_letter_worker, is_exactly_once_worker, is_ordering_worker,
}
use kubemq_gcp_pub_sub.Engine.{WorkerSnapshot}
use kubemq_gcp_pub_sub.Engine.Verdict.{percent, gates, rate_gates, fidelity_gates}
use kubemq_gcp_pub_sub.Engine.Verdict.Decision.{is_empty}
use kubemq_gcp_pub_sub.Report
use kubemq_gcp_pub_sub.Report.{Verdict, WorkerStats, ResourceStats, CheckKind, ReportWarning, step}
use kubemq_gcp_pub_sub.Report.Clean.{
  within, loss_within, clean_rates, clean_fidelity, clean_p99, clean_loss, clean_duplication,
  clean_errors,
}

hard_step :
    (given ok : Bool) (k : CheckKind) (name : String) (v : Verdict)
    → (given ≡ true → ok ≡ true)
    → v.passed ≡ true
    → (step given (Report.add_check k name ok) v).passed ≡ true
unfolding Report.add_check
hard_step true ok k name v f h = ground (arith, f refl, h)
hard_step false ok k name v f h = h

exempt_step :
    (given exempt over ok : Bool) (k : CheckKind) (w : ReportWarning) (name : String) (v : Verdict)
    → (given ≡ true → exempt ≡ false → ok ≡ true)
    → v.passed ≡ true
    → (step given
        (if exempt then step over (Report.warn w) else Report.add_check k name ok)
        v).passed
      ≡ true
unfolding Report.add_check Report.warn
exempt_step false exempt over ok k w name v f h = h
exempt_step true true true ok k w name v f h = h
exempt_step true true false ok k w name v f h = h
exempt_step true false over ok k w name v f h = ground (arith, f refl refl, h)

module _ (F : Floats) (c : Config F.Float) where
  open F use {Float, gt, le, is_nan, of_uint, ratio}

  -- The thresholds that the report reads are numbers, and the latency threshold is above 0.
  pub record IsGateable : Type 0 where
    pub loss_number : is_nan c.thresholds.max_loss_pct ≡ false
    pub duplication_number : is_nan c.thresholds.max_duplication_pct ≡ false
    pub error_number : is_nan c.thresholds.max_error_rate_pct ≡ false
    pub p99_positive : gt c.thresholds.max_p99_latency_ms (ratio 0 1) ≡ true

  module _ (g : IsGateable) (d : ℤ) (name : String) (s : WorkerSnapshot Float)
      (wc : WorkerConfig) where
    losses_pass :
        is_empty (rate_gates F c d name s) ≡ true
        → (ltb 0 s.sent && not (is_fanout_worker name)) ≡ true
        → le
            (percent F (of_uint s.lost) (of_uint s.sent))
            (Report.loss_gate_threshold F c.thresholds.max_loss_pct)
          ≡ true
    losses_pass clean given =
        let sent = ltb→lt 0 s.sent (ground (arith, given)) in
        loss_within F _ _ (F.percent-not_nan s.lost s.sent sent) g.loss_number
          (ground (arith, given, clean_loss F c d name s clean))

    duplicates_pass :
        is_empty (rate_gates F c d name s) ≡ true
        → ltb 0 s.received ≡ true
        → is_duplication_gate_exempt name ≡ false
        → le
            (percent F (of_uint s.duplicated) (of_uint s.received))
            c.thresholds.max_duplication_pct
          ≡ true
    duplicates_pass clean given normal =
        within F _ _ (F.percent-not_nan s.duplicated s.received (ltb→lt 0 s.received given))
          g.duplication_number (ground (arith, given, normal, clean_duplication F c d name s clean))

    p99_pass :
        is_empty (rate_gates F c d name s) ≡ true
        → gt s.latency_p99 (ratio 0 1) ≡ true
        → is_latency_gate_exempt name ≡ false
        → le s.latency_p99 c.thresholds.max_p99_latency_ms ≡ true
    p99_pass clean given normal =
        within F _ _ (F.gt-not_nan _ _ given).0 (F.gt-not_nan _ _ g.p99_positive).0
          (ground (arith, given, normal, g.p99_positive, clean_p99 F c d name s clean))

    errors_pass :
        is_empty (rate_gates F c d name s) ≡ true
        → ltb 0 (add64 s.sent s.received) ≡ true
        → le
            (percent F (of_uint s.errors) (of_uint (add64 s.sent s.received)))
            c.thresholds.max_error_rate_pct
          ≡ true
    errors_pass clean given =
        within F _ _
          (F.percent-not_nan s.errors (add64 s.sent s.received)
            (ltb→lt 0 (add64 s.sent s.received) given))
          g.error_number (grind (arith, given, clean_errors F c d name s clean))

    check_rates-passed :
        (v : Verdict)
        → is_empty (rate_gates F c d name s) ≡ true
        → v.passed ≡ true
        → (Report.check_rates F c name (Report.rollup F wc s) v).passed ≡ true
    unfolding Report.check_rates Report.rollup Report.add_hard
    check_rates-passed v clean h = hard_step _ _ _ name _ (errors_pass clean) (
        exempt_step _ _ _ _ _ _ name _ (p99_pass clean) (
          exempt_step _ _ _ _ _ _ name _ (duplicates_pass clean)
            (hard_step _ _ _ name v (losses_pass clean) h)))

    check_fidelity-passed :
        (v : Verdict)
        → is_empty (fidelity_gates F c d name s) ≡ true
        → v.passed ≡ true
        → (Report.check_fidelity F name (Report.rollup F wc s) v).passed ≡ true
    unfolding Report.check_fidelity Report.rollup fidelity_gates
    check_fidelity-passed v clean h =
        hard_step (is_interop_worker name) (s.interop_diverged == 0) _ name _
          (λ k. ground (arith, clean, k))
          (hard_step (is_fanout_worker name) (s.fanout_dropped == 0) _ name _
            (λ k. ground (arith, clean, k))
            (hard_step (is_dead_letter_worker name) (s.dead_letter_lost == 0) _ name _
              (λ k. ground (arith, clean, k))
              (hard_step (is_exactly_once_worker name) (s.exactly_once_unreconciled == 0) _ name _
                (λ k. ground (arith, clean, k))
                (hard_step (is_ordering_worker name) (s.ordering_violations == 0) _ name v
                  (λ k. ground (arith, clean, k)) h))))

    pub check_worker-passed :
        (v : Verdict)
        → is_empty (gates F c d name s) ≡ true
        → v.passed ≡ true
        → (Report.check_worker F c name (Report.rollup F wc s) v).passed ≡ true
    unfolding Report.check_worker Report.rollup
    check_worker-passed v clean h =
        check_fidelity-passed _ (clean_fidelity F c d name s clean)
          (check_rates-passed v (clean_rates F c d name s clean) h)
