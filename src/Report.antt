-- ===== src/Report.antt =====
-- burnin/report/report.go: the worker rollups and GenerateVerdict; burnin/main.go: RunReport builds
-- the rollups from the engine's snapshots and reconciles the two verdicts. The texts of checks and
-- warnings carry the numbers that the fields hold; here a check keeps its kind and worker.
pub mod Clean
pub mod Workers
pub mod Agreement
mod Tests
use kubemq_gcp_pub_sub.Base.{
  ℕ, String, List, [], ◌∷◌, ◌++◌, map, Bool, true, false, not, ◌&&◌, ◌||◌, Option, none, some,
  check, ltb, ◌==◌, if◌then◌else◌, length,
}
use kubemq_gcp_pub_sub.Base.Words.{add64}
use kubemq_gcp_pub_sub.Base.Int.{ℤ}
use kubemq_gcp_pub_sub.Base.Floats.{Floats}
use kubemq_gcp_pub_sub.Base.Assoc.{eqs, lookup}
use kubemq_gcp_pub_sub.Config.{Config, WorkerConfig}
use kubemq_gcp_pub_sub.Config.Lookup.{get_worker_config}
use kubemq_gcp_pub_sub.Config.Names.{
  all_worker_names, is_ordering_worker, is_exactly_once_worker, is_dead_letter_worker,
  is_fanout_worker, is_interop_worker, is_latency_gate_exempt, is_duplication_gate_exempt,
}
use kubemq_gcp_pub_sub.Engine.{WorkerSnapshot, VerdictResult, Warning}
use kubemq_gcp_pub_sub.Engine.Verdict.{percent}

pub record WorkerStats (Float : Type 0) : Type 0 where
  pub enabled : Bool
  pub sent : ℕ
  pub received : ℕ
  pub lost : ℕ
  pub duplicated : ℕ
  pub corrupted : ℕ
  pub out_of_order : ℕ
  pub acked : ℕ
  pub errors : ℕ
  pub reconnections : ℕ
  pub ordering_violations : ℕ
  pub fanout_deliveries : ℕ
  pub fanout_dropped : ℕ
  pub exactly_once_confirmed : ℕ
  pub exactly_once_unreconciled : ℕ
  pub dead_letter_republished : ℕ
  pub dead_letter_lost : ℕ
  pub interop_converged : ℕ
  pub interop_diverged : ℕ
  pub downtime_seconds : Float
  pub loss_pct : Float
  pub latency_p50_ms : Float
  pub latency_p95_ms : Float
  pub latency_p99_ms : Float
  pub latency_p999_ms : Float
  pub avg_rate : Float
  pub peak_rate : Float
  pub target_rate : ℤ
  pub channels : ℤ

pub record ResourceStats (Float : Type 0) : Type 0 where
  pub peak_rss_mb : Float
  pub baseline_rss_mb : Float
  pub memory_growth_factor : Float

pub data CheckKind : Type 0 where
  message_loss duplication p99_latency error_rate ordering_violations : CheckKind
  exactly_once_reconciled dead_letter_loss fanout_dropped interop_convergence : CheckKind
  corruption memory_stability : CheckKind

-- A check of a worker, or of the whole run ("").
pub record CheckResult : Type 0 where
  pub kind : CheckKind
  pub worker : String
  pub passed : Bool
  pub advisory : Bool

pub data ReportWarning : Type 0 where
  exempt_duplication exempt_latency : String → ReportWarning
  memory_stability : ReportWarning
  from_engine : Warning → ReportWarning

pub record Verdict : Type 0 where
  pub result : String
  pub passed : Bool
  pub warnings : List ReportWarning
  pub checks : List CheckResult

-- `v.Checks[name] = ...; if !passed { v.Passed = false }`. Each key is written once.
unfoldable pub add_check : CheckKind → String → Bool → Verdict → Verdict
add_check kind worker passed v = record v {
  passed = v.passed && passed;
  checks =
      v.checks ++ record { kind = kind; worker = worker; passed = passed; advisory = false } ∷ [];
}

unfoldable pub warn : ReportWarning → Verdict → Verdict
warn w v = record v { warnings = v.warnings ++ w ∷ [] }

-- One statement after another, where `given` is the condition of the enclosing if.
abbrev pub step : Bool → (Verdict → Verdict) → Verdict → Verdict
step given f v = if given then f v else v

module _ (F : Floats) where
  open F use {Float, ratio, gt, le, of_uint, mul, div}

  unfoldable pub report_boundary_loss_pct : Float
  report_boundary_loss_pct = ratio 1 2

  unfoldable pub loss_gate_threshold : Float → Float
  loss_gate_threshold base =
      if gt report_boundary_loss_pct base then report_boundary_loss_pct else base

  unfoldable pub add_hard : CheckKind → String → Float → Float → Verdict → Verdict
  add_hard kind worker value threshold v = add_check kind worker (le value threshold) v

  -- The part of the loop's body on loss, duplication, latency and errors.
  unfoldable pub check_rates : Config Float → String → WorkerStats Float → Verdict → Verdict
  check_rates c name ws v₀ =
      let loss_pct = percent F (of_uint ws.lost) (of_uint ws.sent) in
      let dup_pct = percent F (of_uint ws.duplicated) (of_uint ws.received) in
      let total = add64 ws.sent ws.received in
      let err_pct = percent F (of_uint ws.errors) (of_uint total) in
      let v₁ =
        step (ltb 0 ws.sent && not (is_fanout_worker name))
          (add_hard CheckKind.message_loss name loss_pct
            (loss_gate_threshold c.thresholds.max_loss_pct))
          v₀ in
      let v₂ =
        step (ltb 0 ws.received)
          (if is_duplication_gate_exempt name
            then step (gt dup_pct c.thresholds.max_duplication_pct)
                (warn (ReportWarning.exempt_duplication name))
            else add_hard CheckKind.duplication name dup_pct c.thresholds.max_duplication_pct)
          v₁ in
      let v₃ =
        step (gt ws.latency_p99_ms (ratio 0 1))
          (if is_latency_gate_exempt name
            then step (gt ws.latency_p99_ms c.thresholds.max_p99_latency_ms)
                (warn (ReportWarning.exempt_latency name))
            else add_hard CheckKind.p99_latency name ws.latency_p99_ms
                c.thresholds.max_p99_latency_ms)
          v₂ in
      step (ltb 0 total)
        (add_hard CheckKind.error_rate name err_pct c.thresholds.max_error_rate_pct) v₃

  -- The structured gates of the kinds of worker.
  unfoldable pub check_fidelity : String → WorkerStats Float → Verdict → Verdict
  check_fidelity name ws v₀ =
      let v₁ =
        step (is_ordering_worker name)
          (add_check CheckKind.ordering_violations name (ws.ordering_violations == 0)) v₀ in
      let v₂ =
        step (is_exactly_once_worker name)
          (add_check CheckKind.exactly_once_reconciled name (ws.exactly_once_unreconciled == 0))
          v₁ in
      let v₃ =
        step (is_dead_letter_worker name)
          (add_check CheckKind.dead_letter_loss name (ws.dead_letter_lost == 0)) v₂ in
      let v₄ =
        step (is_fanout_worker name)
          (add_check CheckKind.fanout_dropped name (ws.fanout_dropped == 0)) v₃ in
      step (is_interop_worker name)
        (add_check CheckKind.interop_convergence name (ws.interop_diverged == 0)) v₄

  unfoldable pub check_worker : Config Float → String → WorkerStats Float → Verdict → Verdict
  check_worker c name ws v =
      if ws.enabled then check_fidelity name ws (check_rates c name ws v) else v

  unfoldable pub check_workers :
      Config Float → List (String × WorkerStats Float) → Verdict → Verdict
  check_workers c [] v = v
  check_workers c ((name, ws) ∷ rest) v = check_workers c rest (check_worker c name ws v)

  unfoldable pub total_corrupted : List (String × WorkerStats Float) → ℕ → ℕ
  total_corrupted [] total = total
  total_corrupted ((name, ws) ∷ rest) total = total_corrupted rest (add64 total ws.corrupted)

  unfoldable pub check_memory : Config Float → ResourceStats Float → Verdict → Verdict
  check_memory c r v =
      let passed = le r.memory_growth_factor c.thresholds.max_memory_growth_factor in
      if gt r.baseline_rss_mb (ratio 0 1)
      then record v {
        warnings = v.warnings ++ check (not passed) ReportWarning.memory_stability;
        checks =
            v.checks
            ++ record {
              kind = CheckKind.memory_stability;
              worker = "";
              passed = passed;
              advisory = true;
            }
              ∷ [];
      }
      else v

  unfoldable pub conclude : Verdict → Verdict
  conclude v = record v {
    result =
        if not v.passed
        then "FAILED"
        else if ltb 0 (length v.warnings)
        then "PASSED_WITH_WARNINGS"
        else v.result;
  }

  -- The map of rollups is a list, in the order in which Go goes through it.
  unfoldable pub generate_verdict :
      Config Float → List (String × WorkerStats Float) → ResourceStats Float → Verdict
  generate_verdict c workers r =
      let v₁ =
        check_workers c workers
          (record { result = "PASSED"; passed = true; warnings = []; checks = [] }) in
      let v₂ = add_check CheckKind.corruption "" (total_corrupted workers 0 == 0) v₁ in
      conclude (check_memory c r v₂)

  -- The rollup of a snapshot.
  unfoldable pub rollup : WorkerConfig → WorkerSnapshot Float → WorkerStats Float
  rollup wc snap = record {
    enabled = true;
    sent = snap.sent;
    received = snap.received;
    lost = snap.lost;
    duplicated = snap.duplicated;
    corrupted = snap.corrupted;
    out_of_order = snap.out_of_order;
    acked = snap.acked;
    errors = snap.errors;
    reconnections = snap.reconnections;
    ordering_violations = snap.ordering_violations;
    fanout_deliveries = snap.fanout_deliveries;
    fanout_dropped = snap.fanout_dropped;
    exactly_once_confirmed = snap.exactly_once_confirmed;
    exactly_once_unreconciled = snap.exactly_once_unreconciled;
    dead_letter_republished = snap.dead_letter_republished;
    dead_letter_lost = snap.dead_letter_lost;
    interop_converged = snap.interop_converged;
    interop_diverged = snap.interop_diverged;
    downtime_seconds = snap.downtime_seconds;
    loss_pct =
        if ltb 0 snap.sent then percent F (of_uint snap.lost) (of_uint snap.sent) else ratio 0 1;
    latency_p50_ms = snap.latency_p50;
    latency_p95_ms = snap.latency_p95;
    latency_p99_ms = snap.latency_p99;
    latency_p999_ms = snap.latency_p999;
    avg_rate = snap.avg_rate;
    peak_rate = snap.peak_rate;
    target_rate = wc.rate;
    channels = wc.channels;
  }

  -- The loop's body: a worker without a snapshot, or not enabled, is left out.
  unfoldable pub add_rollup :
      String
      → Option (WorkerSnapshot Float)
      → Option WorkerConfig
      → List (String × WorkerStats Float)
      → List (String × WorkerStats Float)
  add_rollup name none o rest = rest
  add_rollup name (some snap) none rest = rest
  add_rollup name (some snap) (some wc) rest =
      if wc.enabled then (name, rollup wc snap) ∷ rest else rest

  -- The rollups of the named workers, in the order of the names.
  unfoldable pub rollups :
      Config Float
      → List (String × WorkerSnapshot Float)
      → List String
      → List (String × WorkerStats Float)
  rollups c snaps [] = []
  rollups c snaps (name ∷ names) =
      add_rollup name (lookup name snaps) (get_worker_config c name) (rollups c snaps names)

  unfoldable pub resources : ℕ → ℕ → ResourceStats Float
  resources baseline peak = record {
    peak_rss_mb = div (div (of_uint peak) (ratio 1024 1)) (ratio 1024 1);
    baseline_rss_mb = div (div (of_uint baseline) (ratio 1024 1)) (ratio 1024 1);
    memory_growth_factor =
        if ltb 0 baseline then div (of_uint peak) (of_uint baseline) else ratio 0 1;
  }

-- The reconciliation of RunReport; `none` is a run without an engine verdict.
unfoldable pub reconcile : Option VerdictResult → Verdict → Verdict
reconcile none v = v
reconcile (some ev) v =
    if not ev.passed
    then record v {
      passed = false;
      result = "FAILED";
      warnings = v.warnings ++ map ReportWarning.from_engine ev.warnings;
    }
    else if eqs ev.result "PASSED_WITH_WARNINGS" && eqs v.result "PASSED"
    then record v {
      result = "PASSED_WITH_WARNINGS";
      warnings = v.warnings ++ map ReportWarning.from_engine ev.warnings;
    }
    else v

-- The verdict of RunReport, for snapshots that the engine has captured.
module _ (F : Floats) where
  unfoldable pub run_report :
      Config F.Float
      → List (String × WorkerSnapshot F.Float)
      → ℕ
      → ℕ
      → Option VerdictResult
      → Verdict
  run_report c snaps baseline peak ev =
      reconcile ev
        (generate_verdict F c (rollups F c snaps all_worker_names) (resources F baseline peak))
