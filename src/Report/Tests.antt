-- ===== src/Report/Tests.antt =====
-- A run of the report beside the engine's verdict.
use kubemq_gcp_pub_sub.Base.{ℕ, ◌≡◌, refl, List, [], ◌∷◌, some, String}
use kubemq_gcp_pub_sub.Base.Int.{pos}
use kubemq_gcp_pub_sub.Samples.{milli, defaults, quiet, lossy}
use kubemq_gcp_pub_sub.Config.Default.{default_config}
use kubemq_gcp_pub_sub.Engine.{WorkerSnapshot}
use kubemq_gcp_pub_sub.Engine.Verdict.{compute_verdict}
use kubemq_gcp_pub_sub.Report.{run_report}
use kubemq_gcp_pub_sub.Report.Workers.{IsGateable}
use kubemq_gcp_pub_sub.Report.Agreement.{run_report_agrees}

abbrev two : List (String × WorkerSnapshot ℕ)
two = ("dead_letter", lossy) ∷ ("fan_out", quiet) ∷ []

defaults-IsGateable : IsGateable milli defaults
unfolding default_config
defaults-IsGateable = record {
  loss_number = refl;
  duplication_number = refl;
  error_number = refl;
  p99_positive = refl;
}

run_report_agrees_example :
    (run_report milli defaults two 5 20
      (some (compute_verdict milli defaults (pos 1000) two 5 20))).passed
    ≡ (compute_verdict milli defaults (pos 1000) two 5 20).passed
run_report_agrees_example = run_report_agrees milli defaults defaults-IsGateable (pos 1000) two 5 20
