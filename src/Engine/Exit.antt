-- ===== src/Engine/Exit.antt =====
-- burnin/engine/engine.go and burnin/main.go: how a verdict becomes the exit code of the process.
use kubemq_gcp_pub_sub.Base.{
  ℕ, ◌≡◌, ap, String, Bool, true, false, not, Option, none, some, List, all, if◌then◌else◌, arith,
}
use kubemq_gcp_pub_sub.Base.Int.{ℤ}
use kubemq_gcp_pub_sub.Base.Floats.{Floats}
use kubemq_gcp_pub_sub.Base.Assoc.{eqs}
use kubemq_gcp_pub_sub.Config.{Config}
use kubemq_gcp_pub_sub.Engine.{WorkerSnapshot, VerdictResult}
use kubemq_gcp_pub_sub.Engine.Verdict.{compute_verdict}
use kubemq_gcp_pub_sub.Engine.Verdict.Decision.{is_clean, memory_grew, compute_verdict_lem}

-- GracefulShutdown's result, once the run has ended.
unfoldable pub graceful_shutdown : Option VerdictResult → Bool
graceful_shutdown none = false
graceful_shutdown (some v) = v.passed

unfoldable pub has_warnings : Option VerdictResult → Bool
has_warnings none = false
has_warnings (some v) = eqs v.result "PASSED_WITH_WARNINGS"

-- The end of main.
unfoldable pub exit_code : Option VerdictResult → ℕ
exit_code v = if not (graceful_shutdown v) then 1 else if has_warnings v then 2 else 0

exit_by :
    (clean grew : Bool) (v : VerdictResult)
    → v.passed ≡ clean
    → v.result ≡ (if clean then (if grew then "PASSED_WITH_WARNINGS" else "PASSED") else "FAILED")
    → exit_code (some v) ≡ (if clean then (if grew then 2 else 0) else 1)
unfolding exit_code graceful_shutdown has_warnings
exit_by false grew v passes result = ground (arith, passes)
exit_by true true v passes result =
    ground (arith, passes, ap (λ s. eqs s "PASSED_WITH_WARNINGS") result)
exit_by true false v passes result =
    ground (arith, passes, ap (λ s. eqs s "PASSED_WITH_WARNINGS") result)

module _ (F : Floats) (c : Config F.Float) (d : ℤ) (snaps : List (String × WorkerSnapshot F.Float))
    (baseline peak : ℕ) where
  -- The process exits with 1 exactly when a gate fails on some snapshot; otherwise with 2 if the memory
  -- advisory applies and with 0 if it does not.
  exit_code_lem : exit_code (some (compute_verdict F c d snaps baseline peak)) ≡ (
      if all (is_clean F c d) snaps
      then (if memory_grew F c d snaps baseline peak then 2 else 0)
      else 1)
  exit_code_lem =
      let (passes, result) = compute_verdict_lem F c d snaps baseline peak in
      exit_by (all (is_clean F c d) snaps) (memory_grew F c d snaps baseline peak) _ passes result
