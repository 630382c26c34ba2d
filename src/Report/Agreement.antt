-- ===== src/Report/Agreement.antt =====
-- burnin/main.go: the verdict of the report beside the verdict of the engine.
use kubemq_gcp_pub_sub.Base.{
  ℕ, ◌≡◌, refl, ap, ◌∙◌, sym, String, List, [], ◌∷◌, true, false, Option, some, none, all, arith,
  if◌then◌else◌, Bool-cases, inl, inr,
}
use kubemq_gcp_pub_sub.Base.Int.{ℤ}
use kubemq_gcp_pub_sub.Base.Words.{add64}
use kubemq_gcp_pub_sub.Base.Floats.{Floats}
use mathlib.Core.Path.{subst}
use kubemq_gcp_pub_sub.Base.Assoc.{eqs, eqs_iff, lookup, lookup_head, lookup_tail}
use kubemq_gcp_pub_sub.Config.{Config, WorkerConfig}
use kubemq_gcp_pub_sub.Config.Lookup.{get_worker_config}
use kubemq_gcp_pub_sub.Config.Names.{all_worker_names}
use kubemq_gcp_pub_sub.Engine.{WorkerSnapshot, VerdictResult}
use kubemq_gcp_pub_sub.Engine.Verdict.{gates, compute_verdict}
use kubemq_gcp_pub_sub.Engine.Verdict.Decision.{is_empty, is_clean, compute_verdict_lem}
use kubemq_gcp_pub_sub.Report
use kubemq_gcp_pub_sub.Report.{Verdict, WorkerStats, ResourceStats, CheckKind, ReportWarning, step}
use kubemq_gcp_pub_sub.Report.Clean.{clean_rates, clean_corrupted}
use kubemq_gcp_pub_sub.Report.Workers.{IsGateable, check_worker-passed}

reconcile_agrees :
    (ev : VerdictResult) (v : Verdict)
    → (ev.passed ≡ true → v.passed ≡ true)
    → (Report.reconcile (some ev) v).passed ≡ ev.passed
unfolding Report.reconcile
reconcile_agrees ev v h = elim (Bool-cases ev.passed) [
  | inl passes ↦ ground (arith, passes, h passes)
  | inr fails ↦ ground (arith, fails)
]

module _ (F : Floats) (c : Config F.Float) where
  open F use {Float}

  module _ (g : IsGateable F c) (d : ℤ) (snaps : List (String × WorkerSnapshot Float)) where
    clean_lookup :
        (name : String) (s : WorkerSnapshot Float) (m : List (String × WorkerSnapshot Float))
        → all (is_clean F c d) m ≡ true
        → lookup name m ≡ some s
        → is_empty (gates F c d name s) ≡ true
    unfolding is_clean
    clean_lookup name s [] h e = ground (arith, e)
    clean_lookup name s ((k, t) ∷ m) h e = elim (Bool-cases (eqs k name)) [
      | inl same ↦
          subst (λ n. is_empty (gates F c d n s) ≡ true) ((eqs_iff k name).0 same)
            (subst (λ u. is_empty (gates F c d k u) ≡ true) (lookup_head name k t m same e)
              (ground (arith, h)))
      | inr other ↦
          clean_lookup name s m (ground (arith, h)) (lookup_tail name k t m (some s) other e)
    ]

    add_rollup-passed :
        (name : String) (o : Option (WorkerSnapshot Float)) (w : Option WorkerConfig)
        (rest : List (String × WorkerStats Float)) (v : Verdict)
        → ((s : WorkerSnapshot Float) → o ≡ some s → is_empty (gates F c d name s) ≡ true)
        → ((u : Verdict) → u.passed ≡ true → (Report.check_workers F c rest u).passed ≡ true)
        → v.passed ≡ true
        → (Report.check_workers F c (Report.add_rollup F name o w rest) v).passed ≡ true
    unfolding Report.check_workers Report.add_rollup
    add_rollup-passed name none w rest v clean later h = later v h
    add_rollup-passed name (some s) none rest v clean later h = later v h
    add_rollup-passed name (some s) (some wc) rest v clean later h =
        elim wc.enabled
          as (λ b.
            (Report.check_workers F c (if b then (name, Report.rollup F wc s) ∷ rest else rest)
              v).passed
            ≡ true) [
              | true ↦ later _ (check_worker-passed F c g d name s wc v (clean s refl) h)
              | false ↦ later v h
            ]

    -- Going through the rollups of clean snapshots keeps the flag.
    rollups-passed :
        (names : List String) (v : Verdict)
        → all (is_clean F c d) snaps ≡ true
        → v.passed ≡ true
        → (Report.check_workers F c (Report.rollups F c snaps names) v).passed ≡ true
    unfolding Report.check_workers Report.rollups
    rollups-passed [] v clean h = h
    rollups-passed (name ∷ names) v clean h =
        add_rollup-passed name (lookup name snaps) (get_worker_config c name)
          (Report.rollups F c snaps names) v (λ s e. clean_lookup name s snaps clean e)
          (λ u k. rollups-passed names u clean k) h

    add_rollup-corrupted :
        (name : String) (o : Option (WorkerSnapshot Float)) (w : Option WorkerConfig)
        (rest : List (String × WorkerStats Float))
        → ((s : WorkerSnapshot Float) → o ≡ some s → is_empty (gates F c d name s) ≡ true)
        → Report.total_corrupted F rest 0 ≡ 0
        → Report.total_corrupted F (Report.add_rollup F name o w rest) 0 ≡ 0
    unfolding Report.total_corrupted Report.add_rollup Report.rollup
    add_rollup-corrupted name none w rest clean h = h
    add_rollup-corrupted name (some s) none rest clean h = h
    add_rollup-corrupted name (some s) (some wc) rest clean h =
        let zero_here = clean_corrupted F c d name s (clean_rates F c d name s (clean s refl)) in
        elim wc.enabled
          as (λ b.
            Report.total_corrupted F (if b then (name, Report.rollup F wc s) ∷ rest else rest) 0
            ≡ 0) [
              | true ↦ ap (λ n. Report.total_corrupted F rest (add64 0 n)) zero_here ∙ h
              | false ↦ h
            ]

    rollups-corrupted :
        (names : List String)
        → all (is_clean F c d) snaps ≡ true
        → Report.total_corrupted F (Report.rollups F c snaps names) 0 ≡ 0
    unfolding Report.total_corrupted Report.rollups
    rollups-corrupted [] clean = refl
    rollups-corrupted (name ∷ names) clean =
        add_rollup-corrupted name (lookup name snaps) (get_worker_config c name)
          (Report.rollups F c snaps names) (λ s e. clean_lookup name s snaps clean e)
          (rollups-corrupted names clean)

    generate_verdict-passed :
        (r : ResourceStats Float)
        → all (is_clean F c d) snaps ≡ true
        → (Report.generate_verdict F c (Report.rollups F c snaps all_worker_names) r).passed ≡ true
    unfolding Report.generate_verdict Report.conclude Report.check_memory Report.add_check
    generate_verdict-passed r clean = ground (
      arith,
      rollups-corrupted all_worker_names clean,
      rollups-passed all_worker_names
          (record { result = "PASSED"; passed = true; warnings = []; checks = [] }) clean refl,
    )

    -- With thresholds that are numbers, the verdict that RunReport returns beside the engine's own
    -- verdict of the same snapshots passes exactly when the engine's verdict does.
    pub run_report_agrees :
        (baseline peak : ℕ)
        → (Report.run_report F c snaps baseline peak
            (some (compute_verdict F c d snaps baseline peak))).passed
          ≡ (compute_verdict F c d snaps baseline peak).passed
    unfolding Report.run_report
    run_report_agrees baseline peak =
        reconcile_agrees (compute_verdict F c d snaps baseline peak)
          (Report.generate_verdict F c (Report.rollups F c snaps all_worker_names)
            (Report.resources F baseline peak))
          (λ h.
            generate_verdict-passed (Report.resources F baseline peak)
              (sym (compute_verdict_lem F c d snaps baseline peak).0 ∙ h))
