-- ===== src/Engine/Verdict/Decision.antt =====
-- burnin/engine/verdict.go: what decides the verdict of a run, whatever the order in which the
-- snapshots are visited.
use kubemq_gcp_pub_sub.Base.{
  ℕ, ◌≡◌, refl, ap, ◌∙◌, String, List, [], ◌∷◌, ◌++◌, Bool, true, false, ◌&&◌, ltb, all, arith,
  if◌then◌else◌,
}
use mathlib.Core.List.{Perm, Permᴰ}
use mathlib.Core.Logic.{∥∥₁_elim}
use kubemq_gcp_pub_sub.Base.Int.{ℤ}
use kubemq_gcp_pub_sub.Base.Floats.{Floats}
use kubemq_gcp_pub_sub.Config.{Config}
use kubemq_gcp_pub_sub.Engine.{WorkerSnapshot, VerdictResult, Gate, Warning}
use kubemq_gcp_pub_sub.Engine.Verdict.{
  fail_each, gates, judge_worker, judge_workers, judge_memory, compute_verdict,
}

module _ {ℓ} {A : Type ℓ} (p : A → Bool) where
  all_Permᴰ : {xs ys : List A} → Permᴰ xs ys → all p xs ≡ all p ys
  all_Permᴰ Permᴰ.nil = refl
  all_Permᴰ (Permᴰ.cons e r) = ground (arith, ap p e, all_Permᴰ r)
  all_Permᴰ (Permᴰ.swap e f) = ground (arith, ap p e, ap p f)
  all_Permᴰ (Permᴰ.trans r s) = all_Permᴰ r ∙ all_Permᴰ s

  pub all_Perm : {xs ys : List A} → Perm xs ys → all p xs ≡ all p ys
  all_Perm r = ∥∥₁_elim r (hlevel) all_Permᴰ

abbrev pub is_empty : List Gate → Bool
is_empty [] = true
is_empty (_ ∷ _) = false

failed_with : String → Gate → VerdictResult → VerdictResult
failed_with name g v = record {
  result = "FAILED";
  passed = false;
  warnings = v.warnings ++ Warning.failed name g ∷ [];
}

fail_each-passed :
    (name : String) (gs : List Gate) (v : VerdictResult)
    → (fail_each name gs v).passed ≡ (v.passed && is_empty gs)
unfolding fail_each failed_with
fail_each-passed name [] v = ground arith
fail_each-passed name (g ∷ gs) v = ground (arith, fail_each-passed name gs (failed_with name g v))

fail_each-result :
    (name : String) (gs : List Gate) (v : VerdictResult)
    → (fail_each name gs v).result ≡ (if is_empty gs then v.result else "FAILED")
unfolding fail_each failed_with
fail_each-result name [] v = refl
fail_each-result name (g ∷ gs) v = ground (arith, fail_each-result name gs (failed_with name g v))

module _ (F : Floats) (c : Config F.Float) (d : ℤ) where
  -- No gate fails on a snapshot.
  unfoldable pub is_clean : String × WorkerSnapshot F.Float → Bool
  is_clean (name, snap) = is_empty (gates F c d name snap)

  judge_workers-passed :
      (snaps : List (String × WorkerSnapshot F.Float)) (v : VerdictResult)
      → (judge_workers F c d snaps v).passed ≡ (v.passed && all is_clean snaps)
  unfolding judge_workers judge_worker is_clean
  judge_workers-passed [] v = ground arith
  judge_workers-passed ((name, snap) ∷ snaps) v = ground (
    arith,
    fail_each-passed name (gates F c d name snap) v,
    judge_workers-passed snaps (judge_worker F c d name snap v),
  )

  -- While no memory advisory is given, the text of the result says what the flag says.
  IsConsistent : VerdictResult → Type 0
  IsConsistent v = v.result ≡ (if v.passed then "PASSED" else "FAILED")

  judge_worker-IsConsistent :
      (name : String) (snap : WorkerSnapshot F.Float) (v : VerdictResult)
      → IsConsistent v
      → IsConsistent (judge_worker F c d name snap v)
  unfolding IsConsistent judge_worker
  judge_worker-IsConsistent name snap v h = ground (
    arith,
    h,
    fail_each-passed name (gates F c d name snap) v,
    fail_each-result name (gates F c d name snap) v,
  )

  judge_workers-IsConsistent :
      (snaps : List (String × WorkerSnapshot F.Float)) (v : VerdictResult)
      → IsConsistent v
      → IsConsistent (judge_workers F c d snaps v)
  unfolding judge_workers
  judge_workers-IsConsistent [] v h = h
  judge_workers-IsConsistent ((name, snap) ∷ snaps) v h =
      judge_workers-IsConsistent snaps (judge_worker F c d name snap v)
        (judge_worker-IsConsistent name snap v h)

  module _ (snaps : List (String × WorkerSnapshot F.Float)) (baseline peak : ℕ) where
    open F use {gt, div, of_uint}

    -- The memory advisory's condition.
    unfoldable pub memory_grew : Bool
    memory_grew =
        ltb 0 baseline
        && ltb baseline peak
        && gt (div (of_uint peak) (of_uint baseline)) c.thresholds.max_memory_growth_factor

    -- The run passes exactly when no gate fails on any snapshot; the result is FAILED when it does
    -- not pass, PASSED_WITH_WARNINGS when it passes and memory grew too much, and PASSED otherwise.
    pub compute_verdict_lem :
        ((compute_verdict F c d snaps baseline peak).passed ≡ all is_clean snaps)
        × ((compute_verdict F c d snaps baseline peak).result ≡ (
            if all is_clean snaps
            then (if memory_grew then "PASSED_WITH_WARNINGS" else "PASSED")
            else "FAILED"))
    unfolding compute_verdict judge_memory memory_grew IsConsistent
    compute_verdict_lem =
        let start : VerdictResult = record { result = "PASSED"; passed = true; warnings = [] } in
        ground
          (arith, judge_workers-passed snaps start, judge_workers-IsConsistent snaps start refl)

  -- The order in which the snapshots are visited changes neither the flag nor the result.
  compute_verdict_any_order :
      (snaps others : List (String × WorkerSnapshot F.Float)) (baseline peak : ℕ)
      → Perm snaps others
      → ((compute_verdict F c d snaps baseline peak).passed
          ≡ (compute_verdict F c d others baseline peak).passed)
        × ((compute_verdict F c d snaps baseline peak).result
            ≡ (compute_verdict F c d others baseline peak).result)
  unfolding memory_grew
  compute_verdict_any_order snaps others baseline peak r = ground (
    arith,
    all_Perm is_clean r,
    compute_verdict_lem snaps baseline peak,
    compute_verdict_lem others baseline peak,
  )
