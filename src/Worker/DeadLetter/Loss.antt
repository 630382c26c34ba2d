-- ===== src/Worker/DeadLetter/Loss.antt =====
-- burnin/worker/dead_letter.go: what reconcileDeadLetterLoss charges.
use kubemq_gcp_pub_sub.Base.{
  ℕ, ◌+◌, ◌<◌, ◌^◌, ◌≡◌, String, List, [], ◌∷◌, ◌||◌, length, leb, arith, if◌then◌else◌,
}
use kubemq_gcp_pub_sub.Base.Int.{pos}
use kubemq_gcp_pub_sub.Worker.{record_dead_letter_lost}
use kubemq_gcp_pub_sub.Worker.Reconcile.{has, count_overdue}
use kubemq_gcp_pub_sub.Worker.DeadLetter.{DeadLetterWorker, reconcile_dead_letter_loss}

-- The published entries that came back, or that are no older than the budget.
abbrev pub excused : ℕ → ℕ → List String → List (String × ℕ) → ℕ
excused budget now back [] = 0
excused budget now back ((id, t) ∷ published) =
    let rest = excused budget now back published in
    if has id back || leb now (t + budget) then 1 + rest else rest

count_overdue-excused :
    (budget now : ℕ) (back : List String) (published : List (String × ℕ))
    → count_overdue (pos budget) now back published + excused budget now back published
      ≡ length published
unfolding count_overdue
count_overdue-excused budget now back [] = omega arith
count_overdue-excused budget now back ((id, t) ∷ published) =
    ground (arith, count_overdue-excused budget now back published)

module _ {Hist : Type 0} (budget now : ℕ) (w : DeadLetterWorker Hist) where
  -- While the counter cannot wrap, the reconciliation with a budget that is not negative charges each published
  -- message once, but for those whose id came back and those published no longer ago than the budget.
  pub reconcile_dead_letter_loss_lem :
      w.base.dead_letter_lost + length w.published < 2 ^ 64
      → (reconcile_dead_letter_loss (pos budget) now w).base.dead_letter_lost
          + excused budget now w.republished w.published
        ≡ w.base.dead_letter_lost + length w.published
  unfolding reconcile_dead_letter_loss record_dead_letter_lost
  reconcile_dead_letter_loss_lem h =
      ground (arith, count_overdue-excused budget now w.republished w.published)
