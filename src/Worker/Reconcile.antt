-- ===== src/Worker/Reconcile.antt =====
-- burnin/worker/dead_letter.go and cross_protocol_interop.go: the map of published ids with their
-- times, the set of the ids that came back, and the count of the overdue ones. A time is in
-- nanoseconds.
use kubemq_gcp_pub_sub.Base.{
  ℕ, ◌+◌, ◌-◌, ◌≡◌, ◌⊎◌, ◌<◌, ◌≤◌, ◌∙◌, ap, length, refl, String, Bool, true, false, not, ◌&&◌,
  ◌||◌, List, [], ◌∷◌, leb, arith, if◌then◌else◌, inl, inr,
}
use kubemq_gcp_pub_sub.Base.Int.{ℤ, pos, negsuc, ltb_ℤ}
use kubemq_gcp_pub_sub.Base.Assoc.{eqs}

-- A Go `map[string]struct{}`.
abbrev pub has : String → List String → Bool
has id [] = false
has id (seen ∷ rest) = eqs seen id || has id rest

-- now.Sub(t)
abbrev pub since : ℕ → ℕ → ℤ
since now t = if leb t now then pos (now - t) else negsuc (t - now - 1)

-- Not seen again, and older than the budget.
abbrev pub is_overdue : ℤ → ℕ → List String → String → ℕ → Bool
is_overdue budget now seen id t = not (has id seen) && ltb_ℤ budget (since now t)

-- The loop over the published ids.
unfoldable pub count_overdue : ℤ → ℕ → List String → List (String × ℕ) → ℕ
count_overdue budget now seen [] = 0
count_overdue budget now seen ((id, t) ∷ published) =
    let rest = count_overdue budget now seen published in
    if is_overdue budget now seen id t then rest + 1 else rest

abbrev pub IsEntry : String → ℕ → List (String × ℕ) → Type 0
IsEntry id t [] = ⊥
IsEntry id t ((other, u) ∷ m) = ((other ≡ id) × (u ≡ t)) ⊎ IsEntry id t m

abbrev pub IsNoneOverdue : ℤ → ℕ → List String → List (String × ℕ) → Type 0
IsNoneOverdue budget now seen published =
    (id : String) (t : ℕ) → IsEntry id t published → is_overdue budget now seen id t ≡ false

-- Nothing is counted when no entry is overdue.
pub count_overdue-zero :
    (budget : ℤ) (now : ℕ) (seen : List String) (published : List (String × ℕ))
    → IsNoneOverdue budget now seen published
    → count_overdue budget now seen published ≡ 0
unfolding count_overdue
count_overdue-zero budget now seen [] none_due = refl
count_overdue-zero budget now seen ((id, t) ∷ published) none_due =
    let rest = count_overdue-zero budget now seen published (λ i u e. none_due i u (inr e)) in
    ground (arith, none_due id t (inl (refl, refl)), rest)

-- An overdue entry is counted.
pub count_overdue-pos :
    (budget : ℤ) (now : ℕ) (seen : List String) (published : List (String × ℕ)) (id : String)
    (t : ℕ)
    → IsEntry id t published
    → is_overdue budget now seen id t ≡ true
    → 0 < count_overdue budget now seen published
unfolding count_overdue
count_overdue-pos budget now seen [] id t e due = absurd e
count_overdue-pos budget now seen ((other, u) ∷ published) id t (inl (same, at)) due =
    let here : is_overdue budget now seen other u ≡ true =
      ap (λ i. is_overdue budget now seen i u) same ∙ ap (is_overdue budget now seen id) at ∙ due in
    ground (arith, here)
count_overdue-pos budget now seen ((other, u) ∷ published) id t (inr e) due =
    ground (arith, count_overdue-pos budget now seen published id t e due)

-- No more are counted than there are entries.
pub count_overdue-bound :
    (budget : ℤ) (now : ℕ) (seen : List String) (published : List (String × ℕ))
    → count_overdue budget now seen published ≤ length published
unfolding count_overdue
count_overdue-bound budget now seen [] = omega arith
count_overdue-bound budget now seen ((id, t) ∷ published) =
    ground (arith, count_overdue-bound budget now seen published)
