-- ===== src/Metrics/Ring.antt =====
-- Buckets in a ring, one for each second, against the history of counts, the newest first.
use kubemq_gcp_pub_sub.Base.{
  ℕ, zero, suc, ◌+◌, ◌-◌, ◌<◌, ◌≡◌, refl, List, [], ◌∷◌, length, get_or, set, sum, sum_first,
  sum_first-suc, sum-set, length-set, get_or-set, leb, ◌==◌, if◌then◌else◌, arith, ap, ◌∙◌, sym,
  false,
}

-- Where the ring of n buckets keeps the count of k seconds ago.
abbrev pub slot : ℕ → ℕ → ℕ → ℕ
slot n idx k = if leb k idx then idx - k else idx + n - k

-- One more in the current second.
abbrev pub bump : List ℕ → List ℕ
bump [] = 1 ∷ []
bump (c ∷ cs) = (c + 1) ∷ cs

pub record Mirrors (n : ℕ) (buckets : List ℕ) (idx : ℕ) (history : List ℕ) : Type 0 where
  pub size : length buckets ≡ n
  pub current : idx < n
  pub cell : (k : ℕ) → k < n → get_or buckets (slot n idx k) 0 ≡ get_or history k 0
  pub whole : sum buckets ≡ sum_first n history

get_or-bump :
    (cs : List ℕ) (k : ℕ)
    → get_or (bump cs) k 0 ≡ (if k == 0 then get_or cs 0 0 + 1 else get_or cs k 0)
get_or-bump [] zero = refl
get_or-bump [] (suc k) = ground arith
get_or-bump (c ∷ cs) zero = refl
get_or-bump (c ∷ cs) (suc k) = ground arith

pub sum_first-bump : (n : ℕ) (cs : List ℕ) → sum_first (suc n) (bump cs) ≡ sum_first (suc n) cs + 1
sum_first-bump zero [] = refl
sum_first-bump (suc n) [] = refl
sum_first-bump n (c ∷ cs) = omega arith

-- An increment of the current bucket is one more in the current second.
pub bump-Mirrors :
    (n : ℕ) (buckets : List ℕ) (idx : ℕ) (history : List ℕ)
    → Mirrors n buckets idx history
    → Mirrors n (set buckets idx (get_or buckets idx 0 + 1)) idx (bump history)
bump-Mirrors zero buckets idx history m = absurd (omega (arith, m.current))
bump-Mirrors (suc n) buckets idx history m = record {
  size = length-set buckets idx _ ∙ m.size;
  current = m.current;
  cell = λ k h. ground (
    arith,
    get_or-set buckets idx (slot (suc n) idx k) (get_or buckets idx 0 + 1),
    get_or-bump history k,
    m.cell k h,
    m.cell 0 (omega arith),
    m.size,
    m.current,
  );
  whole = omega (
    arith,
    sum-set buckets idx (get_or buckets idx 0 + 1) (omega (arith, m.size, m.current)),
    sum_first-bump n history,
    m.whole,
  );
}

-- Clearing the next bucket starts a new second.
module _ (n : ℕ) (buckets : List ℕ) (idx next : ℕ) (history : List ℕ)
    (step : next ≡ (if idx == n then 0 else idx + 1)) where
  -- The next bucket holds the oldest count.
  pub oldest : Mirrors (suc n) buckets idx history → get_or buckets next 0 ≡ get_or history n 0
  oldest m =
      let there : slot (suc n) idx n ≡ next = ground (arith, m.current) in
      ap (λ i. get_or buckets i 0) (sym there) ∙ m.cell n (omega arith)

  turn-cell :
      Mirrors (suc n) buckets idx history
      → (k : ℕ) → k < suc n
      → get_or (set buckets next 0) (slot (suc n) next k) 0 ≡ get_or (0 ∷ history) k 0
  turn-cell m zero h =
      let at : slot (suc n) next 0 ≡ next = ground arith in
      let inside : next < length buckets = ground (arith, m.size, m.current) in
      rw (at, get_or-set buckets next next 0 inside) (ground arith)
  turn-cell m (suc k) h =
      let at : slot (suc n) next (suc k) ≡ slot (suc n) idx k = ground (arith, m.current) in
      let inside : next < length buckets = ground (arith, m.size, m.current) in
      let apart : (next == slot (suc n) idx k) ≡ false = ground (arith, m.current) in
      rw (at, get_or-set buckets next (slot (suc n) idx k) 0 inside, apart) (m.cell k (omega arith))

  pub turn-Mirrors :
      Mirrors (suc n) buckets idx history → Mirrors (suc n) (set buckets next 0) next (0 ∷ history)
  turn-Mirrors m = record {
    size = length-set buckets next 0 ∙ m.size;
    current = ground (arith, m.current);
    cell = turn-cell m;
    whole = omega (
      arith,
      sum-set buckets next 0 (ground (arith, m.size, m.current)),
      sum_first-suc n history,
      oldest m,
      m.whole,
    );
  }
