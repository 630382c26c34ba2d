-- ===== src/Tracker/Totals.antt =====
-- The totals over all producers, and the invariant of the whole tracker.
use kubemq_gcp_pub_sub.Base.{
  ℕ, String, ◌+◌, ◌^◌, ◌<◌, ◌≡◌, refl, [], ◌∷◌, Option, none, some, if◌then◌else◌, arith,
  Bool-cases, inl, inr, ap,
}
use mathlib.Core.Path.{subst}
use kubemq_gcp_pub_sub.Base.Words.{u64, add64}
use kubemq_gcp_pub_sub.Base.Assoc.{
  eqs, lookup, insert, lookup_head, lookup_tail, lookup_head_some, insert_head, insert_tail,
}
use kubemq_gcp_pub_sub.Tracker.Producer.{ProducerState, new_producer, record_known}
use kubemq_gcp_pub_sub.Tracker.Producer.Seen.{IsValid}
use kubemq_gcp_pub_sub.Tracker.Producer.Arrival.{record_known-IsValid}
use kubemq_gcp_pub_sub.Tracker.Producer.Losses.{record_known_counters}
use kubemq_gcp_pub_sub.Tracker.Producer.First.{new_producer_lem, new_producer_counters}
use kubemq_gcp_pub_sub.Tracker.{
  Tracker, Producers, record_sequence, sum_in, total_received, total_duplicates,
}

-- Every producer's state is valid.
abbrev pub AllValid : ℕ → Producers → Type 0
AllValid r [] = Unit
AllValid r ((_, ps) ∷ rest) = IsValid r ps × AllValid r rest

insert-AllValid :
    (r : ℕ) (id : String) (ps : ProducerState) (m : Producers)
    → IsValid r ps
    → AllValid r m
    → AllValid r (insert id ps m)
insert-AllValid r id ps [] v a = (v, tt)
insert-AllValid r id ps ((j, qs) ∷ m) v a = elim (Bool-cases (eqs j id)) [
  | inl same ↦ rw (insert_head id j qs m ps same) (v, a.1)
  | inr other ↦ rw (insert_tail id j qs m ps other) (a.0, insert-AllValid r id ps m v a.1)
]

lookup-IsValid :
    (r : ℕ) (id : String) (m : Producers) {ps : ProducerState}
    → AllValid r m
    → lookup id m ≡ some ps
    → IsValid r ps
lookup-IsValid r id [] a h = cc
lookup-IsValid r id ((j, qs) ∷ m) {ps} a h = elim (Bool-cases (eqs j id)) [
  | inl same ↦ subst (IsValid r) (lookup_head id j qs m same h) a.0
  | inr other ↦ lookup-IsValid r id m a.1 (lookup_tail id j qs m (some ps) other h)
]

-- Record keeps every producer's state valid.
pub record_sequence-AllValid :
    (t : Tracker) (id : String) (seq : ℕ)
    → 0 < t.reorder_window
    → seq < 2 ^ 64
    → AllValid t.reorder_window t.producers
    → AllValid t.reorder_window (record_sequence t id seq).0.producers
unfolding record_sequence
record_sequence-AllValid t id seq h word a = go (lookup id t.producers) refl
  where
    go :
        (found : Option ProducerState)
        → lookup id t.producers ≡ found
        → AllValid t.reorder_window (record_sequence t id seq).0.producers
    go none e =
        rw (e, record_sequence)
          (insert-AllValid t.reorder_window id _ t.producers
            (new_producer_lem t.reorder_window seq h word).0 a)
    go (some ps) e =
        rw (e, record_sequence)
          (insert-AllValid t.reorder_window id _ t.producers
            (record_known-IsValid t.reorder_window ps seq
              (lookup-IsValid t.reorder_window id t.producers a e) word)
            a)

-- The sum of a counter over the producers, as a number without bound.
abbrev pub sum_of : (ProducerState → ℕ) → Producers → ℕ
sum_of f [] = 0
sum_of f ((_, ps) ∷ m) = f ps + sum_of f m

-- The accumulator loop gives the sum modulo 2 ^ 64.
pub sum_in-sum_of :
    (f : ProducerState → ℕ) (total : ℕ) (m : Producers)
    → total < 2 ^ 64
    → sum_in f total m ≡ u64 (total + sum_of f m)
unfolding sum_in
sum_in-sum_of f total [] h = omega arith
sum_in-sum_of f total ((_, ps) ∷ m) h =
    omega (arith, sum_in-sum_of f (add64 total (f ps)) m (omega arith))

module _ (f : ProducerState → ℕ) (id : String) (ps : ProducerState) where
  sum_of-insert_new :
      (m : Producers) → lookup id m ≡ none → sum_of f (insert id ps m) ≡ sum_of f m + f ps
  sum_of-insert_new [] h = omega arith
  sum_of-insert_new ((j, qs) ∷ m) h = elim (Bool-cases (eqs j id)) [
    | inl same ↦ absurd (lookup_head_some id j qs m same h)
    | inr other ↦
        rw (insert_tail id j qs m ps other)
          (omega (arith, sum_of-insert_new m (lookup_tail id j qs m none other h)))
  ]

  sum_of-insert_old :
      (old : ProducerState) (m : Producers)
      → lookup id m ≡ some old
      → sum_of f (insert id ps m) + f old ≡ sum_of f m + f ps
  sum_of-insert_old old [] h = absurd (cc)
  sum_of-insert_old old ((j, qs) ∷ m) h = elim (Bool-cases (eqs j id)) [
    | inl same ↦
        rw (insert_head id j qs m ps same) (omega (arith, ap f (lookup_head id j qs m same h)))
    | inr other ↦
        rw (insert_tail id j qs m ps other)
          (omega (arith, sum_of-insert_old old m (lookup_tail id j qs m (some old) other h)))
  ]

module _ (f : ProducerState → ℕ) (id : String) where
  sums : (m : Producers) → sum_in f 0 m ≡ u64 (sum_of f m)
  sums m = omega (arith, sum_in-sum_of f 0 m (omega arith))

  sum-insert_new :
      (ps : ProducerState) (m : Producers) (k : ℕ)
      → lookup id m ≡ none
      → f ps ≡ k
      → sum_in f 0 (insert id ps m) ≡ add64 (sum_in f 0 m) k
  sum-insert_new ps m k e h =
      omega (arith, sums m, sums (insert id ps m), sum_of-insert_new f id ps m e)

  sum-insert_zero :
      (ps : ProducerState) (m : Producers)
      → lookup id m ≡ none
      → f ps ≡ 0
      → sum_in f 0 (insert id ps m) ≡ sum_in f 0 m
  sum-insert_zero ps m e h =
      omega (arith, sums m, sums (insert id ps m), sum_of-insert_new f id ps m e)

  sum-insert_one :
      (old ps : ProducerState) (m : Producers)
      → lookup id m ≡ some old
      → f ps ≡ add64 (f old) 1
      → sum_in f 0 (insert id ps m) ≡ add64 (sum_in f 0 m) 1
  sum-insert_one old ps m e h =
      omega (arith, sums m, sums (insert id ps m), sum_of-insert_old f id ps old m e)

  sum-insert_same :
      (old ps : ProducerState) (m : Producers)
      → lookup id m ≡ some old
      → f ps ≡ f old
      → sum_in f 0 (insert id ps m) ≡ sum_in f 0 m
  sum-insert_same old ps m e h =
      omega (arith, sums m, sums (insert id ps m), sum_of-insert_old f id ps old m e)

-- Over all producers each Record adds one to the received total, and one to the duplicates total
-- exactly when it reports a duplicate, both modulo 2 ^ 64.
record_sequence_totals :
    (t : Tracker) (id : String) (seq : ℕ)
    → let (t', is_duplicate, _) = record_sequence t id seq in
      (total_received t' ≡ add64 (total_received t) 1)
      × (total_duplicates t'
          ≡ (if is_duplicate then add64 (total_duplicates t) 1 else total_duplicates t))
unfolding total_received total_duplicates record_sequence
record_sequence_totals t id seq = go (lookup id t.producers) refl
  where
    go :
        (found : Option ProducerState)
        → lookup id t.producers ≡ found
        → let (t', is_duplicate, _) = record_sequence t id seq in
          (total_received t' ≡ add64 (total_received t) 1)
          × (total_duplicates t'
              ≡ (if is_duplicate then add64 (total_duplicates t) 1 else total_duplicates t))
    go none e =
        let ps = new_producer t.reorder_window seq in
        let counters = new_producer_counters t.reorder_window seq in
        rw (e, record_sequence)
          (
            sum-insert_new (λ q. q.received) id ps t.producers 1 e counters.0,
            sum-insert_zero (λ q. q.duplicates) id ps t.producers e counters.1,
          )
    go (some ps) e =
        let ps' = (record_known t.reorder_window ps seq).0 in
        let counters = record_known_counters t.reorder_window ps seq in
        rw (e, record_sequence)
          (
            sum-insert_one (λ q. q.received) id ps ps' t.producers e counters.0,
            elim (Bool-cases (record_known t.reorder_window ps seq).1) [
              | inl dup ↦
                  rw (dup, if◌then◌else◌)
                    (sum-insert_one (λ q. q.duplicates) id ps ps' t.producers e
                      (ground (arith, counters.1)))
              | inr new ↦
                  rw (new, if◌then◌else◌)
                    (sum-insert_same (λ q. q.duplicates) id ps ps' t.producers e
                      (ground (arith, counters.1)))
            ],
          )
