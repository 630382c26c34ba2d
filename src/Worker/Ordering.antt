-- ===== src/Worker/Ordering.antt =====
-- burnin/worker/ordering_keys.go: checkOrdering, the high-water mark per producer and ordering key.
-- strconv's parse of the sequence attribute is the parameter parse_uint.
use kubemq_gcp_pub_sub.Base.{
  ℕ, ◌≡◌, ◌+◌, ◌<◌, ap, ◌∙◌, String, Bool, true, false, ◌||◌, Option, none, some, List, [], ◌∷◌,
  arith, length, ◌^◌, ltb, if◌then◌else◌,
}
use mathlib.Core.Path.{fun_ext}
use kubemq_gcp_pub_sub.Base.Words.{add64}
use kubemq_gcp_pub_sub.Base.Assoc.{eqs, eqs_iff, lookup, insert, lookup-insert}

-- The map perKey and the counter of violations.
pub record OrderingState : Type 0 where
  pub per_key : List (String × ℕ)
  pub ordering_violations : ℕ

-- The lookup's result decides, then the map is written.
unfoldable pub check_sequence : String → ℕ → Option ℕ → OrderingState → OrderingState
check_sequence map_key oseq none s = record s { per_key = insert map_key oseq s.per_key }
check_sequence map_key oseq (some last) s =
    if ltb oseq last
    then record s { ordering_violations = add64 s.ordering_violations 1 }
    else if ltb last oseq
    then record s { per_key = insert map_key oseq s.per_key }
    else s

-- An arrival under one key of the map.
unfoldable pub check_key : String → ℕ → OrderingState → OrderingState
check_key map_key oseq s = check_sequence map_key oseq (lookup map_key s.per_key) s

-- `producerID + "|" + orderingKey`
unfoldable pub check_ordering :
    (String → Option ℕ)
    → (String → String → String)
    → String
    → String
    → String
    → OrderingState
    → OrderingState
check_ordering parse_uint map_key producer_id ordering_key ordering_seq s =
    let parsed = parse_uint ordering_seq in
    if eqs ordering_key "" || eqs ordering_seq ""
    then s
    else elim parsed [ none ↦ s | some oseq ↦ check_key (map_key producer_id ordering_key) oseq s ]

-- The arrivals of a run, each with its key of the map and its sequence number.
unfoldable pub check_keys : List (String × ℕ) → OrderingState → OrderingState
check_keys [] s = s
check_keys ((k, n) ∷ es) s = check_keys es (check_key k n s)

abbrev pub is_below : ℕ → Option ℕ → Bool
is_below n none = false
is_below n (some last) = ltb n last

abbrev pub raised : ℕ → Option ℕ → Option ℕ
raised n none = some n
raised n (some last) = if ltb last n then some n else some last

-- How many arrivals are below an earlier arrival of their own key, where `high` is the largest
-- number of each key so far.
abbrev pub regressions : List (String × ℕ) → (String → Option ℕ) → ℕ
regressions [] high = 0
regressions ((k, n) ∷ es) high =
    (if is_below n (high k) then 1 else 0)
    + regressions es (λ j. if eqs k j then raised n (high k) else high j)

same_lookup : (k j : String) (m : List (String × ℕ)) → eqs k j ≡ true → lookup k m ≡ lookup j m
same_lookup k j m h = ap (λ i. lookup i m) ((eqs_iff k j).0 h)

per_key_lem :
    (k : String) (n : ℕ) (s : OrderingState) (j : String)
    → lookup j (check_key k n s).per_key
      ≡ (if eqs k j then raised n (lookup k s.per_key) else lookup j s.per_key)
unfolding check_key check_sequence
per_key_lem k n s j = ground (arith, lookup-insert k j n s.per_key, same_lookup k j s.per_key)

violations_lem :
    (k : String) (n : ℕ) (s : OrderingState)
    → s.ordering_violations + 1 < 2 ^ 64
    → (check_key k n s).ordering_violations
      ≡ s.ordering_violations + (if is_below n (lookup k s.per_key) then 1 else 0)
unfolding check_key check_sequence
violations_lem k n s h = ground arith

-- While the counter cannot wrap, a run adds to it exactly the number of arrivals that are below an
-- earlier arrival of their own key, whatever the interleaving of the keys.
pub check_keys_lem :
    (es : List (String × ℕ)) (s : OrderingState)
    → s.ordering_violations + length es < 2 ^ 64
    → (check_keys es s).ordering_violations
      ≡ s.ordering_violations + regressions es (λ k. lookup k s.per_key)
unfolding check_keys
check_keys_lem [] s h = omega arith
check_keys_lem ((k, n) ∷ es) s h =
    let here = violations_lem k n s (omega arith) in
    check_keys_lem es (check_key k n s) (ground (arith, here))
    ∙ ap (λ high. (check_key k n s).ordering_violations + regressions es high)
        (fun_ext (per_key_lem k n s))
    ∙ omega (arith, here)
