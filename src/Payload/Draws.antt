-- ===== src/Payload/Draws.antt =====
-- burnin/payload/payload.go: the draws for which each size is selected.
use kubemq_gcp_pub_sub.Base.{
  ℕ, zero, suc, ◌+◌, ◌^◌, ◌≤◌, ◌<◌, ◌≡◌, List, [], ◌∷◌, map, length, get_or, sum, sum_first, arith,
}
use kubemq_gcp_pub_sub.Base.Int.{add_int-pos, ℤ, pos}
use kubemq_gcp_pub_sub.Payload.{select_from, select_size, last_of}

select_from_lem :
    (ws : List ℕ) (sizes : List ℤ) (i r cumulative : ℕ) (last : ℤ)
    → length sizes ≡ length ws
    → cumulative + sum ws < 2 ^ 63
    → cumulative + sum_first i ws ≤ r
    → r < cumulative + sum_first (suc i) ws
    → select_from (pos r) (pos cumulative) (map pos ws) sizes last ≡ get_or sizes i last
unfolding select_from
select_from_lem [] sizes zero r c last e h lo hi = absurd (omega arith)
select_from_lem [] sizes (suc i) r c last e h lo hi = absurd (omega arith)
select_from_lem (w ∷ ws) [] i r c last e h lo hi = absurd (omega arith)
select_from_lem (w ∷ ws) (s ∷ ss) zero r c last e h lo hi =
    rw (add_int-pos c w (omega arith)) (ground arith)
select_from_lem (w ∷ ws) (s ∷ ss) (suc i) r c last e h lo hi = rw (add_int-pos c w (omega arith)) (
    ground (
      arith,
      select_from_lem ws ss i r (c + w) last (omega arith) (omega arith) (omega arith)
          (omega arith),
    ))

-- For weights that are not negative, and whose sum an int can hold, SelectSize gives the size at
-- place i for exactly the draws from the sum of the weights before it up to that sum with its own.
pub select_size_lem :
    (ws : List ℕ) (sizes : List ℤ) (total : ℤ) (i r : ℕ)
    → length sizes ≡ length ws
    → sum ws < 2 ^ 63
    → sum_first i ws ≤ r
    → r < sum_first (suc i) ws
    → select_size (record { sizes = sizes; weights = map pos ws; total = total }) (pos r)
      ≡ get_or sizes i (last_of sizes (pos 0))
unfolding select_size
select_size_lem ws sizes total i r e h lo hi =
    select_from_lem ws sizes i r 0 (last_of sizes (pos 0)) e (omega arith) (omega arith)
      (omega arith)
