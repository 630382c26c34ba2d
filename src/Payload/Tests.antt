-- ===== src/Payload/Tests.antt =====
-- Draws from the default distribution.
use kubemq_gcp_pub_sub.Base.{ℕ, ◌≡◌, refl, List, [], ◌∷◌, map, get_or, arith}
use kubemq_gcp_pub_sub.Base.Int.{ℤ, pos}
use kubemq_gcp_pub_sub.Payload.{select_size, last_of}
use kubemq_gcp_pub_sub.Payload.Draws.{select_size_lem}

abbrev weights : List ℕ
weights = 80 ∷ 15 ∷ 5 ∷ []

abbrev sizes : List ℤ
sizes = pos 256 ∷ pos 4096 ∷ pos 65536 ∷ []

select_size_lem_example :
    select_size (record { sizes = sizes; weights = map pos weights; total = pos 100 }) (pos 90)
    ≡ get_or sizes 1 (last_of sizes (pos 0))
select_size_lem_example =
    select_size_lem weights sizes (pos 100) 1 90 refl (omega arith) (omega arith) (omega arith)
