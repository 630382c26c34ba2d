-- ===== src/Payload.antt =====
-- burnin/payload/payload.go: ParseDistribution and SelectSize. strings.Split, the split of an
-- entry at its first colon, strings.TrimSpace and strconv.Atoi are parameters; the number that rand.IntN
-- draws is an argument.
pub mod Draws
mod Tests
use kubemq_gcp_pub_sub.Base.{
  String, List, [], ◌∷◌, ◌++◌, Option, none, some, ◌⊎◌, inl, inr, if◌then◌else◌,
}
use kubemq_gcp_pub_sub.Base.Int.{ℤ, pos, ltb_ℤ, eqb_ℤ, add_int}

pub record SizeDistribution : Type 0 where
  pub sizes : List ℤ
  pub weights : List ℤ
  pub total : ℤ

pub data DistributionError : Type 0 where
  invalid_entry invalid_size invalid_weight : String → DistributionError
  zero_total : DistributionError

module _ (split : String → List String) (cut : String → Option (String × String))
    (trim : String → String) (atoi : String → Option ℤ) where
  -- The loop over the entries.
  unfoldable pub parse_entries :
      List String → SizeDistribution → DistributionError ⊎ SizeDistribution
  parse_entries [] d = inr d
  parse_entries (p ∷ ps) d = elim (cut (trim p)) [
    | none ↦ inl (DistributionError.invalid_entry p)
    | some (size_text, weight_text) ↦ elim (atoi (trim size_text)) [
      | none ↦ inl (DistributionError.invalid_size size_text)
      | some size ↦ elim (atoi (trim weight_text)) [
        | none ↦ inl (DistributionError.invalid_weight weight_text)
        | some weight ↦ parse_entries ps (record {
          sizes = d.sizes ++ size ∷ [];
          weights = d.weights ++ weight ∷ [];
          total = add_int d.total weight;
        })
      ]
    ]
  ]

  unfoldable pub parse_distribution : String → DistributionError ⊎ SizeDistribution
  parse_distribution s =
      elim (parse_entries (split s) (record { sizes = []; weights = []; total = pos 0 })) [
        | inl e ↦ inl e
        | inr d ↦ if eqb_ℤ d.total (pos 0) then inl DistributionError.zero_total else inr d
      ]

-- The loop over the weights, with the size at the same place; `last` is the last size.
unfoldable pub select_from : ℤ → ℤ → List ℤ → List ℤ → ℤ → ℤ
select_from r cumulative [] sizes last = last
select_from r cumulative (w ∷ ws) [] last = last
select_from r cumulative (w ∷ ws) (s ∷ ss) last =
    let rest = select_from r (add_int cumulative w) ws ss last in
    if ltb_ℤ r (add_int cumulative w) then s else rest

-- The last size. Go panics on a list with none, which no parsed distribution has.
abbrev pub last_of : List ℤ → ℤ → ℤ
last_of [] d = d
last_of (s ∷ ss) d = last_of ss s

-- SelectSize for the draw r.
unfoldable pub select_size : SizeDistribution → ℤ → ℤ
select_size d r = select_from r (pos 0) d.weights d.sizes (last_of d.sizes (pos 0))
