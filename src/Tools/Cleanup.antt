-- ===== src/Tools/Cleanup.antt =====
-- burnin/cmd/cleanup/main.go: what is deleted of what the server lists, and in which order. strings.HasPrefix
-- and strings.LastIndex, the environment with strings.TrimSpace, and the answers are parameters. A listing
-- ends where the iterator is done or returns an error.
use kubemq_gcp_pub_sub.Base.{
  ℕ, ◌+◌, ◌≡◌, refl, String, Bool, false, not, ◌&&◌, Option, none, some, List, [], ◌∷◌, length,
  arith, if◌then◌else◌,
}
use kubemq_gcp_pub_sub.Base.Assoc.{eqs}

pub data Kind : Type 0 where
  subscription snapshot topic schema : Kind

-- An entry that is listed: its id, none for a snapshot without one, and whether its deletion succeeds.
pub record Entry : Type 0 where
  pub id : Option String
  pub deletes : Bool

-- The ids whose deletion has been tried, in order.
pub record Cleaned : Type 0 where
  pub tried : List (Kind × String)
  pub deleted : ℕ
  pub failed : ℕ

abbrev pub nothing : Cleaned
nothing = record { tried = []; deleted = 0; failed = 0 }

-- `trimmed` is the variable without the spaces round it.
unfoldable pub prefix_of : String → String → String
prefix_of flag trimmed =
    if not (eqs flag "") then flag else if not (eqs trimmed "") then trimmed else "gcp_burnin"

-- `after_slash` is what follows the last slash, if there is one.
unfoldable pub schema_id : (String → Option String) → String → String
schema_id after_slash name = elim (after_slash name) [ none ↦ name | some id ↦ id ]

module _ (has_prefix : String → Bool) where
  abbrev matches : Option String → Bool
  matches none = false
  matches (some id) = has_prefix id

  unfoldable pub try_delete : Kind → Option String → Bool → Cleaned → Cleaned
  try_delete kind none deletes rest = rest
  try_delete kind (some id) deletes rest =
      if not (has_prefix id)
      then rest
      else if not deletes
      then record {
        tried = (kind, id) ∷ rest.tried;
        deleted = rest.deleted;
        failed = rest.failed + 1;
      }
      else record {
        tried = (kind, id) ∷ rest.tried;
        deleted = rest.deleted + 1;
        failed = rest.failed;
      }

  unfoldable pub clean : Kind → List Entry → Cleaned
  clean kind [] = nothing
  clean kind (e ∷ es) = let rest = clean kind es in try_delete kind e.id e.deletes rest

  -- The listings in the order of main; without a schema client no schemas are listed.
  unfoldable pub clean_all : List Entry → List Entry → List Entry → Bool → List Entry → List Cleaned
  clean_all subs snapshots topics schema_client schemas =
      clean Kind.subscription subs
      ∷ clean Kind.snapshot snapshots
      ∷ clean Kind.topic topics
      ∷ (if not schema_client then nothing else clean Kind.schema schemas)
      ∷ []

  abbrev pub keep : Kind → Option String → List (Kind × String) → List (Kind × String)
  keep kind none ids = ids
  keep kind (some id) ids = if has_prefix id then (kind, id) ∷ ids else ids

  -- The listed ids with the prefix.
  abbrev pub matching : Kind → List Entry → List (Kind × String)
  matching kind [] = []
  matching kind (e ∷ es) = keep kind e.id (matching kind es)

  -- How many of them cannot be deleted.
  abbrev pub undeletable : List Entry → ℕ
  undeletable [] = 0
  undeletable (e ∷ es) =
      if matches e.id && not e.deletes then undeletable es + 1 else undeletable es

  -- What a listing keeps to: the ids tried, the failures, and that each try is counted.
  abbrev Accounts : Cleaned → List (Kind × String) → ℕ → Type 0
  Accounts r ids failures =
      (r.tried ≡ ids) × (r.failed ≡ failures) × (r.deleted + r.failed ≡ length ids)

  try_delete-Accounts :
      (kind : Kind) (id : Option String) (deletes : Bool) (rest : Cleaned)
      (ids : List (Kind × String)) (failures : ℕ)
      → Accounts rest ids failures
      → Accounts
          (try_delete kind id deletes rest)
          (keep kind id ids)
          (if matches id && not deletes then failures + 1 else failures)
  unfolding try_delete
  try_delete-Accounts kind none deletes rest ids failures h = h
  try_delete-Accounts kind (some id) deletes rest ids failures h = ground arith

  -- Of what is listed cleanup tries to delete exactly the entries whose id has the prefix, each once and in the
  -- order of the list; a deletion that fails stops nothing, and is counted as failed, all others as deleted.
  pub clean_lem :
      (kind : Kind) (es : List Entry)
      → ((clean kind es).tried ≡ matching kind es)
        × ((clean kind es).failed ≡ undeletable es)
        × ((clean kind es).deleted + (clean kind es).failed ≡ length (matching kind es))
  unfolding clean
  clean_lem kind [] = (refl, refl, refl)
  clean_lem kind (e ∷ es) =
      try_delete-Accounts kind e.id e.deletes (clean kind es) (matching kind es) (undeletable es)
        (clean_lem kind es)
