-- ===== src/Base/Assoc.antt =====
-- Go's `map[string]V` as an association list: a write replaces the entry of its key.
use Prim.Native.String.{String}
use mathlib.Core.Path.{◌≡◌, refl}
use mathlib.Core.Bool.{Bool, true, false}
use mathlib.Core.Option.{Option, none, some}
use mathlib.Core.List.{List, [], ◌∷◌}
use text.Mathlib.Text.{◌==◌ as str_eq}
use text.Mathlib.TextEquality.{eq_iff}
use native.Mathlib.Omega.{arith}
use kubemq_gcp_pub_sub.Base.Tests.{if◌then◌else◌}

abbrev pub eqs : String → String → Bool
eqs s t = str_eq s t

pub eqs_iff : (s t : String) → record { 0 : eqs s t ≡ true → s ≡ t; 1 : s ≡ t → eqs s t ≡ true }
eqs_iff s t = eq_iff s t

module _ {ℓ} {V : Type ℓ} where
  abbrev pub lookup : String → List (String × V) → Option V
  lookup k [] = none
  lookup k ((j, v) ∷ m) = if eqs j k then some v else lookup k m

  abbrev pub insert : String → V → List (String × V) → List (String × V)
  insert key value [] = (key, value) ∷ []
  insert key value ((other, old) ∷ rest) =
      if eqs other key then (key, value) ∷ rest else (other, old) ∷ insert key value rest

  -- A read after a write sees the new value under the written key and the old ones elsewhere.
  pub lookup-insert :
      (key asked : String) (value : V) (entries : List (String × V))
      → lookup asked (insert key value entries)
        ≡ (if eqs key asked then some value else lookup asked entries)
  lookup-insert key asked value [] = refl
  lookup-insert key asked value ((other, old) ∷ rest) = ground (
    arith,
    eq_iff key asked,
    eq_iff other key,
    eq_iff other asked,
    lookup-insert key asked value rest,
  )

module _ {ℓ} {V : Type ℓ} (k j : String) (v : V) (m : List (String × V)) where
  pub lookup_head : {w : V} → eqs j k ≡ true → lookup k ((j, v) ∷ m) ≡ some w → v ≡ w
  lookup_head same h = ground arith

  pub lookup_tail : (o : Option V) → eqs j k ≡ false → lookup k ((j, v) ∷ m) ≡ o → lookup k m ≡ o
  lookup_tail o other h = ground arith

  pub lookup_head_some : eqs j k ≡ true → lookup k ((j, v) ∷ m) ≡ none → ⊥
  lookup_head_some same h = ground arith

  pub insert_head : (x : V) → eqs j k ≡ true → insert k x ((j, v) ∷ m) ≡ (k, x) ∷ m
  insert_head x same = ground arith

  pub insert_tail : (x : V) → eqs j k ≡ false → insert k x ((j, v) ∷ m) ≡ (j, v) ∷ insert k x m
  insert_tail x other = ground arith
