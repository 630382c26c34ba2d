-- ===== src/Base/Tests.antt =====
-- Boolean tests on the native numbers, and the conditional of the source's `if`.
use Prim.Native.Nat.{ℕ, ◌≤◌, ◌<◌, compare, Ordering}
use mathlib.Core.Path.{◌≡◌, refl}
use mathlib.Core.Logic.{◌⊎◌, inl, inr}
use mathlib.Core.Bool.{Bool, true, false}
use native.Mathlib.Omega.{arith}

-- The three tests read `compare`, so the tactics split on them with no lemma.
abbrev pub ltb : ℕ → ℕ → Bool
ltb x y = elim (compare x y) [ Ordering.lt ↦ true | _ ↦ false ]

abbrev pub leb : ℕ → ℕ → Bool
leb x y = elim (compare x y) [ Ordering.gt ↦ false | _ ↦ true ]

infix 50 ◌==◌
abbrev pub ◌==◌ : ℕ → ℕ → Bool
x == y = elim (compare x y) [ Ordering.eq ↦ true | _ ↦ false ]

infix 1 if◌then◌else◌
abbrev pub if◌then◌else◌ {ℓ} : {A : Type ℓ} → Bool → A → A → A
if true then x else y = x
if false then x else y = y

pub Bool-cases : (b : Bool) → (b ≡ true) ⊎ (b ≡ false)
Bool-cases true = inl refl
Bool-cases false = inr refl

pub ==→eq : (x y : ℕ) → (x == y) ≡ true → x ≡ y
==→eq x y h = ground arith

pub ==_self : (x : ℕ) → (x == x) ≡ true
==_self x = ground arith

pub lt→ltb : (x y : ℕ) → x < y → ltb x y ≡ true
lt→ltb x y h = ground arith

pub leb→le : (x y : ℕ) → leb x y ≡ true → x ≤ y
leb→le x y h = ground arith

pub ltb→lt : (x y : ℕ) → ltb x y ≡ true → x < y
ltb→lt x y h = ground arith
