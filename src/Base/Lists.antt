-- ===== src/Base/Lists.antt =====
-- Lists measured and indexed by the native numbers, under the library's names.
use Prim.Native.Nat.{ℕ, zero, suc, ◌+◌}
use Prim.Native.Nat.{◌<◌}
use native.Mathlib.Omega.{arith}
use kubemq_gcp_pub_sub.Base.Tests.{◌==◌, if◌then◌else◌}
use mathlib.Core.Path.{◌≡◌, refl, ap}
use mathlib.Core.Bool.{Bool, true, false, ◌&&◌, ◌||◌}
use mathlib.Core.List.{List, [], ◌∷◌}

module _ {ℓ} {A : Type ℓ} where
  abbrev pub length : List A → ℕ
  length [] = 0
  length (_ ∷ xs) = suc (length xs)

  abbrev pub get_or : List A → ℕ → A → A
  get_or [] _ d = d
  get_or (x ∷ _) zero _ = x
  get_or (_ ∷ xs) (suc i) d = get_or xs i d

  -- A write out of range changes nothing.
  abbrev pub set : List A → ℕ → A → List A
  set [] _ _ = []
  set (_ ∷ xs) zero v = v ∷ xs
  set (x ∷ xs) (suc i) v = x ∷ set xs i v

  abbrev pub replicate : ℕ → A → List A
  replicate zero _ = []
  replicate (suc n) a = a ∷ replicate n a

  abbrev pub any : (A → Bool) → List A → Bool
  any p [] = false
  any p (x ∷ xs) = p x || any p xs

  abbrev pub all : (A → Bool) → List A → Bool
  all p [] = true
  all p (x ∷ xs) = p x && all p xs

  -- `if failed { xs = append(xs, x) }`
  abbrev pub check : Bool → A → List A
  check failed x = if failed then x ∷ [] else []

  pub length-set : (xs : List A) (i : ℕ) (v : A) → length (set xs i v) ≡ length xs
  length-set [] i v = refl
  length-set (x ∷ xs) zero v = refl
  length-set (x ∷ xs) (suc i) v = ap suc (length-set xs i v)

  pub length-replicate : (n : ℕ) (a : A) → length (replicate n a) ≡ n
  length-replicate zero a = refl
  length-replicate (suc n) a = ap suc (length-replicate n a)

abbrev pub sum : List ℕ → ℕ
sum [] = 0
sum (x ∷ xs) = x + sum xs

pub get_or-set :
    (ws : List ℕ) (i j v : ℕ)
    → i < length ws
    → get_or (set ws i v) j 0 ≡ (if i == j then v else get_or ws j 0)
get_or-set [] i j v h = absurd (omega arith)
get_or-set (w ∷ ws) zero zero v h = refl
get_or-set (w ∷ ws) zero (suc j) v h = ground arith
get_or-set (w ∷ ws) (suc i) zero v h = ground arith
get_or-set (w ∷ ws) (suc i) (suc j) v h = ground (arith, get_or-set ws i j v)

-- A write changes the sum by the difference that it makes.
pub sum-set :
    (ws : List ℕ) (i v : ℕ) → i < length ws → sum (set ws i v) + get_or ws i 0 ≡ sum ws + v
sum-set [] i v h = absurd (omega arith)
sum-set (w ∷ ws) zero v h = omega arith
sum-set (w ∷ ws) (suc i) v h = omega (arith, sum-set ws i v (omega arith))

-- The sum of the first n elements.
abbrev pub sum_first : ℕ → List ℕ → ℕ
sum_first zero ws = 0
sum_first (suc n) [] = 0
sum_first (suc n) (w ∷ ws) = w + sum_first n ws

pub sum_first-suc : (n : ℕ) (ws : List ℕ) → sum_first (suc n) ws ≡ sum_first n ws + get_or ws n 0
sum_first-suc zero [] = omega arith
sum_first-suc zero (w ∷ ws) = omega arith
sum_first-suc (suc n) [] = omega arith
sum_first-suc (suc n) (w ∷ ws) = omega (arith, sum_first-suc n ws)

pub get_or-replicate : (n i : ℕ) → ◌≡◌ {A = ℕ} (get_or (replicate n 0) i 0) 0
get_or-replicate zero i = refl
get_or-replicate (suc n) zero = refl
get_or-replicate (suc n) (suc i) = get_or-replicate n i
