-- ===== src/Tracker/Pending.antt =====
-- The set of suspected losses of burnin/tracker/tracker.go (`pendingLost map[uint64]struct{}`) as
-- a list without repetition. The nil map reads as the empty one.
use kubemq_gcp_pub_sub.Base.{
  ℕ, suc, ◌≡◌, refl, List, [], ◌∷◌, Bool, true, false, not, ◌&&◌, ◌||◌, length, ◌==◌, if◌then◌else◌,
  arith, Bool-cases, ==→eq, inl, inr,
}

unfoldable pub mem : ℕ → List ℕ → Bool
mem n [] = false
mem n (m ∷ ms) = m == n || mem n ms

-- `m[n] = struct{}{}`
unfoldable pub put : ℕ → List ℕ → List ℕ
put n ms = if mem n ms then ms else n ∷ ms

-- `delete(m, n)`
unfoldable pub delete : ℕ → List ℕ → List ℕ
delete n [] = []
delete n (m ∷ ms) = if m == n then delete n ms else m ∷ delete n ms

abbrev pub Distinct : List ℕ → Type 0
Distinct [] = Unit
Distinct (m ∷ ms) = (mem m ms ≡ false) × Distinct ms

pub mem-put : (n m : ℕ) (ms : List ℕ) → mem n (put m ms) ≡ (m == n) || mem n ms
unfolding put mem
mem-put n m ms = elim (Bool-cases (mem m ms)) [
  | inl old ↦ elim (Bool-cases (m == n)) [
    | inl same ↦ rw (old, same) (rw (← ==→eq m n same) old)
    | inr other ↦ rw (old, other)
  ]
  | inr new ↦ rw new
]

pub put-Distinct : (m : ℕ) (ms : List ℕ) → Distinct ms → Distinct (put m ms)
unfolding put
put-Distinct m ms d = elim (Bool-cases (mem m ms)) [
  | inl old ↦ rw old d
  | inr new ↦ rw new (new, d)
]

pub mem-delete : (n m : ℕ) (ms : List ℕ) → mem n (delete m ms) ≡ not (m == n) && mem n ms
unfolding delete mem
mem-delete n m [] = ground arith
mem-delete n m (k ∷ ms) = ground (arith, mem-delete n m ms)

pub delete-Distinct : (m : ℕ) (ms : List ℕ) → Distinct ms → Distinct (delete m ms)
unfolding delete
delete-Distinct m [] d = tt
delete-Distinct m (k ∷ ms) d = elim (Bool-cases (k == m)) [
  | inl same ↦ rw same (delete-Distinct m ms d.1)
  | inr other ↦ rw other (ground (arith, mem-delete k m ms), delete-Distinct m ms d.1)
]

delete-absent : (m : ℕ) (ms : List ℕ) → mem m ms ≡ false → delete m ms ≡ ms
unfolding delete mem
delete-absent m [] h = refl
delete-absent m (k ∷ ms) h = ground (arith, delete-absent m ms)

-- Deleting a member takes away exactly one.
pub length-delete :
    (m : ℕ) (ms : List ℕ) → Distinct ms → mem m ms ≡ true → suc (length (delete m ms)) ≡ length ms
unfolding delete mem
length-delete m [] d h = ground arith
length-delete m (k ∷ ms) d h = elim (Bool-cases (k == m)) [
  | inl same ↦
      let absent : mem m ms ≡ false = rw (← ==→eq k m same) d.0 in
      rw (same, delete-absent m ms absent)
  | inr other ↦ rw other (ground (arith, length-delete m ms d.1))
]
