-- ===== src/Engine/Setup/Order.antt =====
-- burnin/engine/engine.go: the order of the calls in the setup of runLoop.
use kubemq_gcp_pub_sub.Base.{
  ℕ, ◌≡◌, refl, String, Bool, true, false, not, ◌||◌, List, [], ◌∷◌, ◌++◌, map, any, all, arith,
  if◌then◌else◌,
}
use kubemq_gcp_pub_sub.Engine.Setup.{
  WorkerGroup, Action, SetupEnd, Answers, try_workers, try_groups, call_groups, warmup, run_setup,
}

abbrev pub is_production : Action → Bool
is_production (Action.start_producers name i) = true
is_production _ = false

abbrev pub all_answered : (String → ℕ → Bool) → List WorkerGroup → Bool
all_answered ok gs = all (λ g. all (ok g.name) g.workers) gs

-- Every worker has been started and has become ready, and those calls are the first.
pub record IsOrdered (a : Answers) (gs : List WorkerGroup) (log : List Action) : Type 0 where
  pub started : all_answered a.starts gs ≡ true
  pub ready : all_answered a.is_ready gs ≡ true
  pub rest : List Action
  pub split : log ≡ call_groups Action.start gs ++ call_groups Action.await gs ++ rest

any-++ : (p : Action → Bool) (xs ys : List Action) → any p (xs ++ ys) ≡ (any p xs || any p ys)
any-++ p [] ys = refl
any-++ p (x ∷ xs) ys = ground (arith, any-++ p xs ys)

try_workers_lem :
    (act : ℕ → Action) (ok : ℕ → Bool) (is : List ℕ)
    → (try_workers act ok is).0 ≡ true
    → (all ok is ≡ true) × ((try_workers act ok is).1 ≡ map act is)
unfolding try_workers
try_workers_lem act ok [] h = (refl, refl)
try_workers_lem act ok (i ∷ is) h = ground (arith, try_workers_lem act ok is)

try_workers-quiet :
    (act : ℕ → Action) (ok : ℕ → Bool) (is : List ℕ)
    → ((i : ℕ) → is_production (act i) ≡ false)
    → any is_production (try_workers act ok is).1 ≡ false
unfolding try_workers
try_workers-quiet act ok [] quiet = refl
try_workers-quiet act ok (i ∷ is) quiet = ground (arith, quiet i, try_workers-quiet act ok is quiet)

try_groups_lem :
    (act : String → ℕ → Action) (ok : String → ℕ → Bool) (gs : List WorkerGroup)
    → (try_groups act ok gs).0 ≡ true
    → (all_answered ok gs ≡ true) × ((try_groups act ok gs).1 ≡ call_groups act gs)
unfolding try_groups call_groups
try_groups_lem act ok [] h = (refl, refl)
try_groups_lem act ok (g ∷ gs) h =
    ground (arith, try_workers_lem (act g.name) (ok g.name) g.workers, try_groups_lem act ok gs)

try_groups-quiet :
    (act : String → ℕ → Action) (ok : String → ℕ → Bool) (gs : List WorkerGroup)
    → ((name : String) (i : ℕ) → is_production (act name i) ≡ false)
    → any is_production (try_groups act ok gs).1 ≡ false
unfolding try_groups
try_groups-quiet act ok [] quiet = refl
try_groups-quiet act ok (g ∷ gs) quiet =
    let first = try_workers (act g.name) (ok g.name) g.workers in
    ground (
      arith,
      any-++ is_production first.1 (try_groups act ok gs).1,
      try_workers-quiet (act g.name) (ok g.name) g.workers (quiet g.name),
      try_groups-quiet act ok gs quiet,
    )

module _ (a : Answers) (gs : List WorkerGroup) where
  abbrev Obeys : SetupEnd × List Action → Type 0
  Obeys o = any is_production o.1 ≡ true → IsOrdered a gs o.1

  if-Obeys :
      (b : Bool) (x y : SetupEnd × List Action)
      → (b ≡ true → Obeys x)
      → (b ≡ false → Obeys y)
      → Obeys (if b then x else y)
  if-Obeys true x y h k = h refl
  if-Obeys false x y h k = k refl

  abbrev started : Bool × List Action
  started = try_groups Action.start a.starts gs

  abbrev awaited : Bool × List Action
  awaited = try_groups Action.await a.is_ready gs

  started-quiet : any is_production started.1 ≡ false
  started-quiet = try_groups-quiet Action.start a.starts gs (λ name i. refl)

  awaited-quiet : any is_production (started.1 ++ awaited.1) ≡ false
  awaited-quiet = ground (
    arith,
    any-++ is_production started.1 awaited.1,
    started-quiet,
    try_groups-quiet Action.await a.is_ready gs (λ name i. refl),
  )

  in_order :
      (end : SetupEnd) (rest : List Action)
      → not started.0 ≡ false
      → not awaited.0 ≡ false
      → Obeys (end, started.1 ++ awaited.1 ++ rest)
  in_order end rest h k produced =
      let (starts, s) = try_groups_lem Action.start a.starts gs (ground arith) in
      let (awaits, w) = try_groups_lem Action.await a.is_ready gs (ground arith) in
      record { started = starts; ready = awaits; rest = rest; split = cc }

  -- A producer is started, for the warmup or after it, only when Start has succeeded and the consumer is
  -- ready for every worker of every group, and all those calls have come before any other.
  pub run_setup_lem :
      any is_production (run_setup a gs).1 ≡ true → IsOrdered a gs (run_setup a gs).1
  unfolding run_setup
  run_setup_lem =
      if-Obeys (not started.0) (SetupEnd.failed, started.1) _ (λ _ h. ground (arith, started-quiet))
        (λ s.
          if-Obeys (not awaited.0) (SetupEnd.failed, started.1 ++ awaited.1) _
            (λ _ h. ground (arith, awaited-quiet))
            (λ r.
              if-Obeys a.cancelled_ready (SetupEnd.cancelled, started.1 ++ awaited.1) _
                (λ _ h. ground (arith, awaited-quiet))
                (λ _.
                  if-Obeys (a.cancelled_draining || a.cancelled_warm) _ _
                    (λ _. in_order SetupEnd.cancelled (warmup a gs) s r)
                    (λ _.
                      in_order SetupEnd.measuring
                        (warmup a gs ++ call_groups Action.start_producers gs) s r))))
