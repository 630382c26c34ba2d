-- ===== src/Engine/Setup.antt =====
-- burnin/engine/engine.go: runLoop up to the state running, with warmup and stopAllProducersParallel, and
-- burnin/engine/worker_group.go: the groups and their calls of the workers. What is called, in which order,
-- is a list of actions. What Start and ConsumerReady answer, when the context ends, and the orders in which
-- the map of groups is visited are given.
pub mod Order
use kubemq_gcp_pub_sub.Base.{
  ℕ, zero, suc, ◌+◌, String, Bool, true, false, not, ◌||◌, List, [], ◌∷◌, ◌++◌, map, Option, none,
  some, if◌then◌else◌,
}
use kubemq_gcp_pub_sub.Base.Int.{ℤ, pos, negsuc}
use kubemq_gcp_pub_sub.Config.{Config, WorkerConfig}
use kubemq_gcp_pub_sub.Config.Lookup.{get_worker_config, get_worker_channels}

pub record WorkerGroup : Type 0 where
  pub name : String
  pub workers : List ℕ  -- the channel indexes

-- A call on the worker of a group with a channel index.
pub data Action : Type 0 where
  start await start_producers stop_producers reset : String → ℕ → Action

pub data SetupEnd : Type 0 where
  failed cancelled measuring : SetupEnd

pub record Answers : Type 0 where
  pub starts : String → ℕ → Bool
  pub is_ready : String → ℕ → Bool  -- before the timeout
  pub cancelled_ready : Bool  -- the context has ended once the consumers are ready
  pub cancelled_draining : Bool  -- it ends while warmup lets the deliveries drain
  pub cancelled_warm : Bool  -- it has ended after warmup
  pub stop_order : List WorkerGroup
  pub reset_order : List WorkerGroup

unfoldable pub count_up : ℕ → ℕ → List ℕ
count_up i zero = []
count_up i (suc n) = i ∷ count_up (i + 1) n

-- `make` panics on a negative capacity.
unfoldable pub channels_of : ℤ → Option ℕ
channels_of (pos n) = some n
channels_of (negsuc n) = none

module _ {Float : Type 0} (c : Config Float) where
  unfoldable pub new_worker_group : String → Option WorkerGroup
  new_worker_group name = elim (channels_of (get_worker_channels c name)) [
    | none ↦ none
    | some n ↦ some (record { name = name; workers = count_up 1 n })
  ]

  -- The group of a name in front of the others, unless one of them panics.
  unfoldable pub put_group :
      Option WorkerGroup → Option (List WorkerGroup) → Option (List WorkerGroup)
  put_group (some g) (some gs) = some (g ∷ gs)
  put_group _ _ = none

  unfoldable pub build_groups : List String → Option (List WorkerGroup)
  build_groups [] = some []
  build_groups (name ∷ names) =
      let rest = build_groups names in
      elim (get_worker_config c name) [
        | none ↦ rest
        | some wc ↦ if wc.enabled then put_group (new_worker_group name) rest else rest
      ]

-- A call on each worker of a group, up to the first that fails; first, whether none did.
unfoldable pub try_workers : (ℕ → Action) → (ℕ → Bool) → List ℕ → Bool × List Action
try_workers act ok [] = (true, [])
try_workers act ok (i ∷ is) =
    let rest = try_workers act ok is in
    if ok i then (rest.0, act i ∷ rest.1) else (false, act i ∷ [])

unfoldable pub try_groups :
    (String → ℕ → Action) → (String → ℕ → Bool) → List WorkerGroup → Bool × List Action
try_groups act ok [] = (true, [])
try_groups act ok (g ∷ gs) =
    let first = try_workers (act g.name) (ok g.name) g.workers in
    let rest = try_groups act ok gs in
    if first.0 then (rest.0, first.1 ++ rest.1) else (false, first.1)

-- A call that cannot fail, on each worker of each group.
unfoldable pub call_groups : (String → ℕ → Action) → List WorkerGroup → List Action
call_groups act [] = []
call_groups act (g ∷ gs) = map (act g.name) g.workers ++ call_groups act gs

-- The calls of warmup; the last, ResetAfterWarmup, only if the context does not end before.
unfoldable pub warmup : Answers → List WorkerGroup → List Action
warmup a gs =
    call_groups Action.start_producers gs
    ++ call_groups Action.stop_producers a.stop_order
    ++ (if a.cancelled_draining then [] else call_groups Action.reset a.reset_order)

unfoldable pub run_setup : Answers → List WorkerGroup → SetupEnd × List Action
run_setup a gs =
    let started = try_groups Action.start a.starts gs in
    let ready = try_groups Action.await a.is_ready gs in
    let warm = warmup a gs in
    if not started.0
    then (SetupEnd.failed, started.1)
    else if not ready.0
    then (SetupEnd.failed, started.1 ++ ready.1)
    else if a.cancelled_ready
    then (SetupEnd.cancelled, started.1 ++ ready.1)
    else if a.cancelled_draining || a.cancelled_warm
    then (SetupEnd.cancelled, started.1 ++ ready.1 ++ warm)
    else (
      SetupEnd.measuring,
      started.1 ++ ready.1 ++ (warm ++ call_groups Action.start_producers gs),
    )
