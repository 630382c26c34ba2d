-- ===== src/Engine/Lifecycle.antt =====
-- burnin/engine/engine.go: the life of a run. StartRunFromConfig, the places where runLoop or
-- setError write the state, the section of runLoop's deferred function under the mutex, and its close of
-- the channel are each one step; a run is a sequence of such steps, interleaved as the scheduler likes.
-- The goroutines that have not passed that section are a list, the oldest first. Channels are numbered as
-- they are made.
pub mod Coherent
use kubemq_gcp_pub_sub.Base.{
  ℕ, zero, suc, ◌+◌, ◌==◌, List, [], ◌∷◌, ◌++◌, Bool, true, false, not, ◌&&◌, ◌||◌, Option, none,
  some, set, if◌then◌else◌,
}

pub data RunState : Type 0 where
  idle starting running stopping stopped error : RunState

-- Where a goroutine is in runLoop: before the producers start, after setError, while the run is
-- measured, or while it shuts down.
pub data Phase : Type 0 where
  setup failed measuring draining : Phase

pub record Engine : Type 0 where
  pub state : RunState
  pub loops : List Phase
  pub run_done : ℕ  -- the channel in runDone, the last one made; 0 is nil
  pub closing : List ℕ  -- the channels of the goroutines that are about to close them
  pub closed : List ℕ
  pub panicked : Bool  -- whether a closed channel was closed

pub data LoopEvent : Type 0 where
  set_error run stop finish : LoopEvent

pub data Event : Type 0 where
  start : Event
  loop : ℕ → LoopEvent → Event
  close : ℕ → Event

unfoldable pub new : Engine
new = record {
  state = RunState.idle;
  loops = [];
  run_done = 0;
  closing = [];
  closed = [];
  panicked = false;
}

-- The guard of StartRunFromConfig.
unfoldable pub can_start : RunState → Bool
can_start RunState.idle = true
can_start RunState.stopped = true
can_start RunState.error = true
can_start _ = false

-- The guard of StopRun.
unfoldable pub can_stop : RunState → Bool
can_stop RunState.starting = true
can_stop RunState.running = true
can_stop _ = false

unfoldable pub start_run : Engine → Engine
start_run e =
    if can_start e.state
    then record e {
      state = RunState.starting;
      loops = e.loops ++ Phase.setup ∷ [];
      run_done = e.run_done + 1;
    }
    else e

abbrev pub phase_at : List Phase → ℕ → Option Phase
phase_at [] k = none
phase_at (p ∷ ps) zero = some p
phase_at (p ∷ ps) (suc k) = phase_at ps k

abbrev pub channel_at : List ℕ → ℕ → Option ℕ
channel_at [] k = none
channel_at (c ∷ cs) zero = some c
channel_at (c ∷ cs) (suc k) = channel_at cs k

abbrev pub remove_at : {A : Type 0} → List A → ℕ → List A
remove_at [] k = []
remove_at (p ∷ ps) zero = ps
remove_at (p ∷ ps) (suc k) = p ∷ remove_at ps k

unfoldable pub state_after : RunState → RunState
state_after RunState.error = RunState.error
state_after _ = RunState.stopped

abbrev pub is_nil : ℕ → Bool
is_nil zero = true
is_nil (suc _) = false

abbrev pub among : ℕ → List ℕ → Bool
among c [] = false
among c (d ∷ ds) = d == c || among c ds

-- The section of runLoop's deferred function under the mutex, which reads runDone.
unfoldable pub finish_loop : ℕ → Engine → Engine
finish_loop k e = record e {
  state = state_after e.state;
  loops = remove_at e.loops k;
  closing = if is_nil e.run_done then e.closing else e.run_done ∷ e.closing;
}

-- The close that follows it, of the channel that it read.
unfoldable pub close_channel : ℕ → Option ℕ → Engine → Engine
close_channel j none e = e
close_channel j (some c) e = record e {
  closing = remove_at e.closing j;
  closed = c ∷ e.closed;
  panicked = e.panicked || among c e.closed;
}

-- A goroutine's step in its phase; a step that the phase does not allow does not happen. In the
-- setup a cancelled context ends the goroutine.
unfoldable pub step_loop : ℕ → LoopEvent → Option Phase → Engine → Engine
step_loop k LoopEvent.set_error (some Phase.setup) e = record e {
  state = RunState.error;
  loops = set e.loops k Phase.failed;
}
step_loop k LoopEvent.run (some Phase.setup) e = record e {
  state = RunState.running;
  loops = set e.loops k Phase.measuring;
}
step_loop k LoopEvent.stop (some Phase.measuring) e = record e {
  state = RunState.stopping;
  loops = set e.loops k Phase.draining;
}
step_loop k LoopEvent.finish (some Phase.setup) e = finish_loop k e
step_loop k LoopEvent.finish (some Phase.failed) e = finish_loop k e
step_loop k LoopEvent.finish (some Phase.draining) e = finish_loop k e
step_loop k _ _ e = e

unfoldable pub step : Event → Engine → Engine
step Event.start e = start_run e
step (Event.loop k l) e = step_loop k l (phase_at e.loops k) e
step (Event.close j) e = close_channel j (channel_at e.closing j) e

unfoldable pub steps : List Event → Engine → Engine
steps [] e = e
steps (ev ∷ evs) e = steps evs (step ev e)
