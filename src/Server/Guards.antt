-- ===== src/Server/Guards.antt =====
-- burnin/server/server.go and burnin/engine/engine.go: the guards of the handler and of the engine.
use kubemq_gcp_pub_sub.Base.{◌≡◌, refl, true, if◌then◌else◌}
use kubemq_gcp_pub_sub.Engine.Lifecycle.{RunState, can_start}
use kubemq_gcp_pub_sub.Server.{state_name, handle_run_start, accepted, conflict}

-- Where the engine's state does not change between the two reads, and StartRun fails only for the state, a
-- POST is accepted exactly in the states in which the engine starts a run, and is otherwise a conflict.
start_guards_agree :
    (s : RunState)
    → handle_run_start true (state_name s) (can_start s)
      ≡ (if can_start s then accepted else conflict)
unfolding handle_run_start state_name can_start
start_guards_agree RunState.idle = refl
start_guards_agree RunState.starting = refl
start_guards_agree RunState.running = refl
start_guards_agree RunState.stopping = refl
start_guards_agree RunState.stopped = refl
start_guards_agree RunState.error = refl
