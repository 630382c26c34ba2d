-- ===== src/Engine/Lifecycle/Coherent.antt =====
-- burnin/engine/engine.go: the goroutines in runLoop, the state and the channels, along the steps of runs.
use kubemq_gcp_pub_sub.Base.{
  ℕ, zero, suc, ◌+◌, ◌<◌, ◌≤◌, ◌≡◌, refl, sym, ap, List, [], ◌∷◌, ◌++◌, Bool, true, false, not,
  ◌&&◌, length, Option, none, some, set, arith, Bool-cases, inl, inr, if◌then◌else◌,
}
use mathlib.Core.Path.{subst}
use kubemq_gcp_pub_sub.Engine.Lifecycle.{
  RunState, Phase, Engine, Event, LoopEvent, new, can_start, start_run, state_after, finish_loop,
  step_loop, close_channel, channel_at, phase_at, remove_at, among, is_nil, step, steps,
}

-- The state that belongs to the goroutines inside runLoop.
unfoldable pub belongs : RunState → List Phase → Bool
belongs RunState.idle [] = true
belongs RunState.stopped [] = true
belongs RunState.error [] = true
belongs RunState.starting (Phase.setup ∷ []) = true
belongs RunState.error (Phase.failed ∷ []) = true
belongs RunState.running (Phase.measuring ∷ []) = true
belongs RunState.stopping (Phase.draining ∷ []) = true
belongs _ _ = false

abbrev pub is_idle : List Phase → Bool
is_idle [] = true
is_idle (_ ∷ _) = false

abbrev is_error : RunState → Bool
is_error RunState.error = true
is_error _ = false

-- A call of StartRunFromConfig between setError and the deferred function of the failed run.
unfoldable pub is_hasty : Event → Engine → Bool
is_hasty Event.start e = is_error e.state && not (is_idle e.loops)
is_hasty (Event.loop k l) e = false
is_hasty (Event.close j) e = false

-- No event of the run is a hasty start.
unfoldable pub is_patient : List Event → Engine → Bool
is_patient [] e = true
is_patient (ev ∷ evs) e = not (is_hasty ev e) && is_patient evs (step ev e)

-- Above every channel that a goroutine has read: the one of a goroutine in runLoop is not read yet.
abbrev bound : Engine → ℕ
bound e = if is_idle e.loops then e.run_done + 1 else e.run_done

-- The channels fall from the bound.
abbrev AreFalling : ℕ → List ℕ → Type 0
AreFalling n [] = Unit
AreFalling n (c ∷ cs) = (c < n) × AreFalling c cs

abbrev AreBelow : ℕ → List ℕ → Type 0
AreBelow n [] = Unit
AreBelow n (c ∷ cs) = (c < n) × AreBelow n cs

abbrev AreOpen : List ℕ → List ℕ → Type 0
AreOpen closed [] = Unit
AreOpen closed (c ∷ cs) = (among c closed ≡ false) × AreOpen closed cs

record IsCoherent (e : Engine) : Type 0 where
  pub fits : belongs e.state e.loops ≡ true
  pub falling : AreFalling (bound e) e.closing
  pub below : AreBelow (bound e) e.closed
  pub are_open : AreOpen e.closed e.closing
  pub made : is_idle e.loops ≡ false → 0 < e.run_done
  pub calm : e.panicked ≡ false

AreFalling-le : (m n : ℕ) (cs : List ℕ) → m ≤ n → AreFalling m cs → AreFalling n cs
AreFalling-le m n [] h f = tt
AreFalling-le m n (c ∷ cs) h f = (omega (arith, f.0), f.1)

AreBelow-le : (m n : ℕ) (cs : List ℕ) → m ≤ n → AreBelow m cs → AreBelow n cs
AreBelow-le m n [] h b = tt
AreBelow-le m n (c ∷ cs) h b = (omega (arith, b.0), AreBelow-le m n cs h b.1)

not_among : (n : ℕ) (cs : List ℕ) → AreBelow n cs → among n cs ≡ false
not_among n [] b = refl
not_among n (c ∷ cs) b = ground (arith, b.0, not_among n cs b.1)

remove-AreFalling : (n j : ℕ) (cs : List ℕ) → AreFalling n cs → AreFalling n (remove_at cs j)
remove-AreFalling n j [] f = tt
remove-AreFalling n zero (c ∷ cs) f = AreFalling-le c n cs (omega (arith, f.0)) f.1
remove-AreFalling n (suc j) (c ∷ cs) f = (f.0, remove-AreFalling c j cs f.1)

-- Channels below c stay open when c is closed.
close_above :
    (c n : ℕ) (closed cs : List ℕ)
    → n ≤ c
    → AreFalling n cs
    → AreOpen closed cs
    → AreOpen (c ∷ closed) cs
close_above c n closed [] h f o = tt
close_above c n closed (d ∷ cs) h f o =
    (ground (arith, f.0, o.0), close_above c d closed cs (omega (arith, f.0)) f.1 o.1)

channel_lem :
    (n j c : ℕ) (closed cs : List ℕ)
    → channel_at cs j ≡ some c
    → AreFalling n cs
    → AreOpen closed cs
    → (c < n) × (among c closed ≡ false) × AreOpen (c ∷ closed) (remove_at cs j)
channel_lem n j c closed [] e f o = cc
channel_lem n zero c closed (d ∷ cs) e f o =
    let same : d ≡ c = ground (arith, e) in
    rw (sym same) (f.0, o.0, close_above d d closed cs (omega arith) f.1 o.1)
channel_lem n (suc j) c closed (d ∷ cs) e f o =
    let (low, fresh, rest) = channel_lem d j c closed cs e f.1 o.1 in
    (omega (arith, low, f.0), fresh, (ground (arith, low, o.0), rest))

ended_fits : (s : RunState) → belongs (state_after s) [] ≡ true
unfolding belongs state_after
ended_fits s = ground arith

nil_lem : (n : ℕ) → 0 < n → is_nil n ≡ false
nil_lem zero h = absurd (omega arith)
nil_lem (suc n) h = refl

idle_nil : (ps : List Phase) → is_idle ps ≡ true → ps ≡ []
idle_nil [] h = refl
idle_nil (p ∷ ps) h = cc

-- A state that belongs leaves room for one goroutine.
single :
    (s : RunState) (ps : List Phase) (k : ℕ) (p : Phase)
    → belongs s ps ≡ true
    → phase_at ps k ≡ some p
    → (ps ≡ p ∷ []) × (k ≡ 0)
unfolding belongs
single s [] k p h at = cc
single s (q ∷ []) zero p h at = (ground (arith, at), refl)
single s (q ∷ []) (suc k) p h at = cc
single s (q ∷ r ∷ ps) k p h at = ground (arith, h)

room :
    (s : RunState) (ps : List Phase)
    → belongs s ps ≡ true
    → can_start s ≡ true
    → (is_error s && not (is_idle ps)) ≡ false
    → ps ≡ []
unfolding belongs can_start
room s ps h accepted patient = idle_nil ps (ground (arith, h, accepted, patient))

-- With one goroutine in runLoop, whose channel nothing has read.
occupied :
    (s : RunState) (q : Phase) (ps : List Phase) (done : ℕ) (e : Engine)
    → ps ≡ q ∷ []
    → belongs s (q ∷ []) ≡ true
    → bound e ≡ done
    → 0 < done
    → IsCoherent e
    → IsCoherent (record e { state = s; loops = ps; run_done = done })
occupied s q ps done e one fits same some_made h = record {
  fits = rw one fits;
  falling = rw one (subst (λ n. AreFalling n e.closing) same h.falling);
  below = rw one (subst (λ n. AreBelow n e.closed) same h.below);
  are_open = h.are_open;
  made = λ busy. some_made;
  calm = h.calm;
}

-- A step that stays in runLoop.
moved :
    (s : RunState) (p q : Phase) (k : ℕ) (e : Engine)
    → phase_at e.loops k ≡ some p
    → belongs s (q ∷ []) ≡ true
    → IsCoherent e
    → IsCoherent (record e { state = s; loops = set e.loops k q })
moved s p q k e at fits h =
    let (one, first) = single e.state e.loops k p h.fits at in
    let busy : is_idle e.loops ≡ false = ap is_idle one in
    occupied s q (set e.loops k q) e.run_done e (rw (one, first) refl) fits (rw busy refl)
      (h.made busy) h

finish-IsCoherent :
    (p : Phase) (k : ℕ) (e : Engine)
    → phase_at e.loops k ≡ some p
    → IsCoherent e
    → IsCoherent (finish_loop k e)
unfolding finish_loop
finish-IsCoherent p k e at h =
    let (one, first) = single e.state e.loops k p h.fits at in
    let busy : is_idle e.loops ≡ false = ap is_idle one in
    let same : bound e ≡ e.run_done = rw busy refl in
    let there : is_nil e.run_done ≡ false = nil_lem e.run_done (h.made busy) in
    let falling : AreFalling e.run_done e.closing =
      subst (λ n. AreFalling n e.closing) same h.falling in
    let below : AreBelow e.run_done e.closed = subst (λ n. AreBelow n e.closed) same h.below in
    record {
      fits = rw (one, first) (ended_fits e.state);
      falling = rw (one, first, there) (omega arith, falling);
      below =
          rw (one, first) (AreBelow-le e.run_done (e.run_done + 1) e.closed (omega arith) below);
      are_open = rw there (not_among e.run_done e.closed below, h.are_open);
      made = rw (one, first) (λ busy_still. cc);
      calm = h.calm;
    }

loop-IsCoherent :
    (k : ℕ) (l : LoopEvent) (o : Option Phase) (e : Engine)
    → phase_at e.loops k ≡ o
    → IsCoherent e
    → IsCoherent (step_loop k l o e)
unfolding step_loop belongs
loop-IsCoherent k LoopEvent.set_error (some Phase.setup) e at h =
    moved RunState.error Phase.setup Phase.failed k e at refl h
loop-IsCoherent k LoopEvent.run (some Phase.setup) e at h =
    moved RunState.running Phase.setup Phase.measuring k e at refl h
loop-IsCoherent k LoopEvent.stop (some Phase.measuring) e at h =
    moved RunState.stopping Phase.measuring Phase.draining k e at refl h
loop-IsCoherent k LoopEvent.finish (some Phase.setup) e at h =
    finish-IsCoherent Phase.setup k e at h
loop-IsCoherent k LoopEvent.finish (some Phase.failed) e at h =
    finish-IsCoherent Phase.failed k e at h
loop-IsCoherent k LoopEvent.finish (some Phase.draining) e at h =
    finish-IsCoherent Phase.draining k e at h
loop-IsCoherent k l o e at h = h

close-IsCoherent :
    (j : ℕ) (o : Option ℕ) (e : Engine)
    → channel_at e.closing j ≡ o
    → IsCoherent e
    → IsCoherent (close_channel j o e)
unfolding close_channel
close-IsCoherent j none e at h = h
close-IsCoherent j (some c) e at h =
    let (low, fresh, rest) = channel_lem (bound e) j c e.closed e.closing at h.falling h.are_open in
    record {
      fits = h.fits;
      falling = remove-AreFalling (bound e) j e.closing h.falling;
      below = (low, h.below);
      are_open = rest;
      made = h.made;
      calm = ground (arith, h.calm, fresh);
    }

start-IsCoherent :
    (e : Engine) → is_hasty Event.start e ≡ false → IsCoherent e → IsCoherent (start_run e)
unfolding start_run is_hasty belongs
start-IsCoherent e patient h = elim (Bool-cases (can_start e.state)) [
  | inr refused ↦ rw refused h
  | inl accepted ↦
      let empty = room e.state e.loops h.fits accepted patient in
      rw accepted (
        occupied RunState.starting Phase.setup (e.loops ++ Phase.setup ∷ []) (e.run_done + 1) e
          (rw empty refl) refl (rw empty refl) (omega arith) h)
]

step-IsCoherent :
    (ev : Event) (e : Engine) → is_hasty ev e ≡ false → IsCoherent e → IsCoherent (step ev e)
unfolding step
step-IsCoherent Event.start e patient h = start-IsCoherent e patient h
step-IsCoherent (Event.loop k l) e patient h = loop-IsCoherent k l (phase_at e.loops k) e refl h
step-IsCoherent (Event.close j) e patient h = close-IsCoherent j (channel_at e.closing j) e refl h

steps-IsCoherent :
    (evs : List Event) (e : Engine)
    → is_patient evs e ≡ true
    → IsCoherent e
    → IsCoherent (steps evs e)
unfolding steps is_patient
steps-IsCoherent [] e patient h = h
steps-IsCoherent (ev ∷ evs) e patient h =
    steps-IsCoherent evs (step ev e) (ground (arith, patient))
      (step-IsCoherent ev e (ground (arith, patient)) h)

belongs_few : (s : RunState) (ps : List Phase) → belongs s ps ≡ true → length ps ≤ 1
unfolding belongs
belongs_few s [] h = omega arith
belongs_few s (p ∷ []) h = omega arith
belongs_few s (p ∷ q ∷ ps) h = ground (arith, h)

-- From a new engine, in whatever order the steps interleave, as long as no run is started between setError and
-- the deferred function of the failed run: at most one goroutine is in runLoop before that function's
-- section under the mutex, the state belongs to the phase of that goroutine, or to none, and no
-- channel is closed twice.
pub patient_run :
    (evs : List Event)
    → is_patient evs new ≡ true
    → (length (steps evs new).loops ≤ 1)
      × (belongs (steps evs new).state (steps evs new).loops ≡ true)
      × ((steps evs new).panicked ≡ false)
unfolding new belongs
patient_run evs patient =
    let start : IsCoherent new = record {
      fits = refl;
      falling = tt;
      below = tt;
      are_open = tt;
      made = λ busy. cc;
      calm = refl;
    } in
    let h = steps-IsCoherent evs new patient start in
    (belongs_few (steps evs new).state (steps evs new).loops h.fits, h.fits, h.calm)
