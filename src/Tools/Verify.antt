-- ===== src/Tools/Verify.antt =====
-- burnin/cmd/verify/main.go: the two checks, the resources that they leave to be torn down, and the exit code.
-- What each call returned is given; a name is that of a role, with the suffix drawn for it.
use kubemq_gcp_pub_sub.Base.{
  ℕ, ◌+◌, String, Bool, true, false, not, ◌&&◌, Option, none, some, List, [], ◌∷◌, ◌++◌, any, ltb,
  if◌then◌else◌,
}
use kubemq_gcp_pub_sub.Base.Assoc.{eqs}
use Prim.Native.String.{◌++◌ as ◌+++◌}

pub data Resource : Type 0 where
  topic subscription : String → Resource

pub record Harness : Type 0 where
  pub resources : List Resource  -- in the order in which they were registered
  pub failures : ℕ
  pub passes : ℕ

pub record Provisioned : Type 0 where
  pub id : String
  pub topic_made : Bool
  pub subscription_made : Bool

-- Receive's deliveries, and whether it returned an error.
pub record Received : Type 0 where
  pub bodies : List String
  pub erred : Bool

pub record RoundTripCalls : Type 0 where
  pub provisioned : Provisioned
  pub probe : String
  pub published : Bool
  pub received : Received

-- `seen` is what the native side has been given at each poll.
pub record InteropCalls : Type 0 where
  pub provisioned : Provisioned
  pub probe : String
  pub subscribed : Bool
  pub published : Bool
  pub seen : List (List String)

pub record VerifyCalls : Type 0 where
  pub client_built : Bool
  pub no_interop : Bool
  pub native_dialled : Bool
  pub round_trip : RoundTripCalls
  pub interop : InteropCalls

-- Whether there is no error.
unfoldable pub provision : Provisioned → Harness → Bool × Harness
provision p h =
    let with_topic = record h { resources = h.resources ++ topic p.id ∷ [] } in
    let with_both = record h {
      resources = h.resources ++ (topic p.id ∷ subscription (p.id +++ "_sub") ∷ []);
    } in
    if not p.topic_made
    then (false, h)
    else if not p.subscription_made
    then (false, with_topic)
    else (true, with_both)

-- The first body is taken; without one there is an error, of Receive or of the budget.
unfoldable pub pull_one : Received → Option String
pull_one r = elim r.bodies [ [] ↦ none | body ∷ bodies ↦ some body ]

abbrev pub is_probe : String → Option String → Bool
is_probe probe none = false
is_probe probe (some body) = eqs body probe

unfoldable pub check_round_trip : RoundTripCalls → Harness → Bool × Harness
check_round_trip c h =
    let (made, next) = provision c.provisioned h in
    if not made
    then (false, next)
    else if not c.published
    then (false, next)
    else (is_probe c.probe (pull_one c.received), next)

unfoldable pub check_interop : InteropCalls → Harness → Bool × Harness
check_interop c h =
    let (made, next) = provision c.provisioned h in
    if not made
    then (false, next)
    else if not c.subscribed
    then (false, next)
    else if not c.published
    then (false, next)
    else (any (λ bodies. any (λ b. eqs b c.probe) bodies) c.seen, next)

unfoldable pub run : Bool × Harness → Harness
run (passed, h) =
    if not passed
    then record h { failures = h.failures + 1 }
    else record h { passes = h.passes + 1 }

-- What is torn down, in order.
unfoldable pub cleanup : List Resource → List Resource → List Resource
cleanup [] torn = torn
cleanup (r ∷ rs) torn = cleanup rs (r ∷ torn)

abbrev pub fresh : Harness
fresh = record { resources = []; failures = 0; passes = 0 }

unfoldable pub checks : VerifyCalls → Harness
checks c =
    let tripped = run (check_round_trip c.round_trip fresh) in
    let crossed = run (check_interop c.interop tripped) in
    if not c.no_interop && c.native_dialled then crossed else tripped

-- The exit code, and what has been torn down. A setup error exits in `must`.
unfoldable pub verify : VerifyCalls → ℕ × List Resource
verify c =
    let h = checks c in
    if not c.client_built
    then (2, [])
    else (if ltb 0 h.failures then 1 else 0, cleanup h.resources [])

-- What the calls of a check have made.
abbrev pub made_by : Provisioned → List Resource
made_by p =
    if not p.topic_made
    then []
    else if not p.subscription_made
    then topic p.id ∷ []
    else topic p.id ∷ subscription (p.id +++ "_sub") ∷ []

-- The same, the last made first.
abbrev pub torn_by : Provisioned → List Resource
torn_by p =
    if not p.topic_made
    then []
    else if not p.subscription_made
    then topic p.id ∷ []
    else subscription (p.id +++ "_sub") ∷ topic p.id ∷ []

abbrev pub trips : RoundTripCalls → Bool
trips c =
    c.provisioned.topic_made
    && c.provisioned.subscription_made
    && c.published
    && is_probe c.probe (pull_one c.received)

abbrev pub crosses : InteropCalls → Bool
crosses c =
    c.provisioned.topic_made
    && c.provisioned.subscription_made
    && c.subscribed
    && c.published
    && any (λ bodies. any (λ b. eqs b c.probe) bodies) c.seen

-- The checks that are made.
abbrev pub is_crossed : VerifyCalls → Bool
is_crossed c = not c.no_interop && c.native_dialled
