-- ===== src/Transport.antt =====
-- burnin/transport/resources.go: addresses, the names of topics, subscriptions and their like, and the
-- creation that tolerates what is already there. The environment, the padding of fmt and the client's
-- answers are parameters; sanitizeClientID of burnin/worker/worker.go on the codes of a text.
use kubemq_gcp_pub_sub.Base.{
  ℕ, ◌≡◌, refl, String, Bool, true, false, not, ◌&&◌, ◌||◌, ◌⊎◌, inl, inr, List, [], ◌∷◌, all, leb,
  ◌==◌, arith, if◌then◌else◌,
}
use Prim.Native.String.{◌++◌ as ◌+++◌}
use kubemq_gcp_pub_sub.Base.Int.{ℤ}
use kubemq_gcp_pub_sub.Base.Assoc.{eqs}

abbrev first_set : List String → String → String
first_set [] default = default
first_set (v ∷ vs) default = let rest = first_set vs default in if eqs v "" then rest else v

module _ (getenv : String → String) where
  unfoldable pub emulator_host : String → String → String
  emulator_host host address =
      first_set
        (host ∷ address ∷ getenv "PUBSUB_EMULATOR_HOST" ∷ getenv "KUBEMQ_BROKER_ADDRESS" ∷ [])
        "localhost:8085"

  unfoldable pub grpc_address : String → String
  grpc_address address = first_set (address ∷ getenv "KUBEMQ_GRPC_ADDRESS" ∷ []) "localhost:50000"

  unfoldable pub resource_prefix : String
  resource_prefix = first_set (getenv "BURNIN_RESOURCE_PREFIX" ∷ []) "gcp_burnin"

  -- `pad w i` is i in at least w digits.
  module _ (pad : ℕ → ℤ → String) where
    unfoldable pub topic_name : String → ℤ → String
    topic_name worker idx = resource_prefix +++ "_" +++ worker +++ "_" +++ pad 4 idx

    unfoldable pub subscription_name : String → ℤ → String
    subscription_name worker idx = topic_name worker idx +++ "_sub"

    unfoldable pub fanout_subscription_name : String → ℤ → ℤ → String
    fanout_subscription_name worker idx sub = topic_name worker idx +++ "_s" +++ pad 2 sub

    unfoldable pub snapshot_name : String → ℤ → String
    snapshot_name worker idx = topic_name worker idx +++ "_snap"

    unfoldable pub schema_name : String → ℤ → String
    schema_name worker idx = topic_name worker idx +++ "_schema"

    unfoldable pub dead_letter_topic_name : String → ℤ → String
    dead_letter_topic_name worker idx = topic_name worker idx +++ "_dlt"

    unfoldable pub dead_letter_subscription_name : String → ℤ → String
    dead_letter_subscription_name worker idx = topic_name worker idx +++ "_dlt_sub"

unfoldable pub mapped_topic_channel : String → String
mapped_topic_channel topic = "pubsub." +++ topic

unfoldable pub mapped_subscription_channel : String → String
mapped_subscription_channel sub = "pubsub.sub." +++ sub

-- The codes of gRPC that the provisioning tells apart.
pub data Code : Type 0 where
  already_exists not_found other : Code

unfoldable pub is_already_exists : Code → Bool
is_already_exists Code.already_exists = true
is_already_exists Code.not_found = false
is_already_exists Code.other = false

unfoldable pub is_not_found : Code → Bool
is_not_found Code.not_found = true
is_not_found Code.already_exists = false
is_not_found Code.other = false

-- EnsureTopic and EnsureSubscription: `create` is the client's answer, `handle` the handle by name.
unfoldable pub ensure : {A : Type 0} → Code ⊎ A → A → Code ⊎ A
ensure (inr made) handle = inr made
ensure (inl code) handle = if not (is_already_exists code) then inl code else inr handle

-- A text by its bytes.
unfoldable pub is_client_char : ℕ → Bool
is_client_char c =
    (leb b'a' c && leb c b'z')
    || (leb b'A' c && leb c b'Z')
    || (leb b'0' c && leb c b'9')
    || (c == b'_')
    || (c == b'-')

unfoldable pub sanitize_client_id : List ℕ → List ℕ
sanitize_client_id [] = []
sanitize_client_id (c ∷ cs) = (if is_client_char c then c else b'-') ∷ sanitize_client_id cs

-- Every byte of a sanitized id is one that the broker takes.
pub all-sanitize_client_id : (cs : List ℕ) → all is_client_char (sanitize_client_id cs) ≡ true
unfolding sanitize_client_id is_client_char
all-sanitize_client_id [] = refl
all-sanitize_client_id (c ∷ cs) = ground (arith, all-sanitize_client_id cs)

-- An id that the broker takes is left as it is.
pub sanitize_client_id_idem :
    (cs : List ℕ) → all is_client_char cs ≡ true → sanitize_client_id cs ≡ cs
unfolding sanitize_client_id
sanitize_client_id_idem [] h = refl
sanitize_client_id_idem (c ∷ cs) h = ground (arith, h, sanitize_client_id_idem cs)
