-- ===== src/Tools/Tests.antt =====
-- A verification whose interop check fails, and a cleanup of two listings.
use kubemq_gcp_pub_sub.Base.{
  ◌+◌, ◌≡◌, refl, String, Bool, true, false, some, none, List, [], ◌∷◌, length, ◌||◌,
}
use kubemq_gcp_pub_sub.Base.Assoc.{eqs}
use kubemq_gcp_pub_sub.Tools.Verify.{
  VerifyCalls, Resource, verify, checks, run, check_round_trip, check_interop, provision, pull_one,
  cleanup,
}
use kubemq_gcp_pub_sub.Tools.Cleanup.{Entry, Kind, clean, clean_lem, matching, undeletable}

abbrev unseen : VerifyCalls
unseen = record {
  client_built = true;
  no_interop = false;
  native_dialled = true;
  round_trip = record {
    provisioned = record { id = "verify_rt"; topic_made = true; subscription_made = true };
    probe = "probe";
    published = true;
    received = record { bodies = "probe" ∷ []; erred = false };
  };
  interop = record {
    provisioned = record { id = "verify_interop"; topic_made = true; subscription_made = false };
    probe = "probe";
    subscribed = true;
    published = true;
    seen = [];
  };
}

-- The topic without a subscription is torn down, then the subscription and the topic of the round trip.
interop_missed : verify unseen ≡ (
  1,
  Resource.topic "verify_interop"
      ∷ Resource.subscription "verify_rt_sub"
      ∷ Resource.topic "verify_rt"
      ∷ [],
)
unfolding verify checks run check_round_trip check_interop provision pull_one cleanup
interop_missed = refl

abbrev is_ours : String → Bool
is_ours id = eqs id "gcp_burnin_a" || eqs id "gcp_burnin_b"

abbrev listed : List Entry
listed =
    record { id = some "gcp_burnin_a"; deletes = false }
    ∷ record { id = some "other"; deletes = true }
    ∷ record { id = none; deletes = true }
    ∷ record { id = some "gcp_burnin_b"; deletes = true }
    ∷ []

only_ours :
    ((clean is_ours Kind.topic listed).tried ≡ matching is_ours Kind.topic listed)
    × ((clean is_ours Kind.topic listed).failed ≡ undeletable is_ours listed)
    × ((clean is_ours Kind.topic listed).deleted + (clean is_ours Kind.topic listed).failed
        ≡ length (matching is_ours Kind.topic listed))
only_ours = clean_lem is_ours Kind.topic listed
