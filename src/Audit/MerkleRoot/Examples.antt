-- ===== src/Audit/MerkleRoot/Examples.antt =====
-- Three events, and the logs that have their root.
use sovr_protocol.Prelude.{◌≡◌, refl, String, ◌&&◌, ◌==◌, none, true, is_some, [], ◌∷◌}
use sovr_protocol.Prelude.Value.{undefined}
use sovr_protocol.Server.EventStore.{Envelope, make_envelope}
use sovr_protocol.Audit.MerkleRoot.{MerkleEnvironment, compute}
use sovr_protocol.Audit.MerkleRoot.Roots.{
  root_hash_of, compute_ends, compute-duplicate, compute-swap,
}

abbrev env : MerkleEnvironment
env = record {
  hash = λ s. s;
  before = λ s t. s == "1" && t == "2";
  stringify = λ e. e.event_id;
  now = "";
}

abbrev event : String → Envelope
event id =
    make_envelope (record { event_id = id; timestamp = "" })
      (record {
        event_name = "vault.asset.registered";
        aggregate = "asset";
        aggregate_id = "a1";
        source_domain = "vault";
        command_id = "c1";
        triggering_command = "vault.asset.register";
        causation_id = "x";
        correlation_id = "x";
        actor_id = "alice";
        identity_context = undefined;
        policy_decision_id = "";
        capability_id = "";
        payload = undefined;
        projection_effect = undefined;
        audit = undefined;
        event_version = none;
      })

compute_ends_example : is_some (compute env (event "1" ∷ event "2" ∷ event "3" ∷ [])) ≡ true
compute_ends_example = compute_ends env (event "1" ∷ event "2" ∷ event "3" ∷ [])

compute-duplicate_example :
    root_hash_of (compute env (event "1" ∷ event "2" ∷ event "3" ∷ event "3" ∷ []))
    ≡ root_hash_of (compute env (event "1" ∷ event "2" ∷ event "3" ∷ []))
compute-duplicate_example = compute-duplicate env (event "1") (event "2") (event "3") [] refl

compute-swap_example :
    root_hash_of (compute env (event "1" ∷ event "2" ∷ event "3" ∷ []))
    ≡ root_hash_of (compute env (event "2" ∷ event "1" ∷ event "3" ∷ []))
unfolding make_envelope
compute-swap_example =
    compute-swap env (event "1") (event "2") (event "3" ∷ []) (λ h. refl) (λ h k. cc)
