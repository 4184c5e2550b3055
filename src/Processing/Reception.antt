-- ===== src/Processing/Reception.antt =====
-- dtnd7-go/pkg/processing/reception.go: from the store over the agents and the routing algorithm to the
-- forwarding. BundleForwarding starts a goroutine: a reception says for which bundle it starts one, and the
-- run of that goroutine is a step of its own, which may come before or behind further receptions. A
-- descriptor is a pointer that the store keeps, so the store has each new state of it.
pub mod Dispatched
pub mod Starts
pub mod Flood
use ma_sinafadavi_iran.Prelude.{
  String, Bool, true, false, Option, none, some, List, [], ◌∷◌, ◌++◌, find, put,
}
use ma_sinafadavi_iran.Bpv7.Outcome.{Outcome, ok as returned, ◌>>=◌}
use ma_sinafadavi_iran.Bpv7.Endpoint.{EndpointId}
use ma_sinafadavi_iran.Bpv7.Bundle.{Bundle}
use ma_sinafadavi_iran.Bpv7.BundleId.{BundleId, id_eq, bundle_id}
use ma_sinafadavi_iran.Store.Constraints.{dispatch_pending}
use ma_sinafadavi_iran.Store.Descriptor.{BundleDescriptor, Result, ok, err, Effect, has_constraint}
use ma_sinafadavi_iran.Store.Bundles.{BundleStore, Naming, Inserted, insert_bundle}
use ma_sinafadavi_iran.Agent.Manager.{AgentOperations, delivery}
use ma_sinafadavi_iran.Routing.Peers.{Sender}
use ma_sinafadavi_iran.Processing.{Selector, Forwarding, forwarding, epidemic}

-- The methods of Algorithm that processing calls.
pub record Algorithm : Type 0 where
  pub select : Selector
  pub notify_new_bundle : BundleDescriptor → Bundle → Outcome (BundleDescriptor × List Effect)
  pub notify_received_bundle : BundleDescriptor → Bundle → Outcome (BundleDescriptor × List Effect)

-- EpidemicRouting, which the notifications do not concern.
abbrev pub epidemic_routing : Algorithm
epidemic_routing = record {
  select = epidemic;
  notify_new_bundle = λ d b. returned (d, []);
  notify_received_bundle = λ d b. returned (d, []);
}

-- What is around the processing: the node's name, the texts of ids, the outcome of writing to the store's
-- database and files, what the files hold, what the sends report, and the senders there are.
pub record Surroundings : Type 0 where
  pub own : EndpointId
  pub naming : Naming
  pub written : Result (Unit {0})
  pub disk : String → Result Bundle
  pub send : Bundle → Sender → Bool
  pub senders : List Sender

pub record Reception {ℓ} (S : Type ℓ) : Type ℓ where
  pub store : BundleStore
  pub agents : List (String × S)
  pub effects : List Effect
  pub started : Option BundleId

unfoldable pub store_descriptor : BundleStore → BundleId → BundleDescriptor → BundleStore
store_descriptor bst id d = record bst { bundles = put id d bst.bundles }

-- The call of BundleForwarding for a bundle that waits for its dispatch.
dispatched : BundleId → Result Bool → Option BundleId
dispatched id (ok true) = some id
dispatched id (ok false) = none
dispatched id (err _) = none

module _ {ℓ} {S : Type ℓ} (agent : AgentOperations S) (router : Algorithm)
    (around : Surroundings) where
  notify : Bool → BundleDescriptor → Bundle → Outcome (BundleDescriptor × List Effect)
  notify true d b = router.notify_new_bundle d b
  notify false d b = router.notify_received_bundle d b

  after_insertion :
      Bool
      → List (String × S)
      → Bundle
      → BundleStore
      → List Effect
      → Result BundleDescriptor
      → Outcome (Reception S)
  unfolding delivery notify dispatched store_descriptor has_constraint
  after_insertion is_new agents b bst es (err _) =
      returned (record { store = bst; agents = agents; effects = es; started = none })
  after_insertion is_new agents b bst es (ok d) = notify is_new d b >>= λ notified.
      returned (record {
        store = store_descriptor bst (bundle_id b) notified.0;
        agents = delivery agent bst agents d;
        effects = es ++ notified.1;
        started = dispatched (bundle_id b) (has_constraint notified.0 dispatch_pending);
      })

  -- receiveAsync
  unfoldable pub receive : BundleStore → List (String × S) → Bundle → Bool → Outcome (Reception S)
  unfolding insert_bundle after_insertion
  receive bst agents b is_new =
      insert_bundle around.naming around.written bst b >>= λ (inserted : Inserted).
      after_insertion is_new agents b inserted.store inserted.effects inserted.result

-- The goroutine of BundleForwarding, on the descriptor as the store has it when the goroutine runs.
forward_descriptor :
    Algorithm
    → Surroundings
    → BundleStore
    → BundleId
    → Option BundleDescriptor
    → Option (BundleStore × Forwarding)
unfolding store_descriptor forwarding
forward_descriptor router around bst id none = none
forward_descriptor router around bst id (some d) =
    let f = forwarding around.own around.disk around.send router.select around.senders d in
    some (store_descriptor bst id f.descriptor, f)

unfoldable pub run_forwarding :
    Algorithm → Surroundings → BundleStore → BundleId → Option (BundleStore × Forwarding)
unfolding forward_descriptor
run_forwarding router around bst id = forward_descriptor router around bst id (find id bst.bundles)
