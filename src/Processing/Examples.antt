-- ===== src/Processing/Examples.antt =====
-- A forwarding on which the theorems about package processing are applied.
use ma_sinafadavi_iran.Prelude.{
  ℕ, inl, inr, [], ◌∷◌, String, ◌≡◌, ◌≢◌, refl, Bool, true, false, not, All, List, none, some, find,
}
use ma_sinafadavi_iran.Bpv7.Endpoint.{eid_beq}
use ma_sinafadavi_iran.Bpv7.Block.{
  new_canonical_block, previous_node_block, type_previous_node, type_code,
}
use ma_sinafadavi_iran.Bpv7.Bundle.{
  Bundle, extension_block_by_type, extension_blocks_by_type, get_by_number,
}
use ma_sinafadavi_iran.Bpv7.BundleId.{id_eq, bundle_id}
use ma_sinafadavi_iran.Store.Bundles.{BundleStore, sender}
use ma_sinafadavi_iran.Bpv7.Outcome.{ok as returned}
use ma_sinafadavi_iran.Bpv7.Examples.{node, bundle}
use ma_sinafadavi_iran.Store.Descriptor.{Result, ok, new_bundle_descriptor}
use ma_sinafadavi_iran.Store.Examples.{descriptor, naming, empty_store, inserted}
use ma_sinafadavi_iran.Routing.Peers.{Sender, holds}
use ma_sinafadavi_iran.Routing.Examples.{some_peers}
use ma_sinafadavi_iran.Processing.{
  with_previous_node, Forwarding, forwarding, epidemic, load_failed,
}
use ma_sinafadavi_iran.Processing.Sends.{known}
use ma_sinafadavi_iran.Processing.PreviousNode.{with_previous_node-own}
use ma_sinafadavi_iran.Agent.Rest.{RestAgent, new_rest_agent, rest_agent}
use ma_sinafadavi_iran.Agent.Manager.{delivery}
use ma_sinafadavi_iran.Processing.Reception.{
  Surroundings, Reception, epidemic_routing, receive, run_forwarding,
}
use ma_sinafadavi_iran.Processing.Reception.Dispatched.{IsDispatched}
use ma_sinafadavi_iran.Processing.Reception.Flood.{receive-forwards, receive-twice}
use ma_sinafadavi_iran.Processing.Once.{forwarding_once, forwarding-dispatch}

abbrev disk : String → Result Bundle
disk name = ok bundle

-- Node 4 cannot be reached.
abbrev send : Bundle → Sender → Bool
send b s = not (eid_beq s.peer (node 4))

forwarding_once_example :
    let r = forwarding (node 5) disk send epidemic some_peers descriptor in
    All (λ s. known descriptor s ≡ false) r.delivered
    × All (λ s. known descriptor s ≡ false) r.failed
    × All (λ s. known r.descriptor s ≡ true) r.delivered
unfolding new_bundle_descriptor
forwarding_once_example = forwarding_once (node 5) disk send some_peers descriptor refl

forwarding-dispatch_example :
    let r = forwarding (node 5) disk send epidemic some_peers descriptor in
    (r.stop ≢ load_failed → r.descriptor.dispatch ≡ true)
    × (r.stop ≡ load_failed → r.descriptor.dispatch ≡ false)
unfolding new_bundle_descriptor
forwarding-dispatch_example = forwarding-dispatch (node 5) disk send some_peers descriptor refl

-- A bundle that came from node 7.
abbrev received : Bundle
received = record bundle {
  extension_blocks = new_canonical_block 2 0 (previous_node_block (node 7)) ∷ [];
}

with_previous_node-own_example :
    (n : ℕ) × (extension_block_by_type (with_previous_node (node 5) received) type_previous_node
      ≡ inl (new_canonical_block n 0 (previous_node_block (node 5))))
unfolding extension_blocks_by_type type_code get_by_number
with_previous_node-own_example =
    with_previous_node-own (node 5) received
      (inr (new_canonical_block 2 0 (previous_node_block (node 7)), refl, refl))

abbrev around : Surroundings
around = record {
  own = node 5;
  naming = naming;
  written = ok tt;
  disk = disk;
  send = send;
  senders = some_peers;
}

abbrev agents : List (String × RestAgent)
agents = ("rest", new_rest_agent) ∷ []

abbrev filled : BundleStore
filled = record { node_id = node 5; bundles = (bundle_id bundle, inserted) ∷ [] }

receive-forwards_example :
    (r : Reception RestAgent) × (f : Forwarding) × (after : BundleStore) × (receive
        (rest_agent "rest")
        epidemic_routing
        around
        empty_store
        agents
        bundle
        false
      ≡ returned r)
    × (r.started ≡ some (bundle_id bundle))
    × (r.agents ≡ delivery (rest_agent "rest") filled agents inserted)
    × (run_forwarding epidemic_routing around r.store (bundle_id bundle) ≡ some (after, f))
    × (find (bundle_id bundle) after.bundles ≡ some f.descriptor)
    × All (λ s. holds (node 5 ∷ []) s ≡ false) f.delivered
    × All (λ s. holds (node 5 ∷ []) s ≡ false) f.failed
    × IsDispatched f.descriptor
unfolding sender extension_block_by_type
receive-forwards_example =
    receive-forwards (rest_agent "rest") around empty_store agents bundle false [] refl refl refl

receive-twice_example :
    (r late early : Reception RestAgent) × (f : Forwarding) × (after : BundleStore) × (receive
        (rest_agent "rest")
        epidemic_routing
        around
        empty_store
        agents
        bundle
        true
      ≡ returned r)
    × (r.started ≡ some (bundle_id bundle))
    × (run_forwarding epidemic_routing around r.store (bundle_id bundle) ≡ some (after, f))
    × (receive (rest_agent "rest") epidemic_routing around after r.agents received false
        ≡ returned late)
    × (late.started ≡ none)
    × (receive (rest_agent "rest") epidemic_routing around r.store r.agents received false
        ≡ returned early)
    × (early.started ≡ some (bundle_id bundle))
unfolding sender extension_block_by_type extension_blocks_by_type bundle_id
receive-twice_example =
    receive-twice (rest_agent "rest") around empty_store agents bundle received true false []
      (node 7 ∷ []) refl refl refl refl refl
