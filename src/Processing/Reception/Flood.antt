-- ===== src/Processing/Reception/Flood.antt =====
-- Receptions of a bundle under epidemic routing.
use ma_sinafadavi_iran.Prelude.{
  String, ◌≡◌, ◌∙◌, subst, ap, Bool, false, List, ◌∷◌, All, none, some, find, put, find-put,
}
use ma_sinafadavi_iran.Bpv7.Outcome.{ok as returned}
use ma_sinafadavi_iran.Bpv7.Endpoint.{EndpointId}
use ma_sinafadavi_iran.Bpv7.Bundle.{Bundle}
use ma_sinafadavi_iran.Bpv7.BundleId.{BundleId, id_eq, bundle_id}
use ma_sinafadavi_iran.Store.Descriptor.{ok, new_bundle_descriptor}
use ma_sinafadavi_iran.Store.Bundles.{BundleStore, sender, new_metadata}
use ma_sinafadavi_iran.Store.Bundles.Insert.{new_metadata-known_holders}
use ma_sinafadavi_iran.Agent.Manager.{AgentOperations, delivery}
use ma_sinafadavi_iran.Routing.Peers.{holds}
use ma_sinafadavi_iran.Processing.{Forwarding, forwarding, epidemic}
use ma_sinafadavi_iran.Processing.Once.{forwarding_once}
use ma_sinafadavi_iran.Processing.Reception.{
  Surroundings, Reception, epidemic_routing, receive, store_descriptor, run_forwarding,
}
use ma_sinafadavi_iran.Processing.Reception.Dispatched.{IsDispatched, forwarding-IsDispatched}
use ma_sinafadavi_iran.Processing.Reception.Starts.{
  new_bundle_descriptor-deleted, new_bundle_descriptor-has_constraint, receive-known,
  receive-waiting, receive-new, forward_found,
}

module _ {ℓ} {S : Type ℓ} (agent : AgentOperations S) (around : Surroundings) where
  -- A bundle that is new to the store, and that can be written and names its sender, if it has one, in the
  -- block for it, is given to every agent, and a forwarding of it is started. With epidemic routing, and
  -- where nothing comes between the reception and the run of the forwarding, the bundle goes neither to the
  -- node of the store nor to that sender, and the store keeps its descriptor as the forwarding leaves it,
  -- without DispatchPending.
  pub receive-forwards :
      (bst : BundleStore) (agents : List (String × S)) (b : Bundle) (is_new : Bool)
      (senders : List EndpointId)
      → sender b ≡ returned senders
      → find (bundle_id b) bst.bundles ≡ none
      → around.written ≡ ok tt
      → let d = new_bundle_descriptor (new_metadata around.naming bst.node_id b senders) in
        (r : Reception S) × (f : Forwarding) × (after : BundleStore) × (receive agent
            epidemic_routing around bst agents b is_new
          ≡ returned r)
        × (r.started ≡ some (bundle_id b))
        × (r.agents
            ≡ delivery agent (record bst { bundles = put (bundle_id b) d bst.bundles }) agents d)
        × (run_forwarding epidemic_routing around r.store (bundle_id b) ≡ some (after, f))
        × (find (bundle_id b) after.bundles ≡ some f.descriptor)
        × All (λ s. holds (bst.node_id ∷ senders) s ≡ false) f.delivered
        × All (λ s. holds (bst.node_id ∷ senders) s ≡ false) f.failed
        × IsDispatched f.descriptor
  unfolding store_descriptor
  receive-forwards bst agents b is_new senders s absent written =
      let m = new_metadata around.naming bst.node_id b senders in
      let d = new_bundle_descriptor m in
      let (r, e, starts, given, there) =
        receive-new agent around bst agents b is_new senders s absent written in
      let f = forwarding around.own around.disk around.send epidemic around.senders d in
      let holders = new_metadata-known_holders around.naming bst.node_id b senders in
      let (delivered, failed, _) =
        forwarding_once around.own around.disk around.send around.senders d
          (new_bundle_descriptor-deleted m) in
      (
        r,
        f,
        store_descriptor r.store (bundle_id b) f.descriptor,
        e,
        starts,
        given,
        forward_found agent around r.store (bundle_id b) d there,
        find-put (bundle_id b) f.descriptor r.store.bundles,
        subst (λ hs. All (λ s. holds hs s ≡ false) f.delivered) holders delivered,
        subst (λ hs. All (λ s. holds hs s ≡ false) f.failed) holders failed,
        forwarding-IsDispatched around.own around.disk around.send around.senders d
            (new_bundle_descriptor-deleted m),
      )

  -- A bundle is received that is new to the store and can be written, and then one of its id, with epidemic
  -- routing. The first reception starts a forwarding. The second one starts none if that forwarding has run to
  -- its end, and starts another one if it has not begun.
  pub receive-twice :
      (bst : BundleStore) (agents : List (String × S)) (b again : Bundle)
      (is_new is_new_again : Bool) (senders senders_again : List EndpointId)
      → sender b ≡ returned senders
      → sender again ≡ returned senders_again
      → bundle_id again ≡ bundle_id b
      → find (bundle_id b) bst.bundles ≡ none
      → around.written ≡ ok tt
      → (r late early : Reception S) × (f : Forwarding) × (after : BundleStore) × (receive agent
            epidemic_routing around bst agents b is_new
          ≡ returned r)
        × (r.started ≡ some (bundle_id b))
        × (run_forwarding epidemic_routing around r.store (bundle_id b) ≡ some (after, f))
        × (receive agent epidemic_routing around after r.agents again is_new_again ≡ returned late)
        × (late.started ≡ none)
        × (receive agent epidemic_routing around r.store r.agents again is_new_again
            ≡ returned early)
        × (early.started ≡ some (bundle_id b))
  unfolding store_descriptor
  receive-twice bst agents b again is_new is_new_again senders senders_again s t same absent
        written =
      let m = new_metadata around.naming bst.node_id b senders in
      let d = new_bundle_descriptor m in
      let (r, e, starts, _, there) =
        receive-new agent around bst agents b is_new senders s absent written in
      let f = forwarding around.own around.disk around.send epidemic around.senders d in
      let after = store_descriptor r.store (bundle_id b) f.descriptor in
      let kept : find (bundle_id b) after.bundles ≡ some f.descriptor =
        find-put (bundle_id b) f.descriptor r.store.bundles in
      let (late, second, quiet) =
        receive-known agent around after r.agents again is_new_again senders_again f.descriptor t
          (ap (λ id. find id after.bundles) same ∙ kept)
          (forwarding-IsDispatched around.own around.disk around.send around.senders d
            (new_bundle_descriptor-deleted m)) in
      let (early, third, starts_again) =
        receive-waiting agent around r.store r.agents again is_new_again senders_again d t
          (ap (λ id. find id r.store.bundles) same ∙ there) (new_bundle_descriptor-deleted m)
          (new_bundle_descriptor-has_constraint m) in
      (
        r,
        late,
        early,
        f,
        after,
        e,
        starts,
        forward_found agent around r.store (bundle_id b) d there,
        second,
        quiet,
        third,
        starts_again ∙ ap (λ (id : BundleId). some id) same,
      )
