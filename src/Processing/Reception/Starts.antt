-- ===== src/Processing/Reception/Starts.antt =====
-- Which receptions start a forwarding, under epidemic routing.
use ma_sinafadavi_iran.Prelude.{
  ℕ, String, ◌++◌, ◌≡◌, ◌∙◌, refl, ap, Bool, true, false, List, [], arith, nat_beq, any, ◌⊎◌,
  Bool-cases, inl, inr, none, some, find, put, find-put,
}
use ma_sinafadavi_iran.Bpv7.Outcome.{ok as returned}
use ma_sinafadavi_iran.Bpv7.Endpoint.{EndpointId}
use ma_sinafadavi_iran.Bpv7.Bundle.{Bundle}
use ma_sinafadavi_iran.Bpv7.BundleId.{BundleId, id_eq, bundle_id}
use ma_sinafadavi_iran.Store.Constraints.{dispatch_pending}
use ma_sinafadavi_iran.Store.Descriptor.{
  BundleMetadata, BundleDescriptor, StoreError, bundle_deleted, Result, ok, err, Effect,
  has_constraint, new_bundle_descriptor,
}
use ma_sinafadavi_iran.Store.Bundles.{BundleStore, sender, new_metadata}
use ma_sinafadavi_iran.Store.Bundles.Insert.{
  HasConstraintsOf, insert_bundle-new, insert_bundle-known, insert_bundle-live,
}
use ma_sinafadavi_iran.Agent.Manager.{AgentOperations, delivery}
use ma_sinafadavi_iran.Processing.{forwarding, epidemic}
use ma_sinafadavi_iran.Processing.Reception.{
  Surroundings, Reception, epidemic_routing, receive, notify, dispatched, after_insertion,
  store_descriptor, run_forwarding, forward_descriptor,
}
use ma_sinafadavi_iran.Processing.Reception.Dispatched.{IsDispatched}

pub new_bundle_descriptor-deleted : (m : BundleMetadata) → (new_bundle_descriptor m).deleted ≡ false
unfolding new_bundle_descriptor
new_bundle_descriptor-deleted m = refl

pub new_bundle_descriptor-has_constraint :
    (m : BundleMetadata) → has_constraint (new_bundle_descriptor m) dispatch_pending ≡ ok true
unfolding has_constraint new_bundle_descriptor
new_bundle_descriptor-has_constraint m = ground arith

has_constraint-IsDispatched :
    (d : BundleDescriptor)
    → IsDispatched d
    → (has_constraint d dispatch_pending ≡ ok false)
      ⊎ ((e : StoreError) × (has_constraint d dispatch_pending ≡ err e))
unfolding has_constraint
has_constraint-IsDispatched d h = elim (Bool-cases d.deleted) [
  | inl gone ↦ inr (bundle_deleted d.metadata.id, simp gone)
  | inr live ↦ inl (simp (live, h))
]

has_constraint-same :
    (d new : BundleDescriptor) (c : ℕ)
    → new.retention_constraints ≡ d.retention_constraints
    → d.deleted ≡ false
    → new.deleted ≡ false
    → has_constraint new c ≡ has_constraint d c
unfolding has_constraint
has_constraint-same d new c same live there = simp (same, live, there)

module _ {ℓ} {S : Type ℓ} (agent : AgentOperations S) (around : Surroundings) where
  notify_epidemic :
      (is_new : Bool) (d : BundleDescriptor) (b : Bundle)
      → notify agent epidemic_routing around is_new d b ≡ returned (d, [])
  unfolding notify
  notify_epidemic true d b = refl
  notify_epidemic false d b = refl

  -- What a reception does with a descriptor that was inserted.
  after_insertion-epidemic :
      (is_new : Bool) (agents : List (String × S)) (b : Bundle) (bst : BundleStore)
      (es : List Effect) (d : BundleDescriptor) (waits : Result Bool)
      → has_constraint d dispatch_pending ≡ waits
      → after_insertion agent epidemic_routing around is_new agents b bst es (ok d)
        ≡ returned (record {
          store = store_descriptor bst (bundle_id b) d;
          agents = delivery agent bst agents d;
          effects = es ++ [];
          started = dispatched (bundle_id b) waits;
        })
  unfolding after_insertion
  after_insertion-epidemic is_new agents b bst es d waits h = simp (notify_epidemic is_new d b, h)

  after_insertion-quiet :
      (is_new : Bool) (agents : List (String × S)) (b : Bundle) (bst : BundleStore)
      (es : List Effect) (d : BundleDescriptor)
      → IsDispatched d
      → (r : Reception S) × (after_insertion agent epidemic_routing around is_new agents b bst es
            (ok d)
          ≡ returned r)
        × (r.started ≡ none)
  unfolding dispatched
  after_insertion-quiet is_new agents b bst es d h = elim (has_constraint-IsDispatched d h) [
    | inl e ↦ (_, after_insertion-epidemic is_new agents b bst es d (ok false) e, refl)
    | inr (x, e) ↦ (_, after_insertion-epidemic is_new agents b bst es d (err x) e, refl)
  ]

  after_insertion-result :
      (is_new : Bool) (agents : List (String × S)) (b : Bundle) (bst : BundleStore)
      (es : List Effect) (d : BundleDescriptor) (result : Result BundleDescriptor)
      → IsDispatched d
      → HasConstraintsOf d result
      → (r : Reception S) × (after_insertion agent epidemic_routing around is_new agents b bst es
            result
          ≡ returned r)
        × (r.started ≡ none)
  unfolding after_insertion
  after_insertion-result is_new agents b bst es d (err e) h same =
      (record { store = bst; agents = agents; effects = es; started = none }, refl, refl)
  after_insertion-result is_new agents b bst es d (ok new) h same =
      after_insertion-quiet is_new agents b bst es new
        (ap (any (λ c. nat_beq c dispatch_pending)) same ∙ h)

  -- A bundle that the store knows, and whose DispatchPending is gone, is not forwarded.
  pub receive-known :
      (bst : BundleStore) (agents : List (String × S)) (b : Bundle) (is_new : Bool)
      (senders : List EndpointId) (d : BundleDescriptor)
      → sender b ≡ returned senders
      → find (bundle_id b) bst.bundles ≡ some d
      → IsDispatched d
      → (r : Reception S) × (receive agent epidemic_routing around bst agents b is_new ≡ returned r)
        × (r.started ≡ none)
  unfolding receive
  receive-known bst agents b is_new senders d s found h =
      let (i, inserts, same) =
        insert_bundle-known around.naming around.written bst b senders d s found in
      let (r, e, quiet) =
        after_insertion-result is_new agents b i.store i.effects d i.result h same in
      (r, simp (inserts, e), quiet)

  pub forward_found :
      (bst : BundleStore) (id : BundleId) (d : BundleDescriptor)
      → find id bst.bundles ≡ some d
      → let f = forwarding around.own around.disk around.send epidemic around.senders d in
        run_forwarding epidemic_routing around bst id
        ≡ some (store_descriptor bst id f.descriptor, f)
  unfolding run_forwarding forward_descriptor
  forward_found bst id d found = simp found

  -- A reception of a bundle that the store knows and that waits for its dispatch starts a forwarding.
  pub receive-waiting :
      (bst : BundleStore) (agents : List (String × S)) (b : Bundle) (is_new : Bool)
      (senders : List EndpointId) (d : BundleDescriptor)
      → sender b ≡ returned senders
      → find (bundle_id b) bst.bundles ≡ some d
      → d.deleted ≡ false
      → has_constraint d dispatch_pending ≡ ok true
      → (r : Reception S) × (receive agent epidemic_routing around bst agents b is_new ≡ returned r)
        × (r.started ≡ some (bundle_id b))
  unfolding receive dispatched
  receive-waiting bst agents b is_new senders d s found live waits =
      let (i, new, inserts, is_ok, same, there) =
        insert_bundle-live around.naming around.written bst b senders d s found live in
      let still = has_constraint-same d new dispatch_pending same live there ∙ waits in
      (
        record {
          store = store_descriptor i.store (bundle_id b) new;
          agents = delivery agent i.store agents new;
          effects = i.effects ++ [];
          started = some (bundle_id b);
        },
        simp (inserts, is_ok)
            (after_insertion-epidemic is_new agents b i.store i.effects new (ok true) still),
        refl,
      )

  -- The first reception of a bundle.
  pub receive-new :
      (bst : BundleStore) (agents : List (String × S)) (b : Bundle) (is_new : Bool)
      (senders : List EndpointId)
      → sender b ≡ returned senders
      → find (bundle_id b) bst.bundles ≡ none
      → around.written ≡ ok tt
      → let d = new_bundle_descriptor (new_metadata around.naming bst.node_id b senders) in
        (r : Reception S) × (receive agent epidemic_routing around bst agents b is_new ≡ returned r)
        × (r.started ≡ some (bundle_id b))
        × (r.agents
            ≡ delivery agent (record bst { bundles = put (bundle_id b) d bst.bundles }) agents d)
        × (find (bundle_id b) r.store.bundles ≡ some d)
  unfolding receive dispatched store_descriptor
  receive-new bst agents b is_new senders s absent written =
      let m = new_metadata around.naming bst.node_id b senders in
      let d = new_bundle_descriptor m in
      let stored = put (bundle_id b) d bst.bundles in
      (
        record {
          store = store_descriptor (record bst { bundles = stored }) (bundle_id b) d;
          agents = delivery agent (record bst { bundles = stored }) agents d;
          effects = [];
          started = some (bundle_id b);
        },
        simp (written, insert_bundle-new around.naming bst b senders s absent)
            (after_insertion-epidemic is_new agents b (record bst { bundles = stored }) [] d
              (ok true) (new_bundle_descriptor-has_constraint m)),
        refl,
        refl,
        find-put (bundle_id b) d stored,
      )
