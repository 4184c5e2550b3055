-- ===== src/Store/Bundles/Reachable.antt =====
-- A store under any sequence of its own operations and of calls on the descriptors that it gives out.
use ma_sinafadavi_iran.Prelude.{
  Bool, ℕ, ◌≡◌, refl, subst, false, not, ◌&&◌, Option, none, some, List, [], ◌∷◌, arith, All,
  All-put, All-keep, find, put, ◌==◌, Bool-cases, inl, inr,
}
use ma_sinafadavi_iran.Bpv7.Endpoint.{EndpointId}
use ma_sinafadavi_iran.Bpv7.Outcome.{ok as returned, >>=-eq-ok}
use ma_sinafadavi_iran.Bpv7.Bundle.{Bundle}
use ma_sinafadavi_iran.Bpv7.BundleId.{BundleId, id_eq, bundle_id}
use ma_sinafadavi_iran.Store.Descriptor.{
  may_dispatch, BundleMetadata, BundleDescriptor, Result, ok, err, is_retained, expired,
}
use ma_sinafadavi_iran.Store.Descriptor.Invariant.{
  is_forwarding, IsConsistent, new_bundle_descriptor-IsConsistent, add_known_holder-IsConsistent,
  delete-IsConsistent,
}
use ma_sinafadavi_iran.Store.Descriptor.History.{Call, step, step-IsConsistent}
use ma_sinafadavi_iran.Store.Bundles.{
  descriptors_with, get_dispatchable, BundleStore, Naming, Inserted, insert_new, insert_known,
  insert_with, insert_bundle, sender, new_metadata, delete_bundle, collect_one, collect,
  garbage_collect,
}
use ma_sinafadavi_iran.Store.Bundles.Collect.{ConsistentEntry, find-IsConsistent}

-- A store that was opened without bundles, and what has been done with it since.
pub data Reached : BundleStore → Type 0 where
  opened : (node : EndpointId) → Reached (record { node_id = node; bundles = [] })
  inserted :
      {bst : BundleStore} (naming : Naming) (written : Result (Unit {0})) (b : Bundle)
      (r : Inserted)
      → insert_bundle naming written bst b ≡ returned r
      → Reached bst
      → Reached r.store
  called :
      {bst : BundleStore} (id : BundleId) (d : BundleDescriptor) (c : Call)
      → find id bst.bundles ≡ some d
      → Reached bst
      → Reached (record bst { bundles = put id (step d c).descriptor bst.bundles })
  removed : {bst : BundleStore} (m : BundleMetadata) → Reached bst → Reached (delete_bundle bst m)
  collected : {bst : BundleStore} (now : ℕ) → Reached bst → Reached (garbage_collect now bst).0

insert_new-Consistent :
    (naming : Naming) (written : Result (Unit {0})) (bst : BundleStore) (b : Bundle)
    (senders : List EndpointId)
    → All ConsistentEntry bst.bundles
    → All ConsistentEntry (insert_new naming written bst b senders).store.bundles
unfolding insert_new
insert_new-Consistent naming (err e) bst b senders all = all
insert_new-Consistent naming (ok _) bst b senders all =
    All-put ConsistentEntry (bundle_id b) _ bst.bundles
      (new_bundle_descriptor-IsConsistent (new_metadata naming bst.node_id b senders)) all

insert_known-Consistent :
    (bst : BundleStore) (id : BundleId) (d : BundleDescriptor) (senders : List EndpointId)
    → find id bst.bundles ≡ some d
    → All ConsistentEntry bst.bundles
    → All ConsistentEntry (insert_known bst id d senders).store.bundles
unfolding insert_known
insert_known-Consistent bst id d [] found all = all
insert_known-Consistent bst id d (e ∷ es) found all =
    All-put ConsistentEntry id _ bst.bundles
      (add_known_holder-IsConsistent (find-IsConsistent id bst.bundles d all found) (e ∷ es)) all

insert_with-Consistent :
    (naming : Naming) (written : Result (Unit {0})) (bst : BundleStore) (b : Bundle)
    (senders : List EndpointId) (known : Option BundleDescriptor)
    → find (bundle_id b) bst.bundles ≡ known
    → All ConsistentEntry bst.bundles
    → All ConsistentEntry (insert_with naming written bst b senders known).store.bundles
unfolding insert_with
insert_with-Consistent naming written bst b senders none found all =
    insert_new-Consistent naming written bst b senders all
insert_with-Consistent naming written bst b senders (some d) found all =
    insert_known-Consistent bst (bundle_id b) d senders found all

insert_bundle-Consistent :
    (naming : Naming) (written : Result (Unit {0})) (bst : BundleStore) (b : Bundle) (r : Inserted)
    → insert_bundle naming written bst b ≡ returned r
    → All ConsistentEntry bst.bundles
    → All ConsistentEntry r.store.bundles
unfolding insert_bundle
insert_bundle-Consistent naming written bst b r h all =
    let (senders, _, run) = >>=-eq-ok (sender b) _ h in
    let same : insert_with naming written bst b senders (find (bundle_id b) bst.bundles) ≡ r =
      ground arith in
    subst (λ (i : Inserted). All ConsistentEntry i.store.bundles) same
      (insert_with-Consistent naming written bst b senders (find (bundle_id b) bst.bundles) refl
        all)

collect_one-IsConsistent :
    (now : ℕ) (d : BundleDescriptor) → IsConsistent d → IsConsistent (collect_one now d).0
unfolding collect_one
collect_one-IsConsistent now d v = elim (Bool-cases (expired now d && not (is_retained d))) [
  | inl garbage ↦ rw (garbage, collect_one) (delete-IsConsistent v false)
  | inr stays ↦ rw (stays, collect_one) v
]

collect-Consistent :
    (now : ℕ) (m : List (BundleId × BundleDescriptor))
    → All ConsistentEntry m
    → All ConsistentEntry (collect now m).0
unfolding collect
collect-Consistent now [] all = tt
collect-Consistent now ((id, d) ∷ m) (v, vs) =
    (collect_one-IsConsistent now d v, collect-Consistent now m vs)

-- In a store that was opened without bundles, after any of its operations and any calls on its
-- descriptors, the flags of every descriptor agree with its retention constraints.
pub Reached-Consistent : (bst : BundleStore) → Reached bst → All ConsistentEntry bst.bundles
unfolding delete_bundle garbage_collect
Reached-Consistent _ (opened node) = tt
Reached-Consistent _ (inserted {bst = bst} naming written b r h before) =
    insert_bundle-Consistent naming written bst b r h (Reached-Consistent bst before)
Reached-Consistent _ (called {bst = bst} id d c found before) =
    let all = Reached-Consistent bst before in
    All-put ConsistentEntry id _ bst.bundles
      (step-IsConsistent d c (find-IsConsistent id bst.bundles d all found)) all
Reached-Consistent _ (removed {bst = bst} m before) =
    All-keep ConsistentEntry (λ k. not (k == m.id)) bst.bundles (Reached-Consistent bst before)
Reached-Consistent _ (collected {bst = bst} now before) =
    collect-Consistent now bst.bundles (Reached-Consistent bst before)

-- What GetDispatchable is meant to select.
abbrev pub is_idle : BundleDescriptor → Bool
is_idle d = not (is_forwarding d.retention_constraints) && not d.deleted

descriptors_with-is_idle :
    (m : List (BundleId × BundleDescriptor))
    → All ConsistentEntry m
    → descriptors_with may_dispatch m ≡ descriptors_with is_idle m
unfolding descriptors_with may_dispatch
descriptors_with-is_idle [] all = refl
descriptors_with-is_idle ((id, d) ∷ m) (v, vs) =
    let same : may_dispatch d ≡ is_idle d = ground (arith, v.dispatched) in
    ground (arith, descriptors_with-is_idle m vs)

-- In a store that was opened without bundles, after any of its operations and any calls on its
-- descriptors, GetDispatchable gives the descriptors that are not deleted and that do not have the
-- constraint ForwardPending, all of them and no others.
pub get_dispatchable-is_idle :
    (bst : BundleStore) → Reached bst → get_dispatchable bst ≡ descriptors_with is_idle bst.bundles
unfolding get_dispatchable
get_dispatchable-is_idle bst reached =
    descriptors_with-is_idle bst.bundles (Reached-Consistent bst reached)
