-- ===== src/Store/Bundles/Insert.antt =====
-- What InsertBundle promises to those who ask for the bundle later.
use ma_sinafadavi_iran.Prelude.{
  ◌++◌, ◌≡◌, ◌∙◌, refl, sym, ap, false, Option, none, some, List, [], ◌∷◌, arith, ◌==◌, find, put,
  find-put, Bool-cases, inl, inr, find-put_other,
}
use ma_sinafadavi_iran.Bpv7.Endpoint.{EndpointId}
use ma_sinafadavi_iran.Bpv7.Outcome.{ok as returned, >>=-eq-ok}
use ma_sinafadavi_iran.Bpv7.Bundle.{Bundle}
use ma_sinafadavi_iran.Bpv7.BundleId.{BundleId, id_eq, bundle_id}
use ma_sinafadavi_iran.Store.Descriptor.{
  BundleDescriptor, Result, ok, err, add_known_holder, new_bundle_descriptor,
}
use ma_sinafadavi_iran.Store.Bundles.{
  BundleStore, Naming, Inserted, get_bundle_descriptor, live_descriptor, insert_new, insert_known,
  insert_with, new_metadata, holder_result, insert_bundle, sender,
}

-- The store holds a descriptor for an id, and for other ids what it held before.
abbrev Holds : BundleStore → BundleId → BundleDescriptor → BundleStore → Type 0
Holds before id d after =
    (find id after.bundles ≡ some d)
    × ((other : BundleId)
        → (id == other) ≡ false
        → find other after.bundles ≡ find other before.bundles)

insert_new-Holds :
    (naming : Naming) (written : Result (Unit {0})) (bst : BundleStore) (b : Bundle)
    (senders : List EndpointId) (d : BundleDescriptor)
    → (insert_new naming written bst b senders).result ≡ ok d
    → Holds bst (bundle_id b) d (insert_new naming written bst b senders).store
unfolding insert_new
insert_new-Holds naming (err e) bst b senders d h = cc
insert_new-Holds naming (ok tt) bst b senders d h =
    let new = new_bundle_descriptor (new_metadata naming bst.node_id b senders) in
    let same : new ≡ d = ground arith in
    (
      find-put (bundle_id b) new bst.bundles ∙ ap (λ (x : BundleDescriptor). some x) same,
      λ other. find-put_other (bundle_id b) other new bst.bundles,
    )

holder_result-ok :
    (new : BundleDescriptor) (r : Result (Unit {0})) (d : BundleDescriptor)
    → holder_result new r ≡ ok d
    → new ≡ d
unfolding holder_result
holder_result-ok new (ok tt) d h = ground arith
holder_result-ok new (err e) d h = cc

insert_known-Holds :
    (bst : BundleStore) (id : BundleId) (known d : BundleDescriptor) (senders : List EndpointId)
    → find id bst.bundles ≡ some known
    → (insert_known bst id known senders).result ≡ ok d
    → Holds bst id d (insert_known bst id known senders).store
unfolding insert_known holder_result add_known_holder
insert_known-Holds bst id known d [] found h = (ground arith, λ other different. refl)
insert_known-Holds bst id known d (e ∷ es) found h =
    let new = (add_known_holder known (e ∷ es)).descriptor in
    let same : new ≡ d = holder_result-ok new (add_known_holder known (e ∷ es)).result d h in
    (
      find-put id new bst.bundles ∙ ap (λ (x : BundleDescriptor). some x) same,
      λ other. find-put_other id other new bst.bundles,
    )

insert_with-Holds :
    (naming : Naming) (written : Result (Unit {0})) (bst : BundleStore) (b : Bundle)
    (senders : List EndpointId) (d : BundleDescriptor) (known : Option BundleDescriptor)
    → find (bundle_id b) bst.bundles ≡ known
    → (insert_with naming written bst b senders known).result ≡ ok d
    → Holds bst (bundle_id b) d (insert_with naming written bst b senders known).store
unfolding insert_with
insert_with-Holds naming written bst b senders d none found h =
    insert_new-Holds naming written bst b senders d h
insert_with-Holds naming written bst b senders d (some k) found h =
    insert_known-Holds bst (bundle_id b) k d senders found h

-- Where InsertBundle returns a descriptor that is not deleted, GetBundleDescriptor finds that descriptor
-- under the bundle's id; and every other id is looked up with the result it had before.
pub insert_bundle-get :
    (naming : Naming) (written : Result (Unit {0})) (bst : BundleStore) (b : Bundle) (r : Inserted)
    (d : BundleDescriptor)
    → insert_bundle naming written bst b ≡ returned r
    → r.result ≡ ok d
    → d.deleted ≡ false
    → (get_bundle_descriptor r.store (bundle_id b) ≡ ok d)
      × ((other : BundleId)
          → (bundle_id b == other) ≡ false
          → get_bundle_descriptor r.store other ≡ get_bundle_descriptor bst other)
unfolding insert_bundle get_bundle_descriptor live_descriptor
insert_bundle-get naming written bst b r d h e live =
    let (senders, _, run) = >>=-eq-ok (sender b) _ h in
    let same : insert_with naming written bst b senders (find (bundle_id b) bst.bundles) ≡ r =
      ground arith in
    let (found, others) =
      insert_with-Holds naming written bst b senders d (find (bundle_id b) bst.bundles) refl
        (ap (λ (i : Inserted). i.result) same ∙ e) in
    let store = ap (λ (i : Inserted). i.store.bundles) same in
    (rw (sym store, found, live), λ other different. rw (sym store, others other different))

pub insert_bundle-new :
    (naming : Naming) (bst : BundleStore) (b : Bundle) (senders : List EndpointId)
    → sender b ≡ returned senders
    → find (bundle_id b) bst.bundles ≡ none
    → let d = new_bundle_descriptor (new_metadata naming bst.node_id b senders) in
      insert_bundle naming (ok tt) bst b
      ≡ returned (record {
        store = record bst { bundles = put (bundle_id b) d bst.bundles };
        effects = [];
        result = ok d;
      })
unfolding insert_bundle insert_with insert_new
insert_bundle-new naming bst b senders s absent = simp (s, absent)

-- The result of an insertion is an error or has the constraints of a descriptor.
abbrev pub HasConstraintsOf : BundleDescriptor → Result BundleDescriptor → Type 0
HasConstraintsOf d (ok new) = new.retention_constraints ≡ d.retention_constraints
HasConstraintsOf d (err _) = Unit

insert_known-HasConstraintsOf :
    (bst : BundleStore) (id : BundleId) (d : BundleDescriptor) (senders : List EndpointId)
    → HasConstraintsOf d (insert_known bst id d senders).result
unfolding insert_known holder_result add_known_holder
insert_known-HasConstraintsOf bst id d [] = refl
insert_known-HasConstraintsOf bst id d (e ∷ es) = elim (Bool-cases d.deleted) [
  | inl gone ↦ rw gone tt
  | inr live ↦ rw live refl
]

pub insert_bundle-known :
    (naming : Naming) (written : Result (Unit {0})) (bst : BundleStore) (b : Bundle)
    (senders : List EndpointId) (d : BundleDescriptor)
    → sender b ≡ returned senders
    → find (bundle_id b) bst.bundles ≡ some d
    → (i : Inserted) × (insert_bundle naming written bst b ≡ returned i)
      × HasConstraintsOf d i.result
unfolding insert_bundle insert_with
insert_bundle-known naming written bst b senders d s found = (
  insert_known bst (bundle_id b) d senders,
  simp (s, found),
  insert_known-HasConstraintsOf bst (bundle_id b) d senders,
)

-- The holders that a new bundle has.
pub new_metadata-known_holders :
    (naming : Naming) (node : EndpointId) (b : Bundle) (senders : List EndpointId)
    → (new_bundle_descriptor (new_metadata naming node b senders)).metadata.known_holders
      ≡ node ∷ senders
unfolding new_metadata new_bundle_descriptor
new_metadata-known_holders naming node b senders = refl

insert_known-live :
    (bst : BundleStore) (id : BundleId) (d : BundleDescriptor) (senders : List EndpointId)
    → d.deleted ≡ false
    → (new : BundleDescriptor) × ((insert_known bst id d senders).result ≡ ok new)
      × (new.retention_constraints ≡ d.retention_constraints)
      × (new.deleted ≡ false)
unfolding insert_known holder_result add_known_holder
insert_known-live bst id d [] live = (d, refl, refl, live)
insert_known-live bst id d (e ∷ es) live = (
  record d {
    metadata = record (d.metadata) { known_holders = d.metadata.known_holders ++ e ∷ es };
  },
  simp live,
  refl,
  live,
)

-- InsertBundle of a bundle that is known and not deleted returns its descriptor, with its constraints.
pub insert_bundle-live :
    (naming : Naming) (written : Result (Unit {0})) (bst : BundleStore) (b : Bundle)
    (senders : List EndpointId) (d : BundleDescriptor)
    → sender b ≡ returned senders
    → find (bundle_id b) bst.bundles ≡ some d
    → d.deleted ≡ false
    → (i : Inserted) × (new : BundleDescriptor) × (insert_bundle naming written bst b ≡ returned i)
      × (i.result ≡ ok new)
      × (new.retention_constraints ≡ d.retention_constraints)
      × (new.deleted ≡ false)
unfolding insert_bundle insert_with
insert_bundle-live naming written bst b senders d s found live =
    let (new, e, same, there) = insert_known-live bst (bundle_id b) d senders live in
    (insert_known bst (bundle_id b) d senders, new, simp (s, found), e, same, there)
