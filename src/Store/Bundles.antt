-- ===== src/Store/Bundles.antt =====
-- dtnd7-go/pkg/store/store.go: the map of bundle descriptors. Each method holds the store's lock. What
-- the database and the disk answer, the text of an id and the hash of a text are arguments; the order in
-- which Go visits a map is that of the association list.
pub mod Collect
pub mod Insert
pub mod Reachable
use ma_sinafadavi_iran.Prelude.{
  ℕ, ◌+◌, ◌-◌, ◌*◌, String, ◌++◌, Bool, true, false, not, ◌&&◌, ◌⊎◌, inl, inr, Option, none, some,
  List, [], ◌∷◌, if◌then◌else◌, find, put, erase,
}
use ma_sinafadavi_iran.Bpv7.Outcome.{Outcome, Fault, ok as returned, panic, ◌>>=◌}
use ma_sinafadavi_iran.Bpv7.Flags.{has, administrative_record_payload}
use ma_sinafadavi_iran.Bpv7.Endpoint.{EndpointId}
use ma_sinafadavi_iran.Bpv7.Time.{unix_milliseconds, lifetime_duration, pos64, neg64}
use ma_sinafadavi_iran.Bpv7.Block.{CanonicalBlock, previous_node_block, type_previous_node}
use ma_sinafadavi_iran.Bpv7.Bundle.{Bundle, extension_block_by_type}
use ma_sinafadavi_iran.Bpv7.BundleId.{BundleId, id_eq, bundle_id}
use ma_sinafadavi_iran.Store.Descriptor.{
  BundleMetadata, BundleDescriptor, StoreError, no_such_bundle, bundle_deleted, Result, ok, err,
  Effect, Ran, new_bundle_descriptor, add_known_holder, has_constraint, may_dispatch, is_retained,
  delete, expired,
}

pub record BundleStore : Type 0 where
  pub node_id : EndpointId
  pub bundles : List (BundleId × BundleDescriptor)

-- BundleID.String and the file name that is the SHA-256 of a text.
pub record Naming : Type 0 where
  pub show : BundleId → String
  pub file_name : String → String

live_descriptor : BundleId → Option BundleDescriptor → Result BundleDescriptor
live_descriptor id none = err (no_such_bundle id)
live_descriptor id (some d) = if d.deleted then err (no_such_bundle id) else ok d

unfoldable pub get_bundle_descriptor : BundleStore → BundleId → Result BundleDescriptor
unfolding live_descriptor
get_bundle_descriptor bst id = live_descriptor id (find id bst.bundles)

pub descriptors_with :
    (BundleDescriptor → Bool) → List (BundleId × BundleDescriptor) → List BundleDescriptor
descriptors_with p [] = []
descriptors_with p ((_, d) ∷ m) = let rest = descriptors_with p m in if p d then d ∷ rest else rest

is_constrained : ℕ → BundleDescriptor → Bool
is_constrained constraint d = elim (has_constraint d constraint) [ ok b ↦ b | err _ ↦ false ]

unfoldable pub get_with_constraint : BundleStore → ℕ → List BundleDescriptor
unfolding descriptors_with is_constrained
get_with_constraint bst constraint = descriptors_with (is_constrained constraint) bst.bundles

unfoldable pub get_dispatchable : BundleStore → List BundleDescriptor
unfolding descriptors_with
get_dispatchable bst = descriptors_with may_dispatch bst.bundles

-- BundleDescriptor.Load, with what opening and parsing a file gives.
unfoldable pub load : (String → Result Bundle) → BundleDescriptor → Result Bundle
load disk d =
    if d.deleted then err (bundle_deleted d.metadata.id) else disk d.metadata.serialised_file_name

-- The sender that a bundle names, where the type assertion on the block may fail.
previous_node : CanonicalBlock ⊎ Fault → Outcome (List EndpointId)
previous_node (inr fault) = returned []
previous_node (inl block) = elim (block.value) [
  | previous_node_block e ↦ returned (e ∷ [])
  | _ ↦ panic
]

unfoldable pub sender : Bundle → Outcome (List EndpointId)
unfolding previous_node
sender b = previous_node (extension_block_by_type b type_previous_node)

-- CreationTimestamp.DtnTime().Time().Add(lifetime), in nanoseconds since 1970.
expiry : Bundle → ℕ
expiry b =
    let ms = unix_milliseconds b.primary_block.creation_timestamp.dtn_time in
    let d = lifetime_duration b.primary_block.lifetime in
    pos64 ms * 1000000 + pos64 d - (neg64 ms * 1000000 + neg64 d)

pub new_metadata : Naming → EndpointId → Bundle → List EndpointId → BundleMetadata
unfolding bundle_id expiry
new_metadata naming node b senders = record {
  id = bundle_id b;
  source = b.primary_block.source_node;
  destination = b.primary_block.destination;
  report_to = b.primary_block.report_to;
  is_administrative_record = has b.primary_block.bundle_control_flags administrative_record_payload;
  miscellaneous_data = [];
  id_string = naming.show (bundle_id b);
  known_holders = node ∷ senders;
  expires = expiry b;
  serialised_file_name = naming.file_name (naming.show (bundle_id b));
}

-- A call of the store: the store after it, what a descriptor did, and the result.
pub record Inserted : Type 0 where
  pub store : BundleStore
  pub effects : List Effect
  pub result : Result BundleDescriptor

-- insertNewBundleUnsafe. `written` is the outcome of writing the metadata and the bundle.
insert_new : Naming → Result (Unit {0}) → BundleStore → Bundle → List EndpointId → Inserted
unfolding new_metadata new_bundle_descriptor
insert_new naming (err e) bst b senders = record { store = bst; effects = []; result = err e }
insert_new naming (ok _) bst b senders =
    let d = new_bundle_descriptor (new_metadata naming bst.node_id b senders) in
    record {
      store = record bst { bundles = put (bundle_id b) d bst.bundles };
      effects = [];
      result = ok d;
    }

holder_result : BundleDescriptor → Result (Unit {0}) → Result BundleDescriptor
holder_result d (ok _) = ok d
holder_result d (err e) = err e

-- The descriptor of a known bundle learns its sender. The map's pointer sees the change.
insert_known : BundleStore → BundleId → BundleDescriptor → List EndpointId → Inserted
unfolding holder_result add_known_holder
insert_known bst id d [] = record { store = bst; effects = []; result = ok d }
insert_known bst id d (e ∷ es) =
    let r = add_known_holder d (e ∷ es) in
    record {
      store = record bst { bundles = put id r.descriptor bst.bundles };
      effects = r.effects;
      result = holder_result r.descriptor r.result;
    }

insert_with :
    Naming
    → Result (Unit {0})
    → BundleStore
    → Bundle
    → List EndpointId
    → Option BundleDescriptor
    → Inserted
unfolding insert_new insert_known
insert_with naming written bst b senders none = insert_new naming written bst b senders
insert_with naming written bst b senders (some d) = insert_known bst (bundle_id b) d senders

unfoldable pub insert_bundle : Naming → Result (Unit {0}) → BundleStore → Bundle → Outcome Inserted
unfolding insert_with sender
insert_bundle naming written bst b = sender b >>= λ senders.
    returned (insert_with naming written bst b senders (find (bundle_id b) bst.bundles))

-- deleteBundle, on the map.
unfoldable pub delete_bundle : BundleStore → BundleMetadata → BundleStore
delete_bundle bst m = record bst { bundles = erase m.id bst.bundles }

collect_one : ℕ → BundleDescriptor → BundleDescriptor × List Effect
unfolding expired is_retained delete
collect_one now d =
    if expired now d && not (is_retained d)
    then (let r = delete d false in (r.descriptor, r.effects))
    else (d, [])

collect : ℕ → List (BundleId × BundleDescriptor) → List (BundleId × BundleDescriptor) × List Effect
unfolding collect_one
collect now [] = ([], [])
collect now ((id, d) ∷ m) =
    let (d', es) = collect_one now d in let (m', es') = collect now m in ((id, d') ∷ m', es ++ es')

-- GarbageCollect: the deletions that it starts are among the effects, and run after it.
unfoldable pub garbage_collect : ℕ → BundleStore → BundleStore × List Effect
unfolding collect
garbage_collect now bst = let (m, es) = collect now bst.bundles in (record bst { bundles = m }, es)
