-- ===== src/Store/Examples.antt =====
-- A small store on which the theorems about package store are applied.
use ma_sinafadavi_iran.Prelude.{◌≡◌, refl, true, false, List, [], ◌∷◌, ◌==◌, All}
use ma_sinafadavi_iran.Bpv7.Outcome.{ok as returned}
use ma_sinafadavi_iran.Bpv7.Bundle.{extension_block_by_type}
use ma_sinafadavi_iran.Bpv7.BundleId.{BundleId, id_eq, bundle_id}
use ma_sinafadavi_iran.Bpv7.Examples.{node, bundle}
use ma_sinafadavi_iran.Store.Descriptor.{
  BundleMetadata, BundleDescriptor, ok, err, bundle_deleted, new_bundle_descriptor, add_constraint,
  remove_constraint, delete,
}
use ma_sinafadavi_iran.Store.Descriptor.Invariant.{IsConsistent, new_bundle_descriptor-IsConsistent}
use ma_sinafadavi_iran.Store.Descriptor.History.{
  Call, adds_constraint, removes_constraint, deletes, step, run, deletions, to_number,
  run-IsConsistent, deletions-run, step-deleted,
}
use ma_sinafadavi_iran.Store.Bundles.{
  BundleStore, Naming, descriptors_with, get_dispatchable, get_bundle_descriptor, insert_bundle,
  garbage_collect, sender, new_metadata,
}
use ma_sinafadavi_iran.Store.Bundles.Collect.{
  ConsistentEntry, uncollected, garbage_collect-uncollected,
}
use ma_sinafadavi_iran.Store.Bundles.Reachable.{
  opened, inserted as is_inserted, collected, is_idle, Reached-Consistent, get_dispatchable-is_idle,
}
use ma_sinafadavi_iran.Store.Bundles.Insert.{insert_bundle-get}

abbrev pub naming : Naming
naming = record { show = λ id. "id"; file_name = λ s. s }

abbrev pub metadata : BundleMetadata
metadata = record {
  id = bundle_id bundle;
  source = node 1;
  destination = node 2;
  report_to = node 1;
  is_administrative_record = false;
  miscellaneous_data = [];
  id_string = "id";
  known_holders = node 5 ∷ [];
  expires = 100;
  serialised_file_name = "id";
}

abbrev pub descriptor : BundleDescriptor
descriptor = new_bundle_descriptor metadata

-- A bundle is marked for deletion and then loses its constraints.
abbrev calls : List Call
calls = adds_constraint 1 ∷ deletes true ∷ removes_constraint 0 ∷ removes_constraint 1 ∷ []

run-IsConsistent_example : IsConsistent (run descriptor calls).0
run-IsConsistent_example = run-IsConsistent metadata calls

deletions-run_example :
    deletions (run descriptor calls).1 ≡ to_number (run descriptor calls).0.deleted
deletions-run_example = deletions-run metadata calls

abbrev gone : BundleDescriptor
gone = (run descriptor calls).0

gone-deleted : gone.deleted ≡ true
unfolding run delete remove_constraint new_bundle_descriptor add_constraint
gone-deleted = refl

step-deleted_example :
    step gone (adds_constraint 2)
    ≡ record { descriptor = gone; effects = []; result = err (bundle_deleted gone.metadata.id) }
step-deleted_example =
    step-deleted gone (adds_constraint 2) (run-IsConsistent metadata calls) gone-deleted refl

abbrev pub small_store : BundleStore
small_store = record { node_id = node 5; bundles = (bundle_id bundle, descriptor) ∷ [] }

garbage_collect-uncollected_example :
    get_bundle_descriptor (garbage_collect 200 small_store).0 (bundle_id bundle)
    ≡ uncollected 200 (bundle_id bundle) (get_bundle_descriptor small_store (bundle_id bundle))
garbage_collect-uncollected_example =
    garbage_collect-uncollected 200 small_store (bundle_id bundle)
      (new_bundle_descriptor-IsConsistent metadata, tt)

abbrev pub empty_store : BundleStore
empty_store = record { node_id = node 5; bundles = [] }

abbrev pub inserted : BundleDescriptor
inserted = new_bundle_descriptor (new_metadata naming (node 5) bundle [])

abbrev filled : BundleStore
filled = record { node_id = node 5; bundles = (bundle_id bundle, inserted) ∷ [] }

insert_bundle-filled :
    insert_bundle naming (ok tt) empty_store bundle
    ≡ returned (record { store = filled; effects = []; result = ok inserted })
unfolding insert_bundle sender extension_block_by_type new_bundle_descriptor
insert_bundle-filled = refl

Reached-Consistent_example : All ConsistentEntry (garbage_collect 7 filled).0.bundles
Reached-Consistent_example = Reached-Consistent (garbage_collect 7 filled).0 (
    collected 7 (
      is_inserted naming (ok tt) bundle
        (record { store = filled; effects = []; result = ok inserted }) insert_bundle-filled
        (opened (node 5))))

get_dispatchable-is_idle_example : get_dispatchable filled ≡ descriptors_with is_idle filled.bundles
get_dispatchable-is_idle_example = get_dispatchable-is_idle filled (
    is_inserted naming (ok tt) bundle
      (record { store = filled; effects = []; result = ok inserted }) insert_bundle-filled
      (opened (node 5)))

insert_bundle-get_example :
    (get_bundle_descriptor
        (record { node_id = node 5; bundles = (bundle_id bundle, inserted) ∷ [] })
        (bundle_id bundle)
      ≡ ok inserted)
    × ((other : BundleId)
        → (bundle_id bundle == other) ≡ false
        → get_bundle_descriptor
            (record { node_id = node 5; bundles = (bundle_id bundle, inserted) ∷ [] })
            other
          ≡ get_bundle_descriptor empty_store other)
unfolding insert_bundle sender extension_block_by_type new_bundle_descriptor
insert_bundle-get_example =
    insert_bundle-get naming (ok tt) empty_store bundle
      (record {
        store = record { node_id = node 5; bundles = (bundle_id bundle, inserted) ∷ [] };
        effects = [];
        result = ok inserted;
      })
      inserted refl refl refl
