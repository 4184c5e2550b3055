-- ===== src/Store/Descriptor.antt =====
-- dtnd7-go/pkg/store/bundle_descriptor.go and errors.go. A method holds the descriptor's lock from start to end, so
-- it is one step: a function to the new descriptor, the calls of the store that it makes, and the
-- result. The values of MiscellaneousData are the numbers that the program puts there.
pub mod Invariant
pub mod History
use ma_sinafadavi_iran.Prelude.{
  ℕ, String, ◌++◌, Bool, true, false, not, ◌&&◌, Option, none, some, List, [], ◌∷◌, nat_beq, ltb,
  if◌then◌else◌, length, any, string_eq, ◌==◌,
}
use ma_sinafadavi_iran.Bpv7.Endpoint.{EndpointId}
use ma_sinafadavi_iran.Bpv7.BundleId.{BundleId}
use ma_sinafadavi_iran.Store.Constraints.{dispatch_pending, forward_pending, valid}

pub record BundleMetadata : Type 0 where
  pub id : BundleId
  pub source : EndpointId
  pub destination : EndpointId
  pub report_to : EndpointId
  pub is_administrative_record : Bool
  pub miscellaneous_data : List (String × ℕ)
  pub id_string : String
  pub known_holders : List EndpointId
  pub expires : ℕ
  pub serialised_file_name : String

pub record BundleDescriptor : Type 0 where
  pub metadata : BundleMetadata
  pub retention_constraints : List ℕ
  pub retain : Bool
  pub dispatch : Bool
  pub deleted : Bool
  pub should_delete : Bool

pub data StoreError : Type 0 where
  bundle_deleted : BundleId → StoreError
  invalid_constraint : ℕ → StoreError
  has_constraints : List ℕ → StoreError
  no_such_bundle : BundleId → StoreError
  database_error disk_error : StoreError

pub data Result {ℓ} (A : Type ℓ) : Type ℓ where
  ok : A → Result A
  err : StoreError → Result A

-- What a method hands to the store: updateBundleMetadata, and `go deleteBundle`.
pub data Effect : Type 0 where
  update_metadata : BundleMetadata → Effect
  delete_bundle : BundleMetadata → Effect

pub record Ran (A : Type 0) : Type 0 where
  pub descriptor : BundleDescriptor
  pub effects : List Effect
  pub result : Result A

abbrev quiet : {A : Type 0} → BundleDescriptor → Result A → Ran A
quiet d r = record { descriptor = d; effects = []; result = r }

-- The guard of most methods: a deleted bundle's descriptor is left as it is.
abbrev unless_deleted : {A : Type 0} → BundleDescriptor → Ran A → Ran A
unless_deleted d r = if d.deleted then quiet d (err (bundle_deleted d.metadata.id)) else r

unfoldable pub new_bundle_descriptor : BundleMetadata → BundleDescriptor
new_bundle_descriptor metadata = record {
  metadata = metadata;
  retention_constraints = dispatch_pending ∷ [];
  retain = true;
  dispatch = true;
  deleted = false;
  should_delete = false;
}

unfoldable pub get_metadata : BundleDescriptor → Result BundleMetadata
get_metadata d = if d.deleted then err (bundle_deleted d.metadata.id) else ok d.metadata

unfoldable pub lookup_misc : String → List (String × ℕ) → Option ℕ
lookup_misc key [] = none
lookup_misc key ((k, v) ∷ rest) = if k == key then some v else lookup_misc key rest

unfoldable pub insert_misc : String → ℕ → List (String × ℕ) → List (String × ℕ)
insert_misc key value [] = (key, value) ∷ []
insert_misc key value ((k, v) ∷ rest) =
    let others = insert_misc key value rest in
    if k == key then (key, value) ∷ rest else (k, v) ∷ others

unfoldable pub get_misc_data : BundleDescriptor → String → Option ℕ
unfolding lookup_misc
get_misc_data d key = lookup_misc key d.metadata.miscellaneous_data

-- `written` is the outcome of the database's update. There is no test for a deleted bundle.
unfoldable pub set_misc_data : Result (Unit {0}) → BundleDescriptor → String → ℕ → Ran (Unit {0})
unfolding insert_misc
set_misc_data written d key value =
    let metadata = record (d.metadata) {
      miscellaneous_data = insert_misc key value d.metadata.miscellaneous_data;
    } in
    record {
      descriptor = record d { metadata = metadata };
      effects = update_metadata metadata ∷ [];
      result = written;
    }

unfoldable pub get_known_holders : BundleDescriptor → Result (List EndpointId)
get_known_holders d =
    if d.deleted then err (bundle_deleted d.metadata.id) else ok d.metadata.known_holders

-- An error of the database is only logged.
unfoldable pub add_known_holder : BundleDescriptor → List EndpointId → Ran (Unit {0})
add_known_holder d peers =
    let metadata = record (d.metadata) { known_holders = d.metadata.known_holders ++ peers } in
    unless_deleted d (record {
      descriptor = record d { metadata = metadata };
      effects = update_metadata metadata ∷ [];
      result = ok tt;
    })

unfoldable pub add_constraint : BundleDescriptor → ℕ → Ran (Unit {0})
unfolding valid
add_constraint d constraint = unless_deleted d (
    if valid constraint
    then quiet
        (record d {
          retention_constraints = d.retention_constraints ++ constraint ∷ [];
          retain = true;
          dispatch = if nat_beq constraint forward_pending then false else d.dispatch;
        })
        (ok tt)
    else quiet d (err (invalid_constraint constraint)))

-- unsafeDelete
unfoldable pub unsafe_delete : BundleDescriptor → Ran (Unit {0})
unsafe_delete d = unless_deleted d (record {
  descriptor = record d { deleted = true };
  effects = delete_bundle d.metadata ∷ [];
  result = ok tt;
})

-- The loop of RemoveConstraint, with the dispatch flag that it resets.
pub remove_loop : ℕ → List ℕ → Bool → List ℕ × Bool
remove_loop constraint [] dispatch = ([], dispatch)
remove_loop constraint (c ∷ cs) dispatch =
    let stays = not (nat_beq c constraint) in
    let (kept, dispatch') =
      remove_loop constraint cs
        (if stays then (if nat_beq c forward_pending then false else dispatch) else dispatch) in
    (if stays then c ∷ kept else kept, dispatch')

-- The end of RemoveConstraint and ResetConstraints, where the error of the deletion is dropped.
delete_if_marked : BundleDescriptor → Ran (Unit {0})
unfolding unsafe_delete
delete_if_marked d =
    if not d.retain && d.should_delete
    then record (unsafe_delete d) { result = ok tt }
    else quiet d (ok tt)

unfoldable pub remove_constraint : BundleDescriptor → ℕ → Ran (Unit {0})
unfolding remove_loop delete_if_marked
remove_constraint d constraint =
    let (kept, dispatch) = remove_loop constraint d.retention_constraints true in
    unless_deleted d (
      delete_if_marked (record d {
        retention_constraints = kept;
        retain = ltb 0 (length kept);
        dispatch = dispatch;
      }))

unfoldable pub reset_constraints : BundleDescriptor → Ran (Unit {0})
unfolding delete_if_marked
reset_constraints d =
    unless_deleted d
      (delete_if_marked (record d { retention_constraints = []; retain = false; dispatch = true }))

unfoldable pub has_constraint : BundleDescriptor → ℕ → Result Bool
has_constraint d constraint =
    if d.deleted
    then err (bundle_deleted d.metadata.id)
    else ok (any (λ c. nat_beq c constraint) d.retention_constraints)

-- Dispatch
unfoldable pub may_dispatch : BundleDescriptor → Bool
may_dispatch d = d.dispatch && not d.deleted

-- Retain
unfoldable pub is_retained : BundleDescriptor → Bool
is_retained d = d.retain && not d.deleted

-- Delete
unfoldable pub delete : BundleDescriptor → Bool → Ran (Unit {0})
unfolding unsafe_delete
delete d mark_if_constraint =
    if ltb 0 (length d.retention_constraints)
    then (if mark_if_constraint
        then quiet (record d { should_delete = true }) (ok tt)
        else quiet d (err (has_constraints d.retention_constraints)))
    else unsafe_delete d

-- Expired, with time.Now() in nanoseconds since 1970.
unfoldable pub expired : ℕ → BundleDescriptor → Bool
expired now d = ltb d.metadata.expires now
