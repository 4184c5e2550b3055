-- ===== src/Store/Descriptor/History.antt =====
-- A descriptor under any sequence of method calls, as the goroutines that share it make them.
use ma_sinafadavi_iran.Prelude.{
  ℕ, suc, ◌+◌, String, ◌++◌, ◌≡◌, Bool, true, false, List, [], ◌∷◌, arith,
}
use ma_sinafadavi_iran.Bpv7.Endpoint.{EndpointId}
use ma_sinafadavi_iran.Store.Descriptor.{
  BundleMetadata, BundleDescriptor, Result, err, bundle_deleted, Ran, Effect, update_metadata,
  delete_bundle, new_bundle_descriptor, set_misc_data, add_known_holder, add_constraint,
  remove_constraint, reset_constraints, delete,
}
use ma_sinafadavi_iran.Store.Descriptor.Invariant.{
  IsConsistent, new_bundle_descriptor-IsConsistent, set_misc_data-IsConsistent,
  add_known_holder-IsConsistent, add_constraint-IsConsistent, remove_constraint-IsConsistent,
  reset_constraints-IsConsistent, delete-IsConsistent,
}

-- The methods that change a descriptor, with their arguments.
pub data Call : Type 0 where
  sets_misc_data : Result (Unit {0}) → String → ℕ → Call
  adds_known_holder : List EndpointId → Call
  adds_constraint : ℕ → Call
  removes_constraint : ℕ → Call
  resets_constraints : Call
  deletes : Bool → Call

unfoldable pub step : BundleDescriptor → Call → Ran (Unit {0})
step d (sets_misc_data written key value) = set_misc_data written d key value
step d (adds_known_holder peers) = add_known_holder d peers
step d (adds_constraint c) = add_constraint d c
step d (removes_constraint c) = remove_constraint d c
step d resets_constraints = reset_constraints d
step d (deletes mark) = delete d mark

-- The descriptor and the effects after the calls.
unfoldable pub run : BundleDescriptor → List Call → BundleDescriptor × List Effect
unfolding step
run d [] = (d, [])
run d (c ∷ cs) =
    let r = step d c in let (d', effects) = run r.descriptor cs in (d', r.effects ++ effects)

pub step-IsConsistent :
    (d : BundleDescriptor) (c : Call) → IsConsistent d → IsConsistent (step d c).descriptor
unfolding step
step-IsConsistent d (sets_misc_data written key value) v =
    set_misc_data-IsConsistent v written key value
step-IsConsistent d (adds_known_holder peers) v = add_known_holder-IsConsistent v peers
step-IsConsistent d (adds_constraint c) v = add_constraint-IsConsistent v c
step-IsConsistent d (removes_constraint c) v = remove_constraint-IsConsistent v c
step-IsConsistent d resets_constraints v = reset_constraints-IsConsistent v
step-IsConsistent d (deletes mark) v = delete-IsConsistent v mark

run-IsConsistent' :
    (d : BundleDescriptor) (cs : List Call) → IsConsistent d → IsConsistent (run d cs).0
unfolding run
run-IsConsistent' d [] v = v
run-IsConsistent' d (c ∷ cs) v =
    run-IsConsistent' (step d c).descriptor cs (step-IsConsistent d c v)

-- After any calls on a new descriptor its flags agree with its constraints: `retain` says that there
-- is one, `dispatch` that ForwardPending is not among them, a deleted bundle has none, and a bundle
-- that is marked for deletion and has none is deleted.
pub run-IsConsistent :
    (m : BundleMetadata) (cs : List Call) → IsConsistent (run (new_bundle_descriptor m) cs).0
run-IsConsistent m cs =
    run-IsConsistent' (new_bundle_descriptor m) cs (new_bundle_descriptor-IsConsistent m)

abbrev pub deletions : List Effect → ℕ
deletions [] = 0
deletions (update_metadata _ ∷ es) = deletions es
deletions (delete_bundle _ ∷ es) = suc (deletions es)

abbrev pub to_number : Bool → ℕ
to_number true = 1
to_number false = 0

deletions-append : (xs ys : List Effect) → deletions (xs ++ ys) ≡ deletions xs + deletions ys
deletions-append [] ys = omega arith
deletions-append (update_metadata _ ∷ xs) ys = deletions-append xs ys
deletions-append (delete_bundle _ ∷ xs) ys = omega (arith, deletions-append xs ys)

deletions-step :
    (d : BundleDescriptor) (c : Call)
    → to_number d.deleted + deletions (step d c).effects ≡ to_number (step d c).descriptor.deleted
unfolding step set_misc_data add_known_holder add_constraint remove_constraint reset_constraints
    delete
deletions-step d (sets_misc_data written key value) = omega arith
deletions-step d (adds_known_holder peers) = ground arith
deletions-step d (adds_constraint c) = ground arith
deletions-step d (removes_constraint c) = ground arith
deletions-step d resets_constraints = ground arith
deletions-step d (deletes mark) = ground arith

deletions-run' :
    (d : BundleDescriptor) (cs : List Call)
    → to_number d.deleted + deletions (run d cs).1 ≡ to_number (run d cs).0.deleted
unfolding run
deletions-run' d [] = omega arith
deletions-run' d (c ∷ cs) = omega (
  arith,
  deletions-step d c,
  deletions-run' (step d c).descriptor cs,
  deletions-append (step d c).effects (run (step d c).descriptor cs).1,
)

-- Over any calls on a new descriptor the store is told to delete the bundle once if the descriptor
-- ends up deleted, and never otherwise.
pub deletions-run :
    (m : BundleMetadata) (cs : List Call)
    → deletions (run (new_bundle_descriptor m) cs).1
      ≡ to_number (run (new_bundle_descriptor m) cs).0.deleted
unfolding new_bundle_descriptor
deletions-run m cs = omega (arith, deletions-run' (new_bundle_descriptor m) cs)

abbrev pub sets_data : Call → Bool
sets_data (sets_misc_data _ _ _) = true
sets_data _ = false

-- A deleted descriptor that is consistent refuses every call but SetMiscData with a
-- BundleDeletedError, and neither changes nor reaches the store.
pub step-deleted :
    (d : BundleDescriptor) (c : Call)
    → IsConsistent d
    → d.deleted ≡ true
    → sets_data c ≡ false
    → step d c
      ≡ record { descriptor = d; effects = []; result = err (bundle_deleted d.metadata.id) }
unfolding step add_known_holder add_constraint remove_constraint reset_constraints delete
step-deleted d (sets_misc_data written key value) v h s = cc
step-deleted d (adds_known_holder peers) v h s = ground arith
step-deleted d (adds_constraint c) v h s = ground arith
step-deleted d (removes_constraint c) v h s = ground arith
step-deleted d resets_constraints v h s = ground arith
step-deleted d (deletes mark) v h s = ground (arith, v.unconstrained h)

-- A bundle that is marked for deletion while it has constraints is deleted by the call that takes
-- the last one away, and the store is told so.
pub marked_deletion :
    (d : BundleDescriptor) (c : ℕ)
    → d.deleted ≡ false
    → d.retention_constraints ≡ c ∷ []
    → let marked = (step d (deletes true)).descriptor in
      let r = step marked (removes_constraint c) in
      (marked.deleted ≡ false)
      × (r.descriptor.deleted ≡ true)
      × (r.effects ≡ delete_bundle d.metadata ∷ [])
unfolding step delete remove_constraint
marked_deletion d c h e = (ground arith, ground arith, ground arith)
