-- ===== src/Store/Descriptor/Invariant.antt =====
-- What the flags of a descriptor say of its constraints, kept by every method.
use ma_sinafadavi_iran.Prelude.{
  ℕ, String, ◌++◌, ◌≡◌, refl, Bool, true, false, not, ◌&&◌, ◌||◌, List, [], ◌∷◌, arith, nat_beq,
  ltb, length, any, select,
}
use ma_sinafadavi_iran.Bpv7.Endpoint.{EndpointId}
use ma_sinafadavi_iran.Store.Constraints.{forward_pending}
use ma_sinafadavi_iran.Store.Descriptor.{
  BundleMetadata, BundleDescriptor, Result, new_bundle_descriptor, set_misc_data, add_known_holder,
  add_constraint, remove_loop, remove_constraint, reset_constraints, delete,
}

abbrev pub is_forwarding : List ℕ → Bool
is_forwarding = any (λ c. nat_beq c forward_pending)

abbrev pub is_nonempty : List ℕ → Bool
is_nonempty [] = false
is_nonempty (c ∷ cs) = true

pub record IsConsistent (d : BundleDescriptor) : Type 0 where
  pub retained : d.retain ≡ is_nonempty d.retention_constraints
  pub dispatched : d.dispatch ≡ not (is_forwarding d.retention_constraints)
  -- A bundle that is deleted has no constraint.
  pub unconstrained : d.deleted ≡ true → d.retention_constraints ≡ []
  -- A marked bundle without constraints is deleted.
  pub marked : d.should_delete ≡ true → d.retention_constraints ≡ [] → d.deleted ≡ true

abbrev pub without : ℕ → List ℕ → List ℕ
without c = select (λ x. not (nat_beq x c))

-- The loop keeps the other constraints, and clears the flag if ForwardPending is among them.
pub remove_loop-without :
    (c : ℕ) (cs : List ℕ) (dispatch : Bool)
    → remove_loop c cs dispatch ≡ (without c cs, dispatch && not (is_forwarding (without c cs)))
unfolding remove_loop
remove_loop-without c [] dispatch = ground arith
remove_loop-without c (x ∷ xs) dispatch =
    ground (arith, remove_loop-without c xs dispatch, remove_loop-without c xs false)

is_forwarding-append :
    (cs : List ℕ) (c : ℕ)
    → is_forwarding (cs ++ c ∷ []) ≡ (is_forwarding cs || nat_beq c forward_pending)
is_forwarding-append [] c = ground arith
is_forwarding-append (x ∷ xs) c = ground (arith, is_forwarding-append xs c)

is_nonempty-append : (cs : List ℕ) (c : ℕ) → is_nonempty (cs ++ c ∷ []) ≡ true
is_nonempty-append [] c = refl
is_nonempty-append (x ∷ xs) c = refl

pub is_nonempty-length : (cs : List ℕ) → ltb 0 (length cs) ≡ is_nonempty cs
is_nonempty-length [] = refl
is_nonempty-length (c ∷ cs) = ground arith

pub new_bundle_descriptor-IsConsistent :
    (m : BundleMetadata) → IsConsistent (new_bundle_descriptor m)
unfolding new_bundle_descriptor
new_bundle_descriptor-IsConsistent m = ground arith

module _ {d : BundleDescriptor} (v : IsConsistent d) where
  pub set_misc_data-IsConsistent :
      (written : Result (Unit {0})) (key : String) (value : ℕ)
      → IsConsistent (set_misc_data written d key value).descriptor
  unfolding set_misc_data
  set_misc_data-IsConsistent written key value = ground arith

  pub add_known_holder-IsConsistent :
      (peers : List EndpointId) → IsConsistent (add_known_holder d peers).descriptor
  unfolding add_known_holder
  add_known_holder-IsConsistent peers = ground arith

  pub add_constraint-IsConsistent : (c : ℕ) → IsConsistent (add_constraint d c).descriptor
  unfolding add_constraint
  add_constraint-IsConsistent c = ground (
    arith,
    is_forwarding-append d.retention_constraints c,
    is_nonempty-append d.retention_constraints c,
  )

  pub reset_constraints-IsConsistent : IsConsistent (reset_constraints d).descriptor
  unfolding reset_constraints
  reset_constraints-IsConsistent = ground arith

  pub delete-IsConsistent : (mark : Bool) → IsConsistent (delete d mark).descriptor
  unfolding delete
  delete-IsConsistent mark = ground (arith, is_nonempty-length d.retention_constraints)

  pub remove_constraint-IsConsistent : (c : ℕ) → IsConsistent (remove_constraint d c).descriptor
  unfolding remove_constraint
  remove_constraint-IsConsistent c = ground (
    arith,
    remove_loop-without c d.retention_constraints true,
    is_nonempty-length (without c d.retention_constraints),
  )
