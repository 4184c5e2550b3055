-- ===== src/Processing/Begun.antt =====
-- The first step of a forwarding, and what the later ones do to the constraints.
use ma_sinafadavi_iran.Prelude.{
  ℕ, String, ◌++◌, ◌≡◌, refl, Bool, true, false, List, [], ◌∷◌, arith, ltb, length,
}
use ma_sinafadavi_iran.Bpv7.Endpoint.{EndpointId}
use ma_sinafadavi_iran.Bpv7.Bundle.{Bundle}
use ma_sinafadavi_iran.Store.Constraints.{dispatch_pending, forward_pending, valid}
use ma_sinafadavi_iran.Store.Descriptor.{
  BundleDescriptor, Result, ok, Effect, add_constraint, remove_constraint,
}
use ma_sinafadavi_iran.Store.Descriptor.Invariant.{is_forwarding, without, remove_loop-without}
use ma_sinafadavi_iran.Routing.Peers.{Sender}
use ma_sinafadavi_iran.Processing.{Selector, forwarding, forward_selected, after_removal}

forward_pending_stays :
    (cs : List ℕ) → is_forwarding (without dispatch_pending (cs ++ forward_pending ∷ [])) ≡ true
forward_pending_stays [] = refl
forward_pending_stays (c ∷ cs) = ground (arith, forward_pending_stays cs)

length-stays :
    (cs : List ℕ) → ltb 0 (length (without dispatch_pending (cs ++ forward_pending ∷ []))) ≡ true
length-stays [] = refl
length-stays (c ∷ cs) = ground (arith, length-stays cs)

pub forward_pending_goes : (cs : List ℕ) → is_forwarding (without forward_pending cs) ≡ false
forward_pending_goes [] = refl
forward_pending_goes (c ∷ cs) = ground (arith, forward_pending_goes cs)

-- The descriptor between Step 1 and the selection.
pub record IsBegun (before after : BundleDescriptor) : Type 0 where
  pub live : after.deleted ≡ false
  pub same_metadata : after.metadata ≡ before.metadata
  pub undispatchable : after.dispatch ≡ false

unfoldable pub begun : BundleDescriptor → BundleDescriptor
begun d =
    (remove_constraint (add_constraint d forward_pending).descriptor dispatch_pending).descriptor

pub begun-IsBegun : (d : BundleDescriptor) → d.deleted ≡ false → IsBegun d (begun d)
unfolding begun add_constraint remove_constraint valid
begun-IsBegun d live =
    let loop =
      remove_loop-without dispatch_pending (d.retention_constraints ++ forward_pending ∷ []) true in
    let stays = forward_pending_stays d.retention_constraints in
    let long = length-stays d.retention_constraints in
    record {
      live = ground (arith, loop, stays, long);
      same_metadata = ground (arith, loop, stays, long);
      undispatchable = ground (arith, loop, stays, long);
    }

add_forward_pending-ok :
    (d : BundleDescriptor)
    → d.deleted ≡ false
    → ((add_constraint d forward_pending).result ≡ ok tt)
      × ((add_constraint d forward_pending).descriptor.deleted ≡ false)
unfolding add_constraint valid
add_forward_pending-ok d live = (ground arith, ground arith)

remove_constraint-ok :
    (d : BundleDescriptor) (c : ℕ) → d.deleted ≡ false → (remove_constraint d c).result ≡ ok tt
unfolding remove_constraint
remove_constraint-ok d c live = ground arith

-- A bundle that is not deleted comes to the selection.
pub forwarding-selected :
    (own : EndpointId) (disk : String → Result Bundle) (send : Bundle → Sender → Bool)
    (select : Selector) (peers : List Sender) (d : BundleDescriptor)
    → d.deleted ≡ false
    → (es : List Effect) × (forwarding own disk send select peers d
        ≡ forward_selected own disk send es (select (begun d) peers).peers (select (begun d) peers))
unfolding forwarding after_removal begun
forwarding-selected own disk send select peers d live =
    let (added, alive) = add_forward_pending-ok d live in
    let r = add_constraint d forward_pending in
    rw
      (
        added,
        remove_constraint-ok r.descriptor dispatch_pending alive,
        forwarding,
        after_removal,
        begun,
      )
      (r.effects ++ (remove_constraint r.descriptor dispatch_pending).effects, refl)
