-- ===== src/Processing/Once.antt =====
-- Epidemic forwarding: whom a bundle is sent to, and when it can be dispatched again.
use ma_sinafadavi_iran.Prelude.{
  ℕ, String, ◌++◌, ◌≡◌, ◌≢◌, ◌∙◌, refl, sym, subst, Bool, true, false, List, [], ◌∷◌, arith, All,
}
use ma_sinafadavi_iran.Bpv7.Endpoint.{EndpointId}
use ma_sinafadavi_iran.Bpv7.Bundle.{Bundle}
use ma_sinafadavi_iran.Store.Constraints.{forward_pending}
use ma_sinafadavi_iran.Store.Descriptor.{
  BundleDescriptor, Result, ok, err, Effect, remove_constraint, reset_constraints,
}
use ma_sinafadavi_iran.Store.Descriptor.Invariant.{remove_loop-without}
use ma_sinafadavi_iran.Routing.Peers.{Sender, holds, filter_peers, select_epidemic}
use ma_sinafadavi_iran.Routing.Peers.Filter.{filter_peers-unknown}
use ma_sinafadavi_iran.Routing.Spray.{Selection}
use ma_sinafadavi_iran.Processing.{
  Forwarding, load_failed, forwarding, forward_selected, forward_bundle, bundle_or_load, send_all,
  stopped, epidemic, with_previous_node,
}
use ma_sinafadavi_iran.Processing.Begun.{
  begun, begun-IsBegun, forwarding-selected, forward_pending_goes,
}
use ma_sinafadavi_iran.Processing.Sends.{
  known, send_all-All, send_all-deleted, send_all-delivered, send_all-stop,
}

remove_constraint-metadata :
    (d : BundleDescriptor) (c : ℕ) → (remove_constraint d c).descriptor.metadata ≡ d.metadata
unfolding remove_constraint
remove_constraint-metadata d c = ground arith

remove_forward_pending :
    (d : BundleDescriptor)
    → d.deleted ≡ false
    → (remove_constraint d forward_pending).descriptor.dispatch ≡ true
unfolding remove_constraint
remove_forward_pending d live = ground (
  arith,
  remove_loop-without forward_pending d.retention_constraints true,
  forward_pending_goes d.retention_constraints,
)

reset_constraints-dispatch :
    (d : BundleDescriptor) → d.deleted ≡ false → (reset_constraints d).descriptor.dispatch ≡ true
unfolding reset_constraints
reset_constraints-dispatch d live = ground arith

-- What a forwarding of `before` with selected peers that have `P` has done.
record HasForwarded (P : Sender → Type 0) (r : Forwarding) : Type 0 where
  allowed : All P r.delivered × All P r.failed
  remembered : All (λ s. known r.descriptor s ≡ true) r.delivered
  dispatchable : (r.stop ≢ load_failed) → r.descriptor.dispatch ≡ true
  stranded : r.stop ≡ load_failed → r.descriptor.dispatch ≡ false

forward_bundle-HasForwarded :
    (P : Sender → Type 0) (own : EndpointId) (send : Bundle → Sender → Bool) (peers : List Sender)
    (d : BundleDescriptor) (es : List Effect) (loaded : Result Bundle)
    → d.deleted ≡ false
    → d.dispatch ≡ false
    → All P peers
    → HasForwarded P (forward_bundle own send peers d es loaded)
unfolding forward_bundle stopped
forward_bundle-HasForwarded P own send peers d es (err e) live busy all = record {
  allowed = (tt, tt);
  remembered = tt;
  dispatchable = λ h. absurd (h refl);
  stranded = λ h. busy;
}
forward_bundle-HasForwarded P own send peers d es (ok b) live busy all =
    let b' = with_previous_node own b in
    let r = send_all send b' peers d es in
    record {
      allowed = send_all-All send b' P peers d es all;
      remembered =
          subst (λ m. All (λ (s : Sender). holds m.known_holders s ≡ true) r.delivered)
            (sym (remove_constraint-metadata r.descriptor forward_pending))
            (send_all-delivered send b' peers d es live);
      dispatchable =
          λ h. remove_forward_pending r.descriptor (send_all-deleted send b' peers d es ∙ live);
      stranded = λ h. cc (h, send_all-stop send b' peers d es);
    }

forward_selected-HasForwarded :
    (P : Sender → Type 0) (own : EndpointId) (disk : String → Result Bundle)
    (send : Bundle → Sender → Bool) (es : List Effect) (peers : List Sender) (sel : Selection)
    → sel.descriptor.deleted ≡ false
    → sel.descriptor.dispatch ≡ false
    → All P peers
    → HasForwarded P (forward_selected own disk send es peers sel)
unfolding forward_selected stopped
forward_selected-HasForwarded P own disk send es [] sel live busy all = record {
  allowed = (tt, tt);
  remembered = tt;
  dispatchable = λ h. reset_constraints-dispatch sel.descriptor live;
  stranded = λ h. cc;
}
forward_selected-HasForwarded P own disk send es (p ∷ ps) sel live busy all =
    forward_bundle-HasForwarded P own send (p ∷ ps) sel.descriptor (es ++ sel.effects)
      (bundle_or_load disk sel.descriptor sel.bundle) live busy all

filter_peers-begun :
    (d : BundleDescriptor) (peers : List Sender)
    → d.deleted ≡ false
    → All (λ s. known d s ≡ false) (filter_peers (begun d) peers)
filter_peers-begun d peers live =
    subst
      (λ m. All (λ (s : Sender). holds m.known_holders s ≡ false) (filter_peers (begun d) peers))
      (begun-IsBegun d live).same_metadata (filter_peers-unknown (begun d) peers)

forwarding-HasForwarded :
    (own : EndpointId) (disk : String → Result Bundle) (send : Bundle → Sender → Bool)
    (peers : List Sender) (d : BundleDescriptor)
    → d.deleted ≡ false
    → HasForwarded (λ s. known d s ≡ false) (forwarding own disk send epidemic peers d)
unfolding epidemic select_epidemic
forwarding-HasForwarded own disk send peers d live =
    let (es, same) = forwarding-selected own disk send epidemic peers d live in
    let v = begun-IsBegun d live in
    subst (HasForwarded (λ s. known d s ≡ false)) (sym same) (
      forward_selected-HasForwarded (λ s. known d s ≡ false) own disk send es
        (filter_peers (begun d) peers) (epidemic (begun d) peers) v.live v.undispatchable
        (filter_peers-begun d peers live))

-- With epidemic routing the forwarding of a bundle that is not deleted sends it only to peers that were
-- not among its known holders, and every peer that it was sent to without an error is among them
-- afterwards.
pub forwarding_once :
    (own : EndpointId) (disk : String → Result Bundle) (send : Bundle → Sender → Bool)
    (peers : List Sender) (d : BundleDescriptor)
    → d.deleted ≡ false
    → let r = forwarding own disk send epidemic peers d in
      All (λ s. known d s ≡ false) r.delivered
      × All (λ s. known d s ≡ false) r.failed
      × All (λ s. known r.descriptor s ≡ true) r.delivered
forwarding_once own disk send peers d live =
    let v = forwarding-HasForwarded own disk send peers d live in
    (v.allowed.0, v.allowed.1, v.remembered)

-- With epidemic routing a bundle that is not deleted has its dispatch flag set after a forwarding, unless
-- the forwarding stopped because the bundle could not be loaded: then the flag is off.
pub forwarding-dispatch :
    (own : EndpointId) (disk : String → Result Bundle) (send : Bundle → Sender → Bool)
    (peers : List Sender) (d : BundleDescriptor)
    → d.deleted ≡ false
    → let r = forwarding own disk send epidemic peers d in
      (r.stop ≢ load_failed → r.descriptor.dispatch ≡ true)
      × (r.stop ≡ load_failed → r.descriptor.dispatch ≡ false)
forwarding-dispatch own disk send peers d live =
    let v = forwarding-HasForwarded own disk send peers d live in (v.dispatchable, v.stranded)
