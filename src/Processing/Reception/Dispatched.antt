-- ===== src/Processing/Reception/Dispatched.antt =====
-- What a forwarding does to DispatchPending.
use ma_sinafadavi_iran.Prelude.{
  ℕ, String, ◌++◌, ◌≡◌, ◌∙◌, refl, sym, subst, Bool, true, false, List, [], ◌∷◌, arith, nat_beq,
  any, Bool-cases, inl, inr,
}
use ma_sinafadavi_iran.Bpv7.Endpoint.{EndpointId}
use ma_sinafadavi_iran.Bpv7.Bundle.{Bundle}
use ma_sinafadavi_iran.Bpv7.BundleId.{id_eq}
use ma_sinafadavi_iran.Store.Constraints.{dispatch_pending, forward_pending}
use ma_sinafadavi_iran.Store.Descriptor.{
  BundleDescriptor, Result, ok, err, Effect, add_known_holder, add_constraint, remove_constraint,
  reset_constraints,
}
use ma_sinafadavi_iran.Store.Descriptor.Invariant.{without, remove_loop-without}
use ma_sinafadavi_iran.Routing.Peers.{Sender}
use ma_sinafadavi_iran.Routing.Spray.{Selection}
use ma_sinafadavi_iran.Processing.{
  Forwarding, forwarding, forward_selected, forward_bundle, bundle_or_load, send_all, stopped,
  epidemic, with_previous_node,
}
use ma_sinafadavi_iran.Processing.Begun.{begun, forwarding-selected}

-- DispatchPending is not among the constraints of a descriptor.
abbrev pub IsDispatched : BundleDescriptor → Type 0
IsDispatched d = any (λ c. nat_beq c dispatch_pending) d.retention_constraints ≡ false

any-without_self : (c : ℕ) (cs : List ℕ) → any (λ x. nat_beq x c) (without c cs) ≡ false
any-without_self c [] = refl
any-without_self c (x ∷ xs) = ground (arith, any-without_self c xs)

any-without :
    (c other : ℕ) (cs : List ℕ)
    → any (λ x. nat_beq x other) cs ≡ false
    → any (λ x. nat_beq x other) (without c cs) ≡ false
any-without c other [] h = refl
any-without c other (x ∷ xs) h = ground (arith, any-without c other xs)

remove_constraint-IsDispatched :
    (d : BundleDescriptor) (c : ℕ)
    → IsDispatched d
    → IsDispatched (remove_constraint d c).descriptor
unfolding remove_constraint
remove_constraint-IsDispatched d c h = ground (
  arith,
  remove_loop-without c d.retention_constraints true,
  any-without c dispatch_pending d.retention_constraints h,
)

reset_constraints-IsDispatched :
    (d : BundleDescriptor) → IsDispatched d → IsDispatched (reset_constraints d).descriptor
unfolding reset_constraints
reset_constraints-IsDispatched d h = ground arith

add_known_holder-IsDispatched :
    (d : BundleDescriptor) (es : List EndpointId)
    → IsDispatched d
    → IsDispatched (add_known_holder d es).descriptor
unfolding add_known_holder
add_known_holder-IsDispatched d es h = ground arith

remove_dispatch_pending :
    (d : BundleDescriptor)
    → d.deleted ≡ false
    → IsDispatched (remove_constraint d dispatch_pending).descriptor
unfolding remove_constraint
remove_dispatch_pending d live = ground (
  arith,
  remove_loop-without dispatch_pending d.retention_constraints true,
  any-without_self dispatch_pending d.retention_constraints,
)

add_constraint-deleted :
    (d : BundleDescriptor) (c : ℕ) → (add_constraint d c).descriptor.deleted ≡ d.deleted
unfolding add_constraint
add_constraint-deleted d c = ground arith

begun-IsDispatched : (d : BundleDescriptor) → d.deleted ≡ false → IsDispatched (begun d)
unfolding begun
begun-IsDispatched d live =
    remove_dispatch_pending (add_constraint d forward_pending).descriptor
      (add_constraint-deleted d forward_pending ∙ live)

send_all-IsDispatched :
    (send : Bundle → Sender → Bool) (b : Bundle) (ss : List Sender) (d : BundleDescriptor)
    (es : List Effect)
    → IsDispatched d
    → IsDispatched (send_all send b ss d es).descriptor
unfolding send_all
send_all-IsDispatched send b [] d es h = h
send_all-IsDispatched send b (s ∷ ss) d es h = elim (Bool-cases (send b s)) [
  | inl e ↦
      let r = add_known_holder d (s.peer ∷ []) in
      rw (e, send_all)
        (send_all-IsDispatched send b ss r.descriptor (es ++ r.effects)
          (add_known_holder-IsDispatched d (s.peer ∷ []) h))
  | inr e ↦ rw (e, send_all) (send_all-IsDispatched send b ss d es h)
]

forward_bundle-IsDispatched :
    (own : EndpointId) (send : Bundle → Sender → Bool) (peers : List Sender) (d : BundleDescriptor)
    (es : List Effect) (loaded : Result Bundle)
    → IsDispatched d
    → IsDispatched (forward_bundle own send peers d es loaded).descriptor
unfolding forward_bundle stopped
forward_bundle-IsDispatched own send peers d es (err e) h = h
forward_bundle-IsDispatched own send peers d es (ok b) h =
    let b' = with_previous_node own b in
    remove_constraint-IsDispatched (send_all send b' peers d es).descriptor forward_pending
      (send_all-IsDispatched send b' peers d es h)

forward_selected-IsDispatched :
    (own : EndpointId) (disk : String → Result Bundle) (send : Bundle → Sender → Bool)
    (es : List Effect) (peers : List Sender) (sel : Selection)
    → IsDispatched sel.descriptor
    → IsDispatched (forward_selected own disk send es peers sel).descriptor
unfolding forward_selected stopped
forward_selected-IsDispatched own disk send es [] sel h =
    reset_constraints-IsDispatched sel.descriptor h
forward_selected-IsDispatched own disk send es (p ∷ ps) sel h =
    forward_bundle-IsDispatched own send (p ∷ ps) sel.descriptor (es ++ sel.effects)
      (bundle_or_load disk sel.descriptor sel.bundle) h

pub forwarding-IsDispatched :
    (own : EndpointId) (disk : String → Result Bundle) (send : Bundle → Sender → Bool)
    (peers : List Sender) (d : BundleDescriptor)
    → d.deleted ≡ false
    → IsDispatched (forwarding own disk send epidemic peers d).descriptor
unfolding epidemic
forwarding-IsDispatched own disk send peers d live =
    let (es, same) = forwarding-selected own disk send epidemic peers d live in
    let sel = epidemic (begun d) peers in
    subst (λ (f : Forwarding). IsDispatched f.descriptor) (sym same)
      (forward_selected-IsDispatched own disk send es sel.peers sel (begun-IsDispatched d live))
