-- ===== src/Processing/Sends.antt =====
-- The single sends of a forwarding, and the known holders.
use ma_sinafadavi_iran.Prelude.{
  ◌++◌, ◌≡◌, ◌∙◌, refl, Bool, true, false, ◌||◌, List, [], ◌∷◌, arith, All, Bool-cases, inl, inr,
}
use ma_sinafadavi_iran.Bpv7.Endpoint.{EndpointId, eid_beq_iff}
use ma_sinafadavi_iran.Bpv7.Bundle.{Bundle}
use ma_sinafadavi_iran.Store.Descriptor.{BundleDescriptor, Effect, add_known_holder}
use ma_sinafadavi_iran.Routing.Peers.{Sender, holds}
use ma_sinafadavi_iran.Processing.{forwarded, send_all}

-- Known holders are senders' peers that the descriptor lists.
abbrev pub known : BundleDescriptor → Sender → Bool
known d s = holds d.metadata.known_holders s

holds-append :
    (xs ys : List EndpointId) (s : Sender) → holds (xs ++ ys) s ≡ (holds xs s || holds ys s)
unfolding holds
holds-append [] ys s = refl
holds-append (x ∷ xs) ys s = ground (arith, holds-append xs ys s)

add_known_holder-known :
    (d : BundleDescriptor) (s t : Sender)
    → d.deleted ≡ false
    → known (add_known_holder d (s.peer ∷ [])).descriptor t ≡ (known d t || holds (s.peer ∷ []) t)
unfolding add_known_holder
add_known_holder-known d s t live =
    ground (arith, holds-append d.metadata.known_holders (s.peer ∷ []) t)

add_known_holder-flags :
    (d : BundleDescriptor) (es : List EndpointId)
    → ((add_known_holder d es).descriptor.deleted ≡ d.deleted)
      × ((add_known_holder d es).descriptor.dispatch ≡ d.dispatch)
unfolding add_known_holder
add_known_holder-flags d es = (ground arith, ground arith)

holds_self : (s : Sender) → holds (s.peer ∷ []) s ≡ true
unfolding holds
holds_self s = ground (arith, eid_beq_iff s.peer s.peer)

module _ (send : Bundle → Sender → Bool) (b : Bundle) where
  pub send_all-All :
      (P : Sender → Type 0) (ss : List Sender) (d : BundleDescriptor) (es : List Effect)
      → All P ss
      → All P (send_all send b ss d es).delivered × All P (send_all send b ss d es).failed
  unfolding send_all
  send_all-All P [] d es h = (tt, tt)
  send_all-All P (s ∷ ss) d es (h, hs) = elim (Bool-cases (send b s)) [
    | inl e ↦
        rw (e, send_all)
          (let r = add_known_holder d (s.peer ∷ []) in
            let (delivered, failed) = send_all-All P ss r.descriptor (es ++ r.effects) hs in
            ((h, delivered), failed))
    | inr e ↦
        rw (e, send_all)
          (let (delivered, failed) = send_all-All P ss d es hs in (delivered, (h, failed)))
  ]

  pub send_all-deleted :
      (ss : List Sender) (d : BundleDescriptor) (es : List Effect)
      → (send_all send b ss d es).descriptor.deleted ≡ d.deleted
  unfolding send_all
  send_all-deleted [] d es = refl
  send_all-deleted (s ∷ ss) d es = elim (Bool-cases (send b s)) [
    | inl e ↦
        rw (e, send_all)
          (let r = add_known_holder d (s.peer ∷ []) in
            send_all-deleted ss r.descriptor (es ++ r.effects)
            ∙ (add_known_holder-flags d (s.peer ∷ [])).0)
    | inr e ↦ rw (e, send_all) (send_all-deleted ss d es)
  ]

  pub send_all-known :
      (ss : List Sender) (d : BundleDescriptor) (es : List Effect) (t : Sender)
      → d.deleted ≡ false
      → known d t ≡ true
      → known (send_all send b ss d es).descriptor t ≡ true
  unfolding send_all
  send_all-known [] d es t live h = h
  send_all-known (s ∷ ss) d es t live h = elim (Bool-cases (send b s)) [
    | inl e ↦
        rw (e, send_all)
          (let r = add_known_holder d (s.peer ∷ []) in
            send_all-known ss r.descriptor (es ++ r.effects) t
              ((add_known_holder-flags d (s.peer ∷ [])).0 ∙ live)
              (ground (arith, add_known_holder-known d s t live)))
    | inr e ↦ rw (e, send_all) (send_all-known ss d es t live h)
  ]

  pub send_all-delivered :
      (ss : List Sender) (d : BundleDescriptor) (es : List Effect)
      → d.deleted ≡ false
      → All
          (λ t. known (send_all send b ss d es).descriptor t ≡ true)
          (send_all send b ss d es).delivered
  unfolding send_all
  send_all-delivered [] d es live = tt
  send_all-delivered (s ∷ ss) d es live = elim (Bool-cases (send b s)) [
    | inl e ↦
        rw (e, send_all)
          (let r = add_known_holder d (s.peer ∷ []) in
            let live' = (add_known_holder-flags d (s.peer ∷ [])).0 ∙ live in
            (
              send_all-known ss r.descriptor (es ++ r.effects) s live'
                  (ground (arith, add_known_holder-known d s s live, holds_self s)),
              send_all-delivered ss r.descriptor (es ++ r.effects) live',
            ))
    | inr e ↦ rw (e, send_all) (send_all-delivered ss d es live)
  ]

  pub send_all-stop :
      (ss : List Sender) (d : BundleDescriptor) (es : List Effect)
      → (send_all send b ss d es).stop ≡ forwarded
  unfolding send_all
  send_all-stop [] d es = refl
  send_all-stop (s ∷ ss) d es = elim (Bool-cases (send b s)) [
    | inl e ↦
        rw (e, send_all)
          (let r = add_known_holder d (s.peer ∷ []) in
            send_all-stop ss r.descriptor (es ++ r.effects))
    | inr e ↦ rw (e, send_all) (send_all-stop ss d es)
  ]
