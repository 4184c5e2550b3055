-- ===== src/Agent/Mailbox/Delivery.antt =====
-- A bundle on its way through a mailbox.
use ma_sinafadavi_iran.Prelude.{
  String, ◌≡◌, ◌∙◌, refl, Bool, true, false, none, some, arith, ◌==◌, find, put, find-put,
  find-put_other, find-keep, find-keep_dropped, Option-cases, Bool-cases, inl, inr, if◌then◌else◌,
}
use ma_sinafadavi_iran.Bpv7.Bundle.{Bundle}
use ma_sinafadavi_iran.Bpv7.BundleId.{BundleId, id_eq}
use ma_sinafadavi_iran.Store.Descriptor.{BundleDescriptor, Result, ok, err}
use ma_sinafadavi_iran.Store.Bundles.{BundleStore, get_bundle_descriptor}
use ma_sinafadavi_iran.Agent.Mailbox.{
  Messages, already_delivered, got, fetched, fetch, deliver, deliver_known, get, get_message,
  collect_mailbox, is_known,
}

-- The first delivery of a bundle that the store knows: the message is new, and the others are as before.
pub deliver_new :
    (bst : BundleStore) (box : Messages) (d known : BundleDescriptor)
    → find d.metadata.id box ≡ none
    → get_bundle_descriptor bst d.metadata.id ≡ ok known
    → deliver bst box d ≡ (put d.metadata.id false box, none)
unfolding deliver deliver_known
deliver_new bst box d known absent stored = rw (absent, stored)

deliver_again :
    (bst : BundleStore) (box : Messages) (d : BundleDescriptor) (retrieved : Bool)
    → find d.metadata.id box ≡ some retrieved
    → deliver bst box d ≡ (box, some (already_delivered d.metadata.id))
unfolding deliver
deliver_again bst box d retrieved present = rw present

-- A bundle that the store has and can load, and that is not yet in the mailbox: it is delivered, Get gives
-- it with no error and marks it, a later delivery of it is refused and changes nothing, and no message of
-- another bundle is touched.
pub deliver-get :
    (bst : BundleStore) (disk : String → Result Bundle) (box : Messages)
    (d known : BundleDescriptor) (b : Bundle)
    → find d.metadata.id box ≡ none
    → get_bundle_descriptor bst d.metadata.id ≡ ok known
    → fetch bst disk d.metadata.id ≡ fetched b
    → let (delivered, error) = deliver bst box d in
      let (read, answer) = get bst disk delivered d.metadata.id false in
      (error ≡ none)
      × (find d.metadata.id delivered ≡ some false)
      × (answer ≡ got b)
      × (find d.metadata.id read ≡ some true)
      × (deliver bst read d ≡ (read, some (already_delivered d.metadata.id)))
      × ((other : BundleId) → (d.metadata.id == other) ≡ false → find other read ≡ find other box)
unfolding get get_message
deliver-get bst disk box d known b absent stored loads =
    rw (deliver_new bst box d known absent stored, find-put d.metadata.id false box, loads)
      (
        refl,
        refl,
        refl,
        find-put d.metadata.id true (put d.metadata.id false box),
        deliver_again bst (put d.metadata.id true (put d.metadata.id false box)) d true
            (find-put d.metadata.id true (put d.metadata.id false box)),
        (λ other different.
            find-put_other d.metadata.id other true (put d.metadata.id false box) different
            ∙ find-put_other d.metadata.id other false box different),
      )

abbrev pub is_live : Result BundleDescriptor → Bool
is_live (err _) = false
is_live (ok _) = true

-- A descriptor that the store gives out is not deleted, so the second test of GC adds nothing.
get_bundle_descriptor-live :
    (bst : BundleStore) (id : BundleId)
    → is_known (get_bundle_descriptor bst id) ≡ is_live (get_bundle_descriptor bst id)
unfolding get_bundle_descriptor is_known
get_bundle_descriptor-live bst id = elim (Option-cases (find id bst.bundles)) [
  | inl absent ↦ rw absent
  | inr (d, found) ↦ elim (Bool-cases (d.deleted)) [
    | inl gone ↦ ground arith
    | inr live ↦ ground arith
  ]
]

-- After a mailbox's GC a message is there, with its mark, exactly if it was there before and the store
-- gives out its bundle.
pub collect_mailbox-find :
    (bst : BundleStore) (box : Messages) (id : BundleId)
    → find id (collect_mailbox bst box)
      ≡ (if is_live (get_bundle_descriptor bst id) then find id box else none)
unfolding collect_mailbox
collect_mailbox-find bst box id = elim (Bool-cases (is_known (get_bundle_descriptor bst id))) [
  | inl known ↦ ground (
    arith,
    get_bundle_descriptor-live bst id,
    find-keep (λ i. is_known (get_bundle_descriptor bst i)) id box known,
  )
  | inr unknown ↦ ground (
    arith,
    get_bundle_descriptor-live bst id,
    find-keep_dropped (λ i. is_known (get_bundle_descriptor bst i)) id box unknown,
  )
]
