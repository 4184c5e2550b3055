-- ===== src/Agent/Bank/Registered.antt =====
-- The list of registered endpoints and the map of mailboxes, after any operations of a MailboxBank.
use ma_sinafadavi_iran.Prelude.{
  ◌≡◌, ◌∙◌, refl, sym, subst, Bool, ◌||◌, Option, none, some, List, [], ◌∷◌, arith, ◌==◌, ==→eq,
  find, is_some, is_listed, is_listed-append, is_listed-select, is_some-put, is_some-erase,
  Bool-cases, Option-cases, inl, inr,
}
use ma_sinafadavi_iran.Bpv7.Endpoint.{EndpointId, eid_eq}
use ma_sinafadavi_iran.Store.Descriptor.{
  BundleMetadata, BundleDescriptor, Result, ok, err, get_metadata,
}
use ma_sinafadavi_iran.Store.Bundles.{BundleStore}
use ma_sinafadavi_iran.Agent.Mailbox.{Messages, deliver}
use ma_sinafadavi_iran.Agent.Bank.{
  MailboxBank, new_mailbox_bank, register, register_new, unregister, unregister_known, bank_deliver,
  deliver_metadata, deliver_found, collect_bank, collect_all,
}

-- A bank after some of its operations, whatever the store is at each.
pub data Reached : MailboxBank → Type 0 where
  created : Reached new_mailbox_bank
  registered :
      {bank : MailboxBank} (eid : EndpointId) → Reached bank → Reached (register bank eid).0
  unregistered :
      {bank : MailboxBank} (eid : EndpointId) → Reached bank → Reached (unregister bank eid).0
  delivered :
      {bank : MailboxBank} (bst : BundleStore) (d : BundleDescriptor)
      → Reached bank
      → Reached (bank_deliver bst bank d).0
  collected :
      {bank : MailboxBank} (bst : BundleStore) → Reached bank → Reached (collect_bank bst bank)

abbrev pub has_mailbox : EndpointId → MailboxBank → Bool
has_mailbox eid bank = is_some (find eid bank.mailboxes)

abbrev Agrees : MailboxBank → Type 0
Agrees bank = (eid : EndpointId) → is_listed eid bank.registered_ids ≡ has_mailbox eid bank

is_some-collect_all :
    (eid : EndpointId) (bst : BundleStore) (m : List (EndpointId × Messages))
    → is_some (find eid (collect_all bst m)) ≡ is_some (find eid m)
unfolding collect_all
is_some-collect_all eid bst [] = refl
is_some-collect_all eid bst ((k, box) ∷ m) = ground (arith, is_some-collect_all eid bst m)

register-Agrees :
    (bank : MailboxBank) (eid : EndpointId) → Agrees bank → Agrees (register bank eid).0
unfolding register register_new
register-Agrees bank eid v other = elim (Option-cases (find eid bank.mailboxes)) [
  | inl absent ↦
      rw (absent, register_new)
        (is_listed-append other eid bank.registered_ids
          ∙ rw (v other) (sym (is_some-put other eid _ bank.mailboxes)))
  | inr (box, present) ↦ rw (present, register_new) (v other)
]

unregister-Agrees :
    (bank : MailboxBank) (eid : EndpointId) → Agrees bank → Agrees (unregister bank eid).0
unfolding unregister unregister_known
unregister-Agrees bank eid v other = elim (Option-cases (find eid bank.mailboxes)) [
  | inl absent ↦ rw (absent, unregister_known) (v other)
  | inr (box, present) ↦
      rw (present, unregister_known)
        (is_listed-select other eid bank.registered_ids
          ∙ rw (v other) (sym (is_some-erase other eid bank.mailboxes)))
]

is_some-known :
    (m : List (EndpointId × Messages)) (eid other : EndpointId) (box : Messages)
    → find eid m ≡ some box
    → is_some (find other m) ≡ (is_some (find other m) || eid == other)
is_some-known m eid other box found = elim (Bool-cases (eid == other)) [
  | inl same ↦
      let here : find other m ≡ some box =
        subst (λ (e : EndpointId). find e m ≡ some box) (==→eq eid other same) found in
      rw here refl
  | inr apart ↦ ground arith
]

deliver_found-Agrees :
    (bst : BundleStore) (bank : MailboxBank) (eid : EndpointId) (d : BundleDescriptor)
    (box : Option Messages)
    → find eid bank.mailboxes ≡ box
    → Agrees bank
    → Agrees (deliver_found bst bank eid d box).0
unfolding deliver_found
deliver_found-Agrees bst bank eid d none found v other = v other
deliver_found-Agrees bst bank eid d (some box) found v other =
    let kept : is_some (find other bank.mailboxes)
        ≡ (is_some (find other bank.mailboxes) || eid == other) =
      is_some-known bank.mailboxes eid other box found in
    v other ∙ kept ∙ sym (is_some-put other eid (deliver bst box d).0 bank.mailboxes)

bank_deliver-Agrees :
    (bst : BundleStore) (bank : MailboxBank) (d : BundleDescriptor) (r : Result BundleMetadata)
    → Agrees bank
    → Agrees (deliver_metadata bst bank d r).0
unfolding deliver_metadata
bank_deliver-Agrees bst bank d (err e) v = v
bank_deliver-Agrees bst bank d (ok m) v =
    deliver_found-Agrees bst bank m.destination d (find m.destination bank.mailboxes) refl v

Reached-Agrees : (bank : MailboxBank) → Reached bank → Agrees bank
unfolding bank_deliver collect_bank new_mailbox_bank
Reached-Agrees _ created = λ eid. refl
Reached-Agrees _ (registered {bank = b} eid before) =
    register-Agrees b eid (Reached-Agrees b before)
Reached-Agrees _ (unregistered {bank = b} eid before) =
    unregister-Agrees b eid (Reached-Agrees b before)
Reached-Agrees _ (delivered {bank = b} bst d before) =
    bank_deliver-Agrees bst b d (get_metadata d) (Reached-Agrees b before)
Reached-Agrees _ (collected {bank = b} bst before) =
    λ eid. Reached-Agrees b before eid ∙ sym (is_some-collect_all eid bst b.mailboxes)

-- After any operations on a new MailboxBank, an endpoint is in the list that RegisteredIDs returns exactly
-- if the bank has a mailbox for it.
pub registered_ids-has_mailbox :
    (bank : MailboxBank) (eid : EndpointId)
    → Reached bank
    → is_listed eid bank.registered_ids ≡ has_mailbox eid bank
registered_ids-has_mailbox bank eid reached = Reached-Agrees bank reached eid
