-- ===== src/Agent/Bank/Delivery.antt =====
-- A mailbox from its registration to the delivery of a bundle, and to its end.
use ma_sinafadavi_iran.Prelude.{
  ◌≡◌, refl, false, none, some, [], ◌∷◌, find, put, find-keep_dropped, ==_refl, arith, not, ◌==◌,
}
use ma_sinafadavi_iran.Bpv7.Endpoint.{EndpointId, eid_eq}
use ma_sinafadavi_iran.Bpv7.BundleId.{id_eq}
use ma_sinafadavi_iran.Store.Descriptor.{BundleDescriptor, ok, get_metadata}
use ma_sinafadavi_iran.Store.Bundles.{BundleStore, get_bundle_descriptor}
use ma_sinafadavi_iran.Agent.Mailbox.{Messages, new_mailbox}
use ma_sinafadavi_iran.Agent.Mailbox.Delivery.{deliver_new}
use ma_sinafadavi_iran.Agent.Bank.{
  MailboxBank, register, register_new, unregister, unregister_known, bank_deliver, deliver_metadata,
  deliver_found,
}

pub register-mailboxes :
    (bank : MailboxBank) (eid : EndpointId)
    → find eid bank.mailboxes ≡ none
    → (register bank eid).0.mailboxes ≡ put eid [] bank.mailboxes
unfolding register register_new new_mailbox
register-mailboxes bank eid absent = rw absent refl

pub register-known :
    (bank : MailboxBank) (eid : EndpointId) (box : Messages)
    → find eid bank.mailboxes ≡ some box
    → (register bank eid).0 ≡ bank
unfolding register register_new
register-known bank eid box present = rw present refl

pub unregister-mailboxes :
    (bank : MailboxBank) (eid : EndpointId) (box : Messages)
    → find eid bank.mailboxes ≡ some box
    → find eid (unregister bank eid).0.mailboxes ≡ none
unfolding unregister unregister_known
unregister-mailboxes bank eid box present =
    let self = ==_refl eid in
    rw present (find-keep_dropped (λ k. not (k == eid)) eid bank.mailboxes (ground arith))

pub bank_deliver-mailboxes :
    (bst : BundleStore) (bank : MailboxBank) (d known : BundleDescriptor)
    → find d.metadata.destination bank.mailboxes ≡ some []
    → d.deleted ≡ false
    → get_bundle_descriptor bst d.metadata.id ≡ ok known
    → bank_deliver bst bank d ≡ (
      record bank {
        mailboxes = put d.metadata.destination ((d.metadata.id, false) ∷ []) bank.mailboxes;
      },
      none,
    )
unfolding bank_deliver deliver_metadata deliver_found get_metadata
bank_deliver-mailboxes bst bank d known empty live stored =
    simp (live, empty, deliver_new bst [] d known refl stored)
