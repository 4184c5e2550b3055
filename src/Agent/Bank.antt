-- ===== src/Agent/Bank.antt =====
-- dtnd7-go/pkg/application_agent/mailbox_bank.go. The bank's map holds pointers to mailboxes that nobody
-- else keeps under another endpoint, so it is a map of mailboxes here.
pub mod Registered
pub mod Delivery
use ma_sinafadavi_iran.Prelude.{
  ◌++◌, not, Option, none, some, List, [], ◌∷◌, select, ◌==◌, find, put, erase,
}
use ma_sinafadavi_iran.Bpv7.Endpoint.{EndpointId, eid_eq}
use ma_sinafadavi_iran.Store.Descriptor.{
  BundleMetadata, BundleDescriptor, Result, ok, err, get_metadata,
}
use ma_sinafadavi_iran.Store.Bundles.{BundleStore}
use ma_sinafadavi_iran.Agent.Mailbox.{
  Messages, AgentError, id_already_registered, no_such_id, from_store, new_mailbox, deliver,
  collect_mailbox,
}

pub record MailboxBank : Type 0 where
  pub registered_ids : List EndpointId
  pub mailboxes : List (EndpointId × Messages)

unfoldable pub new_mailbox_bank : MailboxBank
new_mailbox_bank = record { registered_ids = []; mailboxes = [] }

register_new : MailboxBank → EndpointId → Option Messages → MailboxBank × Option AgentError
register_new bank eid (some _) = (bank, some (id_already_registered eid))
register_new bank eid none = (
  record {
    registered_ids = bank.registered_ids ++ eid ∷ [];
    mailboxes = put eid new_mailbox bank.mailboxes;
  },
  none,
)

unfoldable pub register : MailboxBank → EndpointId → MailboxBank × Option AgentError
unfolding register_new
register bank eid = register_new bank eid (find eid bank.mailboxes)

unregister_known : MailboxBank → EndpointId → Option Messages → MailboxBank × Option AgentError
unregister_known bank eid none = (bank, some (no_such_id eid))
unregister_known bank eid (some _) = (
  record {
    registered_ids = select (λ reid. not (reid == eid)) bank.registered_ids;
    mailboxes = erase eid bank.mailboxes;
  },
  none,
)

unfoldable pub unregister : MailboxBank → EndpointId → MailboxBank × Option AgentError
unfolding unregister_known
unregister bank eid = unregister_known bank eid (find eid bank.mailboxes)

-- Deliver, once the destination's mailbox is looked up.
deliver_found :
    BundleStore
    → MailboxBank
    → EndpointId
    → BundleDescriptor
    → Option Messages
    → MailboxBank × Option AgentError
deliver_found bst bank eid d none = (bank, some (no_such_id eid))
deliver_found bst bank eid d (some box) =
    let (box', error) = deliver bst box d in
    (record bank { mailboxes = put eid box' bank.mailboxes }, error)

deliver_metadata :
    BundleStore
    → MailboxBank
    → BundleDescriptor
    → Result BundleMetadata
    → MailboxBank × Option AgentError
unfolding deliver_found
deliver_metadata bst bank d (err e) = (bank, some (from_store e))
deliver_metadata bst bank d (ok m) =
    deliver_found bst bank m.destination d (find m.destination bank.mailboxes)

unfoldable pub bank_deliver :
    BundleStore → MailboxBank → BundleDescriptor → MailboxBank × Option AgentError
unfolding deliver_metadata
bank_deliver bst bank d = deliver_metadata bst bank d (get_metadata d)

collect_all : BundleStore → List (EndpointId × Messages) → List (EndpointId × Messages)
collect_all bst [] = []
collect_all bst ((eid, box) ∷ m) = (eid, collect_mailbox bst box) ∷ collect_all bst m

-- GC, once the goroutines that it starts have run.
unfoldable pub collect_bank : BundleStore → MailboxBank → MailboxBank
unfolding collect_all
collect_bank bst bank = record bank { mailboxes = collect_all bst bank.mailboxes }
