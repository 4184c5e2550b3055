-- ===== src/Agent/Rest/Mailboxes.antt =====
-- The clients of a REST agent and their mailboxes.
use ma_sinafadavi_iran.Prelude.{
  String, ◌≡◌, ◌∙◌, ap, false, not, none, some, [], ◌∷◌, find, put, find-put, find-put_other,
  find-keep, string_eq, ◌==◌,
}
use ma_sinafadavi_iran.Bpv7.Endpoint.{EndpointId, eid_eq}
use ma_sinafadavi_iran.Bpv7.Bundle.{Bundle}
use ma_sinafadavi_iran.Store.Descriptor.{BundleDescriptor, Result, ok}
use ma_sinafadavi_iran.Store.Bundles.{BundleStore, get_bundle_descriptor}
use ma_sinafadavi_iran.Agent.Mailbox.{fetch, fetched}
use ma_sinafadavi_iran.Agent.Mailbox.Reading.{get_all-single}
use ma_sinafadavi_iran.Agent.Bank.{register}
use ma_sinafadavi_iran.Agent.Bank.Delivery.{
  register-mailboxes, register-known, unregister-mailboxes, bank_deliver-mailboxes,
}
use ma_sinafadavi_iran.Agent.Rest.{
  RestAgent, Parsed, parsed, no_mailbox, register_client, register_endpoint, handle_register,
  handle_unregister, unregister_client, handle_fetch, fetch_client, fetch_mailbox, fetch_response,
  rest_deliver,
}

-- A client registers an endpoint that nobody has registered, and then a bundle for that endpoint is
-- delivered that the store has and can load: its next fetch gives the bundle alone, and the one behind it
-- nothing, both with no error.
pub handle_fetch-rest_deliver :
    (ra : RestAgent) (endpoint_id uuid : String) (new_endpoint_id : String → Parsed EndpointId)
    (bst : BundleStore) (disk : String → Result Bundle) (d known : BundleDescriptor) (b : Bundle)
    → new_endpoint_id endpoint_id ≡ parsed d.metadata.destination
    → find d.metadata.destination ra.mailboxes.mailboxes ≡ none
    → d.deleted ≡ false
    → get_bundle_descriptor bst d.metadata.id ≡ ok known
    → fetch bst disk d.metadata.id ≡ fetched b
    → let joined = (handle_register ra (parsed endpoint_id) new_endpoint_id (parsed uuid)).0 in
      let delivered = rest_deliver bst joined d in
      let first = handle_fetch bst disk delivered.0 (parsed uuid) in
      let second = handle_fetch bst disk first.0 (parsed uuid) in
      (delivered.1 ≡ none)
      × (first.1 ≡ b ∷ [])
      × (first.2 ≡ none)
      × (second.1 ≡ [])
      × (second.2 ≡ none)
unfolding handle_register register_endpoint register_client rest_deliver handle_fetch fetch_client
    fetch_mailbox fetch_response
handle_fetch-rest_deliver ra endpoint_id uuid new_endpoint_id bst disk d known b names absent live
      stored loads =
    let eid = d.metadata.destination in
    let bank = (register ra.mailboxes eid).0 in
    let new = register-mailboxes ra.mailboxes eid absent in
    let empty : find eid bank.mailboxes ≡ some [] =
      ap (find eid) new ∙ find-put eid [] ra.mailboxes.mailboxes in
    let delivers = bank_deliver-mailboxes bst bank d known empty live stored in
    let client = find-put uuid eid ra.clients in
    let full = find-put eid ((d.metadata.id, false) ∷ []) bank.mailboxes in
    let single = get_all-single bst disk d.metadata.id b loads in
    let read = find-put eid [] (put eid ((d.metadata.id, false) ∷ []) bank.mailboxes) in
    (
      simp (names, delivers),
      simp (names, delivers, client, full, single),
      simp (names, delivers, client, full, single),
      simp (names, delivers, client, full, single, read),
      simp (names, delivers, client, full, single, read),
    )

-- Two clients register one endpoint that nobody else has registered, and the first of them unregisters: a
-- fetch of the second is answered with the error that there is no mailbox, and with no bundle.
pub handle_unregister-shared :
    (ra : RestAgent) (endpoint_id uuid other : String)
    (new_endpoint_id : String → Parsed EndpointId) (eid : EndpointId) (bst : BundleStore)
    (disk : String → Result Bundle)
    → new_endpoint_id endpoint_id ≡ parsed eid
    → find eid ra.mailboxes.mailboxes ≡ none
    → (other == uuid) ≡ false
    → let first = (handle_register ra (parsed endpoint_id) new_endpoint_id (parsed uuid)).0 in
      let second = (handle_register first (parsed endpoint_id) new_endpoint_id (parsed other)).0 in
      let left = (handle_unregister second (parsed uuid)).0 in
      handle_fetch bst disk left (parsed other) ≡ (left, [], some no_mailbox)
unfolding handle_register register_endpoint register_client handle_unregister unregister_client
    handle_fetch fetch_client fetch_mailbox
handle_unregister-shared ra endpoint_id uuid other new_endpoint_id eid bst disk names absent
      different =
    let bank = (register ra.mailboxes eid).0 in
    let empty : find eid bank.mailboxes ≡ some [] =
      ap (find eid) (register-mailboxes ra.mailboxes eid absent)
      ∙ find-put eid [] ra.mailboxes.mailboxes in
    let clients = put uuid eid ra.clients in
    let same = register-known bank eid [] empty in
    let mine = find-put_other other uuid eid clients different ∙ find-put uuid eid ra.clients in
    let gone = unregister-mailboxes bank eid [] empty in
    let its =
      find-keep (λ k. not (k == uuid)) other (put other eid clients) (ap not different)
      ∙ find-put other eid clients in
    simp (names, same, mine, its, gone)
