-- ===== src/Agent/Examples.antt =====
-- A mailbox on which the theorems about package application_agent are applied.
use mathlib.Core.List.{Permᴰ, reverse}
use mathlib.Core.List.Permᴰ
use ma_sinafadavi_iran.Prelude.{
  String, ◌≡◌, refl, true, false, none, some, [], ◌∷◌, map, is_listed, ◌==◌, find, if◌then◌else◌,
}
use ma_sinafadavi_iran.Bpv7.Endpoint.{eid_eq}
use ma_sinafadavi_iran.Bpv7.Flags.{has}
use ma_sinafadavi_iran.Bpv7.Bundle.{Bundle}
use ma_sinafadavi_iran.Bpv7.BundleId.{BundleId, id_eq, id_beq, bundle_id}
use ma_sinafadavi_iran.Bpv7.Examples.{node, bundle}
use ma_sinafadavi_iran.Store.Descriptor.{Result, ok, new_bundle_descriptor}
use ma_sinafadavi_iran.Store.Bundles.{get_bundle_descriptor, load}
use ma_sinafadavi_iran.Store.Examples.{descriptor, small_store}
use ma_sinafadavi_iran.Agent.Mailbox.{
  Messages, already_delivered, got, fetched, fetch, deliver, get, get_new, list_new, list_all,
  collect_mailbox,
}
use ma_sinafadavi_iran.Agent.Bank.{new_mailbox_bank, register, bank_deliver}
use ma_sinafadavi_iran.Agent.Bank.Registered.{
  created, registered, delivered as has_delivered, has_mailbox, registered_ids-has_mailbox,
}
use ma_sinafadavi_iran.Agent.Rest.{
  parsed, no_mailbox, new_rest_agent, handle_register, handle_unregister, handle_fetch,
  rest_deliver,
}
use ma_sinafadavi_iran.Agent.Rest.Mailboxes.{handle_fetch-rest_deliver, handle_unregister-shared}
use ma_sinafadavi_iran.Agent.Mailbox.Delivery.{deliver-get, collect_mailbox-find, is_live}
use ma_sinafadavi_iran.Agent.Mailbox.Reading.{get_new-list_new}

abbrev disk : String → Result Bundle
disk name = ok bundle

deliver-get_example :
    let (delivered, error) = deliver small_store [] descriptor in
    let (read, answer) = get small_store disk delivered descriptor.metadata.id false in
    (error ≡ none)
    × (find descriptor.metadata.id delivered ≡ some false)
    × (answer ≡ got bundle)
    × (find descriptor.metadata.id read ≡ some true)
    × (deliver small_store read descriptor
        ≡ (read, some (already_delivered descriptor.metadata.id)))
    × ((other : BundleId) → (descriptor.metadata.id == other) ≡ false → find other read ≡ none)
unfolding get_bundle_descriptor fetch load new_bundle_descriptor id_beq bundle_id has
deliver-get_example = deliver-get small_store disk [] descriptor descriptor bundle refl refl refl

abbrev messages : Messages
messages = (bundle_id bundle, false) ∷ []

collect_mailbox-find_example :
    find (bundle_id bundle) (collect_mailbox small_store messages)
    ≡ (if is_live (get_bundle_descriptor small_store (bundle_id bundle)) then some false else none)
unfolding bundle_id id_beq has
collect_mailbox-find_example = collect_mailbox-find small_store messages (bundle_id bundle)

abbrev two_messages : Messages
two_messages =
    (bundle_id bundle, false) ∷ (record (bundle_id bundle) { fragmented = true }, true) ∷ []

get_new-list_new_example :
    Permᴰ
      (map
        (λ (b : Bundle). fetched b)
        (get_new small_store disk (reverse two_messages) false).bundles)
      (map (fetch small_store disk) (list_new two_messages))
    × (list_new (get_new small_store disk (reverse two_messages) false).messages ≡ [])
    × Permᴰ
        (list_all (get_new small_store disk (reverse two_messages) false).messages)
        (list_all two_messages)
unfolding get_new fetch get_bundle_descriptor load new_bundle_descriptor bundle_id id_beq has
get_new-list_new_example =
    get_new-list_new small_store disk two_messages (reverse two_messages)
      (Permᴰ.reverse two_messages) refl

registered_ids-has_mailbox_example :
    is_listed
      (node 2)
      (bank_deliver small_store (register new_mailbox_bank (node 2)).0 descriptor).0.registered_ids
    ≡ has_mailbox
        (node 2)
        (bank_deliver small_store (register new_mailbox_bank (node 2)).0 descriptor).0
registered_ids-has_mailbox_example =
    registered_ids-has_mailbox
      (bank_deliver small_store (register new_mailbox_bank (node 2)).0 descriptor).0 (node 2)
      (has_delivered small_store descriptor (registered (node 2) created))

handle_fetch-rest_deliver_example :
    let joined =
      (handle_register new_rest_agent (parsed "dtn://b/") (λ e. parsed (node 2)) (parsed "u")).0 in
    let delivered = rest_deliver small_store joined descriptor in
    let first = handle_fetch small_store disk delivered.0 (parsed "u") in
    let second = handle_fetch small_store disk first.0 (parsed "u") in
    (delivered.1 ≡ none)
    × (first.1 ≡ bundle ∷ [])
    × (first.2 ≡ none)
    × (second.1 ≡ [])
    × (second.2 ≡ none)
unfolding get_bundle_descriptor fetch load new_bundle_descriptor new_rest_agent id_beq bundle_id has
handle_fetch-rest_deliver_example =
    handle_fetch-rest_deliver new_rest_agent "dtn://b/" "u" (λ e. parsed (node 2)) small_store disk
      descriptor descriptor bundle refl refl refl refl refl

handle_unregister-shared_example :
    let first =
      (handle_register new_rest_agent (parsed "dtn://b/") (λ e. parsed (node 2)) (parsed "u")).0 in
    let second =
      (handle_register first (parsed "dtn://b/") (λ e. parsed (node 2)) (parsed "v")).0 in
    let left = (handle_unregister second (parsed "u")).0 in
    handle_fetch small_store disk left (parsed "v") ≡ (left, [], some no_mailbox)
unfolding new_rest_agent
handle_unregister-shared_example =
    handle_unregister-shared new_rest_agent "dtn://b/" "u" "v" (λ e. parsed (node 2)) (node 2)
      small_store disk refl refl refl
