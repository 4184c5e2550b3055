-- ===== src/Agent/Rest.antt =====
-- dtnd7-go/pkg/application_agent/rest_agent/rest_agent.go: the handlers, between the decoding of a request
-- and the encoding of its response. What the decoder, NewEndpointID, randomUuid and BuildFromMap return
-- are arguments; the map of clients is an association list.
pub mod Mailboxes
use ma_sinafadavi_iran.Prelude.{
  String, Bool, true, false, not, ◌&&◌, Option, none, some, List, [], ◌∷◌, if◌then◌else◌, Eq,
  string_eq, ◌==◌, find, put, erase,
}
use ma_sinafadavi_iran.Bpv7.Endpoint.{EndpointId, eid_eq}
use ma_sinafadavi_iran.Bpv7.Bundle.{Bundle}
use ma_sinafadavi_iran.Store.Descriptor.{BundleDescriptor, Result}
use ma_sinafadavi_iran.Store.Bundles.{BundleStore}
use ma_sinafadavi_iran.Agent.Mailbox.{Messages, AgentError, Read, get_all}
use ma_sinafadavi_iran.Agent.Bank.{
  MailboxBank, new_mailbox_bank, register, unregister, bank_deliver, collect_bank,
}
use ma_sinafadavi_iran.Agent.Manager.{AgentOperations}

pub record RestAgent : Type 0 where
  pub clients : List (String × EndpointId)
  pub mailboxes : MailboxBank

-- What the field Error of a response says.
pub data RestError : Type 0 where
  text : String → RestError
  unknown_client invalid_uuid no_mailbox not_its_endpoint : RestError
  agent_error : AgentError → RestError

-- A value, or the text of an error.
pub data Parsed {ℓ} (A : Type ℓ) : Type ℓ where
  parsed : A → Parsed A
  failed : String → Parsed A

unfoldable pub new_rest_agent : RestAgent
unfolding new_mailbox_bank
new_rest_agent = record { clients = []; mailboxes = new_mailbox_bank }

-- The error of MailboxBank.Register is dropped.
register_client : RestAgent → EndpointId → Parsed String → RestAgent × Parsed String
unfolding register
register_client ra eid (failed e) = (ra, failed e)
register_client ra eid (parsed uuid) = (
  record { clients = put uuid eid ra.clients; mailboxes = (register ra.mailboxes eid).0 },
  parsed uuid,
)

register_endpoint : RestAgent → Parsed EndpointId → Parsed String → RestAgent × Parsed String
unfolding register_client
register_endpoint ra (failed e) uuid = (ra, failed e)
register_endpoint ra (parsed eid) uuid = register_client ra eid uuid

-- handleRegister: the UUID that the client gets, or the error.
unfoldable pub handle_register :
    RestAgent
    → Parsed String
    → (String → Parsed EndpointId)
    → Parsed String
    → RestAgent × Parsed String
unfolding register_endpoint
handle_register ra (failed e) new_endpoint_id uuid = (ra, failed e)
handle_register ra (parsed endpoint_id) new_endpoint_id uuid =
    register_endpoint ra (new_endpoint_id endpoint_id) uuid

agent_fault : Option AgentError → Option RestError
agent_fault none = none
agent_fault (some e) = some (agent_error e)

unregister_client : RestAgent → String → Option EndpointId → RestAgent × Option RestError
unfolding unregister agent_fault
unregister_client ra uuid none =
    (record ra { clients = erase uuid ra.clients }, some unknown_client)
unregister_client ra uuid (some eid) =
    let r = unregister ra.mailboxes eid in
    (record { clients = erase uuid ra.clients; mailboxes = r.0 }, agent_fault r.1)

-- handleUnregister: a request that cannot be decoded is answered without an error.
unfoldable pub handle_unregister : RestAgent → Parsed String → RestAgent × Option RestError
unfolding unregister_client
handle_unregister ra (failed e) = (ra, none)
handle_unregister ra (parsed uuid) = unregister_client ra uuid (find uuid ra.clients)

-- A response with bundles: those of GetAll, if it returns no error.
fetch_response : Read → Option AgentError → List Bundle × Option RestError
fetch_response r none = (r.bundles, none)
fetch_response r (some e) = ([], some (agent_error e))

fetch_mailbox :
    BundleStore
    → (String → Result Bundle)
    → RestAgent
    → EndpointId
    → Option Messages
    → RestAgent × List Bundle × Option RestError
unfolding get_all fetch_response
fetch_mailbox bst disk ra eid none = (ra, [], some no_mailbox)
fetch_mailbox bst disk ra eid (some box) =
    let r = get_all bst disk box true in
    let bank = record (ra.mailboxes) { mailboxes = put eid r.messages ra.mailboxes.mailboxes } in
    let answer = fetch_response r r.error in (record ra { mailboxes = bank }, answer.0, answer.1)

fetch_client :
    BundleStore
    → (String → Result Bundle)
    → RestAgent
    → Option EndpointId
    → RestAgent × List Bundle × Option RestError
unfolding fetch_mailbox
fetch_client bst disk ra none = (ra, [], some unknown_client)
fetch_client bst disk ra (some eid) =
    fetch_mailbox bst disk ra eid (find eid ra.mailboxes.mailboxes)

-- handleFetch
unfoldable pub handle_fetch :
    BundleStore
    → (String → Result Bundle)
    → RestAgent
    → Parsed String
    → RestAgent × List Bundle × Option RestError
unfolding fetch_client
handle_fetch bst disk ra (failed e) = (ra, [], some (text e))
handle_fetch bst disk ra (parsed uuid) = fetch_client bst disk ra (find uuid ra.clients)

send_own : EndpointId → Parsed Bundle → Option Bundle × Option RestError
send_own eid (failed e) = (none, some (text e))
send_own eid (parsed b) =
    if not (b.primary_block.source_node == eid) && not (b.primary_block.report_to == eid)
    then (none, some not_its_endpoint)
    else (some b, none)

build_client : Parsed Bundle → Option EndpointId → Option Bundle × Option RestError
unfolding send_own
build_client built none = (none, some invalid_uuid)
build_client built (some eid) = send_own eid built

-- handleBuild: the bundle that goes to Manager.Send, if any. A request is a UUID and the arguments of
-- BuildFromMap.
unfoldable pub handle_build {ℓ} :
    {A : Type ℓ}
    → (A → Parsed Bundle)
    → RestAgent
    → Parsed (String × A)
    → Option Bundle × Option RestError
unfolding build_client
handle_build build ra (failed e) = (none, some (text e))
handle_build build ra (parsed (uuid, args)) = build_client (build args) (find uuid ra.clients)

-- Endpoints: the function that Range calls returns false, which ends the visit.
unfoldable pub endpoints : RestAgent → List EndpointId
endpoints ra = elim (ra.clients) [ [] ↦ [] | (_, eid) ∷ _ ↦ eid ∷ [] ]

-- Deliver
unfoldable pub rest_deliver :
    BundleStore → RestAgent → BundleDescriptor → RestAgent × Option AgentError
unfolding bank_deliver
rest_deliver bst ra d =
    let r = bank_deliver bst ra.mailboxes d in (record ra { mailboxes = r.0 }, r.1)

-- RestAgent as an ApplicationAgent. Start returns no error.
abbrev pub rest_agent : String → AgentOperations RestAgent
rest_agent agent_name = record {
  name = λ ra. agent_name;
  endpoints = endpoints;
  deliver = rest_deliver;
  start = λ ra. (ra, true);
  collect = λ bst ra. record ra { mailboxes = collect_bank bst ra.mailboxes };
}
