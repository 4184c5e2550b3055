-- ===== src/Lib.antt =====
-- A verification of dtnd7-go, the DTN daemon of the repository: an implementation of the Bundle
-- Protocol 7 (RFC 9171) with a bundle store, routing and application agents.
--
-- The parts and how they interact. A bundle (package bpv7) is a primary block, extension blocks and a
-- payload block. The store keeps a descriptor for each bundle: its metadata, its retention constraints
-- and three flags. Processing takes a descriptor through a forwarding: it sets ForwardPending, asks the
-- routing algorithm for peers, sends the bundle to them through the convergence layers, notes those that
-- have it as known holders, and takes the constraint away. A bundle whose last constraint goes and that is
-- marked is deleted; the store's garbage collection deletes those that have expired. Applications send
-- through the id keeper, which gives each bundle its sequence number, and receive through mailboxes. A
-- bundle that comes in goes from the store over the agents and the routing algorithm to its forwarding.
-- The CLA manager keeps the receivers and senders of the node; discovery gives it a new one for each
-- announcement of another node.
--
-- The files, with the code that they model (paths below dtnd7-go/pkg):
--   Bpv7/Endpoint, Flags, Crc, Time, Block, Primary, BundleId: endpoint*.go, *_control_flags.go, crc.go,
--     time.go, canonical_block.go with the extension_block*.go, primary_block.go and bundle_id.go of
--     bpv7. CheckValid is a function to the list of its faults (`primary_faults`), MarshalCbor one to the
--     bytes and the block with its CRC (`marshal_primary`).
--   Bpv7/Bundle, Bundle/Valid, Bundle/Numbers: bpv7/bundle.go; block numbers, CheckValid.
--   Bpv7/Fragment, Reassemble and their children: bpv7/fragmentation.go, with `fragment` for
--     Bundle.Fragment and `reassemble_fragments` for ReassembleFragments.
--   Bpv7/Decode and its children: the UnmarshalCbor methods and ParseBundle, over a `Reader` of single
--     CBOR items. `Inverse` says that the readers take back what the writers of `Env` wrote, `Progress` that
--     they return and take a byte. Each child is named for what it decodes.
--   Bpv7/Endpoint/Node: SameNode of endpoint.go.
--   Bpv7/Report: administrative_record.go and administrative_record_status_report.go.
--   Store/Constraints, Descriptor: store/constraints.go and bundle_descriptor.go; Descriptor/Invariant and
--     Descriptor/History have what any sequence of calls keeps. Store/Bundles: store/store.go, with
--     Bundles/Reachable for any sequence of operations.
--   Routing/Peers, Spray: routing/algorithm.go, epidemic.go and spray_and_wait.go.
--   Processing: processing/processing.go, with `forwarding` for forwardingAsync. Processing/Reception:
--     processing/reception.go, which calls the store, the agents and the algorithm; `receive` says for which
--     bundle it starts the goroutine of a forwarding, and `run_forwarding` is the run of that goroutine.
--   IdKeeper: id_keeper/id_keeper.go. Agent/Mailbox, Agent/Bank: application_agent/mailbox.go and
--     mailbox_bank.go.
--   Cla/Types, Cla/Manager: cla/cla_types.go and cla_manager.go. The critical sections are functions from
--     `Manager` to `Manager`; Manager/Reachable interleaves them, Manager/Disconnect is about
--     NotifyDisconnect.
--   Discovery/Announcement, Discovery/Manager: discovery/announcement.go and discovery_manager.go.
--   Routing/Spray/Received: the spray block of a bundle that was decoded, from Bpv7/Decode to
--     NotifyReceivedBundle.
--   Agent/Manager: application_agent/agent_manager.go, for agents of any type with the operations of
--     ApplicationAgent. Agent/Rest: rest_agent/rest_agent.go, the handlers.
--   Prelude: tests on numbers, lists measured by native numbers, association lists, equality.
--   The modules named Examples have test data and apply the theorems to them.
--
-- How state and failure are modelled. A method that holds a lock from start to end is one step: a function
-- from the state to the new state, what it hands to other parts (`Effect`), and its result. Interleavings
-- are sequences of such steps. A function of bpv7 ends in an `Outcome`: a value, an error, a panic of Go, or
-- the end of the fuel of its loop. An unsigned 64-bit integer is a natural number below 2 ^ 64, with the
-- wrap-around written out where the code can reach it; an int that may be negative is its bit pattern.
-- Go's maps are association lists. A loop over a map visits the list in its order; a theorem that compares two
-- visits is about any two orders.
--
-- Bounds and fuel. The loop of Bundle.Fragment has one more round of fuel than the payload has bytes, since
-- every round moves the offset; the search of AddExtensionBlock has one more than there are numbers, since
-- it passes each number at most once. The loop of Bundle.UnmarshalCbor has one more than there are bytes
-- left, since each block that it reads takes one at least. All other functions are structurally recursive.
--
-- Parameters: the byte writers and readers of the cboring library, the CRC checksums, the regular expression
-- for dtn URIs and its parts (records `Env` and `Reader`), the longest slices that Go can make, the clock,
-- random numbers, the outcomes of the database, of files and of sends, the texts that fmt and
-- strings.ToLower make, the text of a bundle id and its hash.
--
-- Not modelled: ParsePartialBundle, the parsing of URIs and of bundle ids, JSON output, the convergence
-- layers behind their manager (MTCP, QUICL), the unix and REC agents, the protocols of the agents (HTTP,
-- sockets), DispatchPending, the bundle builder, signatures, the command line programs, and the parts of
-- the repository in other languages.
pub mod Prelude
pub mod IdKeeper
pub mod Agent
pub mod Processing
pub mod Bpv7
pub mod Store
pub mod Routing
pub mod Cla
pub mod Discovery
