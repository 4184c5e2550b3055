-- ===== src/Processing.antt =====
-- dtnd7-go/pkg/processing/processing.go: the forwarding of one bundle. The routing algorithm, the senders
-- that the CLA manager has, what the files hold and what a Send reports are arguments. The goroutines of
-- the single sends come to their AddKnownHolder in the order of the list.
pub mod Begun
pub mod PreviousNode
pub mod Sends
pub mod Once
pub mod Reception
mod Examples
use ma_sinafadavi_iran.Prelude.{
  ℕ, String, ◌++◌, Bool, true, false, ◌⊎◌, inl, inr, Option, none, some, List, [], ◌∷◌,
  if◌then◌else◌,
}
use ma_sinafadavi_iran.Bpv7.Outcome.{Fault}
use ma_sinafadavi_iran.Bpv7.Endpoint.{EndpointId}
use ma_sinafadavi_iran.Bpv7.Block.{
  CanonicalBlock, new_canonical_block, previous_node_block, type_previous_node,
}
use ma_sinafadavi_iran.Bpv7.Bundle.{
  Bundle, extension_block_by_type, remove_extension_block, add_extension_block,
}
use ma_sinafadavi_iran.Store.Constraints.{dispatch_pending, forward_pending}
use ma_sinafadavi_iran.Store.Descriptor.{
  BundleDescriptor, Result, ok, err, Effect, Ran, add_constraint, remove_constraint,
  reset_constraints, add_known_holder,
}
use ma_sinafadavi_iran.Store.Bundles.{load}
use ma_sinafadavi_iran.Routing.Peers.{Sender, select_epidemic}
use ma_sinafadavi_iran.Routing.Spray.{Selection}

-- Algorithm.SelectPeersForForwarding
abbrev pub Selector : Type 0
Selector = BundleDescriptor → List Sender → Selection

-- Where a forwarding stops: at a constraint, contraindicated, at the load, or at the end.
pub data Stop : Type 0 where
  constraint_refused contraindicated load_failed forwarded : Stop

-- The descriptor, what the store is told, whom the bundle was sent to with success or without, and
-- with which blocks.
pub record Forwarding : Type 0 where
  pub descriptor : BundleDescriptor
  pub effects : List Effect
  pub delivered : List Sender
  pub failed : List Sender
  pub bundle : Option Bundle
  pub stop : Stop

pub without_previous_node : Bundle → CanonicalBlock ⊎ Fault → Bundle
without_previous_node b (inl block) = remove_extension_block b block.block_number
without_previous_node b (inr fault) = b

-- Steps 4.1 and 4.2.
unfoldable pub with_previous_node : EndpointId → Bundle → Bundle
unfolding without_previous_node extension_block_by_type remove_extension_block add_extension_block
with_previous_node own b =
    add_extension_block (without_previous_node b (extension_block_by_type b type_previous_node))
      (new_canonical_block 0 0 (previous_node_block own))

-- The calls of forwardBundleToPeer.
pub send_all :
    (Bundle → Sender → Bool) → Bundle → List Sender → BundleDescriptor → List Effect → Forwarding
unfolding add_known_holder
send_all send b [] d es = record {
  descriptor = d;
  effects = es;
  delivered = [];
  failed = [];
  bundle = some b;
  stop = forwarded;
}
send_all send b (s ∷ ss) d es = elim (send b s) [
  | true ↦
      let r = add_known_holder d (s.peer ∷ []) in
      let rest = send_all send b ss r.descriptor (es ++ r.effects) in
      record rest { delivered = s ∷ rest.delivered }
  | false ↦ let rest = send_all send b ss d es in record rest { failed = s ∷ rest.failed }
]

pub stopped : Stop → BundleDescriptor → List Effect → Forwarding
stopped stop d es = record {
  descriptor = d;
  effects = es;
  delivered = [];
  failed = [];
  bundle = none;
  stop = stop;
}

-- Steps 4 to 6, with the bundle to send.
pub forward_bundle :
    EndpointId
    → (Bundle → Sender → Bool)
    → List Sender
    → BundleDescriptor
    → List Effect
    → Result Bundle
    → Forwarding
unfolding stopped with_previous_node send_all remove_constraint
forward_bundle own send peers d es (err _) = stopped load_failed d es
forward_bundle own send peers d es (ok b) =
    let sent = send_all send (with_previous_node own b) peers d es in
    let r = remove_constraint sent.descriptor forward_pending in
    record sent { descriptor = r.descriptor; effects = sent.effects ++ r.effects }

pub bundle_or_load : (String → Result Bundle) → BundleDescriptor → Option Bundle → Result Bundle
unfolding load
bundle_or_load disk d (some b) = ok b
bundle_or_load disk d none = load disk d

-- Steps 3 to 6, after the selection.
pub forward_selected :
    EndpointId
    → (String → Result Bundle)
    → (Bundle → Sender → Bool)
    → List Effect
    → List Sender
    → Selection
    → Forwarding
unfolding stopped reset_constraints forward_bundle bundle_or_load
forward_selected own disk send es [] sel =
    let r = reset_constraints sel.descriptor in
    stopped contraindicated r.descriptor (es ++ (sel.effects ++ r.effects))
forward_selected own disk send es (p ∷ ps) sel =
    forward_bundle own send (p ∷ ps) sel.descriptor (es ++ sel.effects)
      (bundle_or_load disk sel.descriptor sel.bundle)

-- Step 1 has two calls, each of which may refuse.
after_removal :
    EndpointId
    → (String → Result Bundle)
    → (Bundle → Sender → Bool)
    → Selector
    → List Sender
    → List Effect
    → Ran (Unit {0})
    → Forwarding
unfolding stopped forward_selected
after_removal own disk send select peers es r = elim (r.result) [
  | err _ ↦ stopped constraint_refused r.descriptor (es ++ r.effects)
  | ok _ ↦
      let sel = select r.descriptor peers in
      forward_selected own disk send (es ++ r.effects) sel.peers sel
]

-- forwardingAsync
unfoldable pub forwarding :
    EndpointId
    → (String → Result Bundle)
    → (Bundle → Sender → Bool)
    → Selector
    → List Sender
    → BundleDescriptor
    → Forwarding
unfolding stopped after_removal add_constraint remove_constraint
forwarding own disk send select peers d =
    let r = add_constraint d forward_pending in
    elim (r.result) [
      | err _ ↦ stopped constraint_refused r.descriptor r.effects
      | ok _ ↦
          after_removal own disk send select peers r.effects
            (remove_constraint r.descriptor dispatch_pending)
    ]

-- EpidemicRouting as an algorithm.
unfoldable pub epidemic : Selector
unfolding select_epidemic
epidemic d peers = record {
  descriptor = d;
  effects = [];
  peers = select_epidemic d peers;
  bundle = none;
}
