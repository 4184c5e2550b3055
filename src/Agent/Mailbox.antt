-- ===== src/Agent/Mailbox.antt =====
-- dtnd7-go/pkg/application_agent/mailbox.go and errors.go. A method holds the mailbox's lock; the store it
-- asks is an argument, and so is what the files hold. Go visits a map in any order, here it is that of the
-- association list.
pub mod Delivery
pub mod Reading
use ma_sinafadavi_iran.Prelude.{
  String, ◌++◌, ◌&&◌, Bool, true, false, not, Option, none, some, List, [], ◌∷◌, if◌then◌else◌,
  find, put, keep, erase,
}
use ma_sinafadavi_iran.Bpv7.Endpoint.{EndpointId}
use ma_sinafadavi_iran.Bpv7.Bundle.{Bundle}
use ma_sinafadavi_iran.Bpv7.BundleId.{BundleId, id_eq}
use ma_sinafadavi_iran.Store.Descriptor.{
  BundleDescriptor, StoreError, Result, ok as stored, err as store_err,
}
use ma_sinafadavi_iran.Store.Bundles.{BundleStore, get_bundle_descriptor, load}

-- The ids of the messages, and whether they have been retrieved.
abbrev pub Messages : Type 0
Messages = List (BundleId × Bool)

pub data AgentError : Type 0 where
  already_delivered no_such_bundle : BundleId → AgentError
  id_already_registered no_such_id : EndpointId → AgentError
  from_store : StoreError → AgentError

unfoldable pub new_mailbox : Messages
new_mailbox = []

-- What a method leaves in the mailbox, and the error that it returns.
deliver_known : Messages → BundleId → Result BundleDescriptor → Messages × Option AgentError
deliver_known box id (store_err e) = (box, some (from_store e))
deliver_known box id (stored _) = (put id false box, none)

deliver_to : BundleStore → Messages → BundleId → Option Bool → Messages × Option AgentError
unfolding deliver_known
deliver_to bst box id (some _) = (box, some (already_delivered id))
deliver_to bst box id none = deliver_known box id (get_bundle_descriptor bst id)

unfoldable pub deliver : BundleStore → Messages → BundleDescriptor → Messages × Option AgentError
unfolding deliver_to
deliver bst box d = deliver_to bst box d.metadata.id (find d.metadata.id box)

-- List
unfoldable pub list_all : Messages → List BundleId
list_all [] = []
list_all ((id, _) ∷ m) = id ∷ list_all m

unfoldable pub list_new : Messages → List BundleId
list_new [] = []
list_new ((id, retrieved) ∷ m) = let rest = list_new m in if retrieved then rest else id ∷ rest

-- GetBundleDescriptor, then Load: the bundle, or which of the two failed.
pub data Fetched : Type 0 where
  fetched : Bundle → Fetched
  unknown unloadable : StoreError → Fetched

fetch_loaded : Result Bundle → Fetched
fetch_loaded (stored b) = fetched b
fetch_loaded (store_err e) = unloadable e

fetch_known : (String → Result Bundle) → Result BundleDescriptor → Fetched
unfolding fetch_loaded
fetch_known disk (store_err e) = unknown e
fetch_known disk (stored d) = fetch_loaded (load disk d)

unfoldable pub fetch : BundleStore → (String → Result Bundle) → BundleId → Fetched
unfolding fetch_known
fetch bst disk id = fetch_known disk (get_bundle_descriptor bst id)

-- A bundle, or the error.
pub data Got : Type 0 where
  got : Bundle → Got
  not_got : AgentError → Got

get_fetched : Messages → BundleId → Bool → Fetched → Messages × Got
get_fetched box id remove (unknown e) = (box, not_got (from_store e))
get_fetched box id remove (unloadable e) = (box, not_got (from_store e))
get_fetched box id remove (fetched b) = (if remove then erase id box else put id true box, got b)

get_message :
    BundleStore
    → (String → Result Bundle)
    → Messages
    → BundleId
    → Bool
    → Option Bool
    → Messages × Got
unfolding get_fetched
get_message bst disk box id remove none = (box, not_got (no_such_bundle id))
get_message bst disk box id remove (some _) = get_fetched box id remove (fetch bst disk id)

-- Get
unfoldable pub get :
    BundleStore → (String → Result Bundle) → Messages → BundleId → Bool → Messages × Got
unfolding get_message
get bst disk box id remove = get_message bst disk box id remove (find id box)

-- What GetAll and GetNew end in: the mailbox, the slice of bundles and the error.
pub record Read : Type 0 where
  pub messages : Messages
  pub bundles : List Bundle
  pub error : Option AgentError

-- One round: the nil slice if the store does not know the bundle, the bundles so far if it cannot be
-- loaded, or else the rest of the loop.
read_one : BundleId → Bool → Messages → List Bundle → Fetched → (Bundle → Read) → Read
read_one id retrieved m bndls (unknown e) rest = record {
  messages = (id, retrieved) ∷ m;
  bundles = [];
  error = some (from_store e);
}
read_one id retrieved m bndls (unloadable e) rest = record {
  messages = (id, retrieved) ∷ m;
  bundles = bndls;
  error = some (from_store e);
}
read_one id retrieved m bndls (fetched b) rest =
    let r = rest b in record r { messages = (id, true) ∷ r.messages }

-- The loop, with the bundles so far; `only_new` passes over what has been retrieved.
read_loop : Bool → BundleStore → (String → Result Bundle) → List Bundle → Messages → Read
unfolding read_one
read_loop only_new bst disk bndls [] = record { messages = []; bundles = bndls; error = none }
read_loop only_new bst disk bndls ((id, retrieved) ∷ m) = elim (only_new && retrieved) [
  | true ↦
      let r = read_loop only_new bst disk bndls m in
      record r { messages = (id, retrieved) ∷ r.messages }
  | false ↦
      read_one id retrieved m bndls (fetch bst disk id)
        (λ b. read_loop only_new bst disk (bndls ++ b ∷ []) m)
]

cleared : Bool → Read → Option AgentError → Read
cleared remove r (some e) = r
cleared remove r none = if remove then record r { messages = [] } else r

unfoldable pub get_all : BundleStore → (String → Result Bundle) → Messages → Bool → Read
unfolding read_loop cleared
get_all bst disk box remove = let r = read_loop false bst disk [] box in cleared remove r r.error

unfoldable pub get_new : BundleStore → (String → Result Bundle) → Messages → Bool → Read
unfolding read_loop cleared
get_new bst disk box remove = let r = read_loop true bst disk [] box in cleared remove r r.error

-- Delete
unfoldable pub delete_message : Messages → BundleId → Messages
delete_message box id = erase id box

unfoldable pub clear : Messages → Messages
clear box = []

is_known : Result BundleDescriptor → Bool
is_known (store_err _) = false
is_known (stored d) = not d.deleted

-- GC
unfoldable pub collect_mailbox : BundleStore → Messages → Messages
unfolding is_known
collect_mailbox bst box = keep (λ id. is_known (get_bundle_descriptor bst id)) box
