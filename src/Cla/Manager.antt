-- ===== src/Cla/Manager.antt =====
-- dtnd7-go/pkg/cla/cla_manager.go. A critical section is one step. An interface value is its address,
-- whether it implements ConvergenceReceiver and ConvergenceSender, and the peer that it names.
pub mod Addresses
pub mod Lists
pub mod Reachable
pub mod Disconnect
use ma_sinafadavi_iran.Prelude.{
  ℕ, String, Bool, true, false, not, ◌&&◌, ◌||◌, List, [], ◌∷◌, ◌++◌, map, Eq, string_eq, ◌==◌,
  if◌then◌else◌, any, select, is_listed,
}
use ma_sinafadavi_iran.Bpv7.Endpoint.{EndpointId}

pub record Cla : Type 0 where
  pub address : String
  pub is_receiver : Bool
  pub is_sender : Bool
  pub peer : EndpointId

pub record Manager : Type 0 where
  pub receivers : List Cla
  pub senders : List Cla
  pub pending_start : List Cla
  -- the addresses of the listeners
  pub listeners : List String
  pub pending_removal : List String

-- What a method starts in other goroutines.
pub data Effect : Type 0 where
  activate : Cla → Effect
  disconnect_callback : EndpointId → Effect
  close_cla : Cla → Effect
  close_listener : String → Effect

-- InitialiseCLAManager
abbrev pub initial : Manager
initial = record {
  receivers = [];
  senders = [];
  pending_start = [];
  listeners = [];
  pending_removal = [];
}

abbrev pub has_address : String → List Cla → Bool
has_address a = any (λ (c : Cla). c.address == a)

abbrev pub without : String → List Cla → List Cla
without a = select (λ (c : Cla). not (c.address == a))

-- checkPresent
unfoldable pub check_present : Manager → Cla → Bool
check_present m c =
    has_address c.address m.pending_start
    || (c.is_receiver && has_address c.address m.receivers)
    || (c.is_sender && has_address c.address m.senders)

-- registerAsync
unfoldable pub register_async : Manager → Cla → Manager × List Effect
unfolding check_present
register_async m c =
    if check_present m c
    then (m, [])
    else (record m { pending_start = m.pending_start ++ c ∷ [] }, activate c ∷ [])

unfoldable pub add_if : Bool → Cla → List Cla → List Cla
add_if b c cs = if b then cs ++ c ∷ [] else cs

-- The critical section of activateCLA, behind an Activate that succeeded or not.
unfoldable pub activate_cla : Manager → Cla → Bool → Manager
unfolding add_if
activate_cla m c succeeded = record m {
  pending_start = without c.address m.pending_start;
  receivers = add_if (succeeded && c.is_receiver) c m.receivers;
  senders = add_if (succeeded && c.is_sender) c m.senders;
}

-- The first critical section of NotifyDisconnect: whether it goes on.
unfoldable pub begin_disconnect : Manager → Cla → Manager × Bool
begin_disconnect m c =
    if is_listed c.address m.pending_removal
    then (m, false)
    else (record m { pending_removal = c.address ∷ m.pending_removal }, true)

-- The second critical section of NotifyDisconnect.
unfoldable pub end_disconnect : Manager → Cla → Manager × List Effect
end_disconnect m c = (
  record m {
    receivers = if c.is_receiver then without c.address m.receivers else m.receivers;
    senders = if c.is_sender then without c.address m.senders else m.senders;
    pending_removal = select (λ a. not (a == c.address)) m.pending_removal;
  },
  if c.is_sender then disconnect_callback c.peer ∷ [] else [],
)

-- RegisterListener, whose Start succeeded or not.
unfoldable pub register_listener : Manager → String → Bool → Manager
register_listener m listener started =
    if started then record m { listeners = m.listeners ++ listener ∷ [] } else m

-- shutdown; the CLAs that are pending stay.
unfoldable pub shutdown : Manager → Manager × List Effect
shutdown m = (
  record m { receivers = []; senders = []; listeners = [] },
  map close_cla m.receivers ++ (map close_cla m.senders ++ map close_listener m.listeners),
)
