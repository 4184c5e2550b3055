-- ===== src/Discovery/Manager.antt =====
-- dtnd7-go/pkg/discovery/discovery_manager.go: what a node does with the announcements that it receives.
-- The texts that fmt makes are parameters. The goroutines of handleDiscovery come one after another, each
-- with the registration that it starts.
pub mod Served
use ma_sinafadavi_iran.Prelude.{
  ℕ, String, ◌≡◌, refl, Bool, true, false, Option, none, some, List, [], ◌∷◌, ◌++◌, nat_beq,
  if◌then◌else◌, All, arith, string_eq, ==_refl,
}
use ma_sinafadavi_iran.Bpv7.Outcome.{Outcome, ok, err, panic, no_fuel}
use ma_sinafadavi_iran.Bpv7.Endpoint.{EndpointId}
use ma_sinafadavi_iran.Bpv7.Endpoint.Node.{same_node}
use ma_sinafadavi_iran.Bpv7.Decode.{Reader}
use ma_sinafadavi_iran.Cla.Types.{mtcp, quicl}
use ma_sinafadavi_iran.Cla.Manager.{Cla, Manager, Effect, check_present, register_async}
use ma_sinafadavi_iran.Cla.Manager.Addresses.{has_address-append}
use ma_sinafadavi_iran.Discovery.Announcement.{Announcement, unmarshal_announcements}

-- fmt.Sprintf of a number, of "%s:%d" and of "[%s]".
pub record Texts : Type 0 where
  pub decimal : ℕ → String
  pub host_port : String → ℕ → String
  pub bracketed : String → String

-- NewMTCPClient: a sender that knows its peer.
abbrev pub mtcp_client : String → EndpointId → Cla
mtcp_client address peer = record {
  address = address;
  is_receiver = false;
  is_sender = true;
  peer = peer;
}

-- NewDialerEndpoint: a receiver and sender that does not know its peer yet.
abbrev pub dialer_endpoint : String → Cla
dialer_endpoint address = record {
  address = address;
  is_receiver = true;
  is_sender = true;
  peer = record { endpoint_type = none };
}

-- The CLA that handleDiscovery makes, if it goes on to its end.
unfoldable pub announced : Texts → EndpointId → String → Announcement → Option Cla
announced texts own addr a =
    if same_node texts.decimal own a.endpoint
    then none
    else if nat_beq a.cla_type mtcp
    then some (mtcp_client (texts.host_port addr a.port) a.endpoint)
    else if nat_beq a.cla_type quicl
    then some (dialer_endpoint (texts.host_port addr a.port))
    else none

pub register_absent : Manager → Option Cla → Manager × List Effect
register_absent m none = (m, [])
register_absent m (some c) = if check_present m c then (m, []) else register_async m c

-- handleDiscovery
unfoldable pub handle_discovery :
    Texts → EndpointId → String → Manager → Announcement → Manager × List Effect
unfolding register_absent announced
handle_discovery texts own addr m a = register_absent m (announced texts own addr a)

pub handle_all : Texts → EndpointId → String → Manager → List Announcement → Manager × List Effect
unfolding handle_discovery
handle_all texts own addr m [] = (m, [])
handle_all texts own addr m (a ∷ others) =
    let first = handle_discovery texts own addr m a in
    let rest = handle_all texts own addr first.0 others in (rest.0, first.1 ++ rest.1)

handle_read :
    Texts
    → EndpointId
    → String
    → Manager
    → Outcome (List Announcement)
    → Outcome (Manager × List Effect)
unfolding handle_all
handle_read texts own addr m (ok announcements) = ok (handle_all texts own addr m announcements)
handle_read texts own addr m (err e) = ok (m, [])
handle_read texts own addr m panic = panic
handle_read texts own addr m no_fuel = no_fuel

-- notify; a payload that cannot be read is dropped.
unfoldable pub notify :
    Texts → Reader → EndpointId → Manager → String → List ℕ → Outcome (Manager × List Effect)
unfolding handle_read
notify texts reader own m addr payload =
    handle_read texts own addr m (unmarshal_announcements reader payload)

-- notify6
unfoldable pub notify6 :
    Texts → Reader → EndpointId → Manager → String → List ℕ → Outcome (Manager × List Effect)
unfolding notify
notify6 texts reader own m addr = notify texts reader own m (texts.bracketed addr)

-- Whether a CLA that is wanted is present.
abbrev pub is_served : Manager → Option Cla → Bool
is_served m none = true
is_served m (some c) = check_present m c

register_async-keeps :
    (m : Manager) (c d : Cla)
    → check_present m d ≡ true
    → check_present (register_async m c).0 d ≡ true
unfolding check_present register_async
register_async-keeps m c d h = ground (arith, has_address-append d.address m.pending_start (c ∷ []))

check_present-register_async :
    (m : Manager) (c : Cla) → check_present (register_async m c).0 c ≡ true
unfolding check_present register_async
check_present-register_async m c =
    ground (arith, has_address-append c.address m.pending_start (c ∷ []), ==_refl c.address)

is_served-register_absent :
    (m : Manager) (wanted : Option Cla) → is_served (register_absent m wanted).0 wanted ≡ true
unfolding register_absent
is_served-register_absent m none = refl
is_served-register_absent m (some c) = ground (arith, check_present-register_async m c)

register_absent-keeps :
    (m : Manager) (wanted other : Option Cla)
    → is_served m other ≡ true
    → is_served (register_absent m wanted).0 other ≡ true
unfolding register_absent
register_absent-keeps m none other h = h
register_absent-keeps m wanted none h = refl
register_absent-keeps m (some c) (some d) h = ground (arith, register_async-keeps m c d h)

module _ (texts : Texts) (own : EndpointId) (addr : String) where
  pub handle_all-keeps :
      (m : Manager) (announcements : List Announcement) (other : Option Cla)
      → is_served m other ≡ true
      → is_served (handle_all texts own addr m announcements).0 other ≡ true
  unfolding handle_all handle_discovery
  handle_all-keeps m [] other h = h
  handle_all-keeps m (a ∷ others) other h =
      handle_all-keeps (register_absent m (announced texts own addr a)).0 others other
        (register_absent-keeps m (announced texts own addr a) other h)

  pub handle_all-serves :
      (m : Manager) (announcements : List Announcement)
      → All
          (λ a.
            is_served (handle_all texts own addr m announcements).0 (announced texts own addr a)
            ≡ true)
          announcements
  unfolding handle_all handle_discovery
  handle_all-serves m [] = tt
  handle_all-serves m (a ∷ others) = (
    handle_all-keeps (register_absent m (announced texts own addr a)).0 others
        (announced texts own addr a) (is_served-register_absent m (announced texts own addr a)),
    handle_all-serves (register_absent m (announced texts own addr a)).0 others,
  )
