-- ===== src/Routing/Peers.antt =====
-- dtnd7-go/pkg/routing/algorithm.go and epidemic.go: the filters on peers, and epidemic routing.
pub mod Filter
use ma_sinafadavi_iran.Prelude.{String, Bool, not, List, [], ◌∷◌, if◌then◌else◌, any, select}
use ma_sinafadavi_iran.Bpv7.Endpoint.{EndpointId, eid_beq}
use ma_sinafadavi_iran.Store.Descriptor.{BundleDescriptor, Result, ok, err, get_known_holders}

-- A ConvergenceSender, by its address and what GetPeerEndpointID returns.
pub record Sender : Type 0 where
  pub address : String
  pub peer : EndpointId

unfoldable pub holds : List EndpointId → Sender → Bool
holds sent s = any (λ e. eid_beq s.peer e) sent

pub filter_sent : Result (List EndpointId) → List Sender → List Sender
unfolding holds
filter_sent (err e) clas = []
filter_sent (ok sent) clas = select (λ s. not (holds sent s)) clas

-- filterPeers
unfoldable pub filter_peers : BundleDescriptor → List Sender → List Sender
unfolding filter_sent get_known_holders
filter_peers d clas = filter_sent (get_known_holders d) clas

-- The loop of uniquePeers, with the endpoints that it has met.
unique_loop : List EndpointId → List Sender → List Sender
unfolding holds
unique_loop seen [] = []
unique_loop seen (s ∷ ss) =
    let new = not (holds seen s) in
    let rest = unique_loop (if new then s.peer ∷ seen else seen) ss in
    if new then s ∷ rest else rest

-- uniquePeers
unfoldable pub unique_peers : List Sender → List Sender
unfolding unique_loop
unique_peers peers = unique_loop [] peers

-- EpidemicRouting.SelectPeersForForwarding; it returns no bundle of its own.
unfoldable pub select_epidemic : BundleDescriptor → List Sender → List Sender
unfolding filter_peers
select_epidemic d peers = filter_peers d peers
