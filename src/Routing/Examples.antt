-- ===== src/Routing/Examples.antt =====
-- Some peers on which the theorems about package routing are applied.
use ma_sinafadavi_iran.Prelude.{
  inr, none, subst, ℕ, ◌+◌, ◌<◌, ◌≡◌, ◌⊎◌, refl, Bool, true, false, some, List, [], ◌∷◌, arith,
  length, All,
}
use ma_sinafadavi_iran.Bpv7.Block.{
  new_canonical_block, binary_spray_block, hop_count_block, type_binary_spray, type_code,
  CanonicalBlock,
}
use ma_sinafadavi_iran.Bpv7.Bundle.{Bundle}
use ma_sinafadavi_iran.Bpv7.Examples.{node, bundle, payload}
use ma_sinafadavi_iran.Store.Descriptor.{BundleDescriptor, ok}
use ma_sinafadavi_iran.Store.Examples.{descriptor}
use ma_sinafadavi_iran.Routing.Peers.{Sender, unique_peers}
use ma_sinafadavi_iran.Routing.Peers.Filter.{
  DistinctPeers, is_represented, unique_peers-DistinctPeers,
}
use ma_sinafadavi_iran.Routing.Spray.{
  SprayAndWait, World, notify_received_bundle, set_spray_copies, select_peers, positions,
  remove_pointed,
}
use ma_sinafadavi_iran.Routing.Spray.Copies.{
  remaining, get-set_spray_copies, select_peers-basic, select_peers-binary, Carries,
}
use ma_sinafadavi_iran.Routing.Spray.Block.{HasOneSprayAtMost}
use ma_sinafadavi_iran.Routing.Spray.Aliasing.{remove_pointed-misses}
use ma_sinafadavi_iran.Routing.Spray.Received.{received_spray_panics}
use ma_sinafadavi_iran.Bpv7.Bundle.{extension_blocks_by_type, get_by_number}
use ma_sinafadavi_iran.Bpv7.Outcome.{panic}
use ma_sinafadavi_iran.Bpv7.Decode.Bundle.RoundTrip.{received_bundle}
use ma_sinafadavi_iran.Bpv7.Decode.Examples.{
  wire, wire_reader, wire-Inverse, wire-Progress, sample, sent, sample-IsDecodable,
  marshal_bundle-sample, unmarshal_bundle-sample,
}

abbrev pub peer_at : ℕ → Sender
peer_at n = record { address = "peer"; peer = node n }

abbrev pub some_peers : List Sender
some_peers = peer_at 3 ∷ peer_at 4 ∷ peer_at 5 ∷ []

abbrev world : World
world = record { written = ok tt; loaded = ok bundle; random = 7 }

abbrev router : Bool → SprayAndWait
router binary = record { copies = 10; binary = binary }

abbrev sprayed : BundleDescriptor
sprayed = (set_spray_copies world descriptor 9).0

select_peers-basic_example :
    (n : ℕ) × (remaining (select_peers (router false) world sprayed some_peers) ≡ some n)
    × (length (select_peers (router false) world sprayed some_peers).peers + n ≡ 9)
select_peers-basic_example =
    select_peers-basic (router false) world sprayed 9 some_peers refl
      (get-set_spray_copies world descriptor 9)

-- The bundle with a BinarySprayBlock, on its way through the binary mode.
abbrev binary_world : World
binary_world = record world { loaded = ok sample }

sample-HasOneSprayAtMost : (b : Bundle) → binary_world.loaded ≡ ok b → HasOneSprayAtMost b
unfolding extension_blocks_by_type get_by_number type_code
sample-HasOneSprayAtMost b h =
    let same : sample ≡ b = cc in
    subst HasOneSprayAtMost same (inr (new_canonical_block 3 0 (binary_spray_block 4), refl, refl))

select_peers-binary_example :
    let s = select_peers (router true) binary_world sprayed some_peers in
    ((s.peers ≡ []) × (s.bundle ≡ none) × (remaining s ≡ some 9))
    ⊎ ((b : Bundle) × (sent : Bundle) × (ok sample ≡ ok b)
        × (s.bundle ≡ some sent)
        × Carries 4 b sent
        × (length s.peers ≡ 1)
        × (0 < 4)
        × (remaining s ≡ some 5))
select_peers-binary_example =
    select_peers-binary (router true) binary_world sprayed 9 some_peers refl
      (get-set_spray_copies world descriptor 9) sample-HasOneSprayAtMost

unique_peers-DistinctPeers_example :
    DistinctPeers (unique_peers (peer_at 3 ∷ peer_at 3 ∷ some_peers))
    × All
        (λ s. is_represented (unique_peers (peer_at 3 ∷ peer_at 3 ∷ some_peers)) s ≡ true)
        (peer_at 3 ∷ peer_at 3 ∷ some_peers)
unique_peers-DistinctPeers_example = unique_peers-DistinctPeers (peer_at 3 ∷ peer_at 3 ∷ some_peers)

abbrev first_block : CanonicalBlock
first_block = new_canonical_block 2 0 (binary_spray_block 4)

abbrev second_block : CanonicalBlock
second_block = new_canonical_block 3 0 (binary_spray_block 2)

abbrev third_block : CanonicalBlock
third_block = new_canonical_block 4 0 (hop_count_block 5 1)

remove_pointed-misses_example :
    let blocks = first_block ∷ second_block ∷ third_block ∷ [] in
    remove_pointed (positions type_binary_spray 0 blocks) blocks [] ≡ second_block ∷ []
unfolding type_code
remove_pointed-misses_example =
    remove_pointed-misses first_block second_block third_block refl refl (λ h. omega (arith, h))
      (λ h. omega (arith, h)) (λ h. omega (arith, h)) (λ h. omega (arith, h))

received_spray_panics_example :
    notify_received_bundle world descriptor (received_bundle wire sent.0) ≡ panic
unfolding extension_blocks_by_type
received_spray_panics_example =
    received_spray_panics wire wire_reader wire-Inverse wire-Progress world descriptor 0 sample
      sent.0 (received_bundle wire sent.0) payload (new_canonical_block 3 0 (binary_spray_block 4))
      4 sent.1 [] sample-IsDecodable marshal_bundle-sample unmarshal_bundle-sample refl refl
