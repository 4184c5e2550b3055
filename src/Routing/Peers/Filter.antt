-- ===== src/Routing/Peers/Filter.antt =====
-- What the two filters of algorithm.go leave.
use ma_sinafadavi_iran.Prelude.{
  ◌≡◌, Bool, true, false, not, ◌||◌, List, [], ◌∷◌, arith, All, All-map, All-select, select, any,
  Bool-cases, inl, inr,
}
use ma_sinafadavi_iran.Bpv7.Endpoint.{EndpointId, eid_beq, eid_beq_iff}
use ma_sinafadavi_iran.Store.Descriptor.{BundleDescriptor, get_known_holders}
use ma_sinafadavi_iran.Routing.Peers.{
  Sender, holds, filter_sent, filter_peers, unique_loop, unique_peers,
}

pub filter_peers-unknown :
    (d : BundleDescriptor) (peers : List Sender)
    → All (λ s. holds d.metadata.known_holders s ≡ false) (filter_peers d peers)
unfolding filter_peers filter_sent get_known_holders
filter_peers-unknown d peers = elim (Bool-cases d.deleted) [
  | inl gone ↦ rw (gone, filter_peers, filter_sent) tt
  | inr live ↦
      rw (live, filter_peers, filter_sent)
        (All-map (λ (s : Sender). not (holds d.metadata.known_holders s) ≡ true)
          (λ (s : Sender). holds d.metadata.known_holders s ≡ false) (λ s h. ground arith)
          (select (λ s. not (holds d.metadata.known_holders s)) peers)
          (All-select (λ s. not (holds d.metadata.known_holders s)) peers))
]

-- A list of peers of which no two have the same endpoint.
abbrev pub DistinctPeers : List Sender → Type 0
DistinctPeers [] = Unit
DistinctPeers (s ∷ ss) = All (λ t. eid_beq s.peer t.peer ≡ false) ss × DistinctPeers ss

abbrev pub is_represented : List Sender → Sender → Bool
is_represented ss s = any (λ t. eid_beq s.peer t.peer) ss

record IsUnique (seen : List EndpointId) (ss us : List Sender) : Type 0 where
  unseen : All (λ s. holds seen s ≡ false) us
  distinct : DistinctPeers us
  complete : All (λ s. (holds seen s || is_represented us s) ≡ true) ss

module _ (seen : List EndpointId) (s t : Sender) where
  later_unseen : holds (s.peer ∷ seen) t ≡ false → holds seen t ≡ false
  unfolding holds
  later_unseen h = ground arith

  later_distinct : holds (s.peer ∷ seen) t ≡ false → eid_beq s.peer t.peer ≡ false
  unfolding holds
  later_distinct h = ground (arith, eid_beq_iff s.peer t.peer, eid_beq_iff t.peer s.peer)

  later_complete :
      (us : List Sender)
      → (holds (s.peer ∷ seen) t || is_represented us t) ≡ true
      → (holds seen t || is_represented (s ∷ us) t) ≡ true
  unfolding holds
  later_complete us h = ground arith

unique_loop-IsUnique :
    (seen : List EndpointId) (ss : List Sender) → IsUnique seen ss (unique_loop seen ss)
unfolding unique_loop
unique_loop-IsUnique seen [] = record { unseen = tt; distinct = tt; complete = tt }
unique_loop-IsUnique seen (s ∷ ss) = elim (Bool-cases (holds seen s)) [
  | inl met ↦
      let v = unique_loop-IsUnique seen ss in
      rw (met, unique_loop)
        (record { unseen = v.unseen; distinct = v.distinct; complete = (ground arith, v.complete) })
  | inr new ↦
      let v = unique_loop-IsUnique (s.peer ∷ seen) ss in
      let us = unique_loop (s.peer ∷ seen) ss in
      rw (new, unique_loop)
        (record {
          unseen = (
            new,
            All-map (λ (t : Sender). holds (s.peer ∷ seen) t ≡ false)
                (λ (t : Sender). holds seen t ≡ false) (λ t h. later_unseen seen s t h) us v.unseen,
          );
          distinct = (
            All-map (λ (t : Sender). holds (s.peer ∷ seen) t ≡ false)
                (λ (t : Sender). eid_beq s.peer t.peer ≡ false) (λ t h. later_distinct seen s t h)
                us v.unseen,
            v.distinct,
          );
          complete = (
            ground (arith, eid_beq_iff s.peer s.peer),
            All-map _ (λ (t : Sender). (holds seen t || is_represented (s ∷ us) t) ≡ true)
                (λ t h. later_complete seen s t us h) ss v.complete,
          );
        })
]

-- uniquePeers leaves no two peers with the same endpoint, and for every peer that it is given it leaves
-- one with that peer's endpoint.
pub unique_peers-DistinctPeers :
    (ss : List Sender)
    → DistinctPeers (unique_peers ss) × All (λ s. is_represented (unique_peers ss) s ≡ true) ss
unfolding unique_peers holds
unique_peers-DistinctPeers ss = let v = unique_loop-IsUnique [] ss in (v.distinct, v.complete)
