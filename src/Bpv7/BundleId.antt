-- ===== src/Bpv7/BundleId.antt =====
-- dtnd7-go/pkg/bpv7/bundle_id.go, and Bundle.ID of bundle.go.
use ma_sinafadavi_iran.Prelude.{
  ℕ, ◌≡◌, ◌↔◌, Bool, true, false, not, ◌&&◌, arith, Eq, nat_beq, if◌then◌else◌,
}
use ma_sinafadavi_iran.Bpv7.Flags.{has, is_fragment}
use ma_sinafadavi_iran.Bpv7.Endpoint.{EndpointId, eid_beq, eid_beq_iff}
use ma_sinafadavi_iran.Bpv7.Time.{CreationTimestamp}
use ma_sinafadavi_iran.Bpv7.Bundle.{Bundle}

pub record BundleId : Type 0 where
  pub source_node : EndpointId
  pub timestamp : CreationTimestamp
  pub fragmented : Bool
  pub fragment_offset : ℕ
  pub total_data_length : ℕ

-- Bundle.ID
unfoldable pub bundle_id : Bundle → BundleId
bundle_id b = record {
  source_node = b.primary_block.source_node;
  timestamp = b.primary_block.creation_timestamp;
  fragmented = has b.primary_block.bundle_control_flags is_fragment;
  fragment_offset = b.primary_block.fragment_offset;
  total_data_length = b.primary_block.total_data_length;
}

-- Len
unfoldable pub len : BundleId → ℕ
len id = if id.fragmented then 4 else 2

-- Scrub
pub scrub : BundleId → BundleId
scrub id = record id { fragmented = false; fragment_offset = 0; total_data_length = 0 }

bool_beq : Bool → Bool → Bool
bool_beq true b = b
bool_beq false b = not b

-- `==` of two ids, as the keys of a Go map.
unfoldable pub id_beq : BundleId → BundleId → Bool
unfolding bool_beq
id_beq a b =
    eid_beq a.source_node b.source_node
    && nat_beq a.timestamp.dtn_time b.timestamp.dtn_time
    && nat_beq a.timestamp.sequence_number b.timestamp.sequence_number
    && bool_beq a.fragmented b.fragmented
    && nat_beq a.fragment_offset b.fragment_offset
    && nat_beq a.total_data_length b.total_data_length

pub id_beq_iff : (a b : BundleId) → (id_beq a b ≡ true) ↔ (a ≡ b)
unfolding id_beq
id_beq_iff a b = ground (arith, eid_beq_iff a.source_node b.source_node)

instance abbrev pub id_eq : Eq BundleId
id_eq = record { same = id_beq; same_iff = id_beq_iff }
