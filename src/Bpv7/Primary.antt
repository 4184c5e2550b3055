-- ===== src/Bpv7/Primary.antt =====
-- dtnd7-go/pkg/bpv7/primary_block.go, and CheckValid of bundle_control_flags.go.
pub mod Marshal
use ma_sinafadavi_iran.Prelude.{
  ℕ, ◌++◌, Bool, true, false, not, ◌&&◌, ◌||◌, List, [], nat_beq, if◌then◌else◌,
}
use ma_sinafadavi_iran.Bpv7.Env.{Env}
use ma_sinafadavi_iran.Bpv7.Outcome.Halts.{Halts, Halts-bind, halts_rules}
use ma_sinafadavi_iran.Bpv7.Outcome.{
  Fault, wrong_version, fragment_and_must_not_fragment, record_with_status_request,
  anonymous_source_flags, Outcome, ok, fault_unless, ◌>>=◌,
}
use ma_sinafadavi_iran.Bpv7.Flags.{
  has, is_fragment, must_not_fragmented, administrative_record_payload, no_status_request,
}
use ma_sinafadavi_iran.Bpv7.Endpoint.{
  EndpointId, dtn_none, eid_beq, eid_faults, marshal_eid, marshal_eid-Halts,
}
use ma_sinafadavi_iran.Bpv7.Crc.{crc_no, calculate_crc_buff, calculate_crc_buff-Halts}
use ma_sinafadavi_iran.Bpv7.Time.{CreationTimestamp}

abbrev pub dtn_version : ℕ
dtn_version = 7

pub record PrimaryBlock : Type 0 where
  pub version : ℕ
  pub bundle_control_flags : ℕ
  pub crc_type : ℕ
  pub destination : EndpointId
  pub source_node : EndpointId
  pub report_to : EndpointId
  pub creation_timestamp : CreationTimestamp
  pub lifetime : ℕ
  pub fragment_offset : ℕ
  pub total_data_length : ℕ
  pub crc : List ℕ

unfoldable pub has_fragmentation : PrimaryBlock → Bool
has_fragmentation pb = has pb.bundle_control_flags is_fragment

unfoldable pub has_crc : PrimaryBlock → Bool
has_crc pb = not (nat_beq pb.crc_type crc_no)

-- BundleControlFlags.CheckValid
pub control_flag_faults : ℕ → List Fault
control_flag_faults bcf =
    fault_unless (not (has bcf is_fragment && has bcf must_not_fragmented))
      fragment_and_must_not_fragment
    ++ fault_unless (not (has bcf administrative_record_payload) || no_status_request bcf)
        record_with_status_request

-- PrimaryBlock.CheckValid
unfoldable pub primary_faults : Env → PrimaryBlock → List Fault
unfolding control_flag_faults
primary_faults env pb =
    fault_unless (nat_beq pb.version dtn_version) (wrong_version pb.version)
    ++ (control_flag_faults pb.bundle_control_flags
        ++ (eid_faults env pb.destination
            ++ (eid_faults env pb.source_node
                ++ (eid_faults env pb.report_to
                    ++ fault_unless
                        (not (eid_beq pb.source_node dtn_none)
                          || (has pb.bundle_control_flags must_not_fragmented
                              && no_status_request pb.bundle_control_flags))
                        anonymous_source_flags))))

-- The closure blockLen of MarshalCbor.
unfoldable pub block_len : Bool → Bool → ℕ
block_len false false = 8
block_len false true = 9
block_len true false = 10
block_len true true = 11

unfoldable pub marshal_timestamp : Env → CreationTimestamp → List ℕ
marshal_timestamp env ct =
    env.write_array_length 2 ++ (env.write_uint ct.dtn_time ++ env.write_uint ct.sequence_number)

unfoldable pub fragment_fields : Env → PrimaryBlock → List ℕ
fragment_fields env pb =
    if has_fragmentation pb
    then env.write_uint pb.fragment_offset ++ env.write_uint pb.total_data_length
    else []

-- The bytes in front of the CRC field, with those of the three endpoints.
unfoldable pub head_bytes : Env → PrimaryBlock → List ℕ → List ℕ → List ℕ → List ℕ
head_bytes env pb destination source report =
    env.write_array_length (block_len (has_fragmentation pb) (has_crc pb))
    ++ (env.write_uint dtn_version
        ++ (env.write_uint pb.bundle_control_flags
            ++ (env.write_uint pb.crc_type
                ++ (destination
                    ++ (source
                        ++ (report
                            ++ (marshal_timestamp env pb.creation_timestamp
                                ++ (env.write_uint pb.lifetime ++ fragment_fields env pb))))))))

unfoldable pub primary_head : Env → PrimaryBlock → Outcome (List ℕ)
unfolding head_bytes
primary_head env pb = do
  destination ← marshal_eid env pb.destination
  source ← marshal_eid env pb.source_node
  report ← marshal_eid env pb.report_to
  ok (head_bytes env pb destination source report)

unfoldable pub append_crc : Env → PrimaryBlock → List ℕ → Outcome (PrimaryBlock × List ℕ)
append_crc env pb head =
    if has_crc pb
    then (do
      crc ← calculate_crc_buff env head pb.crc_type
      ok (record pb { crc = crc }, head ++ env.write_byte_string crc))
    else ok (pb, head)

-- PrimaryBlock.MarshalCbor: the block, which remembers its CRC, and its bytes.
unfoldable pub marshal_primary : Env → PrimaryBlock → Outcome (PrimaryBlock × List ℕ)
unfolding primary_head append_crc has_fragmentation has_crc block_len marshal_timestamp
    fragment_fields calculate_crc_buff
marshal_primary env pb = do head ← primary_head env pb; append_crc env pb head

primary_head-Halts : (env : Env) (pb : PrimaryBlock) → Halts (primary_head env pb)
unfolding primary_head
primary_head-Halts env pb = search (halts_rules, marshal_eid-Halts)

append_crc-Halts : (env : Env) (pb : PrimaryBlock) (head : List ℕ) → Halts (append_crc env pb head)
unfolding append_crc
append_crc-Halts env pb head = search (halts_rules, calculate_crc_buff-Halts)

pub marshal_primary-Halts : (env : Env) (pb : PrimaryBlock) → Halts (marshal_primary env pb)
unfolding marshal_primary
marshal_primary-Halts env pb =
    Halts-bind (primary_head env pb) (append_crc env pb) (primary_head-Halts env pb)
      (append_crc-Halts env pb)
