-- ===== src/Bpv7/Block.antt =====
-- dtnd7-go/pkg/bpv7/canonical_block.go and the extension blocks.
use ma_sinafadavi_iran.Prelude.{ℕ, ◌++◌, Bool, not, List, [], ltb, nat_beq, if◌then◌else◌, ◌||◌}
use ma_sinafadavi_iran.Bpv7.Env.{Env}
use ma_sinafadavi_iran.Bpv7.Outcome.Halts.{Halts, Halts-ok, Halts-bind, halts_rules}
use ma_sinafadavi_iran.Bpv7.Outcome.{
  Fault, hop_count_exceeded, payload_block_number, Outcome, ok, fault_unless, ◌>>=◌,
}
use ma_sinafadavi_iran.Bpv7.Endpoint.{EndpointId, eid_faults, marshal_eid, marshal_eid-Halts}
use ma_sinafadavi_iran.Bpv7.Crc.{crc_no, calculate_crc_buff, calculate_crc_buff-Halts}

pub data ExtensionBlock : Type 0 where
  payload_block : List ℕ → ExtensionBlock
  previous_node_block : EndpointId → ExtensionBlock
  bundle_age_block : ℕ → ExtensionBlock
  hop_count_block : ℕ → ℕ → ExtensionBlock
  binary_spray_block : ℕ → ExtensionBlock
  rec_bundle_type_block : ℕ → ExtensionBlock
  generic_extension_block : List ℕ → ℕ → ExtensionBlock

abbrev pub type_payload : ℕ
type_payload = 1

abbrev pub type_previous_node : ℕ
type_previous_node = 6

abbrev pub type_bundle_age : ℕ
type_bundle_age = 7

abbrev pub type_hop_count : ℕ
type_hop_count = 10

abbrev pub type_binary_spray : ℕ
type_binary_spray = 192

abbrev pub type_rec_bundle_type : ℕ
type_rec_bundle_type = 1000

-- BlockTypeCode
unfoldable pub block_type_code : ExtensionBlock → ℕ
block_type_code (payload_block _) = type_payload
block_type_code (previous_node_block _) = type_previous_node
block_type_code (bundle_age_block _) = type_bundle_age
block_type_code (hop_count_block _ _) = type_hop_count
block_type_code (binary_spray_block _) = type_binary_spray
block_type_code (rec_bundle_type_block _) = type_rec_bundle_type
block_type_code (generic_extension_block _ code) = code

pub record CanonicalBlock : Type 0 where
  pub block_number : ℕ
  pub block_control_flags : ℕ
  pub crc_type : ℕ
  pub crc : List ℕ
  pub value : ExtensionBlock

abbrev pub new_canonical_block : ℕ → ℕ → ExtensionBlock → CanonicalBlock
new_canonical_block number bcf value = record {
  block_number = number;
  block_control_flags = bcf;
  crc_type = crc_no;
  crc = [];
  value = value;
}

unfoldable pub type_code : CanonicalBlock → ℕ
unfolding block_type_code
type_code cb = block_type_code cb.value

-- CheckValid of each block type.
value_faults : Env → ExtensionBlock → List Fault
value_faults env (previous_node_block e) = eid_faults env e
value_faults env (hop_count_block limit count) =
    fault_unless (not (ltb limit count)) hop_count_exceeded
value_faults env _ = []

-- CanonicalBlock.CheckValid; BlockControlFlags.CheckValid finds no fault.
unfoldable pub canonical_faults : Env → CanonicalBlock → List Fault
unfolding value_faults type_code
canonical_faults env cb =
    value_faults env cb.value
    ++ fault_unless (not (nat_beq (type_code cb) type_payload) || nat_beq cb.block_number 1)
        (payload_block_number cb.block_number)

-- The bytes that ExtensionBlockManager.WriteBlock wraps into a byte string.
unfoldable pub value_bytes : Env → ExtensionBlock → Outcome (List ℕ)
value_bytes env (payload_block bytes) = ok bytes
value_bytes env (previous_node_block e) = marshal_eid env e
value_bytes env (bundle_age_block ms) = ok (env.write_uint ms)
value_bytes env (hop_count_block limit count) =
    ok (env.write_array_length 2 ++ (env.write_uint limit ++ env.write_uint count))
value_bytes env (binary_spray_block copies) = ok (env.write_uint copies)
value_bytes env (rec_bundle_type_block t) = ok (env.write_array_length 1 ++ env.write_uint t)
value_bytes env (generic_extension_block bytes _) = ok bytes

unfoldable pub write_block : Env → ExtensionBlock → Outcome (List ℕ)
unfolding value_bytes
write_block env b = do bytes ← value_bytes env b; ok (env.write_byte_string bytes)

unfoldable pub has_crc : CanonicalBlock → Bool
has_crc cb = not (nat_beq cb.crc_type crc_no)

unfoldable pub block_len : CanonicalBlock → ℕ
unfolding has_crc
block_len cb = if has_crc cb then 6 else 5

-- The bytes between the array's head and the CRC field, with those of the value.
unfoldable pub field_bytes : Env → CanonicalBlock → List ℕ → List ℕ
field_bytes env cb value =
    env.write_uint (type_code cb)
    ++ (env.write_uint cb.block_number
        ++ (env.write_uint cb.block_control_flags ++ (env.write_uint cb.crc_type ++ value)))

unfoldable pub canonical_head : Env → CanonicalBlock → Outcome (List ℕ)
unfolding block_len field_bytes
canonical_head env cb = do
  value ← write_block env cb.value
  ok (env.write_array_length (block_len cb) ++ field_bytes env cb value)

unfoldable pub append_crc : Env → CanonicalBlock → List ℕ → Outcome (CanonicalBlock × List ℕ)
append_crc env cb head =
    if has_crc cb
    then (do
      crc ← calculate_crc_buff env head cb.crc_type
      ok (record cb { crc = crc }, head ++ env.write_byte_string crc))
    else ok (cb, head)

-- CanonicalBlock.MarshalCbor: the block, which remembers its CRC, and its bytes.
unfoldable pub marshal_canonical : Env → CanonicalBlock → Outcome (CanonicalBlock × List ℕ)
unfolding canonical_head append_crc write_block has_crc type_code calculate_crc_buff
marshal_canonical env cb = do head ← canonical_head env cb; append_crc env cb head

value_bytes-Halts : (env : Env) (b : ExtensionBlock) → Halts (value_bytes env b)
unfolding value_bytes
value_bytes-Halts env (previous_node_block e) = marshal_eid-Halts env e
value_bytes-Halts env _ = Halts-ok _

canonical_head-Halts : (env : Env) (cb : CanonicalBlock) → Halts (canonical_head env cb)
unfolding canonical_head write_block
canonical_head-Halts env cb = search (halts_rules, value_bytes-Halts)

append_crc-Halts :
    (env : Env) (cb : CanonicalBlock) (head : List ℕ) → Halts (append_crc env cb head)
unfolding append_crc
append_crc-Halts env cb head = search (halts_rules, calculate_crc_buff-Halts)

pub marshal_canonical-Halts : (env : Env) (cb : CanonicalBlock) → Halts (marshal_canonical env cb)
unfolding marshal_canonical
marshal_canonical-Halts env cb =
    Halts-bind (canonical_head env cb) (append_crc env cb) (canonical_head-Halts env cb)
      (append_crc-Halts env cb)
