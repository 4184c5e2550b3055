-- ===== src/Bpv7/Decode/Block.antt =====
-- dtnd7-go/pkg/bpv7/canonical_block.go and extension_block.go: UnmarshalCbor, ReadBlock and the
-- decoders of the registered block types. BinarySprayBlock, DTLSRBlock, ProphetBlock and SignatureBlock
-- are not registered, so their codes are read as generic blocks.
pub mod RoundTrip
use ma_sinafadavi_iran.Prelude.{
  ℕ, suc, Bool, ◌||◌, List, [], ◌++◌, length, arith, nat_beq, leb, if◌then◌else◌,
}
use ma_sinafadavi_iran.Bpv7.Env.{Env}
use ma_sinafadavi_iran.Bpv7.Outcome.{
  Outcome, ok, wrong_array_length, hop_count_field, wrap, ◌>>=◌, ◌>>◌,
}
use ma_sinafadavi_iran.Bpv7.Outcome.Halts.{Halts, Halts-ok, Halts-if, Halts-bind}
use ma_sinafadavi_iran.Bpv7.Block.{
  ExtensionBlock, payload_block, previous_node_block, bundle_age_block, hop_count_block,
  rec_bundle_type_block, generic_extension_block, CanonicalBlock, type_payload, type_previous_node,
  type_bundle_age, type_hop_count, type_rec_bundle_type,
}
use ma_sinafadavi_iran.Bpv7.Decode.{Reads, Reader, consumed}
use ma_sinafadavi_iran.Bpv7.Decode.Laws.{Progress}
use ma_sinafadavi_iran.Bpv7.Decode.Within.{
  Within, Advances, StrictlyAdvances, within_rules, Within-step, Within-Halts,
}
use ma_sinafadavi_iran.Bpv7.Decode.Endpoint.{
  unmarshal_eid, unmarshal_eid-Advances, expect_length, expect_length-Advances,
}
use ma_sinafadavi_iran.Bpv7.Decode.Fields.{require, require-Halts, read_crc, read_crc-Advances}

-- PreviousNodeBlock.UnmarshalCbor
read_previous_node : Reader → Reads ExtensionBlock
read_previous_node reader input = do
  (e, r) ← unmarshal_eid reader input
  ok (previous_node_block e, r)

-- BundleAgeBlock.UnmarshalCbor
read_bundle_age : Reader → Reads ExtensionBlock
read_bundle_age reader input = do (ms, r) ← reader.read_uint input; ok (bundle_age_block ms, r)

-- HopCountBlock.UnmarshalCbor, whose fields are bytes.
read_hop_count : Reader → Reads ExtensionBlock
read_hop_count reader input = do
  (_, r) ← expect_length reader 2 input
  (limit, r) ← reader.read_uint r
  require (leb limit 255) (hop_count_field limit)
  (count, r) ← reader.read_uint r
  require (leb count 255) (hop_count_field count)
  ok (hop_count_block limit count, r)

-- RECBundleTypeBlock.UnmarshalCbor
read_rec_bundle_type : Reader → Reads ExtensionBlock
read_rec_bundle_type reader input = do
  (_, r) ← expect_length reader 1 input
  (t, r) ← reader.read_uint r
  ok (rec_bundle_type_block t, r)

-- createBlock and the decoder of the block that it makes. What a decoder leaves of the block's bytes is
-- dropped.
unmarshal_value : Reader → ℕ → Reads ExtensionBlock
unfolding read_previous_node read_bundle_age read_hop_count read_rec_bundle_type
unmarshal_value reader code bytes =
    if nat_beq code type_payload
    then ok (payload_block bytes, bytes)
    else if nat_beq code type_previous_node
    then read_previous_node reader bytes
    else if nat_beq code type_bundle_age
    then read_bundle_age reader bytes
    else if nat_beq code type_hop_count
    then read_hop_count reader bytes
    else if nat_beq code type_rec_bundle_type
    then read_rec_bundle_type reader bytes
    else ok (generic_extension_block bytes code, bytes)

-- ExtensionBlockManager.ReadBlock
unfoldable pub read_block : Reader → ℕ → Reads ExtensionBlock
unfolding unmarshal_value
read_block reader code input = do
  (bytes, r) ← reader.read_byte_string input
  (value, _) ← unmarshal_value reader code bytes
  ok (value, r)

-- The fields behind the array's head up to the CRC.
unfoldable pub read_canonical_fields : Reader → Reads CanonicalBlock
unfolding read_block
read_canonical_fields reader input = do
  (code, r) ← reader.read_uint input
  (number, r) ← reader.read_uint r
  (flags, r) ← reader.read_uint r
  (crc_type, r) ← reader.read_uint r
  (value, r) ← wrap (read_block reader code r)
  ok (
    record {
      block_number = number;
      block_control_flags = flags;
      crc_type = crc_type;
      crc = [];
      value = value;
    },
    r,
  )

-- The CRC, which an array of 6 elements has; its buffer begins with the array's head, written anew.
unfoldable pub read_canonical_crc :
    Env → Reader → List ℕ → ℕ → CanonicalBlock → Reads CanonicalBlock
read_canonical_crc env reader buff len cb input =
    if nat_beq len 6
    then (do
      (crc, r) ← read_crc env reader (env.write_array_length len ++ buff) cb.crc_type input
      ok (record cb { crc = crc }, r))
    else ok (cb, input)

-- CanonicalBlock.UnmarshalCbor
unfoldable pub unmarshal_canonical : Env → Reader → Reads CanonicalBlock
unfolding read_canonical_fields read_canonical_crc
unmarshal_canonical env reader input = do
  (len, start) ← reader.read_array_length input
  require (nat_beq len 5 || nat_beq len 6) (wrong_array_length len)
  (cb, r) ← read_canonical_fields reader start
  read_canonical_crc env reader (consumed start r) len cb r

module _ (env : Env) (reader : Reader) (progress : Progress reader) where
  unmarshal_value-Advances : (code : ℕ) → Advances (unmarshal_value reader code)
  unfolding unmarshal_value read_previous_node read_bundle_age read_hop_count read_rec_bundle_type
  unmarshal_value-Advances code limit input h =
      search
        (
          within_rules,
          Within-step,
          require-Halts,
          progress.read_uint-Advances,
          unmarshal_eid-Advances reader progress,
          expect_length-Advances reader progress,
        )
        depth 20

  unmarshal_value-Halts : (code : ℕ) (bytes : List ℕ) → Halts (unmarshal_value reader code bytes)
  unmarshal_value-Halts code bytes =
      Within-Halts _ (unmarshal_value-Advances code (suc (length bytes)) bytes (omega arith))

  read_block-Advances : (code : ℕ) → Advances (read_block reader code)
  unfolding read_block
  read_block-Advances code limit input h =
      search (within_rules, Within-step, unmarshal_value-Halts, progress.read_byte_string-Advances)

  read_canonical_fields-Advances : Advances (read_canonical_fields reader)
  unfolding read_canonical_fields
  read_canonical_fields-Advances limit input h =
      search (within_rules, progress.read_uint-Advances, read_block-Advances) depth 12

  read_canonical_crc-Advances :
      (buff : List ℕ) (len : ℕ) (cb : CanonicalBlock)
      → Advances (read_canonical_crc env reader buff len cb)
  unfolding read_canonical_crc
  read_canonical_crc-Advances buff len cb limit input h =
      search (within_rules, read_crc-Advances env reader progress)

  -- Reading a block returns, and takes a byte at least where it succeeds.
  pub unmarshal_canonical-StrictlyAdvances : StrictlyAdvances (unmarshal_canonical env reader)
  unfolding unmarshal_canonical
  unmarshal_canonical-StrictlyAdvances limit input h = search (
    within_rules, Within-step, require-Halts, progress.read_array_length-StrictlyAdvances,
    read_canonical_fields-Advances, read_canonical_crc-Advances,
  )
