-- ===== src/Bpv7/Decode/Block/RoundTrip.antt =====
-- CanonicalBlock.UnmarshalCbor on what CanonicalBlock.MarshalCbor wrote.
use ma_sinafadavi_iran.Prelude.{
  ℕ, ◌^◌, ◌<◌, ◌≤◌, ◌≡◌, sym, subst, Bool, true, false, ◌||◌, List, [], ◌++◌, nat_beq, le→leb,
  append_assoc, append-nil, arith, Bool-cases, inl, inr,
}
use ma_sinafadavi_iran.Bpv7.Env.{Env}
use ma_sinafadavi_iran.Bpv7.Outcome.{Outcome, ok, >>=-eq-ok}
use ma_sinafadavi_iran.Bpv7.Crc.{calculate_crc_buff}
use ma_sinafadavi_iran.Bpv7.Block.{
  ExtensionBlock, payload_block, previous_node_block, bundle_age_block, hop_count_block,
  binary_spray_block, rec_bundle_type_block, generic_extension_block, CanonicalBlock, type_payload,
  type_previous_node, type_bundle_age, type_hop_count, type_rec_bundle_type, type_binary_spray,
  block_type_code, type_code, has_crc, value_bytes, write_block, block_len, field_bytes,
  canonical_head, append_crc, marshal_canonical,
}
use ma_sinafadavi_iran.Bpv7.Decode.{Reader}
use ma_sinafadavi_iran.Bpv7.Decode.Laws.{Inverse, read_uint-whole}
use ma_sinafadavi_iran.Bpv7.Decode.Endpoint.{IsDecodable, unmarshal_eid-marshal_eid, expect_length}
use ma_sinafadavi_iran.Bpv7.Decode.Fields.{require, read_crc-calculate_crc_buff, consumed-append}
use ma_sinafadavi_iran.Bpv7.Decode.Block.{
  read_previous_node, read_bundle_age, read_hop_count, read_rec_bundle_type, unmarshal_value,
  read_block, read_canonical_fields, read_canonical_crc, unmarshal_canonical,
}

abbrev pub is_registered : ℕ → Bool
is_registered code =
    nat_beq code type_payload
    || nat_beq code type_previous_node
    || nat_beq code type_bundle_age
    || nat_beq code type_hop_count
    || nat_beq code type_rec_bundle_type

-- A block value whose numbers are of their sizes; a generic block is of no registered type.
abbrev pub IsDecodableValue : Reader → ExtensionBlock → Type 0
IsDecodableValue reader (payload_block _) = Unit {0}
IsDecodableValue reader (previous_node_block e) = IsDecodable reader e
IsDecodableValue reader (bundle_age_block ms) = ms < 2 ^ 64
IsDecodableValue reader (hop_count_block limit count) = (limit ≤ 255) × (count ≤ 255)
IsDecodableValue reader (binary_spray_block copies) = copies < 2 ^ 64
IsDecodableValue reader (rec_bundle_type_block t) = t < 2 ^ 64
IsDecodableValue reader (generic_extension_block _ code) =
    (is_registered code ≡ false) × (code < 2 ^ 64)

-- What a node reads of a block that was sent: the block, but a generic block for a BinarySprayBlock,
-- whose type is not registered.
abbrev pub received : Env → ExtensionBlock → ExtensionBlock
received env (binary_spray_block copies) =
    generic_extension_block (env.write_uint copies) type_binary_spray
received env value = value

pub record IsDecodableBlock (reader : Reader) (cb : CanonicalBlock) : Type 0 where
  pub number_64 : cb.block_number < 2 ^ 64
  pub flags_64 : cb.block_control_flags < 2 ^ 64
  pub crc_type_64 : cb.crc_type < 2 ^ 64
  pub value-IsDecodableValue : IsDecodableValue reader cb.value
  pub without : has_crc cb ≡ false → cb.crc ≡ []

block_type_code-small :
    (reader : Reader) (value : ExtensionBlock)
    → IsDecodableValue reader value
    → block_type_code value < 2 ^ 64
unfolding block_type_code
block_type_code-small reader (generic_extension_block _ code) (_, small) = small
block_type_code-small reader (payload_block _) d = omega arith
block_type_code-small reader (previous_node_block _) d = omega arith
block_type_code-small reader (bundle_age_block _) d = omega arith
block_type_code-small reader (hop_count_block _ _) d = omega arith
block_type_code-small reader (binary_spray_block _) d = omega arith
block_type_code-small reader (rec_bundle_type_block _) d = omega arith

block_len-crc : (cb : CanonicalBlock) → nat_beq (block_len cb) 6 ≡ has_crc cb
unfolding block_len
block_len-crc cb = ground arith

block_len-range :
    (cb : CanonicalBlock) → (nat_beq (block_len cb) 5 || nat_beq (block_len cb) 6) ≡ true
unfolding block_len
block_len-range cb = ground arith

block_len-small : (cb : CanonicalBlock) → block_len cb < 2 ^ 64
unfolding block_len
block_len-small cb = ground arith

-- The block that a node reads: its value as it is received.
abbrev pub received_block : Env → CanonicalBlock → CanonicalBlock
received_block env cb = record cb { value = received env cb.value }

module _ (env : Env) (reader : Reader) (inverse : Inverse env reader) where
  unmarshal_value-value_bytes :
      (value : ExtensionBlock) (bytes : List ℕ)
      → IsDecodableValue reader value
      → value_bytes env value ≡ ok bytes
      → (left : List ℕ) × (unmarshal_value reader (block_type_code value) bytes
          ≡ ok (received env value, left))
  unfolding unmarshal_value value_bytes block_type_code read_previous_node read_bundle_age
      read_hop_count read_rec_bundle_type expect_length require
  unmarshal_value-value_bytes (payload_block carried) bytes d m = (bytes, cc)
  unmarshal_value-value_bytes (previous_node_block e) bytes d m =
      let whole = unmarshal_eid-marshal_eid env reader inverse e bytes d m [] in
      let back = rw append-nil at whole in ([], simp back)
  unmarshal_value-value_bytes (bundle_age_block ms) bytes d m =
      let written : env.write_uint ms ≡ bytes = cc in
      let back = read_uint-whole env reader inverse ms d in ([], simp (sym written, back))
  unmarshal_value-value_bytes (hop_count_block limit count) bytes (h, k) m =
      let written : env.write_array_length 2 ++ (env.write_uint limit ++ env.write_uint count)
          ≡ bytes =
        cc in
      let back = read_uint-whole env reader inverse count (omega arith) in
      (
        [],
        simp (
          sym written,
          inverse.read_array_length-write_array_length 2 (omega arith),
          inverse.read_uint-write_uint limit (omega arith),
          back,
          le→leb limit 255 h,
          le→leb count 255 k,
        ),
      )
  unmarshal_value-value_bytes (binary_spray_block copies) bytes d m = (bytes, cc)
  unmarshal_value-value_bytes (rec_bundle_type_block t) bytes d m =
      let written : env.write_array_length 1 ++ env.write_uint t ≡ bytes = cc in
      let back = read_uint-whole env reader inverse t d in
      ([], simp (sym written, inverse.read_array_length-write_array_length 1 (omega arith), back))
  unmarshal_value-value_bytes (generic_extension_block carried code) bytes (other, d) m =
      (bytes, ground arith)

  read_block-write_block :
      (value : ExtensionBlock) (bytes : List ℕ)
      → IsDecodableValue reader value
      → write_block env value ≡ ok bytes
      → (rest : List ℕ)
      → read_block reader (block_type_code value) (bytes ++ rest) ≡ ok (received env value, rest)
  unfolding read_block write_block
  read_block-write_block value bytes d m rest =
      let (inner, made, k) =
        >>=-eq-ok (value_bytes env value) (λ b. ok (env.write_byte_string b)) m in
      let (_, back) = unmarshal_value-value_bytes value inner d made in
      let written : env.write_byte_string inner ≡ bytes = cc in
      simp (sym written, inverse.read_byte_string-write_byte_string, back)

  read_canonical_fields-field_bytes :
      (cb : CanonicalBlock) (value : List ℕ)
      → IsDecodableBlock reader cb
      → write_block env cb.value ≡ ok value
      → (rest : List ℕ)
      → read_canonical_fields reader (field_bytes env cb value ++ rest)
        ≡ ok (record cb { crc = []; value = received env cb.value }, rest)
  unfolding read_canonical_fields field_bytes type_code
  read_canonical_fields-field_bytes cb value d m rest = simp (
    append_assoc,
    inverse.read_uint-write_uint (block_type_code cb.value)
        (block_type_code-small reader cb.value d.value-IsDecodableValue),
    inverse.read_uint-write_uint cb.block_number d.number_64,
    inverse.read_uint-write_uint cb.block_control_flags d.flags_64,
    inverse.read_uint-write_uint cb.crc_type d.crc_type_64,
    read_block-write_block cb.value value d.value-IsDecodableValue m,
  )

  with_value : CanonicalBlock → List ℕ → List ℕ → Outcome (CanonicalBlock × List ℕ)
  with_value cb head crc = ok (record cb { crc = crc }, head ++ env.write_byte_string crc)

  read_canonical_crc-append_crc :
      (cb : CanonicalBlock) (fields : List ℕ) {r : CanonicalBlock × List ℕ}
      → IsDecodableBlock reader cb
      → append_crc env cb (env.write_array_length (block_len cb) ++ fields) ≡ ok r
      → (rest : List ℕ)
      → (tail : List ℕ) × (r.1 ≡ env.write_array_length (block_len cb) ++ (fields ++ tail))
        × (read_canonical_crc env reader fields
              (block_len cb)
              (record cb { crc = []; value = received env cb.value })
              (tail ++ rest)
            ≡ ok (received_block env r.0, rest))
  unfolding append_crc read_canonical_crc with_value
  read_canonical_crc-append_crc cb fields {r} d h rest = elim (Bool-cases (has_crc cb)) [
    | inl with_crc ↦
        let head = env.write_array_length (block_len cb) ++ fields in
        let (crc, made, k) =
          >>=-eq-ok (calculate_crc_buff env head cb.crc_type) (with_value cb head)
            (rw with_crc at h) in
        let value : r ≡ (record cb { crc = crc }, head ++ env.write_byte_string crc) = cc in
        (
          env.write_byte_string crc,
          simp (value, append_assoc),
          simp (
            value,
            block_len-crc,
            with_crc,
            read_crc-calculate_crc_buff env reader inverse head crc rest cb.crc_type made,
          ),
        )
    | inr plain ↦
        let head = env.write_array_length (block_len cb) ++ fields in
        let k : ok (cb, head) ≡ ok r = (rw plain at h) in
        let value : r ≡ (cb, head) = cc in
        ([], simp (value, append-nil), simp (value, block_len-crc, plain, d.without plain))
  ]

  unmarshal_canonical-append_crc :
      (cb made : CanonicalBlock) (value bytes : List ℕ)
      → IsDecodableBlock reader cb
      → write_block env cb.value ≡ ok value
      → append_crc env cb (env.write_array_length (block_len cb) ++ field_bytes env cb value)
        ≡ ok (made, bytes)
      → (rest : List ℕ)
      → unmarshal_canonical env reader (bytes ++ rest) ≡ ok (received_block env made, rest)
  unfolding unmarshal_canonical require
  unmarshal_canonical-append_crc cb made value bytes d v k rest =
      let fields = field_bytes env cb value in
      let (tail, e, back) = read_canonical_crc-append_crc cb fields {r = (made, bytes)} d k rest in
      simp (
        e,
        append_assoc,
        inverse.read_array_length-write_array_length (block_len cb) (block_len-small cb),
        block_len-range,
        read_canonical_fields-field_bytes cb value d v,
        consumed-append fields (tail ++ rest),
        back,
      )

  -- A block's bytes decode to the block with the CRC that was written, its value as it is received, and
  -- what is behind them is left.
  pub unmarshal_canonical-marshal_canonical :
      (cb made : CanonicalBlock) (bytes : List ℕ)
      → IsDecodableBlock reader cb
      → marshal_canonical env cb ≡ ok (made, bytes)
      → (rest : List ℕ)
      → unmarshal_canonical env reader (bytes ++ rest) ≡ ok (received_block env made, rest)
  unfolding marshal_canonical canonical_head
  unmarshal_canonical-marshal_canonical cb made bytes d m rest =
      let (head, h, k) = >>=-eq-ok (canonical_head env cb) (append_crc env cb) m in
      let (value, v, w) = >>=-eq-ok (write_block env cb.value) _ h in
      let same : env.write_array_length (block_len cb) ++ field_bytes env cb value ≡ head = cc in
      unmarshal_canonical-append_crc cb made value bytes d v
        (subst (λ x. append_crc env cb x ≡ ok (made, bytes)) (sym same) k) rest
