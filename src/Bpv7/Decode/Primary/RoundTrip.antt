-- ===== src/Bpv7/Decode/Primary/RoundTrip.antt =====
-- PrimaryBlock.UnmarshalCbor on what PrimaryBlock.MarshalCbor wrote.
use ma_sinafadavi_iran.Prelude.{
  ℕ, ◌^◌, ◌<◌, ◌≡◌, refl, sym, Bool, true, false, ◌&&◌, ◌||◌, List, [], ◌++◌, nat_beq, leb,
  append_assoc, append-nil, arith, Bool-cases, inl, inr,
}
use ma_sinafadavi_iran.Bpv7.Env.{Env}
use ma_sinafadavi_iran.Bpv7.Outcome.{Outcome, ok, >>=-eq-ok}
use ma_sinafadavi_iran.Bpv7.Time.{CreationTimestamp}
use ma_sinafadavi_iran.Bpv7.Endpoint.{marshal_eid}
use ma_sinafadavi_iran.Bpv7.Crc.{calculate_crc_buff}
use ma_sinafadavi_iran.Bpv7.Primary.{
  PrimaryBlock, dtn_version, marshal_primary, primary_head, head_bytes, append_crc, block_len,
  marshal_timestamp, fragment_fields, has_fragmentation, has_crc,
}
use ma_sinafadavi_iran.Bpv7.Primary.Marshal.{without_crc}
use ma_sinafadavi_iran.Bpv7.Decode.{Reader}
use ma_sinafadavi_iran.Bpv7.Decode.Laws.{Inverse}
use ma_sinafadavi_iran.Bpv7.Decode.Endpoint.{IsDecodable, unmarshal_eid-marshal_eid, expect_length}
use ma_sinafadavi_iran.Bpv7.Decode.Fields.{
  require, unmarshal_timestamp, read_crc-calculate_crc_buff, consumed-append,
}
use ma_sinafadavi_iran.Bpv7.Decode.Primary.{
  read_fragment, read_fields, read_primary_crc, unmarshal_primary,
}

-- A primary block that a decoder can give: of version 7, its numbers of 64 bits, without an offset and
-- a total length where it is no fragment, and without a CRC value where it has no CRC type.
pub record IsDecodablePrimary (reader : Reader) (pb : PrimaryBlock) : Type 0 where
  pub of_version : pb.version ≡ dtn_version
  pub flags_64 : pb.bundle_control_flags < 2 ^ 64
  pub crc_type_64 : pb.crc_type < 2 ^ 64
  pub time_64 : pb.creation_timestamp.dtn_time < 2 ^ 64
  pub number_64 : pb.creation_timestamp.sequence_number < 2 ^ 64
  pub lifetime_64 : pb.lifetime < 2 ^ 64
  pub offset_64 : pb.fragment_offset < 2 ^ 64
  pub total_64 : pb.total_data_length < 2 ^ 64
  pub destination-IsDecodable : IsDecodable reader pb.destination
  pub source_node-IsDecodable : IsDecodable reader pb.source_node
  pub report_to-IsDecodable : IsDecodable reader pb.report_to
  pub whole : has_fragmentation pb ≡ false → (pb.fragment_offset ≡ 0) × (pb.total_data_length ≡ 0)
  pub without : has_crc pb ≡ false → pb.crc ≡ []

block_len-fragment : (f c : Bool) → (nat_beq (block_len f c) 10 || nat_beq (block_len f c) 11) ≡ f
unfolding block_len
block_len-fragment f c = ground arith

block_len-crc : (f c : Bool) → (nat_beq (block_len f c) 9 || nat_beq (block_len f c) 11) ≡ c
unfolding block_len
block_len-crc f c = ground arith

block_len-range : (f c : Bool) → (leb 8 (block_len f c) && leb (block_len f c) 11) ≡ true
unfolding block_len
block_len-range f c = ground arith

block_len-small : (f c : Bool) → block_len f c < 2 ^ 64
unfolding block_len
block_len-small f c = ground arith

module _ (env : Env) (reader : Reader) (inverse : Inverse env reader) where
  pub unmarshal_timestamp-marshal_timestamp :
      (ct : CreationTimestamp)
      → ct.dtn_time < 2 ^ 64
      → ct.sequence_number < 2 ^ 64
      → (rest : List ℕ)
      → unmarshal_timestamp reader (marshal_timestamp env ct ++ rest) ≡ ok (ct, rest)
  unfolding unmarshal_timestamp marshal_timestamp expect_length
  unmarshal_timestamp-marshal_timestamp ct h k rest = simp (
    append_assoc,
    inverse.read_array_length-write_array_length 2 (omega arith),
    inverse.read_uint-write_uint ct.dtn_time h,
    inverse.read_uint-write_uint ct.sequence_number k,
  )

  read_fragment-fragment_fields :
      (pb : PrimaryBlock) (crc : Bool)
      → IsDecodablePrimary reader pb
      → (rest : List ℕ)
      → read_fragment reader (block_len (has_fragmentation pb) crc) (fragment_fields env pb ++ rest)
        ≡ ok ((pb.fragment_offset, pb.total_data_length), rest)
  unfolding read_fragment fragment_fields
  read_fragment-fragment_fields pb crc d rest = elim (Bool-cases (has_fragmentation pb)) [
    | inl here ↦ simp (
      block_len-fragment,
      here,
      append_assoc,
      inverse.read_uint-write_uint pb.fragment_offset d.offset_64,
      inverse.read_uint-write_uint pb.total_data_length d.total_64,
    )
    | inr whole ↦
        let (offset, total) = d.whole whole in simp (block_len-fragment, whole, offset, total)
  ]

  read_fields-head_bytes :
      (pb : PrimaryBlock) (destination source report : List ℕ)
      → IsDecodablePrimary reader pb
      → marshal_eid env pb.destination ≡ ok destination
      → marshal_eid env pb.source_node ≡ ok source
      → marshal_eid env pb.report_to ≡ ok report
      → (rest : List ℕ)
      → read_fields reader (head_bytes env pb destination source report ++ rest)
        ≡ ok ((block_len (has_fragmentation pb) (has_crc pb), without_crc pb), rest)
  unfolding read_fields head_bytes require
  read_fields-head_bytes pb destination source report d h1 h2 h3 rest = simp (
    append_assoc,
    inverse.read_array_length-write_array_length (block_len (has_fragmentation pb) (has_crc pb))
        (block_len-small _ _),
    block_len-range,
    inverse.read_uint-write_uint dtn_version (omega arith),
    inverse.read_uint-write_uint pb.bundle_control_flags d.flags_64,
    inverse.read_uint-write_uint pb.crc_type d.crc_type_64,
    unmarshal_eid-marshal_eid env reader inverse pb.destination destination
        d.destination-IsDecodable h1,
    unmarshal_eid-marshal_eid env reader inverse pb.source_node source d.source_node-IsDecodable h2,
    unmarshal_eid-marshal_eid env reader inverse pb.report_to report d.report_to-IsDecodable h3,
    unmarshal_timestamp-marshal_timestamp pb.creation_timestamp d.time_64 d.number_64,
    inverse.read_uint-write_uint pb.lifetime d.lifetime_64,
    read_fragment-fragment_fields pb (has_crc pb) d,
    d.of_version,
  )

  read_fields-primary_head :
      (pb : PrimaryBlock) (head : List ℕ)
      → IsDecodablePrimary reader pb
      → primary_head env pb ≡ ok head
      → (rest : List ℕ)
      → read_fields reader (head ++ rest)
        ≡ ok ((block_len (has_fragmentation pb) (has_crc pb), without_crc pb), rest)
  unfolding primary_head
  read_fields-primary_head pb head d h rest =
      let (destination, h1, k1) = >>=-eq-ok (marshal_eid env pb.destination) _ h in
      let (source, h2, k2) = >>=-eq-ok (marshal_eid env pb.source_node) _ k1 in
      let (report, h3, k3) = >>=-eq-ok (marshal_eid env pb.report_to) _ k2 in
      let same : head_bytes env pb destination source report ≡ head = cc in
      rw (sym same) (read_fields-head_bytes pb destination source report d h1 h2 h3 rest)

  with_value : Env → PrimaryBlock → List ℕ → List ℕ → Outcome (PrimaryBlock × List ℕ)
  with_value env pb head crc = ok (record pb { crc = crc }, head ++ env.write_byte_string crc)

  read_primary_crc-append_crc :
      (pb : PrimaryBlock) (head : List ℕ) {r : PrimaryBlock × List ℕ}
      → IsDecodablePrimary reader pb
      → append_crc env pb head ≡ ok r
      → (rest : List ℕ)
      → (tail : List ℕ) × (r.1 ≡ head ++ tail)
        × (read_primary_crc env reader head
              (block_len (has_fragmentation pb) (has_crc pb))
              (without_crc pb)
              (tail ++ rest)
            ≡ ok (r.0, rest))
  unfolding append_crc read_primary_crc with_value
  read_primary_crc-append_crc pb head {r} d h rest = elim (Bool-cases (has_crc pb)) [
    | inl with_crc ↦
        let (crc, made, k) =
          >>=-eq-ok (calculate_crc_buff env head pb.crc_type) (with_value env pb head)
            (rw with_crc at h) in
        let value : r ≡ (record pb { crc = crc }, head ++ env.write_byte_string crc) = cc in
        (
          env.write_byte_string crc,
          rw value refl,
          simp (
            value,
            block_len-crc,
            with_crc,
            read_crc-calculate_crc_buff env reader inverse head crc rest pb.crc_type made,
          ),
        )
    | inr plain ↦
        let k : ok (pb, head) ≡ ok r = (rw plain at h) in
        let value : r ≡ (pb, head) = cc in
        ([], simp (value, append-nil), simp (value, block_len-crc, plain, d.without plain))
  ]

  -- A primary block's bytes decode to the block with the CRC that was written, and what is behind them
  -- is left.
  pub unmarshal_primary-marshal_primary :
      (pb made : PrimaryBlock) (bytes : List ℕ)
      → IsDecodablePrimary reader pb
      → marshal_primary env pb ≡ ok (made, bytes)
      → (rest : List ℕ) → unmarshal_primary env reader (bytes ++ rest) ≡ ok (made, rest)
  unfolding marshal_primary unmarshal_primary
  unmarshal_primary-marshal_primary pb made bytes d m rest =
      let (head, h, k) = >>=-eq-ok (primary_head env pb) (append_crc env pb) m in
      let (tail, e, back) = read_primary_crc-append_crc pb head {r = (made, bytes)} d k rest in
      let split : bytes ++ rest ≡ head ++ (tail ++ rest) = rw e (append_assoc head tail rest) in
      rw
        (
          split,
          read_fields-primary_head pb head d h (tail ++ rest),
          consumed-append head (tail ++ rest),
        )
        back
