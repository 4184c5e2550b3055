-- ===== src/Bpv7/Decode/Primary.antt =====
-- dtnd7-go/pkg/bpv7/primary_block.go: UnmarshalCbor.
pub mod RoundTrip
use ma_sinafadavi_iran.Prelude.{
  ℕ, ◌^◌, ◌<◌, ◌≡◌, refl, sym, Bool, true, false, ◌&&◌, ◌||◌, List, [], ◌∷◌, ◌++◌, nat_beq, leb,
  if◌then◌else◌, append_assoc, arith,
}
use ma_sinafadavi_iran.Bpv7.Env.{Env}
use ma_sinafadavi_iran.Bpv7.Outcome.{
  Outcome, ok, wrong_array_length, wrong_version_read, ◌>>=◌, ◌>>◌, wrap, >>=-eq-ok,
}
use ma_sinafadavi_iran.Bpv7.Time.{CreationTimestamp}
use ma_sinafadavi_iran.Bpv7.Primary.{
  PrimaryBlock, dtn_version, marshal_primary, has_fragmentation, has_crc,
}
use ma_sinafadavi_iran.Bpv7.Decode.{Reads, Reader, consumed}
use ma_sinafadavi_iran.Bpv7.Decode.Laws.{Inverse, Progress}
use ma_sinafadavi_iran.Bpv7.Decode.Within.{
  Within, Advances, StrictlyAdvances, within_rules, Within-step,
}
use ma_sinafadavi_iran.Bpv7.Decode.Endpoint.{
  unmarshal_eid, IsDecodable, unmarshal_eid-marshal_eid, unmarshal_eid-Advances,
}
use ma_sinafadavi_iran.Bpv7.Decode.Fields.{
  require, require-Halts, unmarshal_timestamp, unmarshal_timestamp-Advances, read_crc,
  read_crc-Advances,
}

-- The fragment's offset and total length, which an array of 10 or 11 elements has.
read_fragment : Reader → ℕ → Reads (ℕ × ℕ)
read_fragment reader len input =
    if nat_beq len 10 || nat_beq len 11
    then (do
      (offset, r) ← reader.read_uint input
      (total, r) ← reader.read_uint r
      ok ((offset, total), r))
    else ok ((0, 0), input)

-- The fields up to the CRC, with the length of the array.
read_fields : Reader → Reads (ℕ × PrimaryBlock)
unfolding read_fragment
read_fields reader input = do
  (len, r) ← reader.read_array_length input
  require (leb 8 len && leb len 11) (wrong_array_length len)
  (version, r) ← reader.read_uint r
  require (nat_beq version dtn_version) (wrong_version_read version)
  (flags, r) ← reader.read_uint r
  (crc_type, r) ← reader.read_uint r
  (destination, r) ← wrap (unmarshal_eid reader r)
  (source, r) ← wrap (unmarshal_eid reader r)
  (report, r) ← wrap (unmarshal_eid reader r)
  (timestamp, r) ← wrap (unmarshal_timestamp reader r)
  (lifetime, r) ← reader.read_uint r
  ((offset, total), r) ← read_fragment reader len r
  ok (
    (
      len,
      record {
        version = dtn_version;
        bundle_control_flags = flags;
        crc_type = crc_type;
        destination = destination;
        source_node = source;
        report_to = report;
        creation_timestamp = timestamp;
        lifetime = lifetime;
        fragment_offset = offset;
        total_data_length = total;
        crc = [];
      },
    ),
    r,
  )

-- The CRC, which an array of 9 or 11 elements has.
read_primary_crc : Env → Reader → List ℕ → ℕ → PrimaryBlock → Reads PrimaryBlock
read_primary_crc env reader buff len pb input =
    if nat_beq len 9 || nat_beq len 11
    then (do (crc, r) ← read_crc env reader buff pb.crc_type input; ok (record pb { crc = crc }, r))
    else ok (pb, input)

-- PrimaryBlock.UnmarshalCbor
unfoldable pub unmarshal_primary : Env → Reader → Reads PrimaryBlock
unfolding read_fields read_primary_crc
unmarshal_primary env reader input = do
  ((len, pb), r) ← read_fields reader input
  read_primary_crc env reader (consumed input r) len pb r

module _ (env : Env) (reader : Reader) (progress : Progress reader) where
  read_fragment-Advances : (len : ℕ) → Advances (read_fragment reader len)
  unfolding read_fragment
  read_fragment-Advances len limit input h = search (within_rules, progress.read_uint-Advances)

  read_fields-StrictlyAdvances : StrictlyAdvances (read_fields reader)
  unfolding read_fields
  read_fields-StrictlyAdvances limit input h =
      search
        (
          within_rules,
          Within-step,
          require-Halts,
          progress.read_array_length-StrictlyAdvances,
          progress.read_uint-Advances,
          unmarshal_eid-Advances reader progress,
          unmarshal_timestamp-Advances env reader progress,
          read_fragment-Advances,
        )
        depth 20

  read_primary_crc-Advances :
      (buff : List ℕ) (len : ℕ) (pb : PrimaryBlock)
      → Advances (read_primary_crc env reader buff len pb)
  unfolding read_primary_crc
  read_primary_crc-Advances buff len pb limit input h =
      search (within_rules, read_crc-Advances env reader progress)

  -- Reading a primary block returns, and takes a byte at least where it succeeds.
  pub unmarshal_primary-StrictlyAdvances : StrictlyAdvances (unmarshal_primary env reader)
  unfolding unmarshal_primary
  unmarshal_primary-StrictlyAdvances limit input h =
      search (within_rules, read_fields-StrictlyAdvances, read_primary_crc-Advances)
