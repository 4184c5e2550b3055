-- ===== src/Bpv7/Decode/BundleId.antt =====
-- dtnd7-go/pkg/bpv7/bundle_id.go: MarshalCbor and UnmarshalCbor.
use ma_sinafadavi_iran.Prelude.{
  ℕ, ◌^◌, ◌<◌, ◌≡◌, refl, sym, subst, Bool, false, List, [], ◌++◌, if◌then◌else◌, append_assoc,
  Bool-cases, inl, inr,
}
use ma_sinafadavi_iran.Bpv7.Env.{Env}
use ma_sinafadavi_iran.Bpv7.Outcome.{Outcome, ok, wrap, ◌>>=◌, >>=-eq-ok, wrap-eq-ok}
use ma_sinafadavi_iran.Bpv7.Endpoint.{marshal_eid}
use ma_sinafadavi_iran.Bpv7.Primary.{marshal_timestamp}
use ma_sinafadavi_iran.Bpv7.BundleId.{BundleId}
use ma_sinafadavi_iran.Bpv7.Decode.{Reads, Reader}
use ma_sinafadavi_iran.Bpv7.Decode.Laws.{Inverse, Progress}
use ma_sinafadavi_iran.Bpv7.Decode.Within.{Advances, within_rules}
use ma_sinafadavi_iran.Bpv7.Decode.Endpoint.{
  unmarshal_eid, unmarshal_eid-Advances, unmarshal_eid-marshal_eid, IsDecodable,
}
use ma_sinafadavi_iran.Bpv7.Decode.Fields.{unmarshal_timestamp, unmarshal_timestamp-Advances}
use ma_sinafadavi_iran.Bpv7.Decode.Primary.RoundTrip.{unmarshal_timestamp-marshal_timestamp}

-- The bytes behind the source node.
id_fields : Env → BundleId → List ℕ
id_fields env id =
    marshal_timestamp env id.timestamp
    ++ (if id.fragmented
        then env.write_uint id.fragment_offset ++ env.write_uint id.total_data_length
        else [])

-- BundleID.MarshalCbor
unfoldable pub marshal_bundle_id : Env → BundleId → Outcome (List ℕ)
unfolding id_fields
marshal_bundle_id env id = do
  source ← wrap (marshal_eid env id.source_node)
  ok (source ++ id_fields env id)

-- The two values that an id has which is set to be a fragment's.
read_id_fragment : Reader → Bool → Reads (ℕ × ℕ)
read_id_fragment reader fragmented input =
    if fragmented
    then (do
      (offset, r) ← reader.read_uint input
      (total, r) ← reader.read_uint r
      ok ((offset, total), r))
    else ok ((0, 0), input)

-- BundleID.UnmarshalCbor of an id whose IsFragment was set beforehand, its other fields zero.
unfoldable pub unmarshal_bundle_id : Reader → Bool → Reads BundleId
unfolding read_id_fragment
unmarshal_bundle_id reader fragmented input = do
  (source, r) ← wrap (unmarshal_eid reader input)
  (timestamp, r) ← wrap (unmarshal_timestamp reader r)
  ((offset, total), r) ← read_id_fragment reader fragmented r
  ok (
    record {
      source_node = source;
      timestamp = timestamp;
      fragmented = fragmented;
      fragment_offset = offset;
      total_data_length = total;
    },
    r,
  )

-- An id whose numbers are of 64 bits, without an offset and a length where it is no fragment's.
pub record IsDecodableId (reader : Reader) (id : BundleId) : Type 0 where
  pub source-IsDecodable : IsDecodable reader id.source_node
  pub time_64 : id.timestamp.dtn_time < 2 ^ 64
  pub number_64 : id.timestamp.sequence_number < 2 ^ 64
  pub offset_64 : id.fragment_offset < 2 ^ 64
  pub total_64 : id.total_data_length < 2 ^ 64
  pub whole : id.fragmented ≡ false → (id.fragment_offset ≡ 0) × (id.total_data_length ≡ 0)

same_id :
    (id : BundleId) (rest : List ℕ) {b : Bool} {o t : ℕ}
    → id.fragmented ≡ b
    → id.fragment_offset ≡ o
    → id.total_data_length ≡ t
    → ◌≡◌ {A = Outcome (BundleId × List ℕ)}
        (ok (record id { fragmented = b; fragment_offset = o; total_data_length = t }, rest))
        (ok (id, rest))
same_id id rest e f g = λ i. ok (
  record id { fragmented = sym e i; fragment_offset = sym f i; total_data_length = sym g i },
  rest,
)

module _ (env : Env) (reader : Reader) (inverse : Inverse env reader) where
  unmarshal_bundle_id-id_fields :
      (id : BundleId) (source : List ℕ)
      → IsDecodableId reader id
      → marshal_eid env id.source_node ≡ ok source
      → (rest : List ℕ)
      → unmarshal_bundle_id reader id.fragmented ((source ++ id_fields env id) ++ rest)
        ≡ ok (id, rest)
  unfolding unmarshal_bundle_id id_fields
  unmarshal_bundle_id-id_fields id source d m rest =
      let eid =
        unmarshal_eid-marshal_eid env reader inverse id.source_node source d.source-IsDecodable m in
      let time =
        unmarshal_timestamp-marshal_timestamp env reader inverse id.timestamp d.time_64
          d.number_64 in
      elim (Bool-cases id.fragmented) [
        | inl part ↦
            simp
              (
                append_assoc,
                eid,
                time,
                part,
                inverse.read_uint-write_uint id.fragment_offset d.offset_64,
                inverse.read_uint-write_uint id.total_data_length d.total_64,
              )
              (same_id id rest part refl refl)
        | inr all ↦
            let (offset, total) = d.whole all in
            simp (append_assoc, eid, time, all, offset, total) (same_id id rest all offset total)
      ]

  -- A bundle id's bytes decode to the id, and what is behind them is left, where the reader is told
  -- whether it is a fragment's.
  pub unmarshal_bundle_id-marshal_bundle_id :
      (id : BundleId) (bytes : List ℕ)
      → IsDecodableId reader id
      → marshal_bundle_id env id ≡ ok bytes
      → (rest : List ℕ) → unmarshal_bundle_id reader id.fragmented (bytes ++ rest) ≡ ok (id, rest)
  unfolding marshal_bundle_id
  unmarshal_bundle_id-marshal_bundle_id id bytes d m rest =
      let (source, h, k) = >>=-eq-ok (wrap (marshal_eid env id.source_node)) _ m in
      let same : source ++ id_fields env id ≡ bytes = cc in
      subst (λ x. unmarshal_bundle_id reader id.fragmented (x ++ rest) ≡ ok (id, rest)) same
        (unmarshal_bundle_id-id_fields id source d (wrap-eq-ok (marshal_eid env id.source_node) h)
          rest)

pub unmarshal_bundle_id-Advances :
    (env : Env) (reader : Reader)
    → Progress reader
    → (fragmented : Bool) → Advances (unmarshal_bundle_id reader fragmented)
unfolding unmarshal_bundle_id
unmarshal_bundle_id-Advances env reader progress fragmented limit input h =
    search
      (
        within_rules,
        progress.read_uint-Advances,
        unmarshal_eid-Advances reader progress,
        unmarshal_timestamp-Advances env reader progress,
      )
      depth 12
