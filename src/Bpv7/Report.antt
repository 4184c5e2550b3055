-- ===== src/Bpv7/Report.antt =====
-- dtnd7-go/pkg/bpv7/administrative_record.go and administrative_record_status_report.go: status reports
-- and the administrative records that carry them.
pub mod RoundTrip
pub mod Examples
use ma_sinafadavi_iran.Prelude.{
  ℕ, zero, suc, ◌+◌, Bool, true, false, ◌&&◌, ◌||◌, Option, none, some, List, [], ◌∷◌, ◌++◌, map,
  length, nat_beq, leb, if◌then◌else◌,
}
use ma_sinafadavi_iran.Bpv7.Env.{Env}
use ma_sinafadavi_iran.Bpv7.Outcome.{
  Outcome, ok, err, panic, wrap, wrong_item_length, wrong_array_length, unknown_record,
  no_administrative_record, ◌>>=◌, ◌>>◌,
}
use ma_sinafadavi_iran.Bpv7.Flags.{has, administrative_record_payload, request_status_time}
use ma_sinafadavi_iran.Bpv7.Block.{
  ExtensionBlock, payload_block, CanonicalBlock, new_canonical_block,
}
use ma_sinafadavi_iran.Bpv7.Bundle.{Bundle}
use ma_sinafadavi_iran.Bpv7.BundleId.{BundleId, bundle_id, len}
use ma_sinafadavi_iran.Bpv7.Decode.{Reads, Reader}
use ma_sinafadavi_iran.Bpv7.Decode.Endpoint.{expect_length}
use ma_sinafadavi_iran.Bpv7.Decode.Fields.{require}
use ma_sinafadavi_iran.Bpv7.Decode.BundleId.{marshal_bundle_id, unmarshal_bundle_id}

pub record StatusItem : Type 0 where
  pub asserted : Bool
  pub time : ℕ
  pub status_requested : Bool

-- NewBundleStatusItem; DtnTimeEpoch is 0.
abbrev pub new_item : Bool → StatusItem
new_item asserted = record { asserted = asserted; time = 0; status_requested = false }

-- NewTimeReportingBundleStatusItem
abbrev pub new_time_reporting_item : ℕ → StatusItem
new_time_reporting_item time = record { asserted = true; time = time; status_requested = true }

has_time : StatusItem → Bool
has_time item = item.asserted && item.status_requested

-- BundleStatusItem.MarshalCbor
marshal_item : Env → StatusItem → List ℕ
unfolding has_time
marshal_item env item =
    env.write_array_length (if has_time item then 2 else 1)
    ++ (env.write_boolean item.asserted ++ (if has_time item then env.write_uint item.time else []))

read_time : Reader → ℕ → Reads (ℕ × Bool)
read_time reader n input =
    if nat_beq n 2
    then (do (time, r) ← reader.read_uint input; ok ((time, true), r))
    else ok ((0, false), input)

-- BundleStatusItem.UnmarshalCbor of an item whose fields are zero.
unmarshal_item : Reader → Reads StatusItem
unfolding read_time
unmarshal_item reader input = do
  (n, r) ← reader.read_array_length input
  require (nat_beq n 1 || nat_beq n 2) (wrong_item_length n)
  (asserted, r) ← reader.read_boolean r
  ((time, requested), r) ← read_time reader n r
  ok (record { asserted = asserted; time = time; status_requested = requested }, r)

pub record StatusReport : Type 0 where
  pub status_information : List StatusItem
  pub report_reason : ℕ
  pub ref_bundle : BundleId

-- StatusInformationPos: the positions of the items.
abbrev pub received_bundle : ℕ
received_bundle = 0

abbrev pub forwarded_bundle : ℕ
forwarded_bundle = 1

abbrev pub delivered_bundle : ℕ
delivered_bundle = 2

abbrev pub deleted_bundle : ℕ
deleted_bundle = 3

-- The item at a position in the loop of NewStatusReport.
item_at : Bool → ℕ → ℕ → ℕ → StatusItem
item_at with_time position time i =
    if nat_beq i position && with_time
    then new_time_reporting_item time
    else if nat_beq i position
    then new_item true
    else new_item false

-- NewStatusReport; there are maxStatusInformationPos = 4 positions.
unfoldable pub new_status_report : Bundle → ℕ → ℕ → ℕ → StatusReport
unfolding item_at
new_status_report b position reason time = record {
  status_information =
      map (item_at (has b.primary_block.bundle_control_flags request_status_time) position time)
        (received_bundle ∷ forwarded_bundle ∷ delivered_bundle ∷ deleted_bundle ∷ []);
  report_reason = reason;
  ref_bundle = bundle_id b;
}

asserted_from : ℕ → List StatusItem → List ℕ
asserted_from i [] = []
asserted_from i (item ∷ items) =
    let rest = asserted_from (suc i) items in if item.asserted then i ∷ rest else rest

-- StatusReport.StatusInformations
unfoldable pub status_informations : StatusReport → List ℕ
unfolding asserted_from
status_informations report = asserted_from 0 report.status_information

marshal_items : Env → List StatusItem → List ℕ
marshal_items env [] = []
marshal_items env (item ∷ items) = marshal_item env item ++ marshal_items env items

-- The bytes in front of the bundle id.
report_head : Env → StatusReport → List ℕ
unfolding marshal_items marshal_item
report_head env report =
    env.write_array_length (2 + len report.ref_bundle)
    ++ (env.write_array_length (length report.status_information)
        ++ (marshal_items env report.status_information ++ env.write_uint report.report_reason))

-- StatusReport.MarshalCbor
unfoldable pub marshal_report : Env → StatusReport → Outcome (List ℕ)
unfolding report_head
marshal_report env report = do
  id ← wrap (marshal_bundle_id env report.ref_bundle)
  ok (report_head env report ++ id)

read_items : Reader → ℕ → Reads (List StatusItem)
read_items reader zero input = ok ([], input)
read_items reader (suc n) input = do
  (item, r) ← wrap (unmarshal_item reader input)
  (items, r) ← read_items reader n r
  ok (item ∷ items, r)

-- make([]BundleStatusItem, int(n)), which panics on a length that is too large, and the loop behind it.
make_items : Reader → ℕ → Reads (List StatusItem)
make_items reader n input = if leb n reader.max_items then read_items reader n input else panic

-- StatusReport.UnmarshalCbor
unfoldable pub unmarshal_report : Reader → Reads StatusReport
unfolding make_items read_items unmarshal_item
unmarshal_report reader input = do
  (n, r) ← reader.read_array_length input
  require (nat_beq n 4 || nat_beq n 6) (wrong_array_length n)
  (count, r) ← reader.read_array_length r
  (items, r) ← make_items reader count r
  (reason, r) ← reader.read_uint r
  (id, r) ← wrap (unmarshal_bundle_id reader (nat_beq n 6) r)
  ok (record { status_information = items; report_reason = reason; ref_bundle = id }, r)

abbrev pub type_status_report : ℕ
type_status_report = 1

-- WriteAdministrativeRecord; a status report is the one kind of record that is registered.
unfoldable pub write_record : Env → StatusReport → Outcome (List ℕ)
unfolding marshal_report
write_record env report = do
  bytes ← wrap (marshal_report env report)
  ok (env.write_array_length 2 ++ (env.write_uint type_status_report ++ bytes))

-- ReadAdministrativeRecord
unfoldable pub read_record : Reader → Reads StatusReport
unfolding unmarshal_report
read_record reader input = do
  (_, r) ← expect_length reader 2 input
  (code, r) ← reader.read_uint r
  require (nat_beq code type_status_report) (unknown_record code)
  wrap (unmarshal_report reader r)

-- AdministrativeRecordToCbor
unfoldable pub administrative_record_to_cbor : Env → StatusReport → Outcome CanonicalBlock
unfolding write_record
administrative_record_to_cbor env report = do
  bytes ← write_record env report
  ok (new_canonical_block 1 0 (payload_block bytes))

-- The type assertion to *PayloadBlock panics on another block and on the nil value.
payload_of : Option CanonicalBlock → Outcome (List ℕ)
payload_of none = panic
payload_of (some cb) = elim cb.value [ payload_block bytes ↦ ok bytes | _ ↦ panic ]

-- Bundle.AdministrativeRecord
unfoldable pub administrative_record : Reader → Bundle → Outcome StatusReport
unfolding payload_of read_record
administrative_record reader b = do
  require (has b.primary_block.bundle_control_flags administrative_record_payload)
      no_administrative_record
  bytes ← payload_of b.payload
  (report, _) ← read_record reader bytes
  ok report
