-- ===== src/Bpv7/Report/Examples.antt =====
-- A status report on the bundle of the other examples.
use ma_sinafadavi_iran.Prelude.{◌≡◌, refl, some, arith}
use ma_sinafadavi_iran.Bpv7.Outcome.{ok}
use ma_sinafadavi_iran.Bpv7.Flags.{has}
use ma_sinafadavi_iran.Bpv7.Endpoint.{marshal_eid, eid_faults}
use ma_sinafadavi_iran.Bpv7.Block.{CanonicalBlock}
use ma_sinafadavi_iran.Bpv7.Bundle.{Bundle}
use ma_sinafadavi_iran.Bpv7.BundleId.{bundle_id, len}
use ma_sinafadavi_iran.Bpv7.Examples.{bundle, payload}
use ma_sinafadavi_iran.Bpv7.Decode.Examples.{wire, wire_reader, wire-Inverse}
use ma_sinafadavi_iran.Bpv7.Decode.BundleId.{marshal_bundle_id, IsDecodableId}
use ma_sinafadavi_iran.Bpv7.Report.{
  new_status_report, delivered_bundle, administrative_record_to_cbor, administrative_record,
}
use ma_sinafadavi_iran.Bpv7.Report.RoundTrip.{administrative_record-administrative_record_to_cbor}

record_block : CanonicalBlock
unfolding administrative_record_to_cbor new_status_report marshal_bundle_id marshal_eid eid_faults
    bundle_id has len
record_block =
    elim (administrative_record_to_cbor wire (new_status_report bundle delivered_bundle 0 77)) [
      | ok cb ↦ cb
      | _ ↦ payload
    ]

abbrev report_bundle : Bundle
report_bundle = record bundle {
  primary_block = record bundle.primary_block { bundle_control_flags = 2 };
  payload = some record_block;
}

id-IsDecodableId : IsDecodableId wire_reader (bundle_id bundle)
unfolding bundle_id has
id-IsDecodableId = record {
  source-IsDecodable = (omega arith, omega arith);
  time_64 = omega arith;
  number_64 = omega arith;
  offset_64 = omega arith;
  total_64 = omega arith;
  whole = λ _. (refl, refl);
}

administrative_record-administrative_record_to_cbor_example :
    administrative_record wire_reader report_bundle
    ≡ ok (new_status_report bundle delivered_bundle 0 77)
unfolding record_block has
administrative_record-administrative_record_to_cbor_example =
    administrative_record-administrative_record_to_cbor wire wire_reader wire-Inverse bundle
      report_bundle record_block delivered_bundle 0 77 id-IsDecodableId (omega arith) (omega arith)
      (omega arith) refl refl refl
