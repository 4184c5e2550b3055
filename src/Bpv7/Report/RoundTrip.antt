-- ===== src/Bpv7/Report/RoundTrip.antt =====
-- Status reports on their way through an administrative record.
use ma_sinafadavi_iran.Prelude.{
  ℕ, ◌+◌, ◌^◌, ◌<◌, ◌≤◌, ◌≡◌, refl, sym, ap, subst, ◌∙◌, Bool, true, false, ◌&&◌, ◌||◌, some, List,
  [], ◌∷◌, ◌++◌, length, nat_beq, le→leb, if-cases, append_assoc, append-nil, arith, All,
}
use ma_sinafadavi_iran.Bpv7.Env.{Env}
use ma_sinafadavi_iran.Bpv7.Outcome.{ok, wrap, wrap-eq-ok, >>=-eq-ok}
use ma_sinafadavi_iran.Bpv7.Flags.{has, administrative_record_payload, request_status_time}
use ma_sinafadavi_iran.Bpv7.Block.{CanonicalBlock, payload_block, new_canonical_block}
use ma_sinafadavi_iran.Bpv7.Bundle.{Bundle}
use ma_sinafadavi_iran.Bpv7.BundleId.{BundleId, bundle_id, len}
use ma_sinafadavi_iran.Bpv7.Decode.{Reader}
use ma_sinafadavi_iran.Bpv7.Decode.Laws.{Inverse}
use ma_sinafadavi_iran.Bpv7.Decode.Endpoint.{expect_length}
use ma_sinafadavi_iran.Bpv7.Decode.Fields.{require}
use ma_sinafadavi_iran.Bpv7.Decode.BundleId.{
  marshal_bundle_id, IsDecodableId, unmarshal_bundle_id-marshal_bundle_id,
}
use ma_sinafadavi_iran.Bpv7.Report.{
  StatusItem, StatusReport, has_time, marshal_item, read_time, unmarshal_item, marshal_items,
  report_head, marshal_report, read_items, make_items, unmarshal_report, write_record, read_record,
  type_status_report, administrative_record_to_cbor, administrative_record, payload_of,
  new_status_report, item_at, status_informations, asserted_from,
}

-- An item whose time, of 64 bits, is zero unless it is reported.
abbrev pub IsDecodableItem : StatusItem → Type 0
IsDecodableItem item =
    (item.time < 2 ^ 64)
    × ((item.asserted && item.status_requested) ≡ false
        → (item.time ≡ 0) × (item.status_requested ≡ false))

pub record IsDecodableReport (reader : Reader) (report : StatusReport) : Type 0 where
  pub items-IsDecodableItem : All IsDecodableItem report.status_information
  pub items_fit : length report.status_information ≤ reader.max_items
  pub items_64 : length report.status_information < 2 ^ 64
  pub reason_64 : report.report_reason < 2 ^ 64
  pub id-IsDecodableId : IsDecodableId reader report.ref_bundle

len-fragmented : (id : BundleId) → nat_beq (2 + len id) 6 ≡ id.fragmented
unfolding len
len-fragmented id = ground arith

len-range : (id : BundleId) → (nat_beq (2 + len id) 4 || id.fragmented) ≡ true
unfolding len
len-range id = ground arith

len-small : (id : BundleId) → 2 + len id < 2 ^ 64
unfolding len
len-small id = ground arith

item_at-IsDecodableItem :
    (with_time : Bool) (position time i : ℕ)
    → time < 2 ^ 64
    → IsDecodableItem (item_at with_time position time i)
unfolding item_at
item_at-IsDecodableItem with_time position time i h =
    if-cases IsDecodableItem (nat_beq i position && with_time) _ _ (λ _. (h, λ e. cc))
      (λ _.
        if-cases IsDecodableItem (nat_beq i position) _ _ (λ _. (omega arith, λ _. (refl, refl)))
          (λ _. (omega arith, λ _. (refl, refl))))

new_status_report-IsDecodableReport :
    (reader : Reader) (b : Bundle) (position reason time : ℕ)
    → IsDecodableId reader (bundle_id b)
    → reason < 2 ^ 64
    → time < 2 ^ 64
    → 4 ≤ reader.max_items
    → IsDecodableReport reader (new_status_report b position reason time)
unfolding new_status_report
new_status_report-IsDecodableReport reader b position reason time d h k f =
    let item = λ (i : ℕ).
      item_at-IsDecodableItem (has b.primary_block.bundle_control_flags request_status_time)
        position time i k in
    record {
      items-IsDecodableItem = (item 0, (item 1, (item 2, (item 3, tt))));
      items_fit = f;
      items_64 = omega arith;
      reason_64 = h;
      id-IsDecodableId = d;
    }

module _ (env : Env) (reader : Reader) (inverse : Inverse env reader) where
  unmarshal_item-fields :
      (asserted requested : Bool) (time : ℕ)
      → IsDecodableItem (record { asserted = asserted; time = time; status_requested = requested })
      → (rest : List ℕ)
      → unmarshal_item reader (
          marshal_item env
            (record { asserted = asserted; time = time; status_requested = requested })
          ++ rest)
        ≡ ok (record { asserted = asserted; time = time; status_requested = requested }, rest)
  unfolding unmarshal_item marshal_item has_time read_time require
  unmarshal_item-fields true true time (h, plain) rest = simp (
    append_assoc,
    inverse.read_array_length-write_array_length 2 (omega arith),
    inverse.read_boolean-write_boolean,
    inverse.read_uint-write_uint time h,
  )
  unmarshal_item-fields true false time (h, plain) rest = simp (
    append_assoc,
    inverse.read_array_length-write_array_length 1 (omega arith),
    inverse.read_boolean-write_boolean,
    (plain refl).0,
  )
  unmarshal_item-fields false requested time (h, plain) rest = simp (
    append_assoc,
    inverse.read_array_length-write_array_length 1 (omega arith),
    inverse.read_boolean-write_boolean,
    (plain refl).0,
    (plain refl).1,
  )

  unmarshal_item-marshal_item :
      (item : StatusItem)
      → IsDecodableItem item
      → (rest : List ℕ) → unmarshal_item reader (marshal_item env item ++ rest) ≡ ok (item, rest)
  unmarshal_item-marshal_item item =
      unmarshal_item-fields item.asserted item.status_requested item.time

  read_items-marshal_items :
      (items : List StatusItem)
      → All IsDecodableItem items
      → (rest : List ℕ)
      → read_items reader (length items) (marshal_items env items ++ rest) ≡ ok (items, rest)
  unfolding read_items marshal_items
  read_items-marshal_items [] d rest = refl
  read_items-marshal_items (item ∷ items) (d, ds) rest =
      simp (append_assoc, unmarshal_item-marshal_item item d, read_items-marshal_items items ds)

  unmarshal_report-report_head :
      (report : StatusReport) (id : List ℕ)
      → IsDecodableReport reader report
      → marshal_bundle_id env report.ref_bundle ≡ ok id
      → (rest : List ℕ)
      → unmarshal_report reader ((report_head env report ++ id) ++ rest) ≡ ok (report, rest)
  unfolding unmarshal_report report_head make_items require
  unmarshal_report-report_head report id d m rest = simp (
    append_assoc,
    inverse.read_array_length-write_array_length (2 + len report.ref_bundle)
        (len-small report.ref_bundle),
    len-range,
    len-fragmented,
    inverse.read_array_length-write_array_length (length report.status_information) d.items_64,
    le→leb (length report.status_information) reader.max_items d.items_fit,
    read_items-marshal_items report.status_information d.items-IsDecodableItem,
    inverse.read_uint-write_uint report.report_reason d.reason_64,
    unmarshal_bundle_id-marshal_bundle_id env reader inverse report.ref_bundle id d.id-IsDecodableId
        m,
  )

  read_record-bytes :
      (report : StatusReport) (body rest : List ℕ)
      → unmarshal_report reader (body ++ rest) ≡ ok (report, rest)
      → read_record reader
          ((env.write_array_length 2 ++ (env.write_uint type_status_report ++ body)) ++ rest)
        ≡ ok (report, rest)
  unfolding read_record expect_length require
  read_record-bytes report body rest back = simp (
    append_assoc,
    inverse.read_array_length-write_array_length 2 (omega arith),
    inverse.read_uint-write_uint type_status_report (omega arith),
    back,
  )

  -- An administrative record's bytes decode to its status report, and what is behind them is left.
  pub read_record-write_record :
      (report : StatusReport) (bytes : List ℕ)
      → IsDecodableReport reader report
      → write_record env report ≡ ok bytes
      → (rest : List ℕ) → read_record reader (bytes ++ rest) ≡ ok (report, rest)
  unfolding write_record marshal_report
  read_record-write_record report bytes d m rest =
      let (body, h, k) = >>=-eq-ok (wrap (marshal_report env report)) _ m in
      let (id, i, l) =
        >>=-eq-ok (wrap (marshal_bundle_id env report.ref_bundle)) _
          (wrap-eq-ok (marshal_report env report) h) in
      let inner : report_head env report ++ id ≡ body = cc in
      let same : env.write_array_length 2 ++ (env.write_uint type_status_report ++ body) ≡ bytes =
        cc in
      let back =
        unmarshal_report-report_head report id d
          (wrap-eq-ok (marshal_bundle_id env report.ref_bundle) i) rest in
      subst (λ x. read_record reader (x ++ rest) ≡ ok (report, rest)) same
        (read_record-bytes report body rest
          (subst (λ x. unmarshal_report reader (x ++ rest) ≡ ok (report, rest)) inner back))

  administrative_record-payload :
      (r : Bundle) (bytes : List ℕ) (report : StatusReport)
      → has r.primary_block.bundle_control_flags administrative_record_payload ≡ true
      → r.payload ≡ some (new_canonical_block 1 0 (payload_block bytes))
      → read_record reader bytes ≡ ok (report, [])
      → administrative_record reader r ≡ ok report
  unfolding administrative_record require payload_of
  administrative_record-payload r bytes report h k e = simp (h, k, e)

  -- The status report that a node makes about a bundle is the one that the administrative record of a
  -- bundle with that payload and flag has, where the numbers and the bundle's id are of their
  -- sizes, and Go can make a slice of four status items.
  pub administrative_record-administrative_record_to_cbor :
      (b r : Bundle) (cb : CanonicalBlock) (position reason time : ℕ)
      → IsDecodableId reader (bundle_id b)
      → reason < 2 ^ 64
      → time < 2 ^ 64
      → 4 ≤ reader.max_items
      → administrative_record_to_cbor env (new_status_report b position reason time) ≡ ok cb
      → has r.primary_block.bundle_control_flags administrative_record_payload ≡ true
      → r.payload ≡ some cb
      → administrative_record reader r ≡ ok (new_status_report b position reason time)
  unfolding administrative_record_to_cbor
  administrative_record-administrative_record_to_cbor b r cb position reason time d h k f m flagged
        p =
      let report = new_status_report b position reason time in
      let (bytes, w, e) = >>=-eq-ok (write_record env report) _ m in
      let same : new_canonical_block 1 0 (payload_block bytes) ≡ cb = cc in
      let whole =
        read_record-write_record report bytes
          (new_status_report-IsDecodableReport reader b position reason time d h k f) w [] in
      administrative_record-payload r bytes report flagged (p ∙ ap some (sym same))
        (rw append-nil at whole)

-- The report that a node makes has the one position that it is made for, of the four.
pub status_informations-new_status_report :
    (b : Bundle) (position reason time : ℕ)
    → position < 4
    → status_informations (new_status_report b position reason time) ≡ position ∷ []
unfolding status_informations new_status_report item_at asserted_from
status_informations-new_status_report b position reason time h = ground arith
