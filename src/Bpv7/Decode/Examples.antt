-- ===== src/Bpv7/Decode/Examples.antt =====
-- A simplified encoding, whose heads are two numbers, with its reader; the decoders' theorems on it.
use ma_sinafadavi_iran.Prelude.{
  ℕ, ◌^◌, ◌<◌, ◌≤◌, ◌≡◌, ◌≢◌, ◌∙◌, refl, Bool, true, some, List, [], ◌∷◌, ◌++◌, nat_beq, length,
  take, drop, if◌then◌else◌, arith, length-drop,
}
use ma_sinafadavi_iran.Bpv7.Env.{Env}
use ma_sinafadavi_iran.Bpv7.Outcome.{ok, err, flag_break_code, unreadable}
use ma_sinafadavi_iran.Bpv7.Outcome.{no_fuel}
use ma_sinafadavi_iran.Bpv7.Flags.{has}
use ma_sinafadavi_iran.Bpv7.Endpoint.{eid_faults, marshal_eid}
use ma_sinafadavi_iran.Bpv7.Primary.{primary_faults, marshal_primary, has_fragmentation, has_crc}
use ma_sinafadavi_iran.Bpv7.Block.{
  ExtensionBlock, binary_spray_block, hop_count_block, CanonicalBlock, new_canonical_block,
  type_code, canonical_faults, write_block, marshal_canonical,
}
use ma_sinafadavi_iran.Bpv7.Time.{is_zero_time, now_after}
use ma_sinafadavi_iran.Bpv7.Bundle.{Bundle, extension_block_by_type}
use ma_sinafadavi_iran.Bpv7.Bundle.Valid.{check_valid}
use ma_sinafadavi_iran.Bpv7.Examples.{bundle, node, payload, primary}
use ma_sinafadavi_iran.Bpv7.Decode.{Reads, Reader, consumed, bytes_equal}
use ma_sinafadavi_iran.Bpv7.Decode.Block.{unmarshal_canonical}
use ma_sinafadavi_iran.Bpv7.Decode.Integrity.{IsChecked, unmarshal_canonical-IsChecked}
use ma_sinafadavi_iran.Bpv7.Decode.Endpoint.{IsDecodable, expect_length}
use ma_sinafadavi_iran.Bpv7.Decode.Primary.RoundTrip.{IsDecodablePrimary}
use ma_sinafadavi_iran.Bpv7.Decode.Block.RoundTrip.{IsDecodableValue, IsDecodableBlock}
use ma_sinafadavi_iran.Bpv7.Decode.Bundle.{
  marshal_bundle, checked, unmarshal_bundle, unmarshal_bundle_halts,
}
use ma_sinafadavi_iran.Bpv7.Decode.Bundle.RoundTrip.{
  IsDecodableBundle, received_bundle, unmarshal_bundle-marshal_bundle,
}
use ma_sinafadavi_iran.Bpv7.Decode.Laws.{Inverse, Progress}
use ma_sinafadavi_iran.Bpv7.Decode.Within.{Within, value_within, error_within, Within-if}
use ma_sinafadavi_iran.Bpv7.Decode.Fields.{take-length_append, require, read_crc}

abbrev pub wire : Env
wire = record {
  ssp_matches = λ _ _. true;
  write_uint = λ n. 0 ∷ n ∷ [];
  write_boolean = λ b. 7 ∷ (if b then 1 else 0) ∷ [];
  write_array_length = λ n. 4 ∷ n ∷ [];
  write_byte_string_len = λ n. 2 ∷ n ∷ [];
  write_byte_string = λ bytes. 2 ∷ length bytes ∷ bytes;
  write_ssp = λ _ _. 3 ∷ 2 ∷ 47 ∷ 47 ∷ [];
  crc16 = λ bytes. length bytes;
  crc32 = λ bytes. length bytes;
}

abbrev of_major : ℕ → Reads ℕ
of_major major [] = err unreadable
of_major major (m ∷ []) = if nat_beq m 255 then err flag_break_code else err unreadable
of_major major (m ∷ n ∷ rest) =
    if nat_beq m major
    then ok (n, rest)
    else if nat_beq m 255
    then err flag_break_code
    else err unreadable

abbrev raw : ℕ → Reads (List ℕ)
raw n input = ok (take n input, drop n input)

abbrev string_of : Reads (List ℕ)
string_of [] = err unreadable
string_of (m ∷ []) = err unreadable
string_of (m ∷ n ∷ rest) = if nat_beq m 2 then raw n rest else err unreadable

abbrev boolean : Reads Bool
boolean [] = err unreadable
boolean (m ∷ []) = err unreadable
boolean (m ∷ n ∷ rest) = if nat_beq m 7 then ok (nat_beq n 1, rest) else err unreadable

abbrev majors : Reads (ℕ × ℕ)
majors [] = err unreadable
majors (m ∷ []) = err unreadable
majors (m ∷ n ∷ rest) = ok ((m, n), rest)

abbrev expect : ℕ → Reads (Unit {0})
expect byte [] = err unreadable
expect byte (b ∷ rest) = if nat_beq b byte then ok (tt, rest) else err unreadable

abbrev pub wire_reader : Reader
wire_reader = record {
  uint = 0;
  text_string = 3;
  indefinite_array = 159;
  break_code = 255;
  read_uint = of_major 0;
  read_boolean = boolean;
  read_array_length = of_major 4;
  read_byte_string = string_of;
  read_byte_string_len = of_major 2;
  read_majors = majors;
  read_raw_bytes = raw;
  read_expect = expect;
  max_items = 2 ^ 40;
  max_announcements = 2 ^ 40;
  none_ssp = 110 ∷ [];
  ssp_bytes = λ _ _. 47 ∷ 47 ∷ [];
  match_ssp = λ _. some ("", "");
}

drop-length_append : (xs ys : List ℕ) → drop (length xs) (xs ++ ys) ≡ ys
drop-length_append [] ys = refl
drop-length_append (x ∷ xs) ys = drop-length_append xs ys

break_code_read : (rest : List ℕ) → of_major 4 (255 ∷ rest) ≡ err flag_break_code
break_code_read [] = refl
break_code_read (b ∷ rest) = refl

pub wire-Inverse : Inverse wire wire_reader
wire-Inverse = record {
  uint-text_string = λ e. omega (arith, e);
  read_uint-write_uint = λ n h rest. refl;
  read_boolean-write_boolean = λ b rest. ground arith;
  read_array_length-write_array_length = λ n h rest. refl;
  read_byte_string-write_byte_string =
      λ bytes rest. simp (take-length_append bytes rest, drop-length_append bytes rest);
  read_majors-write_uint = λ n h rest. refl;
  read_majors-write_ssp = λ node demux rest. refl;
  read_raw_bytes-length =
      λ bytes rest. simp (take-length_append bytes rest, drop-length_append bytes rest);
  read_expect-here = λ byte rest. ground arith;
  read_array_length-break_code = break_code_read;
  ssp_bytes-none_ssp = λ node demux e. cc;
}

module _ (limit : ℕ) where
  of_major-StrictlyAdvances :
      (major : ℕ) (input : List ℕ) → length input ≤ limit → Within limit (of_major major input)
  of_major-StrictlyAdvances major [] h = error_within
  of_major-StrictlyAdvances major (m ∷ []) h = Within-if _ _ _ error_within error_within
  of_major-StrictlyAdvances major (m ∷ n ∷ rest) h =
      Within-if _ _ _ (value_within (omega arith)) (Within-if _ _ _ error_within error_within)

  raw-Advances : (n : ℕ) (input : List ℕ) → length input < limit → Within limit (raw n input)
  raw-Advances n input h = value_within (omega (arith, length-drop n input))

  string_of-Advances : (input : List ℕ) → length input < limit → Within limit (string_of input)
  string_of-Advances [] h = error_within
  string_of-Advances (m ∷ []) h = error_within
  string_of-Advances (m ∷ n ∷ rest) h =
      Within-if _ _ _ (raw-Advances n rest (omega arith)) error_within

  boolean-Advances : (input : List ℕ) → length input < limit → Within limit (boolean input)
  boolean-Advances [] h = error_within
  boolean-Advances (m ∷ []) h = error_within
  boolean-Advances (m ∷ n ∷ rest) h = Within-if _ _ _ (value_within (omega arith)) error_within

  majors-Advances : (input : List ℕ) → length input < limit → Within limit (majors input)
  majors-Advances [] h = error_within
  majors-Advances (m ∷ []) h = error_within
  majors-Advances (m ∷ n ∷ rest) h = value_within (omega arith)

  expect-Advances :
      (byte : ℕ) (input : List ℕ) → length input < limit → Within limit (expect byte input)
  expect-Advances byte [] h = error_within
  expect-Advances byte (b ∷ rest) h = Within-if _ _ _ (value_within (omega arith)) error_within

pub wire-Progress : Progress wire_reader
wire-Progress = record {
  read_uint-Advances = λ limit input h. of_major-StrictlyAdvances limit 0 input (omega arith);
  read_boolean-Advances = boolean-Advances;
  read_byte_string-Advances = string_of-Advances;
  read_majors-Advances = majors-Advances;
  read_raw_bytes-Advances = λ n limit input. raw-Advances limit n input;
  read_expect-Advances = λ byte limit input. expect-Advances limit byte input;
  read_array_length-StrictlyAdvances = λ limit input. of_major-StrictlyAdvances limit 4 input;
}

-- The bundle of the other examples, with a BinarySprayBlock.
abbrev pub sample : Bundle
sample = record bundle {
  extension_blocks = new_canonical_block 3 0 (binary_spray_block 4) ∷ bundle.extension_blocks;
}

unfoldable pub sent : Bundle × List ℕ
unfolding marshal_bundle marshal_primary marshal_canonical marshal_eid eid_faults write_block
sent = elim (marshal_bundle wire wire_reader sample) [ ok r ↦ r | _ ↦ (sample, []) ]

node-IsDecodable : (n : ℕ) → n < 2 ^ 64 → IsDecodable wire_reader (node n)
node-IsDecodable n h = (h, omega arith)

primary-IsDecodable : IsDecodablePrimary wire_reader primary
unfolding has_fragmentation has_crc has
primary-IsDecodable = record {
  of_version = refl;
  flags_64 = omega arith;
  crc_type_64 = omega arith;
  time_64 = omega arith;
  number_64 = omega arith;
  lifetime_64 = omega arith;
  offset_64 = omega arith;
  total_64 = omega arith;
  destination-IsDecodable = node-IsDecodable 2 (omega arith);
  source_node-IsDecodable = node-IsDecodable 1 (omega arith);
  report_to-IsDecodable = node-IsDecodable 1 (omega arith);
  whole = λ _. (refl, refl);
  without = λ _. refl;
}

block-IsDecodable :
    (number : ℕ) (value : ExtensionBlock)
    → number < 2 ^ 64
    → IsDecodableValue wire_reader value
    → IsDecodableBlock wire_reader (new_canonical_block number 0 value)
block-IsDecodable number value h d = record {
  number_64 = h;
  flags_64 = omega arith;
  crc_type_64 = omega arith;
  value-IsDecodableValue = d;
  without = λ _. refl;
}

pub sample-IsDecodable : IsDecodableBundle wire_reader sample payload
unfolding type_code
sample-IsDecodable = record {
  primary-IsDecodable = primary-IsDecodable;
  extensions-IsOfKind = (
    (block-IsDecodable 3 _ (omega arith) (omega arith), refl),
    ((block-IsDecodable 2 _ (omega arith) (omega arith, omega arith), refl), tt),
  );
  payload-IsOfKind = (block-IsDecodable 1 _ (omega arith) tt, refl);
  has_payload = refl;
}

pub marshal_bundle-sample : marshal_bundle wire wire_reader sample ≡ ok sent
unfolding sent
marshal_bundle-sample = refl

sample-checked : checked wire 0 (received_bundle wire sent.0) ≡ ok (received_bundle wire sent.0)
unfolding sent checked check_valid is_zero_time primary_faults has canonical_faults
    extension_block_by_type now_after
sample-checked = refl

pub unmarshal_bundle-sample :
    unmarshal_bundle wire wire_reader 0 (sent.1 ++ []) ≡ ok (received_bundle wire sent.0)
unmarshal_bundle-sample =
    unmarshal_bundle-marshal_bundle wire wire_reader wire-Inverse wire-Progress 0 sample sent.0
      payload sent.1 [] sample-IsDecodable marshal_bundle-sample
    ∙ sample-checked

unmarshal_bundle-marshal_bundle_example :
    unmarshal_bundle wire wire_reader 0 (sent.1 ++ 7 ∷ [])
    ≡ checked wire 0 (received_bundle wire sent.0)
unfolding sent
unmarshal_bundle-marshal_bundle_example =
    unmarshal_bundle-marshal_bundle wire wire_reader wire-Inverse wire-Progress 0 sample sent.0
      payload sent.1 (7 ∷ []) sample-IsDecodable refl

unmarshal_bundle_halts_example : unmarshal_bundle wire wire_reader 0 (159 ∷ 4 ∷ []) ≢ no_fuel
unmarshal_bundle_halts_example =
    unmarshal_bundle_halts wire wire_reader wire-Progress 0 (159 ∷ 4 ∷ [])

-- A hop count block with a CRC of two bytes, as it is sent, and as it is read.
coded : List ℕ
unfolding marshal_canonical write_block
coded =
    elim (marshal_canonical wire
      (record (new_canonical_block 2 0 (hop_count_block 9 3)) { crc_type = 1 })) [
        | ok r ↦ r.1
        | _ ↦ []
      ]

decoded : CanonicalBlock
unfolding coded unmarshal_canonical
decoded = elim (unmarshal_canonical wire wire_reader coded) [ ok r ↦ r.0 | _ ↦ payload ]

unmarshal_canonical-IsChecked_example :
    (r : List ℕ) × IsChecked wire wire_reader
      (4 ∷ 6 ∷ consumed (drop 2 coded) r)
      decoded.crc_type
      decoded.crc
      r
      []
unfolding coded decoded require expect_length read_crc bytes_equal consumed
unmarshal_canonical-IsChecked_example =
    unmarshal_canonical-IsChecked wire wire_reader coded (drop 2 coded) [] decoded refl refl
