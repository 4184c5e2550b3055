-- ===== src/Bpv7/Examples.antt =====
-- A small environment and a bundle on which the theorems about package bpv7 are applied.
use mathlib.Core.List.{reverse}
use mathlib.Core.List.{Permᴰ}
use mathlib.Core.List.Permᴰ
use ma_sinafadavi_iran.Prelude.{
  ℕ, ◌+◌, ◌≤◌, ◌≡◌, ◌≢◌, ◌⊎◌, refl, true, false, some, List, [], ◌∷◌, arith, length, if◌then◌else◌,
}
use ma_sinafadavi_iran.Bpv7.Env.{Env}
use ma_sinafadavi_iran.Bpv7.Outcome.{ok, panic, no_fuel}
use ma_sinafadavi_iran.Bpv7.Flags.{
  has, with_flag, without_flag, is_fragment, without_flag-with_flag_fragment,
}
use ma_sinafadavi_iran.Bpv7.Endpoint.{EndpointId, ipn, eid_faults, marshal_eid}
use ma_sinafadavi_iran.Bpv7.Primary.{PrimaryBlock, primary_faults, marshal_primary}
use ma_sinafadavi_iran.Bpv7.Block.{
  type_hop_count, type_payload, CanonicalBlock, payload_block, hop_count_block, new_canonical_block,
  type_code, block_type_code, marshal_canonical, canonical_faults,
}
use ma_sinafadavi_iran.Bpv7.Bundle.{
  Bundle, block_numbers, add_extension_block, must_new_bundle, extension_block_by_type,
  has_extension_block,
}
use ma_sinafadavi_iran.Bpv7.Bundle.Valid.{check_valid}
use ma_sinafadavi_iran.Bpv7.Time.{is_zero_time, now_after, now_after-in_range}
use ma_sinafadavi_iran.Bpv7.Fragment.{
  fragment, payload_data, checked, fragment_primary, fragment_primary_block,
}
use ma_sinafadavi_iran.Bpv7.Bundle.Numbers.{is_taken, add_extension_block-fresh}
use ma_sinafadavi_iran.Bpv7.Fragment.Adjacent.{AreAdjacent, fragment-AreAdjacent}
use ma_sinafadavi_iran.Bpv7.Reassemble.Contained.{IsFragmentOf, contained_fragment_panics}
use ma_sinafadavi_iran.Bpv7.Fragment.Total.{fragment_halts}
use ma_sinafadavi_iran.Bpv7.Reassemble.{reassemble_fragments, is_bundle_reassemblable}
use ma_sinafadavi_iran.Bpv7.Reassemble.Inverse.{restored_primary, fragment_reassemble}

abbrev pub env : Env
env = record {
  ssp_matches = λ _ _. true;
  write_uint = λ n. n ∷ [];
  write_boolean = λ b. (if b then 245 else 244) ∷ [];
  write_array_length = λ n. (128 + n) ∷ [];
  write_byte_string_len = λ n. 88 ∷ n ∷ [];
  write_byte_string = λ bytes. 64 ∷ bytes;
  write_ssp = λ _ _. 96 ∷ [];
  crc16 = λ _. 7;
  crc32 = λ _. 9;
}

abbrev pub node : ℕ → EndpointId
node n = record { endpoint_type = some (ipn n 1) }

abbrev pub primary : PrimaryBlock
primary = record {
  version = 7;
  bundle_control_flags = 0;
  crc_type = 2;
  destination = node 2;
  source_node = node 1;
  report_to = node 1;
  creation_timestamp = record { dtn_time = 5; sequence_number = 0 };
  lifetime = 1000;
  fragment_offset = 0;
  total_data_length = 0;
  crc = [];
}

abbrev pub payload : CanonicalBlock
payload = new_canonical_block 1 0 (payload_block (1 ∷ 2 ∷ 3 ∷ 4 ∷ 5 ∷ []))

abbrev pub bundle : Bundle
bundle = record {
  primary_block = primary;
  extension_blocks = new_canonical_block 2 0 (hop_count_block 9 3) ∷ [];
  payload = some payload;
}

pieces : List Bundle
unfolding fragment fragment_primary_block marshal_primary marshal_canonical marshal_eid eid_faults
    check_valid primary_faults canonical_faults add_extension_block must_new_bundle has with_flag
    type_code is_zero_time now_after extension_block_by_type has_extension_block fragment_primary
pieces = elim (fragment env 0 bundle 60) [ ok frags ↦ frags | _ ↦ [] ]

length-pieces : length pieces ≡ 2
unfolding pieces
length-pieces = refl

fragment_reassemble_example :
    (pieces ≡ bundle ∷ [])
    ⊎ ((r : Bundle) × (pc : CanonicalBlock) × (reassemble_fragments env 0 (reverse pieces)
          ≡ checked env 0 r)
        × (payload_data r ≡ ok (pc, 1 ∷ 2 ∷ 3 ∷ 4 ∷ 5 ∷ []))
        × (r.primary_block ≡ restored_primary primary))
unfolding pieces
fragment_reassemble_example =
    fragment_reassemble env 0 0 bundle 60 payload (1 ∷ 2 ∷ 3 ∷ 4 ∷ 5 ∷ []) pieces (reverse pieces)
      refl (omega arith) (omega arith) refl refl ∣ Permᴰ.reverse pieces ∣₁

fragment_halts_example : fragment env 0 bundle 60 ≢ no_fuel
fragment_halts_example = fragment_halts env 0 bundle 60

fragment-AreAdjacent_example :
    (pieces ≡ bundle ∷ []) ⊎ AreAdjacent bundle 5 0 (1 ∷ 2 ∷ 3 ∷ 4 ∷ 5 ∷ []) pieces
unfolding pieces
fragment-AreAdjacent_example =
    fragment-AreAdjacent env 0 bundle 60 payload (1 ∷ 2 ∷ 3 ∷ 4 ∷ 5 ∷ []) pieces refl refl
      (omega arith) refl

-- The fragment of the bytes from an offset on, of six bytes.
abbrev part : ℕ → List ℕ → Bundle
part at bytes = record {
  primary_block = record primary {
    bundle_control_flags = 1;
    fragment_offset = at;
    total_data_length = 6;
  };
  extension_blocks = [];
  payload = some (new_canonical_block 1 0 (payload_block bytes));
}

part-IsFragmentOf : (at : ℕ) (bytes : List ℕ) → IsFragmentOf (part at bytes) at bytes
unfolding has payload_data
part-IsFragmentOf at bytes = record {
  flagged = refl;
  starts = refl;
  block = new_canonical_block 1 0 (payload_block bytes);
  carries = refl;
}

contained_fragment_panics_example :
    (is_bundle_reassemblable
        (part 0 (1 ∷ 2 ∷ 3 ∷ 4 ∷ []) ∷ part 1 (2 ∷ []) ∷ part 2 (3 ∷ 4 ∷ 5 ∷ 6 ∷ []) ∷ [])
      ≡ true)
    × (reassemble_fragments env 0
          (part 0 (1 ∷ 2 ∷ 3 ∷ 4 ∷ []) ∷ part 1 (2 ∷ []) ∷ part 2 (3 ∷ 4 ∷ 5 ∷ 6 ∷ []) ∷ [])
        ≡ panic)
contained_fragment_panics_example =
    contained_fragment_panics (part 0 (1 ∷ 2 ∷ 3 ∷ 4 ∷ [])) (part 1 (2 ∷ []))
      (part 2 (3 ∷ 4 ∷ 5 ∷ 6 ∷ [])) 1 2 (1 ∷ 2 ∷ 3 ∷ 4 ∷ []) (2 ∷ []) (3 ∷ 4 ∷ 5 ∷ 6 ∷ [])
      (part-IsFragmentOf 0 (1 ∷ 2 ∷ 3 ∷ 4 ∷ [])) (part-IsFragmentOf 1 (2 ∷ []))
      (part-IsFragmentOf 2 (3 ∷ 4 ∷ 5 ∷ 6 ∷ [])) (omega arith) (omega arith) (omega arith)
      (omega arith) refl (omega arith) env 0

add_extension_block-fresh_example :
    (n : ℕ) × Permᴰ
      (add_extension_block bundle (new_canonical_block 0 0 (hop_count_block 5 0))).extension_blocks
      (new_canonical_block n 0 (hop_count_block 5 0) ∷ bundle.extension_blocks)
    × (is_taken n (2 ∷ []) ≡ false)
    × (1 ≤ n)
    × (type_hop_count ≢ type_payload → 2 ≤ n)
unfolding block_type_code block_numbers
add_extension_block-fresh_example =
    add_extension_block-fresh bundle (new_canonical_block 0 0 (hop_count_block 5 0))

now_after-in_range_example : now_after 1000000000000000000 5 1000 ≡ true
now_after-in_range_example =
    now_after-in_range 1000000000000000000 5 1000 (omega arith) (omega arith)

without_flag-with_flag_fragment_example : without_flag (with_flag 4 is_fragment) is_fragment ≡ 4
unfolding has
without_flag-with_flag_fragment_example = without_flag-with_flag_fragment 4 refl
