-- ===== src/Bpv7/Reassemble.antt =====
-- dtnd7-go/pkg/bpv7/fragmentation.go: the way back from fragments to a bundle. Go's int is kept as
-- its bit pattern, a number below 2 ^ 64.
pub mod Sort
pub mod RoundTrip
pub mod Inverse
pub mod Contained
use ma_sinafadavi_iran.Prelude.{
  ℕ, ◌+◌, ◌-◌, ◌%◌, ◌^◌, ◌++◌, Bool, not, some, List, [], ◌∷◌, none, true, false, nat_beq, ltb, leb,
  if◌then◌else◌, length, drop,
}
use ma_sinafadavi_iran.Bpv7.Env.{Env}
use ma_sinafadavi_iran.Bpv7.Outcome.{
  Outcome, ok, err, panic, no_fragments, not_a_fragment, fragment_gap, length_mismatch, demand,
  ◌>>=◌, ◌>>◌,
}
use ma_sinafadavi_iran.Bpv7.Flags.{has, without_flag, is_fragment}
use ma_sinafadavi_iran.Bpv7.Primary.{PrimaryBlock}
use ma_sinafadavi_iran.Bpv7.Block.{payload_block, CanonicalBlock, new_canonical_block}
use ma_sinafadavi_iran.Bpv7.Bundle.{Bundle, add_extension_block}
use ma_sinafadavi_iran.Bpv7.Bundle.Valid.{check_valid}
use ma_sinafadavi_iran.Bpv7.Fragment.{payload_data, checked}

abbrev pub offset : Bundle → ℕ
offset b = b.primary_block.fragment_offset

pub insert_fragment : Bundle → List Bundle → List Bundle
insert_fragment b [] = b ∷ []
insert_fragment b (c ∷ cs) =
    let rest = insert_fragment b cs in if ltb (offset c) (offset b) then c ∷ rest else b ∷ c ∷ cs

-- sort.Slice by the offset. It fixes the order of fragments whose offsets differ.
pub sort_fragments : List Bundle → List Bundle
unfolding insert_fragment
sort_fragments [] = []
sort_fragments (b ∷ bs) = insert_fragment b (sort_fragments bs)

-- The loop of prepareReassembly: the last index, or the first gap.
pub scan_fragments : ℕ → List Bundle → Outcome ℕ
scan_fragments last [] = ok last
scan_fragments last (b ∷ bs) =
    if not (has b.primary_block.bundle_control_flags is_fragment)
    then err not_a_fragment
    else if ltb last (offset b)
    then err (fragment_gap (offset b) last)
    else do (cb, bytes) ← payload_data b; scan_fragments ((offset b + length bytes) % 2 ^ 64) bs

pub check_total : List Bundle → ℕ → Outcome (List Bundle)
check_total [] last = panic
check_total (b ∷ bs) last =
    if nat_beq b.primary_block.total_data_length last
    then ok (b ∷ bs)
    else err (length_mismatch last b.primary_block.total_data_length)

check_sorted : List Bundle → Outcome (List Bundle)
unfolding check_total scan_fragments
check_sorted bs = do last ← scan_fragments 0 bs; check_total bs last

-- prepareReassembly, with the sorted slice that it leaves behind.
pub prepare_reassembly : List Bundle → Outcome (List Bundle)
unfolding check_sorted sort_fragments
prepare_reassembly [] = err no_fragments
prepare_reassembly (b ∷ bs) = check_sorted (sort_fragments (b ∷ bs))

-- IsBundleReassemblable
pub is_bundle_reassemblable : List Bundle → Bool
unfolding prepare_reassembly
is_bundle_reassemblable bs = elim (prepare_reassembly bs) [ ok _ ↦ true | _ ↦ false ]

-- mergeFragmentPayload. A slice expression whose start lies behind the end panics; so does one with
-- a negative start, whose bit pattern is larger than any length.
pub merge_loop : ℕ → List ℕ → List Bundle → Outcome (List ℕ)
merge_loop last acc [] = ok acc
merge_loop last acc (b ∷ bs) = do
  (cb, bytes) ← payload_data b
  let start = (last + 2 ^ 64 - offset b) % 2 ^ 64
  if leb start (length bytes)
      then merge_loop ((offset b + length bytes) % 2 ^ 64) (acc ++ drop start bytes) bs
      else panic

pub merge_fragment_payload : List Bundle → Outcome (List ℕ)
unfolding merge_loop
merge_fragment_payload bs = merge_loop 0 [] bs

reassembled_primary : PrimaryBlock → PrimaryBlock
reassembled_primary pb = record pb {
  bundle_control_flags = without_flag pb.bundle_control_flags is_fragment;
  fragment_offset = 0;
  total_data_length = 0;
  crc = [];
}

empty_bundle : PrimaryBlock → Bundle
empty_bundle pb = record {
  primary_block = reassembled_primary pb;
  extension_blocks = [];
  payload = none;
}

add_all : Bundle → List CanonicalBlock → Bundle
add_all b [] = b
add_all b (cb ∷ cbs) = add_all (add_extension_block b cb) cbs

-- The bundle of the sorted fragments' first one with the merged payload.
pub merged_bundle : Bundle → CanonicalBlock → List ℕ → Bundle
unfolding reassembled_primary empty_bundle add_all
merged_bundle f pb0 bytes =
    let cb = new_canonical_block 1 pb0.block_control_flags (payload_block bytes) in
    record (add_all (empty_bundle f.primary_block) f.extension_blocks) {
      payload = some (record cb { crc_type = pb0.crc_type });
    }

reassemble_sorted : Env → ℕ → List Bundle → Outcome Bundle
unfolding merged_bundle merge_fragment_payload
reassemble_sorted env now [] = panic
reassemble_sorted env now (f ∷ fs) = do
  bytes ← merge_fragment_payload (f ∷ fs)
  (pb0, _) ← payload_data f
  checked env now (merged_bundle f pb0 bytes)

-- ReassembleFragments
pub reassemble_fragments : Env → ℕ → List Bundle → Outcome Bundle
unfolding prepare_reassembly reassemble_sorted
reassemble_fragments env now bs = do
  sorted ← prepare_reassembly bs
  reassemble_sorted env now sorted
