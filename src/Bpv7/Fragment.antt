-- ===== src/Bpv7/Fragment.antt =====
-- dtnd7-go/pkg/bpv7/fragmentation.go. `now` is time.Now() for CheckValid, in nanoseconds since 1970;
-- the MTU is not negative, and a slice of bytes is shorter than 2 ^ 63.
pub mod Cover
pub mod Piece
pub mod Total
pub mod Adjacent
use Prim.Native.Nat.{min}
use ma_sinafadavi_iran.Prelude.{
  ℕ, zero, suc, ◌+◌, ◌-◌, ◌%◌, ◌^◌, true, false, not, ◌&&◌, Option, none, some, List, [], ◌∷◌,
  nat_beq, ltb, leb, if◌then◌else◌, length, take, drop,
}
use ma_sinafadavi_iran.Bpv7.Env.{Env}
use ma_sinafadavi_iran.Bpv7.Outcome.{
  Outcome, ok, err, panic, no_fuel, fragmentation_forbidden, overhead_exceeds_mtu, demand, ◌>>=◌,
  ◌>>◌,
}
use ma_sinafadavi_iran.Bpv7.Flags.{
  has, with_flag, is_fragment, must_not_fragmented, replicate_block,
}
use ma_sinafadavi_iran.Bpv7.Crc.{crc_no, crc_32}
use ma_sinafadavi_iran.Bpv7.Primary.{PrimaryBlock, marshal_primary}
use ma_sinafadavi_iran.Bpv7.Block.{
  ExtensionBlock, payload_block, CanonicalBlock, type_code, type_payload, marshal_canonical,
}
use ma_sinafadavi_iran.Bpv7.Bundle.{Bundle, must_new_bundle, add_extension_block}
use ma_sinafadavi_iran.Bpv7.Bundle.Valid.{check_valid}

-- Value.(*PayloadBlock).Data(), where the assertion may fail.
value_data : ExtensionBlock → Outcome (List ℕ)
value_data (payload_block bytes) = ok bytes
value_data _ = panic

payload_of : Option CanonicalBlock → Outcome (CanonicalBlock × List ℕ)
payload_of none = panic
payload_of (some cb) = do bytes ← value_data cb.value; ok (cb, bytes)

-- A bundle's payload block with its data.
unfoldable pub payload_data : Bundle → Outcome (CanonicalBlock × List ℕ)
unfolding value_data payload_of
payload_data b = payload_of b.payload

unfoldable pub fragment_primary : PrimaryBlock → ℕ → ℕ → PrimaryBlock
fragment_primary pb offset total = record {
  version = pb.version;
  bundle_control_flags = with_flag pb.bundle_control_flags is_fragment;
  crc_type = pb.crc_type;
  destination = pb.destination;
  source_node = pb.source_node;
  report_to = pb.report_to;
  creation_timestamp = pb.creation_timestamp;
  lifetime = pb.lifetime;
  fragment_offset = offset % 2 ^ 64;
  total_data_length = total % 2 ^ 64;
  crc = [];
}

-- fragmentPrimaryBlock: the block and the length of its bytes.
unfoldable pub fragment_primary_block : Env → PrimaryBlock → ℕ → ℕ → Outcome (PrimaryBlock × ℕ)
unfolding fragment_primary
fragment_primary_block env pb offset total = do
  (marshalled, bytes) ← marshal_primary env (fragment_primary pb offset total)
  ok (marshalled, length bytes)

empty_payload : CanonicalBlock → CanonicalBlock
empty_payload eb = record {
  block_number = eb.block_number;
  block_control_flags = eb.block_control_flags;
  crc_type = crc_no;
  crc = [];
  value = payload_block [];
}

-- The growth of the byte string's length field from the empty payload to the MTU.
len_growth : Env → ℕ → ℕ
len_growth env mtu = length (env.write_byte_string_len (mtu % 2 ^ 64)) - 1

-- What one extension block adds to the two overheads.
block_overhead : Env → ℕ → CanonicalBlock → Outcome (ℕ × ℕ)
unfolding empty_payload len_growth
block_overhead env mtu eb = do
  let is_payload = nat_beq (type_code eb) type_payload
  let base = if is_payload then empty_payload eb else eb
  (marshalled, bytes) ← marshal_canonical env (record base { crc_type = crc_32 })
  let len = length bytes
  let replicated = if has eb.block_control_flags replicate_block then len else 0
  ok (
      if is_payload
      then (len + len_growth env mtu, replicated + (len + len_growth env mtu))
      else (len, replicated))

blocks_overhead : Env → ℕ → List CanonicalBlock → Outcome (ℕ × ℕ)
unfolding block_overhead
blocks_overhead env mtu [] = ok (0, 0)
blocks_overhead env mtu (eb ∷ ebs) = do
  (first, others) ← block_overhead env mtu eb
  (first', others') ← blocks_overhead env mtu ebs
  ok (first + first', others + others')

flags_of : Option CanonicalBlock → ℕ
flags_of none = 0
flags_of (some cb) = cb.block_control_flags

-- The block that stands for the payload at the end.
payload_overhead : Env → ℕ → Option CanonicalBlock → Outcome (ℕ × ℕ)
unfolding len_growth flags_of
payload_overhead env mtu payload = do
  (marshalled, bytes) ← marshal_canonical env (record {
    block_number = 1;
    block_control_flags = flags_of payload;
    crc_type = crc_32;
    crc = [];
    value = payload_block [];
  })
  ok (length bytes + len_growth env mtu, length bytes + len_growth env mtu)

-- fragmentExtensionBlocksLen
pub fragment_extension_blocks_len : Env → Bundle → ℕ → Outcome (ℕ × ℕ)
unfolding blocks_overhead payload_overhead
fragment_extension_blocks_len env b mtu = do
  (first, others) ← blocks_overhead env mtu b.extension_blocks
  (first', others') ← payload_overhead env mtu b.payload
  ok (first + first', others + others')

-- The extension blocks of the fragment at offset `i`.
pub add_blocks : ℕ → Bundle → List CanonicalBlock → Bundle
add_blocks i frag [] = frag
add_blocks i frag (cb ∷ cbs) =
    add_blocks i
      (if ltb 0 i && not (has cb.block_control_flags replicate_block)
        then frag
        else add_extension_block frag cb)
      cbs

unfoldable pub fragment_payload : CanonicalBlock → List ℕ → CanonicalBlock
fragment_payload cb bytes = record {
  block_number = 1;
  block_control_flags = cb.block_control_flags;
  crc_type = cb.crc_type;
  crc = [];
  value = payload_block bytes;
}

-- data[i:offset], with the offset cut at the end of the data. The code takes the minimum of two float64,
-- which is the minimum of the numbers as long as they are below 2 ^ 53.
unfoldable pub cut : List ℕ → ℕ → ℕ → List ℕ
cut bytes i n = take (min (i + n) (length bytes) - i) (drop i bytes)

-- The fragment with `n` bytes of the payload from offset `i` on.
pub fragment_bundle : Bundle → CanonicalBlock → List ℕ → ℕ → ℕ → PrimaryBlock → Bundle
unfolding fragment_payload cut add_blocks
fragment_bundle b cb bytes i n pb =
    record (add_blocks i (must_new_bundle pb [] none) b.extension_blocks) {
      payload = some (fragment_payload cb (cut bytes i n));
    }

-- A bundle that CheckValid has nothing against.
unfoldable pub checked : Env → ℕ → Bundle → Outcome Bundle
checked env now frag = do faults ← check_valid env now frag; demand faults; ok frag

-- The rest of a round, with the fragment's primary block and its length.
fragment_rest :
    Env
    → ℕ
    → Bundle
    → ℕ
    → CanonicalBlock
    → List ℕ
    → ℕ × ℕ
    → ℕ
    → PrimaryBlock × ℕ
    → Outcome (Bundle × ℕ)
unfolding fragment_bundle checked
fragment_rest env now b mtu cb bytes (first, others) i (pb, primary) =
    let overhead = 2 + primary + (if nat_beq i 0 then first else others) in
    if leb mtu overhead then err (overhead_exceeds_mtu i) else do
      frag ← checked env now (fragment_bundle b cb bytes i (mtu - overhead) pb)
      ok (frag, mtu - overhead)

-- One round of the loop: the fragment at offset `i`, and how far the offset moves.
pub fragment_at : Env → ℕ → Bundle → ℕ → CanonicalBlock → List ℕ → ℕ × ℕ → ℕ → Outcome (Bundle × ℕ)
unfolding fragment_rest
fragment_at env now b mtu cb bytes overheads i = do
  primary ← fragment_primary_block env b.primary_block i (length bytes)
  fragment_rest env now b mtu cb bytes overheads i primary

-- The loop `for i := 0; i < payloadBlockLen;`.
pub fragment_loop : (ℕ → Outcome (Bundle × ℕ)) → ℕ → ℕ → ℕ → Outcome (List Bundle)
fragment_loop round len zero i = no_fuel
fragment_loop round len (suc fuel) i = elim (ltb i len) [
  | false ↦ ok []
  | true ↦ do (frag, n) ← round i; rest ← fragment_loop round len fuel (i + n); ok (frag ∷ rest)
]

-- The fragments of a payload, before the single one is given up for the bundle itself.
pub fragment_payload_loop : Env → ℕ → Bundle → ℕ → CanonicalBlock × List ℕ → Outcome (List Bundle)
unfolding fragment_extension_blocks_len fragment_at fragment_loop
fragment_payload_loop env now b mtu (cb, bytes) = do
  overheads ← fragment_extension_blocks_len env b mtu
  fragment_loop (fragment_at env now b mtu cb bytes overheads) (length bytes) (suc (length bytes)) 0

-- Bundle.Fragment. Every round moves the offset on, so one more than the length is enough fuel.
unfoldable pub fragment : Env → ℕ → Bundle → ℕ → Outcome (List Bundle)
unfolding payload_data fragment_payload_loop
fragment env now b mtu =
    if has b.primary_block.bundle_control_flags must_not_fragmented
    then err fragmentation_forbidden
    else do
      payload ← payload_data b
      bs ← fragment_payload_loop env now b mtu payload
      ok (if nat_beq (length bs) 1 then b ∷ [] else bs)
