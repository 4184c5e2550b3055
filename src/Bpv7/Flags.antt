-- ===== src/Bpv7/Flags.antt =====
-- dtnd7-go/pkg/bpv7/bundle_control_flags.go and block_control_flags.go: a flag word is a uint64.
mod Bits
use Prim.Native.Nat.{bit_and, bit_or, bit_xor}
use ma_sinafadavi_iran.Prelude.{
  ℕ, ◌+◌, ◌%◌, ◌≡◌, refl, Bool, true, false, not, ◌&&◌, ◌||◌, List, [], ◌∷◌, ◌++◌, arith, nat_beq,
  if◌then◌else◌,
}
use Bits.{bit_and-one, bit_or-one, bit_xor-one}

-- Bundle processing control flags.
abbrev pub is_fragment : ℕ
is_fragment = 0x000001

abbrev pub administrative_record_payload : ℕ
administrative_record_payload = 0x000002

abbrev pub must_not_fragmented : ℕ
must_not_fragmented = 0x000004

abbrev pub request_status_time : ℕ
request_status_time = 0x000040

abbrev pub status_request_reception : ℕ
status_request_reception = 0x004000

abbrev pub status_request_forward : ℕ
status_request_forward = 0x010000

abbrev pub status_request_delivery : ℕ
status_request_delivery = 0x020000

abbrev pub status_request_deletion : ℕ
status_request_deletion = 0x040000

-- Block processing control flags.
abbrev pub replicate_block : ℕ
replicate_block = 0x01

abbrev pub status_report_block : ℕ
status_report_block = 0x02

-- Has, of both flag types.
unfoldable pub has : ℕ → ℕ → Bool
has bcf flag = not (nat_beq (bit_and bcf flag) 0)

-- x | y and x &^ y.
unfoldable pub with_flag : ℕ → ℕ → ℕ
with_flag bcf flag = bit_or bcf flag

unfoldable pub without_flag : ℕ → ℕ → ℕ
without_flag bcf flag = bit_xor bcf (bit_and bcf flag)

pub no_status_request : ℕ → Bool
no_status_request bcf =
    not (has bcf status_request_reception)
    && not (has bcf status_request_forward)
    && not (has bcf status_request_delivery)
    && not (has bcf status_request_deletion)

pub has-with_flag_fragment : (bcf : ℕ) → has (with_flag bcf is_fragment) is_fragment ≡ true
unfolding has with_flag
has-with_flag_fragment bcf = ground (arith, bit_and-one (bit_or bcf 1), bit_or-one bcf)

pub without_flag-with_flag_fragment :
    (bcf : ℕ)
    → has bcf is_fragment ≡ false
    → without_flag (with_flag bcf is_fragment) is_fragment ≡ bcf
unfolding has with_flag without_flag
without_flag-with_flag_fragment bcf h =
    let or_one = bit_or-one bcf in
    let odd : bit_and (bit_or bcf 1) 1 ≡ 1 = omega (arith, bit_and-one (bit_or bcf 1), or_one) in
    rw odd (ground (arith, bit_xor-one (bit_or bcf 1), or_one, bit_and-one bcf))
