-- ===== src/Bpv7/Fragment/Piece.antt =====
-- The fields of one fragment that Bundle.Fragment makes.
use Prim.Native.Nat.{min}
use ma_sinafadavi_iran.Prelude.{
  ℕ, ◌+◌, ◌-◌, ◌%◌, ◌^◌, ◌<◌, ◌≡◌, ap, true, List, arith, length, length-take, length-drop, drop,
}
use ma_sinafadavi_iran.Bpv7.Outcome.{ok}
use ma_sinafadavi_iran.Bpv7.Flags.{has, with_flag, is_fragment, has-with_flag_fragment}
use ma_sinafadavi_iran.Bpv7.Primary.{PrimaryBlock}
use ma_sinafadavi_iran.Bpv7.Block.{CanonicalBlock}
use ma_sinafadavi_iran.Bpv7.Bundle.{Bundle}
use ma_sinafadavi_iran.Bpv7.Fragment.{
  fragment_primary, fragment_payload, cut, payload_data, payload_of,
}
use ma_sinafadavi_iran.Bpv7.Fragment.Cover.{IsPiece}

pub length-cut :
    (bytes : List ℕ) (i n : ℕ)
    → i < length bytes
    → length (cut bytes i n) ≡ min (i + n) (length bytes) - i
unfolding cut
length-cut bytes i n h =
    omega (arith, length-take (min (i + n) (length bytes) - i) (drop i bytes), length-drop i bytes)

module _ {b : Bundle} {cb : CanonicalBlock} {bytes : List ℕ} {i n : ℕ} {frag : Bundle}
    (p : IsPiece b cb bytes i n frag) where
  pub piece-offset : frag.primary_block.fragment_offset ≡ i % 2 ^ 64
  unfolding fragment_primary
  piece-offset = ap (λ (pb : PrimaryBlock). pb.fragment_offset) p.primary

  pub piece-total : frag.primary_block.total_data_length ≡ length bytes % 2 ^ 64
  unfolding fragment_primary
  piece-total = ap (λ (pb : PrimaryBlock). pb.total_data_length) p.primary

  pub piece-flags :
      frag.primary_block.bundle_control_flags
      ≡ with_flag b.primary_block.bundle_control_flags is_fragment
  unfolding fragment_primary
  piece-flags = ap (λ (pb : PrimaryBlock). pb.bundle_control_flags) p.primary

  pub piece-is_fragment : has frag.primary_block.bundle_control_flags is_fragment ≡ true
  piece-is_fragment = rw piece-flags (has-with_flag_fragment b.primary_block.bundle_control_flags)

  pub piece-payload_data :
      payload_data frag ≡ ok (fragment_payload cb (cut bytes i n), cut bytes i n)
  unfolding payload_data fragment_payload
  piece-payload_data = ap payload_of p.payload
