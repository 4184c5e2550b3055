-- ===== src/Bpv7/Reassemble/Inverse.antt =====
-- ReassembleFragments after Bundle.Fragment.
use mathlib.Core.List.{Perm}
use mathlib.Core.List.Perm
use ma_sinafadavi_iran.Prelude.{
  ℕ, ◌^◌, ◌<◌, ◌≡◌, ◌≢◌, ◌⊎◌, refl, ap, sym, ◌∙◌, false, List, [], ◌∷◌, arith, inl, inr, length,
}
use ma_sinafadavi_iran.Bpv7.Env.{Env}
use ma_sinafadavi_iran.Bpv7.Outcome.{Outcome, ok, ◌>>=◌}
use ma_sinafadavi_iran.Bpv7.Flags.{has, is_fragment, without_flag-with_flag_fragment}
use ma_sinafadavi_iran.Bpv7.Primary.{PrimaryBlock}
use ma_sinafadavi_iran.Bpv7.Block.{CanonicalBlock, new_canonical_block, payload_block}
use ma_sinafadavi_iran.Bpv7.Bundle.{Bundle, add_extension_block}
use ma_sinafadavi_iran.Bpv7.Fragment.{
  cut, payload_data, checked, fragment, fragment_primary, fragment_payload,
}
use ma_sinafadavi_iran.Bpv7.Fragment.Cover.{IsPiece, Covers, done, piece, fragment-Covers}
use ma_sinafadavi_iran.Bpv7.Fragment.Piece.{piece-payload_data}
use ma_sinafadavi_iran.Bpv7.Reassemble.{
  sort_fragments, check_sorted, prepare_reassembly, reassembled_primary, empty_bundle, add_all,
  merged_bundle, merge_fragment_payload, reassemble_sorted, reassemble_fragments, check_total,
}
use ma_sinafadavi_iran.Bpv7.Reassemble.Sort.{sort_fragments-perm}
use ma_sinafadavi_iran.Bpv7.Reassemble.RoundTrip.{
  sort-Covers, scan-Covers_start, merge-Covers_start, Covers-Nodup, total-Covers,
}

add_all-primary :
    (b : Bundle) (cbs : List CanonicalBlock) → (add_all b cbs).primary_block ≡ b.primary_block
unfolding add_all add_extension_block
add_all-primary b [] = refl
add_all-primary b (cb ∷ cbs) = add_all-primary (add_extension_block b cb) cbs

-- The primary block of an unfragmented bundle, as a reassembled bundle has it.
abbrev pub restored_primary : PrimaryBlock → PrimaryBlock
restored_primary pb = record pb { fragment_offset = 0; total_data_length = 0; crc = [] }

reassembled_primary-fragment_primary :
    (pb : PrimaryBlock) (i len : ℕ)
    → has pb.bundle_control_flags is_fragment ≡ false
    → reassembled_primary (fragment_primary pb i len) ≡ restored_primary pb
unfolding reassembled_primary fragment_primary
reassembled_primary-fragment_primary pb i len h =
    rw (without_flag-with_flag_fragment pb.bundle_control_flags h)

merged_bundle-primary :
    {b : Bundle} {cb : CanonicalBlock} {bytes : List ℕ} {i n : ℕ} (frag : Bundle)
    (pb0 : CanonicalBlock)
    → IsPiece b cb bytes i n frag
    → has b.primary_block.bundle_control_flags is_fragment ≡ false
    → (merged_bundle frag pb0 bytes).primary_block ≡ restored_primary b.primary_block
unfolding merged_bundle empty_bundle reassembled_primary
merged_bundle-primary {b} {bytes = bytes} {i = i} frag pb0 p h =
    add_all-primary (empty_bundle frag.primary_block) frag.extension_blocks
    ∙ ap reassembled_primary p.primary
    ∙ reassembled_primary-fragment_primary b.primary_block i (length bytes) h

prepare_reassembly-sorted :
    (xs : List Bundle) → xs ≢ [] → prepare_reassembly xs ≡ check_sorted (sort_fragments xs)
unfolding prepare_reassembly
prepare_reassembly-sorted [] h = absurd (h refl)
prepare_reassembly-sorted (x ∷ xs) h = refl

abbrev merged_payload : CanonicalBlock → List ℕ → CanonicalBlock
merged_payload pb0 bytes =
    record (new_canonical_block 1 pb0.block_control_flags (payload_block bytes)) {
      crc_type = pb0.crc_type;
    }

merged_bundle-payload_data :
    (f : Bundle) (pb0 : CanonicalBlock) (bytes : List ℕ)
    → payload_data (merged_bundle f pb0 bytes) ≡ ok (merged_payload pb0 bytes, bytes)
unfolding merged_bundle payload_data
merged_bundle-payload_data f pb0 bytes = refl

no_piece :
    {b : Bundle} {cb : CanonicalBlock} {bytes : List ℕ} {i : ℕ}
    → Covers b cb bytes i []
    → i < length bytes
    → ⊥
no_piece (done h) lt = omega arith

first-IsPiece :
    {b : Bundle} {cb : CanonicalBlock} {bytes : List ℕ} {i : ℕ} (frag : Bundle)
    (frags : List Bundle)
    → Covers b cb bytes i (frag ∷ frags)
    → (n : ℕ) × IsPiece b cb bytes i n frag
first-IsPiece frag frags (piece n _ h p rest) = (n, p)

sort_fragments-ne :
    (xs : List Bundle) (f : Bundle) (fs : List Bundle) → sort_fragments xs ≡ f ∷ fs → xs ≢ []
unfolding sort_fragments
sort_fragments-ne [] f fs h e = cc
sort_fragments-ne (x ∷ xs) f fs h e = cc

module _ {b : Bundle} {cb : CanonicalBlock} {bytes : List ℕ} (small : length bytes < 2 ^ 63) where
  check_sorted-Covers :
      (frag : Bundle) (frags : List Bundle)
      → Covers b cb bytes 0 (frag ∷ frags)
      → check_sorted (frag ∷ frags) ≡ ok (frag ∷ frags)
  unfolding check_sorted
  check_sorted-Covers frag frags c =
      ap (λ (m : Outcome ℕ). m >>= check_total (frag ∷ frags)) (scan-Covers_start small c)
      ∙ total-Covers small frag frags c

  -- The fragments, in any order, pass the check and come out sorted.
  prepare_reassembly-Covers :
      (frag : Bundle) (frags arrived : List Bundle)
      → Covers b cb bytes 0 (frag ∷ frags)
      → Perm arrived (frag ∷ frags)
      → prepare_reassembly arrived ≡ ok (frag ∷ frags)
  prepare_reassembly-Covers frag frags arrived c p =
      let sorted : sort_fragments arrived ≡ frag ∷ frags =
        sym (sort_fragments-perm (Perm.symm p) (Covers-Nodup small c)) ∙ sort-Covers small c in
      prepare_reassembly-sorted arrived (sort_fragments-ne arrived frag frags sorted)
      ∙ ap check_sorted sorted
      ∙ check_sorted-Covers frag frags c

  merge_fragment_payload-Covers :
      {frags : List Bundle} → Covers b cb bytes 0 frags → merge_fragment_payload frags ≡ ok bytes
  unfolding merge_fragment_payload
  merge_fragment_payload-Covers c = merge-Covers_start small c

  reassemble_sorted-Covers :
      (env : Env) (now : ℕ) (frag : Bundle) (frags : List Bundle)
      → Covers b cb bytes 0 (frag ∷ frags)
      → (pb0 : CanonicalBlock) × (reassemble_sorted env now (frag ∷ frags)
          ≡ checked env now (merged_bundle frag pb0 bytes))
  unfolding reassemble_sorted
  reassemble_sorted-Covers env now frag frags (piece n _ h p rest) = (
    fragment_payload cb (cut bytes 0 n),
    rw (merge_fragment_payload-Covers (piece n frag h p rest), piece-payload_data p),
  )

  -- Whatever the order of arrival, the bundle before the last check has the payload and the primary
  -- block of `b`.
  reassemble_fragments-Covers :
      (env : Env) (now : ℕ) (frag : Bundle) (frags arrived : List Bundle)
      → Covers b cb bytes 0 (frag ∷ frags)
      → Perm arrived (frag ∷ frags)
      → has b.primary_block.bundle_control_flags is_fragment ≡ false
      → (r : Bundle) × (pc : CanonicalBlock) × (reassemble_fragments env now arrived
          ≡ checked env now r)
        × (payload_data r ≡ ok (pc, bytes))
        × (r.primary_block ≡ restored_primary b.primary_block)
  unfolding reassemble_fragments
  reassemble_fragments-Covers env now frag frags arrived c p h =
      let (pb0, e) = reassemble_sorted-Covers env now frag frags c in
      (
        merged_bundle frag pb0 bytes,
        merged_payload pb0 bytes,
        ap (λ (m : Outcome (List Bundle)). m >>= reassemble_sorted env now)
              (prepare_reassembly-Covers frag frags arrived c p)
            ∙ e,
        merged_bundle-payload_data frag pb0 bytes,
        merged_bundle-primary frag pb0 (first-IsPiece frag frags c).1 h,
      )

-- Reassembly undoes fragmentation. When `fragment` succeeds on an unfragmented bundle with a
-- payload of between 1 and 2 ^ 63 - 1 bytes, it returns that bundle alone, or else
-- `reassemble_fragments` of its fragments in any order is the outcome of the last validity check of
-- a bundle with the same payload and the same primary block, but for the CRC and the two fragment
-- fields, which are 0.
pub fragment_reassemble :
    (env : Env) (now later : ℕ) (b : Bundle) (mtu : ℕ) (cb : CanonicalBlock) (bytes : List ℕ)
    (frags arrived : List Bundle)
    → payload_data b ≡ ok (cb, bytes)
    → 0 < length bytes
    → length bytes < 2 ^ 63
    → has b.primary_block.bundle_control_flags is_fragment ≡ false
    → fragment env now b mtu ≡ ok frags
    → Perm arrived frags
    → (frags ≡ b ∷ [])
      ⊎ ((r : Bundle) × (pc : CanonicalBlock) × (reassemble_fragments env later arrived
            ≡ checked env later r)
          × (payload_data r ≡ ok (pc, bytes))
          × (r.primary_block ≡ restored_primary b.primary_block))
fragment_reassemble env now later b mtu cb bytes [] arrived d some_bytes small whole h p =
    elim (fragment-Covers env now b mtu d h) [
      | inl one ↦ cc
      | inr c ↦ absurd (no_piece c some_bytes)
    ]
fragment_reassemble env now later b mtu cb bytes (f ∷ fs) arrived d some_bytes small whole h p =
    elim (fragment-Covers env now b mtu d h) [
      | inl one ↦ inl one
      | inr c ↦ inr (reassemble_fragments-Covers small env later f fs arrived c p whole)
    ]
