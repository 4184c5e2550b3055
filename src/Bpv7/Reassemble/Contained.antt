-- ===== src/Bpv7/Reassemble/Contained.antt =====
-- A fragment that lies inside an earlier one: prepareReassembly lets it pass, and the merge panics.
use ma_sinafadavi_iran.Prelude.{
  ℕ, ◌+◌, ◌^◌, ◌≤◌, ◌<◌, ◌≡◌, ap, ◌∙◌, true, List, [], ◌∷◌, arith, length,
}
use ma_sinafadavi_iran.Bpv7.Env.{Env}
use ma_sinafadavi_iran.Bpv7.Outcome.{ok, panic}
use ma_sinafadavi_iran.Bpv7.Flags.{has, is_fragment}
use ma_sinafadavi_iran.Bpv7.Block.{CanonicalBlock}
use ma_sinafadavi_iran.Bpv7.Bundle.{Bundle}
use ma_sinafadavi_iran.Bpv7.Fragment.{payload_data}
use ma_sinafadavi_iran.Bpv7.Reassemble.{
  offset, sort_fragments, insert_fragment, check_sorted, prepare_reassembly,
  is_bundle_reassemblable, merge_fragment_payload, reassemble_sorted, reassemble_fragments,
}

-- A fragment with its payload.
pub record IsFragmentOf (b : Bundle) (at : ℕ) (bytes : List ℕ) : Type 0 where
  pub flagged : has b.primary_block.bundle_control_flags is_fragment ≡ true
  pub starts : offset b ≡ at
  pub block : CanonicalBlock
  pub carries : payload_data b ≡ ok (block, bytes)

module _ (f g h : Bundle) (o p : ℕ) (x y z : List ℕ) (ff : IsFragmentOf f 0 x)
    (gg : IsFragmentOf g o y) (hh : IsFragmentOf h p z) (inside : o + length y < length x)
    (ordered : o < p) (after : p ≤ o + length y) (starts : 0 < o)
    (total : f.primary_block.total_data_length ≡ p + length z)
    (bound : length x + p + length z < 2 ^ 63) where
  sort_three : sort_fragments (f ∷ g ∷ h ∷ []) ≡ f ∷ g ∷ h ∷ []
  unfolding sort_fragments insert_fragment
  sort_three = ground (arith, ff.starts, gg.starts, hh.starts)

  check_three : check_sorted (f ∷ g ∷ h ∷ []) ≡ ok (f ∷ g ∷ h ∷ [])
  unfolding check_sorted
  check_three = ground (
    arith, ff.starts, gg.starts, hh.starts, ff.carries, gg.carries, hh.carries, ff.flagged,
    gg.flagged, hh.flagged,
  )

  prepare_three : prepare_reassembly (f ∷ g ∷ h ∷ []) ≡ ok (f ∷ g ∷ h ∷ [])
  unfolding prepare_reassembly
  prepare_three = ap check_sorted sort_three ∙ check_three

  merge_three : merge_fragment_payload (f ∷ g ∷ h ∷ []) ≡ panic
  unfolding merge_fragment_payload
  merge_three = ground (arith, ff.starts, gg.starts, hh.starts, ff.carries, gg.carries, hh.carries)

  -- Of three fragments the first starts at 0, the second lies inside the first and ends before it, and the
  -- third starts later than the second, not behind its end, and ends at the total length. Then
  -- IsBundleReassemblable says yes, and ReassembleFragments panics.
  pub contained_fragment_panics :
      (env : Env) (now : ℕ)
      → (is_bundle_reassemblable (f ∷ g ∷ h ∷ []) ≡ true)
        × (reassemble_fragments env now (f ∷ g ∷ h ∷ []) ≡ panic)
  unfolding is_bundle_reassemblable reassemble_fragments reassemble_sorted
  contained_fragment_panics env now =
      (rw (prepare_three, is_bundle_reassemblable), rw (prepare_three, merge_three))
