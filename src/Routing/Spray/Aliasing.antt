-- ===== src/Routing/Spray/Aliasing.antt =====
-- The loop of selectBinarySpray that removes the old BinarySprayBlocks.
use ma_sinafadavi_iran.Prelude.{◌≡◌, ◌≢◌, [], ◌∷◌, arith}
use ma_sinafadavi_iran.Bpv7.Block.{CanonicalBlock, type_binary_spray, type_code}
use ma_sinafadavi_iran.Bpv7.Bundle.{remove_by_number}
use ma_sinafadavi_iran.Routing.Spray.{positions, remove_pointed}

-- Of the three extension blocks of a bundle, with different numbers, the first two are BinarySprayBlocks
-- and the third is not: the loop removes the first and the third, and the second stays.
pub remove_pointed-misses :
    (s t x : CanonicalBlock)
    → type_code s ≡ type_binary_spray
    → type_code t ≡ type_binary_spray
    → type_code x ≢ type_binary_spray
    → s.block_number ≢ t.block_number
    → s.block_number ≢ x.block_number
    → t.block_number ≢ x.block_number
    → let blocks = s ∷ t ∷ x ∷ [] in
      remove_pointed (positions type_binary_spray 0 blocks) blocks [] ≡ t ∷ []
unfolding positions remove_pointed remove_by_number
remove_pointed-misses s t x hs ht hx st sx tx = ground arith
