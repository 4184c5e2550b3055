-- ===== src/Processing/PreviousNode.antt =====
-- The PreviousNodeBlock of a bundle that is sent on.
use ma_sinafadavi_iran.Prelude.{ℕ, ◌≡◌, refl, ap, ◌⊎◌, inl, inr, some, [], ◌∷◌}
use ma_sinafadavi_iran.Bpv7.Endpoint.{EndpointId}
use ma_sinafadavi_iran.Bpv7.Block.{
  CanonicalBlock, new_canonical_block, previous_node_block, type_previous_node, type_code,
}
use ma_sinafadavi_iran.Bpv7.Bundle.{
  Bundle, extension_blocks_by_type, extension_block_by_type, only_block, get_by_number,
}
use ma_sinafadavi_iran.Bpv7.Bundle.Types.{
  extension_blocks_by_type-add_extension_block, extension_blocks_by_type-remove_extension_block,
}
use ma_sinafadavi_iran.Processing.{with_previous_node, without_previous_node}

-- At most one PreviousNodeBlock, which is the first block with its number.
abbrev pub HasOneAtMost : Bundle → Type 0
HasOneAtMost b =
    (extension_blocks_by_type b type_previous_node ≡ [])
    ⊎ ((cb : CanonicalBlock) × (extension_blocks_by_type b type_previous_node ≡ cb ∷ [])
        × (get_by_number cb.block_number b.extension_blocks ≡ some cb))

without_previous_node-none :
    (b : Bundle)
    → HasOneAtMost b
    → extension_blocks_by_type
        (without_previous_node b
          (only_block type_previous_node (extension_blocks_by_type b type_previous_node)))
        type_previous_node
      ≡ []
unfolding without_previous_node only_block
without_previous_node-none b (inl absent) = rw (absent, only_block) absent
without_previous_node-none b (inr (cb, one, first)) =
    rw (one, only_block)
      (extension_blocks_by_type-remove_extension_block b cb type_previous_node one first)

-- If a bundle has at most one PreviousNodeBlock, and no other block in front of it has its number, then the
-- bundle that forwarding sends on has exactly one, and that names the node itself.
pub with_previous_node-own :
    (own : EndpointId) (b : Bundle)
    → HasOneAtMost b
    → (n : ℕ) × (extension_block_by_type (with_previous_node own b) type_previous_node
        ≡ inl (new_canonical_block n 0 (previous_node_block own)))
unfolding with_previous_node extension_block_by_type only_block type_code
with_previous_node-own own b h =
    let (n, only) =
      extension_blocks_by_type-add_extension_block
        (without_previous_node b
          (only_block type_previous_node (extension_blocks_by_type b type_previous_node)))
        (new_canonical_block 0 0 (previous_node_block own)) type_previous_node
        (without_previous_node-none b h) refl in
    (n, ap (only_block type_previous_node) only)
