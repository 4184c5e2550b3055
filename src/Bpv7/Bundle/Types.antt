-- ===== src/Bpv7/Bundle/Types.antt =====
-- The extension blocks of one type, when a block is added or removed.
use ma_sinafadavi_iran.Prelude.{
  ℕ, ◌≡◌, ◌∙◌, Bool, true, false, inl, inr, some, List, [], ◌∷◌, ◌++◌, arith, select, subst, All,
  All-select, Bool-cases, nat_beq,
}
use ma_sinafadavi_iran.Bpv7.Block.{CanonicalBlock, type_code}
use ma_sinafadavi_iran.Bpv7.Bundle.{
  Bundle, less, insert_block, sort_blocks, extension_blocks_by_type, add_extension_block,
  get_by_number, remove_by_number, remove_extension_block,
}

module _ (p : CanonicalBlock → Bool) where
  select-insert_block_other :
      (b : CanonicalBlock) (bs : List CanonicalBlock)
      → p b ≡ false
      → select p (insert_block b bs) ≡ select p bs
  unfolding insert_block
  select-insert_block_other b [] h = ground arith
  select-insert_block_other b (c ∷ cs) h = elim (Bool-cases (less c b)) [
    | inl earlier ↦ rw (earlier, insert_block) (ground (arith, select-insert_block_other b cs h))
    | inr later ↦ rw (later, insert_block) (ground arith)
  ]

  select-sort_blocks :
      (bs : List CanonicalBlock) (x : CanonicalBlock)
      → select p bs ≡ []
      → p x ≡ true
      → select p (sort_blocks (bs ++ x ∷ [])) ≡ x ∷ []
  unfolding sort_blocks insert_block
  select-sort_blocks [] x h hx = ground arith
  select-sort_blocks (b ∷ bs) x h hx = elim (Bool-cases (p b)) [
    | inl here ↦ let found : ◌≡◌ {A = List CanonicalBlock} (b ∷ select p bs) [] = ground arith in cc
    | inr other ↦
        let rest : select p bs ≡ [] = ground arith in
        select-insert_block_other b (sort_blocks (bs ++ x ∷ [])) other
        ∙ select-sort_blocks bs x rest hx
  ]

  select-remove_by_number :
      (bs : List CanonicalBlock) (cb : CanonicalBlock)
      → select p bs ≡ cb ∷ []
      → get_by_number cb.block_number bs ≡ some cb
      → p cb ≡ true
      → select p (remove_by_number cb.block_number bs) ≡ []
  unfolding get_by_number remove_by_number
  select-remove_by_number [] cb one found has = cc
  select-remove_by_number (b ∷ bs) cb one found has = elim (Bool-cases (p b)) [
    | inl here ↦
        let same : b ≡ cb = ground arith in
        let rest : select p bs ≡ [] = ground arith in ground arith
    | inr other ↦
        let rest : select p bs ≡ cb ∷ [] = ground arith in
        elim (Bool-cases (nat_beq b.block_number cb.block_number)) [
          | inl met ↦ let same : b ≡ cb = ground arith in cc
          | inr apart ↦
              let later : get_by_number cb.block_number bs ≡ some cb = ground arith in
              ground (arith, select-remove_by_number bs cb rest later has)
        ]
  ]

-- Where a bundle has no block of a type, a block of that type that is added is the only one.
pub extension_blocks_by_type-add_extension_block :
    (b : Bundle) (block : CanonicalBlock) (t : ℕ)
    → extension_blocks_by_type b t ≡ []
    → type_code block ≡ t
    → (n : ℕ) × (extension_blocks_by_type (add_extension_block b block) t
        ≡ record block { block_number = n } ∷ [])
unfolding extension_blocks_by_type add_extension_block type_code
extension_blocks_by_type-add_extension_block b block t absent is_t = (
  _,
  select-sort_blocks (λ cb. nat_beq (type_code cb) t) b.extension_blocks
      (record block { block_number = _ }) absent (ground arith),
)

-- Where a bundle has one block of a type, which is the first one with its number, none is left when the
-- block with that number is removed.
pub extension_blocks_by_type-remove_extension_block :
    (b : Bundle) (block : CanonicalBlock) (t : ℕ)
    → extension_blocks_by_type b t ≡ block ∷ []
    → get_by_number block.block_number b.extension_blocks ≡ some block
    → extension_blocks_by_type (remove_extension_block b block.block_number) t ≡ []
unfolding extension_blocks_by_type remove_extension_block
extension_blocks_by_type-remove_extension_block b block t one first =
    select-remove_by_number (λ cb. nat_beq (type_code cb) t) b.extension_blocks block one first
      (subst
        (λ (l : List CanonicalBlock).
          All (λ (cb : CanonicalBlock). nat_beq (type_code cb) t ≡ true) l)
        one (All-select (λ (cb : CanonicalBlock). nat_beq (type_code cb) t) b.extension_blocks)).0
