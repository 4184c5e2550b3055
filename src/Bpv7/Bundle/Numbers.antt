-- ===== src/Bpv7/Bundle/Numbers.antt =====
-- The block numbers that AddExtensionBlock gives out.
use mathlib.Core.List.{Permᴰ}
use mathlib.Core.List.Permᴰ
use ma_sinafadavi_iran.Prelude.{
  ℕ, zero, suc, ◌+◌, ◌≤◌, ◌<◌, ◌≡◌, ◌≢◌, refl, Bool, true, false, not, List, [], ◌∷◌, ◌++◌, arith,
  nat_beq, if◌then◌else◌, length, any, select, Bool-cases, inl, inr,
}
use ma_sinafadavi_iran.Bpv7.Block.{CanonicalBlock, block_type_code, type_payload}
use ma_sinafadavi_iran.Bpv7.Bundle.{
  Bundle, less, insert_block, sort_blocks, free_number, block_numbers, add_extension_block,
}

abbrev pub is_taken : ℕ → List ℕ → Bool
is_taken n = any (λ number. nat_beq n number)

others : ℕ → List ℕ → List ℕ
others n = select (λ x. not (nat_beq n x))

length-others : (n : ℕ) (xs : List ℕ) → length (others n xs) ≤ length xs
unfolding others
length-others n [] = omega arith
length-others n (x ∷ xs) = ground (arith, length-others n xs)

length-others_less : (n : ℕ) (xs : List ℕ) → is_taken n xs ≡ true → length (others n xs) < length xs
unfolding others
length-others_less n [] h = cc
length-others_less n (x ∷ xs) h = ground (arith, length-others n xs, length-others_less n xs)

is_taken-others : (m n : ℕ) (xs : List ℕ) → n < m → is_taken m (others n xs) ≡ is_taken m xs
unfolding others
is_taken-others m n [] h = refl
is_taken-others m n (x ∷ xs) h = ground (arith, is_taken-others m n xs h)

-- Only the numbers from the first on matter for the search.
free_number-others :
    (fuel m n : ℕ) (xs : List ℕ) → n < m → free_number fuel m (others n xs) ≡ free_number fuel m xs
unfolding free_number
free_number-others zero m n xs h = refl
free_number-others (suc fuel) m n xs h =
    ground (arith, is_taken-others m n xs h, free_number-others fuel (m + 1) n xs (omega arith))

-- With more fuel than there are numbers the search ends at a number that is not taken.
pub free_number-free :
    (fuel n : ℕ) (xs : List ℕ)
    → length xs < fuel
    → (is_taken (free_number fuel n xs) xs ≡ false) × (n ≤ free_number fuel n xs)
unfolding free_number
free_number-free zero n xs h = absurd (omega arith)
free_number-free (suc fuel) n xs h = elim (Bool-cases (is_taken n xs)) [
  | inl taken ↦
      let shorter = length-others_less n xs taken in
      let (free, low) = free_number-free fuel (n + 1) (others n xs) (omega arith) in
      let same = free_number-others fuel (n + 1) n xs (omega arith) in
      let apart = is_taken-others (free_number fuel (n + 1) xs) n xs in
      rw (taken, free_number) (ground arith, omega arith)
  | inr free ↦ rw (free, free_number) (free, omega arith)
]

insert_block-permᴰ :
    (b : CanonicalBlock) (bs : List CanonicalBlock) → Permᴰ (insert_block b bs) (b ∷ bs)
unfolding insert_block
insert_block-permᴰ b [] = Permᴰ.refl _
insert_block-permᴰ b (c ∷ cs) = elim (Bool-cases (less c b)) [
  | inl earlier ↦
      rw (earlier, insert_block)
        (Permᴰ.trans (Permᴰ.cons refl (insert_block-permᴰ b cs)) (Permᴰ.swap refl refl))
  | inr later ↦ rw (later, insert_block) (Permᴰ.refl _)
]

pub sort_blocks-permᴰ : (bs : List CanonicalBlock) → Permᴰ (sort_blocks bs) bs
unfolding sort_blocks
sort_blocks-permᴰ [] = Permᴰ.nil
sort_blocks-permᴰ (b ∷ bs) =
    Permᴰ.trans (insert_block-permᴰ b (sort_blocks bs)) (Permᴰ.cons refl (sort_blocks-permᴰ bs))

length-block_numbers : (bs : List CanonicalBlock) → length (block_numbers bs) ≡ length bs
unfolding block_numbers
length-block_numbers [] = refl
length-block_numbers (b ∷ bs) = omega (arith, length-block_numbers bs)

-- AddExtensionBlock gives the block a number that no other extension block of the bundle has, 1 or more,
-- and 2 or more unless it is a payload block; it keeps every block that was there, and adds this one.
pub add_extension_block-fresh :
    (b : Bundle) (block : CanonicalBlock)
    → (n : ℕ) × Permᴰ
        (add_extension_block b block).extension_blocks
        (record block { block_number = n } ∷ b.extension_blocks)
      × (is_taken n (block_numbers b.extension_blocks) ≡ false)
      × (1 ≤ n)
      × (block_type_code block.value ≢ type_payload → 2 ≤ n)
unfolding add_extension_block
add_extension_block-fresh b block =
    let numbers = block_numbers b.extension_blocks in
    let first : ℕ = if nat_beq (block_type_code block.value) type_payload then 1 else 2 in
    let n : ℕ = free_number (suc (length numbers)) first numbers in
    let (free, low) = free_number-free (suc (length numbers)) first numbers (omega arith) in
    (
      n,
      Permᴰ.trans (sort_blocks-permᴰ (b.extension_blocks ++ record block { block_number = n } ∷ []))
          (Permᴰ.append_comm b.extension_blocks (record block { block_number = n } ∷ [])),
      free,
      ground arith,
      (λ other. ground arith),
    )
