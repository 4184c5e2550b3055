-- ===== src/Routing/Spray/Block.antt =====
-- The BinarySprayBlock that selectBinarySpray puts into a bundle.
use mathlib.Core.List.{Permᴰ}
use ma_sinafadavi_iran.Prelude.{
  ℕ, suc, ◌+◌, ◌≡◌, ◌⊎◌, inl, inr, refl, ap, subst, ◌∙◌, true, false, not, some, List, [], ◌∷◌,
  ◌++◌, arith, nat_beq, select, get_elem?, Bool-cases, append-nil, All, All-select,
}
use ma_sinafadavi_iran.Bpv7.Block.{
  CanonicalBlock, new_canonical_block, binary_spray_block, type_binary_spray, type_code,
}
use ma_sinafadavi_iran.Bpv7.Bundle.{
  Bundle, extension_blocks_by_type, add_extension_block, get_by_number, remove_by_number,
  block_numbers,
}
use ma_sinafadavi_iran.Bpv7.Bundle.Numbers.{is_taken, add_extension_block-fresh}
use ma_sinafadavi_iran.Routing.Spray.{positions, remove_pointed, with_spray_block}

-- The extension blocks of other types.
abbrev pub other_blocks : Bundle → List CanonicalBlock
other_blocks b = select (λ cb. not (nat_beq (type_code cb) type_binary_spray)) b.extension_blocks

-- At most one BinarySprayBlock, which is the first block with its number.
abbrev pub HasOneSprayAtMost : Bundle → Type 0
HasOneSprayAtMost b =
    (extension_blocks_by_type b type_binary_spray ≡ [])
    ⊎ ((cb : CanonicalBlock) × (extension_blocks_by_type b type_binary_spray ≡ cb ∷ [])
        × (get_by_number cb.block_number b.extension_blocks ≡ some cb))

module _ (t : ℕ) where
  positions-none :
      (i : ℕ) (cbs : List CanonicalBlock)
      → select (λ cb. nat_beq (type_code cb) t) cbs ≡ []
      → (positions t i cbs ≡ []) × (select (λ cb. not (nat_beq (type_code cb) t)) cbs ≡ cbs)
  unfolding positions
  positions-none i [] h = (refl, refl)
  positions-none i (cb ∷ cbs) h = elim (Bool-cases (nat_beq (type_code cb) t)) [
    | inl here ↦
        let found : ◌≡◌ {A = List CanonicalBlock} (cb ∷ select (λ x. nat_beq (type_code x) t) cbs)
            [] =
          rw here at h in
        cc
    | inr other ↦
        let rest : select (λ x. nat_beq (type_code x) t) cbs ≡ [] = rw other at h in
        let (nowhere, all) = positions-none (i + 1) cbs rest in
        (simp (other, nowhere), simp (other, all))
  ]

  positions-one :
      (i : ℕ) (cbs : List CanonicalBlock) (cb : CanonicalBlock)
      → select (λ x. nat_beq (type_code x) t) cbs ≡ cb ∷ []
      → (k : ℕ) × (positions t i cbs ≡ (i + k) ∷ []) × (get_elem? cbs k ≡ some cb)
  unfolding positions
  positions-one i [] cb h = cc
  positions-one i (x ∷ cbs) cb h = elim (Bool-cases (nat_beq (type_code x) t)) [
    | inl here ↦
        let whole : x ∷ select (λ y. nat_beq (type_code y) t) cbs ≡ cb ∷ [] = rw here at h in
        let same : x ≡ cb = cc in
        let rest : select (λ y. nat_beq (type_code y) t) cbs ≡ [] = cc in
        let zero_on : i ≡ i + 0 = omega arith in
        (
          0,
          rw (here, (positions-none (i + 1) cbs rest).0) (ap (λ n. n ∷ []) zero_on),
          ap (λ (y : CanonicalBlock). some y) same,
        )
    | inr other ↦
        let rest : select (λ y. nat_beq (type_code y) t) cbs ≡ cb ∷ [] = rw other at h in
        let (k, there, is) = positions-one (i + 1) cbs cb rest in
        let on : i + 1 + k ≡ i + suc k = omega arith in
        (suc k, rw other (there ∙ ap (λ n. n ∷ []) on), is)
  ]

  remove_by_number-others :
      (cbs : List CanonicalBlock) (cb : CanonicalBlock)
      → select (λ x. nat_beq (type_code x) t) cbs ≡ cb ∷ []
      → get_by_number cb.block_number cbs ≡ some cb
      → nat_beq (type_code cb) t ≡ true
      → remove_by_number cb.block_number cbs ≡ select (λ x. not (nat_beq (type_code x) t)) cbs
  unfolding get_by_number remove_by_number
  remove_by_number-others [] cb one found is_t = cc
  remove_by_number-others (x ∷ cbs) cb one found is_t =
      elim (Bool-cases (nat_beq (type_code x) t)) [
        | inl here ↦
            let whole : x ∷ select (λ y. nat_beq (type_code y) t) cbs ≡ cb ∷ [] = rw here at one in
            let same : x ≡ cb = cc in
            let rest : select (λ y. nat_beq (type_code y) t) cbs ≡ [] = cc in
            let (_, all) = positions-none 0 cbs rest in
            let met : nat_beq x.block_number cb.block_number ≡ true = rw same (ground arith) in
            simp (met, here, all)
        | inr other ↦
            let rest : select (λ y. nat_beq (type_code y) t) cbs ≡ cb ∷ [] = rw other at one in
            elim (Bool-cases (nat_beq x.block_number cb.block_number)) [
              | inl met ↦ let same : x ≡ cb = ground arith in cc
              | inr apart ↦
                  let later : get_by_number cb.block_number cbs ≡ some cb = ground arith in
                  simp (apart, other, remove_by_number-others cbs cb rest later is_t)
            ]
      ]

  remove_pointed-single :
      (k : ℕ) (cbs : List CanonicalBlock) (cb : CanonicalBlock)
      → get_elem? cbs k ≡ some cb
      → remove_pointed (k ∷ []) cbs [] ≡ remove_by_number cb.block_number cbs
  unfolding remove_pointed
  remove_pointed-single k cbs cb is =
      let found : get_elem? (cbs ++ []) k ≡ some cb = rw (append-nil cbs) is in
      rw (found, remove_pointed) refl

  remove_pointed-others :
      (cbs : List CanonicalBlock) (cb : CanonicalBlock)
      → select (λ x. nat_beq (type_code x) t) cbs ≡ cb ∷ []
      → get_by_number cb.block_number cbs ≡ some cb
      → nat_beq (type_code cb) t ≡ true
      → remove_pointed (positions t 0 cbs) cbs [] ≡ select (λ x. not (nat_beq (type_code x) t)) cbs
  remove_pointed-others cbs cb one found is_t =
      let (k, there, is) = positions-one 0 cbs cb one in
      let start : 0 + k ≡ k = omega arith in
      rw (there, start)
        (remove_pointed-single k cbs cb is ∙ remove_by_number-others cbs cb one found is_t)

remove_pointed-HasOneSprayAtMost :
    (b : Bundle)
    → HasOneSprayAtMost b
    → remove_pointed (positions type_binary_spray 0 b.extension_blocks) b.extension_blocks []
      ≡ other_blocks b
unfolding extension_blocks_by_type remove_pointed
remove_pointed-HasOneSprayAtMost b (inl absent) =
    let (nowhere, all) = positions-none type_binary_spray 0 b.extension_blocks absent in
    simp (nowhere, all)
remove_pointed-HasOneSprayAtMost b (inr (cb, one, first)) =
    remove_pointed-others type_binary_spray b.extension_blocks cb one first
      (subst
        (λ (l : List CanonicalBlock).
          All (λ (x : CanonicalBlock). nat_beq (type_code x) type_binary_spray ≡ true) l)
        one
        (All-select (λ (x : CanonicalBlock). nat_beq (type_code x) type_binary_spray)
          b.extension_blocks)).0

-- With one BinarySprayBlock at most the new one takes its place, under a fresh number.
pub with_spray_block-Permᴰ :
    (b : Bundle) (copies : ℕ)
    → HasOneSprayAtMost b
    → (n : ℕ) × Permᴰ
        (with_spray_block b copies).extension_blocks
        (new_canonical_block n 0 (binary_spray_block copies) ∷ other_blocks b)
      × (is_taken n (block_numbers (other_blocks b)) ≡ false)
unfolding with_spray_block
with_spray_block-Permᴰ b copies h =
    let left =
      remove_pointed (positions type_binary_spray 0 b.extension_blocks) b.extension_blocks [] in
    let same : left ≡ other_blocks b = remove_pointed-HasOneSprayAtMost b h in
    let (n, perm, fresh, _, _) =
      add_extension_block-fresh (record b { extension_blocks = left })
        (new_canonical_block 0 0 (binary_spray_block copies)) in
    (
      n,
      subst
          (λ cbs.
            Permᴰ (with_spray_block b copies).extension_blocks
              (new_canonical_block n 0 (binary_spray_block copies) ∷ cbs))
          same perm,
      subst (λ cbs. is_taken n (block_numbers cbs) ≡ false) same fresh,
    )

-- The rest of the bundle is as it was.
pub with_spray_block-same :
    (b : Bundle) (copies : ℕ)
    → ((with_spray_block b copies).primary_block ≡ b.primary_block)
      × ((with_spray_block b copies).payload ≡ b.payload)
unfolding with_spray_block add_extension_block
with_spray_block-same b copies = (refl, refl)
