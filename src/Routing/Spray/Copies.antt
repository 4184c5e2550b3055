-- ===== src/Routing/Spray/Copies.antt =====
-- The budget of copies of a bundle under Spray and Wait.
use mathlib.Core.List.{Permᴰ}
use ma_sinafadavi_iran.Prelude.{
  ℕ, ◌+◌, ◌-◌, ◌/◌, ◌%◌, ◌<◌, String, ◌≡◌, ◌⊎◌, inl, inr, refl, ap, ◌∙◌, true, false, not, ◌&&◌,
  Option, none, some, List, [], ◌∷◌, arith, if-cases, ltb, leb, if◌then◌else◌, length, length-take,
  length-drop, take, drop, string_eq,
}
use ma_sinafadavi_iran.Bpv7.Block.{new_canonical_block, binary_spray_block}
use ma_sinafadavi_iran.Bpv7.Bundle.{Bundle, block_numbers}
use ma_sinafadavi_iran.Bpv7.Bundle.Numbers.{is_taken}
use ma_sinafadavi_iran.Routing.Spray.Block.{
  other_blocks, HasOneSprayAtMost, with_spray_block-Permᴰ, with_spray_block-same,
}
use ma_sinafadavi_iran.Store.Descriptor.{
  BundleDescriptor, Result, ok, err, Effect, lookup_misc, insert_misc,
}
use ma_sinafadavi_iran.Routing.Peers.{Sender, filter_peers}
use ma_sinafadavi_iran.Routing.Spray.{
  SprayAndWait, World, Selection, set_spray_copies, get_spray_copies, spray_bundle_copies_key,
  with_spray_block, nobody, select_basic_spray, retained_copies, select_binary_spray, select_with,
  select_saved, select_peers,
}

lookup_misc-insert_misc :
    (key : String) (v : ℕ) (m : List (String × ℕ)) → lookup_misc key (insert_misc key v m) ≡ some v
unfolding lookup_misc insert_misc
lookup_misc-insert_misc key v [] = ground (arith, string_eq.same_iff key key)
lookup_misc-insert_misc key v ((k, x) ∷ m) =
    ground
      (arith, string_eq.same_iff k key, string_eq.same_iff key key, lookup_misc-insert_misc key v m)

-- What setSprayCopies stores getSprayCopies reads.
pub get-set_spray_copies :
    (w : World) (d : BundleDescriptor) (c : ℕ)
    → get_spray_copies (set_spray_copies w d c).0 ≡ some c
unfolding get_spray_copies set_spray_copies
get-set_spray_copies w d c =
    lookup_misc-insert_misc spray_bundle_copies_key c d.metadata.miscellaneous_data

-- What a selection leaves for later, and how many peers it takes.
abbrev pub remaining : Selection → Option ℕ
remaining s = get_spray_copies s.descriptor

select_basic_spray_budget :
    (w : World) (d : BundleDescriptor) (es : List Effect) (c : ℕ) (peers : List Sender)
    → (n : ℕ) × (remaining (select_basic_spray w d es c peers) ≡ some n)
      × (length (select_basic_spray w d es c peers).peers + n ≡ c)
unfolding select_basic_spray
select_basic_spray_budget w d es c peers = (
  (if leb (length peers) c then c - length peers else 0),
  get-set_spray_copies w d _,
  ground (arith, length-take c peers),
)

abbrev BudgetKept : ℕ → Selection → Type 0
BudgetKept c s = (n : ℕ) × (remaining s ≡ some n) × (length s.peers + n ≡ c)

select_with-basic :
    (router : SprayAndWait) (w : World) (d : BundleDescriptor) (es : List Effect) (c : ℕ)
    (peers : List Sender)
    → router.binary ≡ false
    → get_spray_copies d ≡ some c
    → BudgetKept c (select_with router w d es c peers)
unfolding select_with
select_with-basic router w d es c peers basic known =
    let nobody_kept : BudgetKept c (nobody d es) = (c, known, omega arith) in
    if-cases (BudgetKept c) (not router.binary && not (ltb 0 c)) _ _ (λ _. nobody_kept)
      λ _.
        if-cases (BudgetKept c) (router.binary && not (ltb 1 c)) _ _ (λ _. nobody_kept)
          λ _.
            if-cases (BudgetKept c) (not (ltb 0 (length (filter_peers d peers)))) _ _
              (λ _. nobody_kept)
              λ _.
                if-cases (BudgetKept c) router.binary _ _ (λ binary. cc)
                  λ _. select_basic_spray_budget w d es c (filter_peers d peers)

-- In basic mode the copies are conserved: with `c` copies left for the bundle, a selection stores a new
-- number, and the peers that it takes and that number add up to `c`.
pub select_peers-basic :
    (router : SprayAndWait) (w : World) (d : BundleDescriptor) (c : ℕ) (peers : List Sender)
    → router.binary ≡ false
    → get_spray_copies d ≡ some c
    → (n : ℕ) × (remaining (select_peers router w d peers) ≡ some n)
      × (length (select_peers router w d peers).peers + n ≡ c)
unfolding select_peers
select_peers-basic router w d c peers basic known =
    rw (known, select_saved) (select_with-basic router w d [] c peers basic known)

length-pick :
    (r : ℕ) (peers : List Sender)
    → 0 < length peers
    → length (take 1 (drop (r % length peers) peers)) ≡ 1
length-pick r peers h =
    grind
      (arith, length-take 1 (drop (r % length peers) peers), length-drop (r % length peers) peers)

abbrev Halved : World → ℕ → Selection → Type 0
Halved w c s =
    ((s.peers ≡ []) × (s.bundle ≡ none) × (remaining s ≡ some c))
    ⊎ ((b : Bundle) × (w.loaded ≡ ok b)
        × (s.bundle ≡ some (with_spray_block b (c / 2)))
        × (length s.peers ≡ 1)
        × (0 < c / 2)
        × (remaining s ≡ some (c - c / 2)))

select_binary_spray-Halved :
    (w : World) (d : BundleDescriptor) (es : List Effect) (c : ℕ) (peers : List Sender)
    (l : Result Bundle)
    → w.loaded ≡ l
    → get_spray_copies d ≡ some c
    → 1 < c
    → 0 < length peers
    → Halved w c (select_binary_spray w d es c peers)
unfolding select_binary_spray retained_copies
select_binary_spray-Halved w d es c peers (err e) loaded known many some_peers =
    rw (loaded, select_binary_spray) (inl (refl, refl, known))
select_binary_spray-Halved w d es c peers (ok b) loaded known many some_peers =
    let kept : retained_copies c ≡ c - c / 2 = ground arith in
    rw (loaded, select_binary_spray)
      (inr (
        b,
        refl,
        refl,
        length-pick w.random peers some_peers,
        omega arith,
        get-set_spray_copies w d (retained_copies c) ∙ ap (λ (n : ℕ). some n) kept,
      ))

select_with-binary :
    (router : SprayAndWait) (w : World) (d : BundleDescriptor) (es : List Effect) (c : ℕ)
    (peers : List Sender)
    → router.binary ≡ true
    → get_spray_copies d ≡ some c
    → Halved w c (select_with router w d es c peers)
unfolding select_with
select_with-binary router w d es c peers binary known =
    let unchanged : Halved w c (nobody d es) = inl (refl, refl, known) in
    if-cases (Halved w c) (not router.binary && not (ltb 0 c)) _ _ (λ _. unchanged)
      λ _.
        if-cases (Halved w c) (router.binary && not (ltb 1 c)) _ _ (λ _. unchanged)
          λ many.
            if-cases (Halved w c) (not (ltb 0 (length (filter_peers d peers)))) _ _ (λ _. unchanged)
              λ found.
                if-cases (Halved w c) router.binary _ _
                  (λ _.
                    select_binary_spray-Halved w d es c (filter_peers d peers) w.loaded refl known
                      (ground arith) (ground arith))
                  (λ basic. cc)

select_peers_binary :
    (router : SprayAndWait) (w : World) (d : BundleDescriptor) (c : ℕ) (peers : List Sender)
    → router.binary ≡ true
    → get_spray_copies d ≡ some c
    → Halved w c (select_peers router w d peers)
unfolding select_peers
select_peers_binary router w d c peers binary known =
    rw (known, select_saved) (select_with-binary router w d [] c peers binary known)

-- A bundle in which a block with some copies has taken the place of the BinarySprayBlock.
abbrev pub Carries : ℕ → Bundle → Bundle → Type 0
Carries copies b sent =
    (sent.primary_block ≡ b.primary_block)
    × (sent.payload ≡ b.payload)
    × ((n : ℕ) × Permᴰ sent.extension_blocks
          (new_canonical_block n 0 (binary_spray_block copies) ∷ other_blocks b)
        × (is_taken n (block_numbers (other_blocks b)) ≡ false))

-- In binary mode with `c` copies left, and where a bundle that is loaded has at most one BinarySprayBlock, the
-- first block with its number, a selection takes nobody, changes no bundle and leaves the copies as they
-- are, or it takes one peer and stores the copies less half of them, rounded down and not 0. Then the bundle that
-- it returns is the loaded one with its extension blocks of other types, in some order, and a
-- BinarySprayBlock with that half, under a number that none of the others has.
pub select_peers-binary :
    (router : SprayAndWait) (w : World) (d : BundleDescriptor) (c : ℕ) (peers : List Sender)
    → router.binary ≡ true
    → get_spray_copies d ≡ some c
    → ((b : Bundle) → w.loaded ≡ ok b → HasOneSprayAtMost b)
    → let s = select_peers router w d peers in
      ((s.peers ≡ []) × (s.bundle ≡ none) × (remaining s ≡ some c))
      ⊎ ((b : Bundle) × (sent : Bundle) × (w.loaded ≡ ok b)
          × (s.bundle ≡ some sent)
          × Carries (c / 2) b sent
          × (length s.peers ≡ 1)
          × (0 < c / 2)
          × (remaining s ≡ some (c - c / 2)))
select_peers-binary router w d c peers binary known one =
    elim (select_peers_binary router w d c peers binary known) [
      | inl nobody_taken ↦ inl nobody_taken
      | inr (b, loaded, with_block, taken, half, kept) ↦
          let (primary, payload) = with_spray_block-same b (c / 2) in
          inr (
            b,
            with_spray_block b (c / 2),
            loaded,
            with_block,
            (primary, payload, with_spray_block-Permᴰ b (c / 2) (one b loaded)),
            taken,
            half,
            kept,
          )
    ]
