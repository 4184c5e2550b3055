-- ===== src/Bpv7/Bundle.antt =====
-- dtnd7-go/pkg/bpv7/bundle.go and canonical_block_sort.go: a bundle and its block operations.
pub mod Valid
pub mod Numbers
pub mod Types
use ma_sinafadavi_iran.Prelude.{
  ℕ, zero, suc, ◌+◌, ◌++◌, Bool, true, false, not, ◌&&◌, ◌||◌, Option, none, some, ◌⊎◌, inl, inr,
  List, [], ◌∷◌, map, nat_beq, ltb, if◌then◌else◌, length, any, select,
}
use ma_sinafadavi_iran.Bpv7.Env.{Env}
use ma_sinafadavi_iran.Bpv7.Outcome.{
  Fault, payload_status_report, block_number_repeated, no_block, several_blocks, no_bundle_age,
  lifetime_exceeded, Outcome, ok, err, panic, invalid, fault_unless, ◌>>=◌,
}
use ma_sinafadavi_iran.Bpv7.Flags.{
  has, is_fragment, administrative_record_payload, status_report_block,
}
use ma_sinafadavi_iran.Bpv7.Endpoint.{EndpointId}
use ma_sinafadavi_iran.Bpv7.Time.{CreationTimestamp, is_zero_time, now_after}
use ma_sinafadavi_iran.Bpv7.Primary.{PrimaryBlock, primary_faults}
use ma_sinafadavi_iran.Bpv7.Block.{
  ExtensionBlock, payload_block, previous_node_block, bundle_age_block, hop_count_block,
  CanonicalBlock, type_code, block_type_code, canonical_faults, type_payload, type_bundle_age,
  type_previous_node, type_hop_count,
}

-- `none` is the zero CanonicalBlock, whose Value is nil.
pub record Bundle : Type 0 where
  pub primary_block : PrimaryBlock
  pub extension_blocks : List CanonicalBlock
  pub payload : Option CanonicalBlock

-- canonicalBlockNumberSort.Less
pub less : CanonicalBlock → CanonicalBlock → Bool
less a b =
    if nat_beq a.block_number type_payload
    then false
    else if nat_beq b.block_number type_payload
    then true
    else ltb a.block_number b.block_number

pub insert_block : CanonicalBlock → List CanonicalBlock → List CanonicalBlock
insert_block b [] = b ∷ []
insert_block b (c ∷ cs) = let rest = insert_block b cs in if less c b then c ∷ rest else b ∷ c ∷ cs

-- sort.Sort on the blocks. Where no block number occurs twice there is one sorted order.
pub sort_blocks : List CanonicalBlock → List CanonicalBlock
unfolding less insert_block
sort_blocks [] = []
sort_blocks (b ∷ bs) = insert_block b (sort_blocks bs)

unfoldable pub must_new_bundle : PrimaryBlock → List CanonicalBlock → Option CanonicalBlock → Bundle
unfolding sort_blocks
must_new_bundle primary extensions payload = record {
  primary_block = primary;
  extension_blocks = sort_blocks extensions;
  payload = payload;
}

-- The blocks of a type, and the error that there is none as the empty list.
unfoldable pub extension_blocks_by_type : Bundle → ℕ → List CanonicalBlock
unfolding type_code
extension_blocks_by_type b block_type =
    select (λ cb. nat_beq (type_code cb) block_type) b.extension_blocks

unfoldable pub only_block : ℕ → List CanonicalBlock → CanonicalBlock ⊎ Fault
only_block block_type [] = inr (no_block block_type)
only_block block_type (cb ∷ []) = inl cb
only_block block_type cbs = inr (several_blocks (length cbs) block_type)

unfoldable pub extension_block_by_type : Bundle → ℕ → CanonicalBlock ⊎ Fault
unfolding only_block extension_blocks_by_type
extension_block_by_type b block_type = only_block block_type (extension_blocks_by_type b block_type)

unfoldable pub has_extension_block : Bundle → ℕ → Bool
unfolding extension_blocks_by_type
has_extension_block b block_type = not (nat_beq (length (extension_blocks_by_type b block_type)) 0)

-- The search of AddExtensionBlock for the first number from `n` on that no block has.
pub free_number : ℕ → ℕ → List ℕ → ℕ
free_number zero n numbers = n
free_number (suc fuel) n numbers =
    let rest = free_number fuel (n + 1) numbers in
    if any (λ number. nat_beq n number) numbers then rest else n

unfoldable pub block_numbers : List CanonicalBlock → List ℕ
block_numbers = map (λ cb. cb.block_number)

unfoldable pub add_extension_block : Bundle → CanonicalBlock → Bundle
unfolding free_number sort_blocks block_numbers block_type_code
add_extension_block b block = record b {
  extension_blocks =
      sort_blocks (b.extension_blocks ++ record block { block_number = number } ∷ []);
}
  where
    numbers : List ℕ
    numbers = block_numbers b.extension_blocks

    first : ℕ
    first = if nat_beq (block_type_code block.value) type_payload then 1 else 2

    number : ℕ
    number = free_number (suc (length numbers)) first numbers

unfoldable pub get_by_number : ℕ → List CanonicalBlock → Option CanonicalBlock
get_by_number n [] = none
get_by_number n (cb ∷ cbs) = if nat_beq cb.block_number n then some cb else get_by_number n cbs

-- GetExtensionBlockByBlockNumber
unfoldable pub get_extension_block : Bundle → ℕ → Option CanonicalBlock
unfolding get_by_number
get_extension_block b n = get_by_number n b.extension_blocks

unfoldable pub remove_by_number : ℕ → List CanonicalBlock → List CanonicalBlock
remove_by_number n [] = []
remove_by_number n (cb ∷ cbs) =
    let rest = remove_by_number n cbs in if nat_beq cb.block_number n then cbs else cb ∷ rest

-- RemoveExtensionBlockByBlockNumber
unfoldable pub remove_extension_block : Bundle → ℕ → Bundle
unfolding remove_by_number
remove_extension_block b n = record b { extension_blocks = remove_by_number n b.extension_blocks }
