-- ===== src/Routing/Spray.antt =====
-- dtnd7-go/pkg/routing/spray_and_wait.go. What the code gets from elsewhere is an argument: the
-- outcome of the database's update, the bundle that Load returns, and the number of rand.Intn.
pub mod Block
pub mod Copies
pub mod Aliasing
pub mod Received
use ma_sinafadavi_iran.Prelude.{
  ℕ, ◌+◌, ◌-◌, ◌/◌, ◌%◌, String, ◌++◌, Bool, not, ◌&&◌, ◌⊎◌, inl, inr, Option, none, some, List, [],
  ◌∷◌, nat_beq, ltb, leb, if◌then◌else◌, length, take, drop, get_elem?,
}
use ma_sinafadavi_iran.Bpv7.Outcome.{Outcome, Fault, ok, panic, ◌>>=◌}
use ma_sinafadavi_iran.Bpv7.Block.{
  binary_spray_block, CanonicalBlock, new_canonical_block, type_binary_spray, type_code,
}
use ma_sinafadavi_iran.Bpv7.Bundle.{
  Bundle, add_extension_block, extension_block_by_type, remove_by_number,
}
use ma_sinafadavi_iran.Store.Descriptor.{
  BundleDescriptor, Result, ok as stored, err, Effect, get_misc_data, set_misc_data,
}
use ma_sinafadavi_iran.Routing.Peers.{Sender, filter_peers}

abbrev pub spray_bundle_copies_key : String
spray_bundle_copies_key = "spray_and_wait/copies"

pub record SprayAndWait : Type 0 where
  pub copies : ℕ
  pub binary : Bool

-- The outcomes of the calls that leave the program.
pub record World : Type 0 where
  pub written : Result (Unit {0})
  pub loaded : Result Bundle
  pub random : ℕ

-- A selection: the descriptor, what was sent to the store, the peers, and the changed bundle.
pub record Selection : Type 0 where
  pub descriptor : BundleDescriptor
  pub effects : List Effect
  pub peers : List Sender
  pub bundle : Option Bundle

-- setSprayCopies: an error is only logged.
unfoldable pub set_spray_copies : World → BundleDescriptor → ℕ → BundleDescriptor × List Effect
unfolding set_misc_data
set_spray_copies w d copies =
    let r = set_misc_data w.written d spray_bundle_copies_key copies in (r.descriptor, r.effects)

-- getSprayCopies
unfoldable pub get_spray_copies : BundleDescriptor → Option ℕ
unfolding get_misc_data
get_spray_copies d = get_misc_data d spray_bundle_copies_key

unfoldable pub notify_new_bundle :
    SprayAndWait → World → BundleDescriptor → BundleDescriptor × List Effect
unfolding set_spray_copies
notify_new_bundle router w d = set_spray_copies w d router.copies

-- The type assertion on the block that was found.
received_copies : CanonicalBlock ⊎ Fault → Outcome ℕ
received_copies (inr fault) = ok 0
received_copies (inl block) = elim (block.value) [
  | binary_spray_block copies ↦ ok copies
  | _ ↦ panic
]

unfoldable pub notify_received_bundle :
    World → BundleDescriptor → Bundle → Outcome (BundleDescriptor × List Effect)
unfolding received_copies set_spray_copies extension_block_by_type
notify_received_bundle w d b =
    received_copies (extension_block_by_type b type_binary_spray) >>= λ copies.
    ok (set_spray_copies w d copies)

-- Where the pointers of ExtensionBlocksByType point to, in the array behind the slice.
pub positions : ℕ → ℕ → List CanonicalBlock → List ℕ
positions code i [] = []
positions code i (cb ∷ cbs) =
    let rest = positions code (i + 1) cbs in if nat_beq (type_code cb) code then i ∷ rest else rest

-- The loop that removes the blocks pointed to. A removal moves the later blocks of the slice `live`
-- down in the array, and leaves the last one behind it, in `stale`; the pointers stay.
pub remove_pointed : List ℕ → List CanonicalBlock → List CanonicalBlock → List CanonicalBlock
remove_pointed [] live stale = live
remove_pointed (i ∷ is) live stale = elim (get_elem? (live ++ stale) i) [
  | none ↦ live
  | some block ↦
      let live' = remove_by_number block.block_number live in
      remove_pointed is live' (drop (length live') live ++ stale)
]

-- The loaded bundle with its BinarySprayBlocks replaced by a new one.
pub with_spray_block : Bundle → ℕ → Bundle
unfolding positions remove_pointed remove_by_number type_code
with_spray_block b copies =
    let pointers = positions type_binary_spray 0 b.extension_blocks in
    let rest = record b { extension_blocks = remove_pointed pointers b.extension_blocks [] } in
    add_extension_block rest (new_canonical_block 0 0 (binary_spray_block copies))

nobody : BundleDescriptor → List Effect → Selection
nobody d effects = record { descriptor = d; effects = effects; peers = []; bundle = none }

-- selectBasicSpray
pub select_basic_spray : World → BundleDescriptor → List Effect → ℕ → List Sender → Selection
unfolding set_spray_copies
select_basic_spray w d effects copies peers =
    let all = leb (length peers) copies in
    let (d', effects') = set_spray_copies w d (if all then copies - length peers else 0) in
    record {
      descriptor = d';
      effects = effects ++ effects';
      peers = if all then peers else take copies peers;
      bundle = none;
    }

pub retained_copies : ℕ → ℕ
retained_copies copies = copies / 2 + (if nat_beq (copies % 2) 0 then 0 else 1)

-- selectBinarySpray
pub select_binary_spray : World → BundleDescriptor → List Effect → ℕ → List Sender → Selection
unfolding nobody retained_copies with_spray_block set_spray_copies
select_binary_spray w d effects copies peers = elim (w.loaded) [
  | err _ ↦ nobody d effects
  | stored b ↦
      let (d', effects') = set_spray_copies w d (retained_copies copies) in
      record {
        descriptor = d';
        effects = effects ++ effects';
        peers = take 1 (drop (w.random % length peers) peers);
        bundle = some (with_spray_block b (copies / 2));
      }
]

-- The rest of SelectPeersForForwarding, once the number of copies is known.
pub select_with :
    SprayAndWait → World → BundleDescriptor → List Effect → ℕ → List Sender → Selection
unfolding nobody select_basic_spray select_binary_spray filter_peers
select_with router w d effects copies peers =
    let suitable = filter_peers d peers in
    if not router.binary && not (ltb 0 copies)
    then nobody d effects
    else if router.binary && not (ltb 1 copies)
    then nobody d effects
    else if not (ltb 0 (length suitable))
    then nobody d effects
    else if router.binary
    then select_binary_spray w d effects copies suitable
    else select_basic_spray w d effects copies suitable

select_saved : SprayAndWait → World → BundleDescriptor → Option ℕ → List Sender → Selection
unfolding select_with set_spray_copies
select_saved router w d (some copies) peers = select_with router w d [] copies peers
select_saved router w d none peers =
    let (d', effects) = set_spray_copies w d router.copies in
    select_with router w d' effects router.copies peers

-- SprayAndWait.SelectPeersForForwarding
unfoldable pub select_peers : SprayAndWait → World → BundleDescriptor → List Sender → Selection
unfolding select_saved get_spray_copies
select_peers router w d peers = select_saved router w d (get_spray_copies d) peers
