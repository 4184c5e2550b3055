-- ===== src/Bpv7/Bundle/Valid.antt =====
-- dtnd7-go/pkg/bpv7/bundle.go: IsLifetimeExceeded and CheckValid. `now` is time.Now() in nanoseconds
-- since 1970.
use ma_sinafadavi_iran.Prelude.{
  ℕ, ◌++◌, Bool, true, not, ◌||◌, Option, none, some, ◌⊎◌, inl, inr, List, [], ◌∷◌, nat_beq, ltb,
  if◌then◌else◌, any,
}
use ma_sinafadavi_iran.Bpv7.Env.{Env}
use ma_sinafadavi_iran.Bpv7.Outcome.Halts.{Halts, Halts-ok, Halts-if, Halts-panic, Halts-bind}
use ma_sinafadavi_iran.Bpv7.Outcome.{
  Fault, payload_status_report, block_number_repeated, no_bundle_age, lifetime_exceeded, Outcome,
  ok, panic, fault_unless, ◌>>=◌,
}
use ma_sinafadavi_iran.Bpv7.Flags.{has, status_report_block}
use ma_sinafadavi_iran.Bpv7.Time.{is_zero_time, now_after}
use ma_sinafadavi_iran.Bpv7.Primary.{primary_faults}
use ma_sinafadavi_iran.Bpv7.Block.{
  ExtensionBlock, previous_node_block, bundle_age_block, hop_count_block, CanonicalBlock,
  canonical_faults, type_bundle_age, type_previous_node, type_hop_count,
}
use ma_sinafadavi_iran.Bpv7.Bundle.{Bundle, extension_block_by_type, has_extension_block}

-- The type assertion panics on a block of the type's code that is no BundleAgeBlock.
age_exceeds : ℕ → ExtensionBlock → Outcome Bool
age_exceeds lifetime (bundle_age_block ms) = ok (ltb lifetime ms)
age_exceeds lifetime _ = panic

zero_time_exceeded : ℕ → CanonicalBlock ⊎ Fault → Outcome Bool
zero_time_exceeded lifetime (inl block) = age_exceeds lifetime block.value
zero_time_exceeded lifetime (inr fault) = ok true

unfoldable pub is_lifetime_exceeded : ℕ → Bundle → Outcome Bool
unfolding age_exceeds zero_time_exceeded
is_lifetime_exceeded now b =
    if is_zero_time b.primary_block.creation_timestamp
    then zero_time_exceeded b.primary_block.lifetime (extension_block_by_type b type_bundle_age)
    else ok (now_after now b.primary_block.creation_timestamp.dtn_time b.primary_block.lifetime)

found_faults : CanonicalBlock ⊎ Fault → List Fault
found_faults (inl block) = []
found_faults (inr fault) = fault ∷ []

-- CheckContextValid. A block of the bundle whose type occurs once is the one that is found, so the
-- comparison of pointers holds there.
context_faults : Bundle → ExtensionBlock → List Fault
context_faults b (previous_node_block _) =
    found_faults (extension_block_by_type b type_previous_node)
context_faults b (bundle_age_block _) = found_faults (extension_block_by_type b type_bundle_age)
context_faults b (hop_count_block _ _) = found_faults (extension_block_by_type b type_hop_count)
context_faults b _ = []

-- The loop over the extension blocks, with the block numbers that it has met.
number_faults : Bundle → List ℕ → List CanonicalBlock → List Fault
number_faults b seen [] = []
number_faults b seen (cb ∷ cbs) =
    fault_unless (not (any (λ n. nat_beq n cb.block_number) seen))
      (block_number_repeated cb.block_number)
    ++ (context_faults b cb.value ++ number_faults b (cb.block_number ∷ seen) cbs)

blocks_faults : Env → List CanonicalBlock → List Fault
blocks_faults env [] = []
blocks_faults env (cb ∷ cbs) = canonical_faults env cb ++ blocks_faults env cbs

-- CheckValid of a block with a nil value panics.
payload_faults : Env → Option CanonicalBlock → Outcome (List Fault)
payload_faults env none = panic
payload_faults env (some cb) = ok (
    canonical_faults env cb
    ++ fault_unless (not (has cb.block_control_flags status_report_block)) payload_status_report)

-- Bundle.CheckValid
unfoldable pub check_valid : Env → ℕ → Bundle → Outcome (List Fault)
unfolding found_faults context_faults number_faults blocks_faults payload_faults
    is_lifetime_exceeded
check_valid env now b = do
  payload ← payload_faults env b.payload
  exceeded ← is_lifetime_exceeded now b
  ok (
      primary_faults env b.primary_block
      ++ (blocks_faults env b.extension_blocks
          ++ (payload
              ++ (number_faults b [] b.extension_blocks
                  ++ (fault_unless
                        (not (is_zero_time b.primary_block.creation_timestamp)
                          || has_extension_block b type_bundle_age)
                        no_bundle_age
                      ++ fault_unless (not exceeded) lifetime_exceeded)))))

age_exceeds-Halts : (lifetime : ℕ) (v : ExtensionBlock) → Halts (age_exceeds lifetime v)
unfolding age_exceeds
age_exceeds-Halts lifetime (bundle_age_block ms) = Halts-ok _
age_exceeds-Halts lifetime _ = Halts-panic

zero_time_exceeded-Halts :
    (lifetime : ℕ) (found : CanonicalBlock ⊎ Fault) → Halts (zero_time_exceeded lifetime found)
unfolding zero_time_exceeded
zero_time_exceeded-Halts lifetime (inl block) = age_exceeds-Halts lifetime block.value
zero_time_exceeded-Halts lifetime (inr fault) = Halts-ok _

is_lifetime_exceeded-Halts : (now : ℕ) (b : Bundle) → Halts (is_lifetime_exceeded now b)
unfolding is_lifetime_exceeded
is_lifetime_exceeded-Halts now b = Halts-if _ _ _ (zero_time_exceeded-Halts _ _) (Halts-ok _)

payload_faults-Halts :
    (env : Env) (payload : Option CanonicalBlock) → Halts (payload_faults env payload)
unfolding payload_faults
payload_faults-Halts env none = Halts-panic
payload_faults-Halts env (some cb) = Halts-ok _

pub check_valid-Halts : (env : Env) (now : ℕ) (b : Bundle) → Halts (check_valid env now b)
unfolding check_valid
check_valid-Halts env now b =
    Halts-bind (payload_faults env b.payload) _ (payload_faults-Halts env b.payload) λ payload.
      Halts-bind (is_lifetime_exceeded now b) _ (is_lifetime_exceeded-Halts now b) (λ _. Halts-ok _)
