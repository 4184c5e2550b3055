-- ===== src/Bpv7/Fragment/Total.antt =====
-- Bundle.Fragment halts: every round of its loop moves the offset on.
use ma_sinafadavi_iran.Prelude.{
  ltb→lt, ℕ, zero, suc, ◌+◌, ◌-◌, ◌<◌, ◌≡◌, ◌≢◌, Option, none, some, List, [], ◌∷◌, arith,
  Bool-cases, ltb, length, inl, inr,
}
use ma_sinafadavi_iran.Bpv7.Env.{Env}
use ma_sinafadavi_iran.Bpv7.Outcome.{Outcome, ok, no_fuel}
use ma_sinafadavi_iran.Bpv7.Outcome.Halts.{
  Halts, Halts-ok, Halts-err, Halts-if, Halts-panic, Halts-bind, Halts-bind_ok, Halts-demand,
}
use ma_sinafadavi_iran.Bpv7.Primary.{PrimaryBlock, marshal_primary-Halts}
use ma_sinafadavi_iran.Bpv7.Block.{
  ExtensionBlock, payload_block, CanonicalBlock, marshal_canonical-Halts,
}
use ma_sinafadavi_iran.Bpv7.Bundle.{Bundle}
use ma_sinafadavi_iran.Bpv7.Bundle.Valid.{check_valid-Halts}
use ma_sinafadavi_iran.Bpv7.Fragment.{
  payload_data, payload_of, value_data, fragment_primary_block, block_overhead, blocks_overhead,
  payload_overhead, fragment_extension_blocks_len, checked, fragment_rest, fragment_at,
  fragment_loop, fragment_payload_loop, fragment,
}
use ma_sinafadavi_iran.Bpv7.Fragment.Cover.{fragment_at-IsPiece}

value_data-Halts : (v : ExtensionBlock) → Halts (value_data v)
unfolding value_data
value_data-Halts (payload_block bytes) = Halts-ok _
value_data-Halts _ = Halts-panic

payload_of-Halts : (payload : Option CanonicalBlock) → Halts (payload_of payload)
unfolding payload_of
payload_of-Halts none = Halts-panic
payload_of-Halts (some cb) =
    Halts-bind (value_data cb.value) _ (value_data-Halts _) (λ _. Halts-ok _)

pub payload_data-Halts : (b : Bundle) → Halts (payload_data b)
unfolding payload_data
payload_data-Halts b = payload_of-Halts b.payload

block_overhead-Halts :
    (env : Env) (mtu : ℕ) (eb : CanonicalBlock) → Halts (block_overhead env mtu eb)
unfolding block_overhead
block_overhead-Halts env mtu eb = Halts-bind _ _ (marshal_canonical-Halts env _) (λ _. Halts-ok _)

blocks_overhead-Halts :
    (env : Env) (mtu : ℕ) (ebs : List CanonicalBlock) → Halts (blocks_overhead env mtu ebs)
unfolding blocks_overhead
blocks_overhead-Halts env mtu [] = Halts-ok _
blocks_overhead-Halts env mtu (eb ∷ ebs) =
    Halts-bind (block_overhead env mtu eb) _ (block_overhead-Halts env mtu eb) λ _.
      Halts-bind (blocks_overhead env mtu ebs) _ (blocks_overhead-Halts env mtu ebs)
        (λ _. Halts-ok _)

payload_overhead-Halts :
    (env : Env) (mtu : ℕ) (payload : Option CanonicalBlock)
    → Halts (payload_overhead env mtu payload)
unfolding payload_overhead
payload_overhead-Halts env mtu payload =
    Halts-bind _ _ (marshal_canonical-Halts env _) (λ _. Halts-ok _)

fragment_extension_blocks_len-Halts :
    (env : Env) (b : Bundle) (mtu : ℕ) → Halts (fragment_extension_blocks_len env b mtu)
unfolding fragment_extension_blocks_len
fragment_extension_blocks_len-Halts env b mtu =
    Halts-bind (blocks_overhead env mtu b.extension_blocks) _
      (blocks_overhead-Halts env mtu b.extension_blocks)
      λ _.
        Halts-bind (payload_overhead env mtu b.payload) _ (payload_overhead-Halts env mtu b.payload)
          (λ _. Halts-ok _)

checked-Halts : (env : Env) (now : ℕ) (b : Bundle) → Halts (checked env now b)
unfolding checked
checked-Halts env now b =
    Halts-bind _ _ (check_valid-Halts env now b)
      (λ faults. Halts-bind _ _ (Halts-demand faults) (λ _. Halts-ok _))

module _ (env : Env) (now : ℕ) (b : Bundle) (mtu : ℕ) (cb : CanonicalBlock) (bytes : List ℕ) where
  fragment_rest-Halts :
      (overheads : ℕ × ℕ) (i : ℕ) (primary : PrimaryBlock × ℕ)
      → Halts (fragment_rest env now b mtu cb bytes overheads i primary)
  unfolding fragment_rest
  fragment_rest-Halts (first, others) i (pb, primary) =
      Halts-if _ _ _ (Halts-err _) (Halts-bind _ _ (checked-Halts env now _) (λ _. Halts-ok _))

  fragment_primary_block-Halts :
      (i : ℕ) → Halts (fragment_primary_block env b.primary_block i (length bytes))
  unfolding fragment_primary_block
  fragment_primary_block-Halts i = Halts-bind _ _ (marshal_primary-Halts env _) (λ _. Halts-ok _)

  fragment_at-Halts :
      (overheads : ℕ × ℕ) (i : ℕ) → Halts (fragment_at env now b mtu cb bytes overheads i)
  unfolding fragment_at
  fragment_at-Halts overheads i =
      Halts-bind _ (fragment_rest env now b mtu cb bytes overheads i)
        (fragment_primary_block-Halts i) (fragment_rest-Halts overheads i)

fragment_loop-Halts :
    (round : ℕ → Outcome (Bundle × ℕ)) (len : ℕ)
    → ((i : ℕ) → Halts (round i))
    → ((i : ℕ) (r : Bundle × ℕ) → round i ≡ ok r → 0 < r.1)
    → (fuel i : ℕ) → len - i < fuel
    → Halts (fragment_loop round len fuel i)
unfolding fragment_loop
fragment_loop-Halts round len halts moves zero i h = absurd (omega arith)
fragment_loop-Halts round len halts moves (suc fuel) i h = elim (Bool-cases (ltb i len)) [
  | inl more ↦
      rw (more, fragment_loop)
        (Halts-bind_ok (round i) _ (halts i) λ r e.
          Halts-bind (fragment_loop round len fuel (i + r.1)) _
            (fragment_loop-Halts round len halts moves fuel (i + r.1)
              (omega (arith, moves i r e, ltb→lt i len more)))
            (λ _. Halts-ok _))
  | inr over ↦ rw (over, fragment_loop) (Halts-ok [])
]

fragment_payload_loop-Halts :
    (env : Env) (now : ℕ) (b : Bundle) (mtu : ℕ) (payload : CanonicalBlock × List ℕ)
    → Halts (fragment_payload_loop env now b mtu payload)
unfolding fragment_payload_loop
fragment_payload_loop-Halts env now b mtu (cb, bytes) =
    Halts-bind (fragment_extension_blocks_len env b mtu) _
      (fragment_extension_blocks_len-Halts env b mtu)
      λ overheads.
        fragment_loop-Halts (fragment_at env now b mtu cb bytes overheads) (length bytes)
          (fragment_at-Halts env now b mtu cb bytes overheads)
          (λ i r e. (fragment_at-IsPiece env now b mtu cb bytes overheads i {r = r} e).advances)
          (suc (length bytes)) 0 (omega arith)

-- `fragment` ends: its loop never runs out of the fuel that it is given, for every bundle and MTU.
pub fragment_halts : (env : Env) (now : ℕ) (b : Bundle) (mtu : ℕ) → fragment env now b mtu ≢ no_fuel
unfolding fragment
fragment_halts env now b mtu =
    (Halts-if _ _ _ (Halts-err _) (
      Halts-bind (payload_data b) _ (payload_data-Halts b) λ payload.
        Halts-bind (fragment_payload_loop env now b mtu payload) _
          (fragment_payload_loop-Halts env now b mtu payload) (λ _. Halts-ok _))).halts
