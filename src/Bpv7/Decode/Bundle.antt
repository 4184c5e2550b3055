-- ===== src/Bpv7/Decode/Bundle.antt =====
-- dtnd7-go/pkg/bpv7/bundle.go: Bundle.MarshalCbor, UnmarshalCbor and ParseBundle.
pub mod RoundTrip
use ma_sinafadavi_iran.Prelude.{
  ℕ, zero, suc, ◌+◌, ◌≤◌, ◌<◌, ◌≡◌, ◌≢◌, refl, Bool, true, false, Option, none, some, List, [], ◌∷◌,
  ◌++◌, nat_beq, length, if◌then◌else◌, arith,
}
use ma_sinafadavi_iran.Bpv7.Env.{Env}
use ma_sinafadavi_iran.Bpv7.Outcome.{
  Error, flag_break_code, wrapped, Outcome, ok, err, panic, no_fuel, wrap, demand, ◌>>=◌, ◌>>◌,
}
use ma_sinafadavi_iran.Bpv7.Outcome.Halts.{
  Halts, Halts-ok, Halts-err, Halts-panic, Halts-bind, Halts-bind_ok, Halts-demand, halts_rules,
}
use ma_sinafadavi_iran.Bpv7.Primary.{PrimaryBlock, marshal_primary}
use ma_sinafadavi_iran.Bpv7.Block.{CanonicalBlock, type_code, type_payload, marshal_canonical}
use ma_sinafadavi_iran.Bpv7.Bundle.{Bundle}
use ma_sinafadavi_iran.Bpv7.Bundle.Valid.{check_valid, check_valid-Halts}
use ma_sinafadavi_iran.Bpv7.Decode.{Reads, Reader}
use ma_sinafadavi_iran.Bpv7.Decode.Laws.{Progress}
use ma_sinafadavi_iran.Bpv7.Decode.Within.{
  Within, value_within, error_within, panic_within, Within-Halts, Within-wrap,
}
use ma_sinafadavi_iran.Bpv7.Decode.Primary.{unmarshal_primary, unmarshal_primary-StrictlyAdvances}
use ma_sinafadavi_iran.Bpv7.Decode.Block.{unmarshal_canonical, unmarshal_canonical-StrictlyAdvances}

marshal_blocks : Env → List CanonicalBlock → Outcome (List CanonicalBlock × List ℕ)
marshal_blocks env [] = ok ([], [])
marshal_blocks env (cb ∷ cbs) = do
  (made, bytes) ← wrap (marshal_canonical env cb)
  (rest_made, rest_bytes) ← marshal_blocks env cbs
  ok (made ∷ rest_made, bytes ++ rest_bytes)

-- TypeCode of the zero CanonicalBlock calls a method of a nil value.
marshal_payload : Env → Option CanonicalBlock → Outcome (CanonicalBlock × List ℕ)
marshal_payload env none = panic
marshal_payload env (some cb) = wrap (marshal_canonical env cb)

-- Bundle.MarshalCbor: the bundle, whose blocks remember their CRC, and its bytes.
unfoldable pub marshal_bundle : Env → Reader → Bundle → Outcome (Bundle × List ℕ)
unfolding marshal_blocks marshal_payload
marshal_bundle env reader b = do
  (primary, head) ← wrap (marshal_primary env b.primary_block)
  (blocks, middle) ← marshal_blocks env b.extension_blocks
  (payload, last) ← marshal_payload env b.payload
  ok (
    record { primary_block = primary; extension_blocks = blocks; payload = some payload },
    reader.indefinite_array ∷ (head ++ (middle ++ (last ++ reader.break_code ∷ []))),
  )

-- The extension blocks and the payload block that were read so far.
abbrev pub Parts : Type 0
Parts = List CanonicalBlock × Option CanonicalBlock

unfoldable pub add_block : CanonicalBlock → Parts → Parts
add_block cb parts =
    if nat_beq (type_code cb) type_payload
    then (parts.0, some cb)
    else (parts.0 ++ cb ∷ [], parts.1)

-- The break code ends the loop, in the place of a block's array or in a field behind it.
ended : Parts → Error → Outcome Parts
ended parts flag_break_code = ok parts
ended parts e = err (wrapped e)

-- The loop of UnmarshalCbor.
unfoldable pub read_blocks : Env → Reader → ℕ → Parts → List ℕ → Outcome Parts
unfolding add_block ended
read_blocks env reader zero parts input = no_fuel
read_blocks env reader (suc fuel) parts input = elim (unmarshal_canonical env reader input) [
  | ok (cb, r) ↦ read_blocks env reader fuel (add_block cb parts) r
  | err e ↦ ended parts e
  | panic ↦ panic
  | no_fuel ↦ no_fuel
]

unfoldable pub checked : Env → ℕ → Bundle → Outcome Bundle
checked env now b = do faults ← check_valid env now b; demand faults; ok b

-- Bundle.UnmarshalCbor on an empty bundle, which is ParseBundle. `now` is the clock of CheckValid.
unfoldable pub unmarshal_bundle : Env → Reader → ℕ → List ℕ → Outcome Bundle
unfolding read_blocks checked
unmarshal_bundle env reader now input = do
  (_, r) ← reader.read_expect reader.indefinite_array input
  (primary, r) ← wrap (unmarshal_primary env reader r)
  parts ← read_blocks env reader (suc (length r)) ([], none) r
  checked env now
      (record { primary_block = primary; extension_blocks = parts.0; payload = parts.1 })

ended-Halts : (parts : Parts) (e : Error) → Halts (ended parts e)
unfolding ended
ended-Halts parts flag_break_code = Halts-ok _
ended-Halts parts _ = Halts-err _

checked-Halts : (env : Env) (now : ℕ) (b : Bundle) → Halts (checked env now b)
unfolding checked
checked-Halts env now b = search (halts_rules, check_valid-Halts)

module _ (env : Env) (reader : Reader) (progress : Progress reader) where
  read_round-Halts :
      (fuel : ℕ) (parts : Parts) (m : Outcome (CanonicalBlock × List ℕ))
      → Within fuel m
      → ((q : Parts) (r : List ℕ) → length r < fuel → Halts (read_blocks env reader fuel q r))
      → Halts (elim m [
        | ok (cb, r) ↦ read_blocks env reader fuel (add_block cb parts) r
        | err e ↦ ended parts e
        | panic ↦ panic
        | no_fuel ↦ no_fuel
      ])
  read_round-Halts fuel parts _ (value_within {a} {rest} less) next =
      next (add_block a parts) rest less
  read_round-Halts fuel parts _ (error_within {e}) next = ended-Halts parts e
  read_round-Halts fuel parts _ panic_within next = Halts-panic

  -- Every round takes a byte, so the loop ends within more fuel than there are bytes.
  read_blocks-Halts :
      (fuel : ℕ) (parts : Parts) (input : List ℕ)
      → length input < fuel
      → Halts (read_blocks env reader fuel parts input)
  unfolding read_blocks
  read_blocks-Halts zero parts input h = absurd (omega arith)
  read_blocks-Halts (suc fuel) parts input h =
      read_round-Halts fuel parts (unmarshal_canonical env reader input)
        (unmarshal_canonical-StrictlyAdvances env reader progress fuel input (omega arith))
        (λ q r less. read_blocks-Halts fuel q r less)

  read_expect-Halts : (byte : ℕ) (input : List ℕ) → Halts (reader.read_expect byte input)
  read_expect-Halts byte input =
      Within-Halts _ (progress.read_expect-Advances byte (suc (length input)) input (omega arith))

  unmarshal_primary-Halts : (input : List ℕ) → Halts (wrap (unmarshal_primary env reader input))
  unmarshal_primary-Halts input = Within-Halts _ (
      Within-wrap _
        (unmarshal_primary-StrictlyAdvances env reader progress (length input) input (omega arith)))

  every_block-Halts :
      (parts : Parts) (input : List ℕ)
      → Halts (read_blocks env reader (suc (length input)) parts input)
  every_block-Halts parts input = read_blocks-Halts (suc (length input)) parts input (omega arith)

  -- Decoding a bundle returns on every input.
  pub unmarshal_bundle_halts :
      (now : ℕ) (input : List ℕ) → unmarshal_bundle env reader now input ≢ no_fuel
  unfolding unmarshal_bundle
  unmarshal_bundle_halts now input =
      let ends : Halts (unmarshal_bundle env reader now input) = search (
        Halts-bind, read_expect-Halts, unmarshal_primary-Halts, every_block-Halts, checked-Halts,
      ) in
      ends.halts
