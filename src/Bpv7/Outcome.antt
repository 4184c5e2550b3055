-- ===== src/Bpv7/Outcome.antt =====
-- What a call of package bpv7 ends in: a value, an error, a run-time panic of Go, or the end of the
-- fuel that a modelled loop was given. A `Fault` is one entry of the multierror that a CheckValid
-- method returns; its nil is the empty list.
pub mod Halts
use ma_sinafadavi_iran.Prelude.{ℕ, Bool, true, false, ◌≡◌, refl, List, [], ◌∷◌}

pub data Fault : Type 0 where
  wrong_version : ℕ → Fault
  fragment_and_must_not_fragment : Fault
  record_with_status_request : Fault
  endpoint_type_nil malformed_ssp ipn_number_zero : Fault
  anonymous_source_flags : Fault
  hop_count_exceeded : Fault
  payload_block_number : ℕ → Fault
  payload_status_report : Fault
  block_number_repeated : ℕ → Fault
  no_block : ℕ → Fault
  several_blocks : ℕ → ℕ → Fault
  no_bundle_age : Fault
  lifetime_exceeded : Fault

pub data Error : Type 0 where
  invalid : List Fault → Error
  unknown_crc_type : ℕ → Error
  fragmentation_forbidden : Error
  overhead_exceeds_mtu : ℕ → Error
  no_fragments : Error
  not_a_fragment : Error
  fragment_gap : ℕ → ℕ → Error
  length_mismatch : ℕ → ℕ → Error
  -- cboring.FlagBreakCode, and each other error of a read from the input
  flag_break_code unreadable : Error
  wrong_array_length wrong_version_read unknown_scheme wrong_major : ℕ → Error
  ssp_mismatch ssp_is_none : Error
  hop_count_field : ℕ → Error
  invalid_crc : List ℕ → List ℕ → Error
  wrong_item_length unknown_record : ℕ → Error
  no_administrative_record : Error
  unknown_cla_type : ℕ → Error
  -- fmt.Errorf("...: %v", err)
  wrapped : Error → Error

pub data Outcome {ℓ} (A : Type ℓ) : Type ℓ where
  panic no_fuel : Outcome A
  err : Error → Outcome A
  ok : A → Outcome A

infixl 5 ◌>>=◌ ◌>>◌
abbrev pub ◌>>=◌ {ℓ κ} : {A : Type ℓ} {B : Type κ} → Outcome A → (A → Outcome B) → Outcome B
no_fuel >>= next = no_fuel
panic >>= next = panic
err e >>= next = err e
ok a >>= next = next a

abbrev pub ◌>>◌ {ℓ} : {B : Type ℓ} → Outcome (Unit {0}) → Outcome B → Outcome B
first >> second = first >>= λ _. second

-- The error of a call, wrapped in a text of the caller.
abbrev pub wrap {ℓ} : {A : Type ℓ} → Outcome A → Outcome A
wrap (err e) = err (wrapped e)
wrap (ok a) = ok a
wrap no_fuel = no_fuel
wrap panic = panic

-- `if err := x.CheckValid(); err != nil { return err }`
abbrev pub demand : List Fault → Outcome (Unit {0})
demand [] = ok tt
demand (f ∷ fs) = err (invalid (f ∷ fs))

abbrev pub fault_unless : Bool → Fault → List Fault
fault_unless true f = []
fault_unless false f = f ∷ []

pub >>=-eq-ok {ℓ κ} :
    {A : Type ℓ} {B : Type κ} (m : Outcome A) (next : A → Outcome B) {b : B}
    → (m >>= next) ≡ ok b
    → (a : A) × (m ≡ ok a) × (next a ≡ ok b)
>>=-eq-ok (ok a) next h = (a, refl, h)
>>=-eq-ok (err e) next h = cc
>>=-eq-ok panic next h = cc
>>=-eq-ok no_fuel next h = cc

pub wrap-eq-ok {ℓ} : {A : Type ℓ} (m : Outcome A) {a : A} → wrap m ≡ ok a → m ≡ ok a
wrap-eq-ok (ok b) h = h
wrap-eq-ok (err e) h = cc
wrap-eq-ok panic h = cc
wrap-eq-ok no_fuel h = cc
