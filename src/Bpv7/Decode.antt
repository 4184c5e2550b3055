-- ===== src/Bpv7/Decode.antt =====
-- What the decoders of package bpv7 take from third parties: the readers of cboring, and what Go's
-- library does with the text of a "dtn" URI. A reader takes the bytes that are left of the input and
-- returns its value with those that are left behind it. They are parameters of every decoder.
pub mod Within
pub mod Laws
pub mod Endpoint
pub mod Fields
pub mod Primary
pub mod Block
pub mod Bundle
pub mod BundleId
pub mod Integrity
pub mod Examples
use ma_sinafadavi_iran.Prelude.{
  ℕ, String, ◌-◌, Bool, true, false, ◌&&◌, Option, List, [], ◌∷◌, nat_beq, length, take, ◌≡◌, ◌↔◌,
  arith,
}
use ma_sinafadavi_iran.Bpv7.Outcome.{Outcome}

abbrev pub Reads : Type 0 → Type 0
Reads A = List ℕ → Outcome (A × List ℕ)

pub record Reader : Type 0 where
  -- the major types cboring.UInt and cboring.TextString
  pub uint : ℕ
  pub text_string : ℕ
  -- the bytes cboring.IndefiniteArray and cboring.BreakCode
  pub indefinite_array : ℕ
  pub break_code : ℕ
  pub read_uint : Reads ℕ
  pub read_boolean : Reads Bool
  pub read_array_length : Reads ℕ
  pub read_byte_string : Reads (List ℕ)
  pub read_byte_string_len : Reads ℕ
  pub read_majors : Reads (ℕ × ℕ)
  pub read_raw_bytes : ℕ → Reads (List ℕ)
  pub read_expect : ℕ → Reads (Unit {0})
  -- the largest lengths that make takes for slices of status items and of announcements
  pub max_items : ℕ
  pub max_announcements : ℕ
  -- the bytes of "none" and of "//" + node + "/" + demux
  pub none_ssp : List ℕ
  pub ssp_bytes : String → String → List ℕ
  -- the parts of strings.SplitN(ssp[2:], "/", 2) of a text that matches "^" + DtnEndpointRegexpSsp + "$"
  pub match_ssp : List ℕ → Option (String × String)

-- bytes.Equal
unfoldable pub bytes_equal : List ℕ → List ℕ → Bool
bytes_equal [] [] = true
bytes_equal (a ∷ s) (b ∷ t) = nat_beq a b && bytes_equal s t
bytes_equal _ _ = false

pub bytes_equal_iff : (a b : List ℕ) → (bytes_equal a b ≡ true) ↔ (a ≡ b)
unfolding bytes_equal
bytes_equal_iff [] [] = ground arith
bytes_equal_iff (a ∷ s) (b ∷ t) = ground (arith, bytes_equal_iff s t)
bytes_equal_iff [] (b ∷ t) = ground arith
bytes_equal_iff (a ∷ s) [] = ground arith

-- What an io.TeeReader has copied when `rest` is left of the input.
unfoldable pub consumed : List ℕ → List ℕ → List ℕ
consumed input rest = take (length input - length rest) input
