-- ===== src/Bpv7/Decode/Fields.antt =====
-- The reads that several decoders of dtnd7-go/pkg/bpv7 share: an array of two numbers, as in
-- CreationTimestamp.UnmarshalCbor, the checks on what was read, and the CRC at the end of a block.
use ma_sinafadavi_iran.Prelude.{
  ℕ, ◌-◌, ◌≡◌, refl, Bool, true, false, List, [], ◌∷◌, ◌++◌, if◌then◌else◌, arith, length, take,
  length-append,
}
use ma_sinafadavi_iran.Bpv7.Env.{Env}
use ma_sinafadavi_iran.Bpv7.Outcome.{Error, Outcome, ok, err, invalid_crc, ◌>>=◌}
use ma_sinafadavi_iran.Bpv7.Outcome.Halts.{Halts, Halts-ok, Halts-err}
use ma_sinafadavi_iran.Bpv7.Crc.{calculate_crc_buff, calculate_crc_buff-Halts}
use ma_sinafadavi_iran.Bpv7.Time.{CreationTimestamp}
use ma_sinafadavi_iran.Bpv7.Decode.{Reads, Reader, bytes_equal, bytes_equal_iff, consumed}
use ma_sinafadavi_iran.Bpv7.Decode.Laws.{Inverse, Progress}
use ma_sinafadavi_iran.Bpv7.Decode.Within.{Advances, within_rules, Within-step}
use ma_sinafadavi_iran.Bpv7.Decode.Endpoint.{expect_length, expect_length-Advances}

-- `else if !b { return e }`
unfoldable pub require : Bool → Error → Outcome (Unit {0})
require true e = ok tt
require false e = err e

pub require-Halts : (b : Bool) (e : Error) → Halts (require b e)
unfolding require
require-Halts true e = Halts-ok _
require-Halts false e = Halts-err _

-- CreationTimestamp.UnmarshalCbor
unfoldable pub unmarshal_timestamp : Reader → Reads CreationTimestamp
unmarshal_timestamp reader input = do
  (_, r) ← expect_length reader 2 input
  (time, r) ← reader.read_uint r
  (number, r) ← reader.read_uint r
  ok (record { dtn_time = time; sequence_number = number }, r)

-- The CRC at the end of a block is compared with that of the bytes in front of it.
unfoldable pub read_crc : Env → Reader → List ℕ → ℕ → Reads (List ℕ)
read_crc env reader buff crc_type input = do
  calculated ← calculate_crc_buff env buff crc_type
  (crc, r) ← reader.read_byte_string input
  (if bytes_equal calculated crc then ok (crc, r) else err (invalid_crc crc calculated))

pub bytes_equal_refl : (bytes : List ℕ) → bytes_equal bytes bytes ≡ true
bytes_equal_refl bytes = (bytes_equal_iff bytes bytes).1 refl

pub take-length_append : (xs ys : List ℕ) → take (length xs) (xs ++ ys) ≡ xs
take-length_append [] ys = refl
take-length_append (x ∷ xs) ys = ground (arith, take-length_append xs ys)

pub consumed-append : (xs ys : List ℕ) → consumed (xs ++ ys) ys ≡ xs
unfolding consumed
consumed-append xs ys =
    let len : length (xs ++ ys) - length ys ≡ length xs = omega (arith, length-append xs ys) in
    rw len (take-length_append xs ys)

module _ (env : Env) (reader : Reader) (inverse : Inverse env reader) where
  pub read_crc-calculate_crc_buff :
      (buff crc rest : List ℕ) (crc_type : ℕ)
      → calculate_crc_buff env buff crc_type ≡ ok crc
      → read_crc env reader buff crc_type (env.write_byte_string crc ++ rest) ≡ ok (crc, rest)
  unfolding read_crc
  read_crc-calculate_crc_buff buff crc rest crc_type h =
      simp (h, inverse.read_byte_string-write_byte_string, bytes_equal_refl)

module _ (env : Env) (reader : Reader) (progress : Progress reader) where
  pub read_crc-Advances :
      (buff : List ℕ) (crc_type : ℕ) → Advances (read_crc env reader buff crc_type)
  unfolding read_crc
  read_crc-Advances buff crc_type limit input h =
      search
        (within_rules, Within-step, calculate_crc_buff-Halts, progress.read_byte_string-Advances)

  pub unmarshal_timestamp-Advances : Advances (unmarshal_timestamp reader)
  unfolding unmarshal_timestamp
  unmarshal_timestamp-Advances limit input h =
      search (within_rules, expect_length-Advances, progress.read_uint-Advances)
