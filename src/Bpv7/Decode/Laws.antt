-- ===== src/Bpv7/Decode/Laws.antt =====
-- What the decoders rely on of cboring: its readers take back what its writers wrote, and they return,
-- leaving no more of the input than there was.
use ma_sinafadavi_iran.Prelude.{
  ℕ, Bool, String, ◌^◌, ◌<◌, ◌≡◌, ◌≢◌, List, [], ◌∷◌, append-nil, ◌++◌, length,
}
use ma_sinafadavi_iran.Bpv7.Env.{Env}
use ma_sinafadavi_iran.Bpv7.Outcome.{ok, err, flag_break_code}
use ma_sinafadavi_iran.Bpv7.Decode.{Reader}
use ma_sinafadavi_iran.Bpv7.Decode.Within.{Advances, StrictlyAdvances}

pub record Inverse (env : Env) (reader : Reader) : Type 0 where
  pub uint-text_string : reader.uint ≢ reader.text_string
  pub read_uint-write_uint :
      (n : ℕ)
      → n < 2 ^ 64
      → (rest : List ℕ) → reader.read_uint (env.write_uint n ++ rest) ≡ ok (n, rest)
  pub read_boolean-write_boolean :
      (b : Bool) (rest : List ℕ) → reader.read_boolean (env.write_boolean b ++ rest) ≡ ok (b, rest)
  pub read_array_length-write_array_length :
      (n : ℕ)
      → n < 2 ^ 64
      → (rest : List ℕ) → reader.read_array_length (env.write_array_length n ++ rest) ≡ ok (n, rest)
  pub read_byte_string-write_byte_string :
      (bytes rest : List ℕ)
      → reader.read_byte_string (env.write_byte_string bytes ++ rest) ≡ ok (bytes, rest)
  pub read_majors-write_uint :
      (n : ℕ)
      → n < 2 ^ 64
      → (rest : List ℕ)
      → reader.read_majors (env.write_uint n ++ rest) ≡ ok ((reader.uint, n), rest)
  pub read_majors-write_ssp :
      (node demux : String) (rest : List ℕ)
      → reader.read_majors (env.write_ssp node demux ++ rest)
        ≡ ok (
          (reader.text_string, length (reader.ssp_bytes node demux)),
          reader.ssp_bytes node demux ++ rest,
        )
  pub read_raw_bytes-length :
      (bytes rest : List ℕ)
      → reader.read_raw_bytes (length bytes) (bytes ++ rest) ≡ ok (bytes, rest)
  pub read_expect-here :
      (byte : ℕ) (rest : List ℕ) → reader.read_expect byte (byte ∷ rest) ≡ ok (tt, rest)
  pub read_array_length-break_code :
      (rest : List ℕ) → reader.read_array_length (reader.break_code ∷ rest) ≡ err flag_break_code
  -- "//" + node + "/" + demux is not "none"
  pub ssp_bytes-none_ssp : (node demux : String) → reader.ssp_bytes node demux ≢ reader.none_ssp

-- A number that is all there is.
pub read_uint-whole :
    (env : Env) (reader : Reader)
    → Inverse env reader
    → (n : ℕ) → n < 2 ^ 64
    → reader.read_uint (env.write_uint n) ≡ ok (n, [])
read_uint-whole env reader inverse n h =
    let read = inverse.read_uint-write_uint n h [] in rw append-nil at read

pub record Progress (reader : Reader) : Type 0 where
  pub read_uint-Advances : Advances reader.read_uint
  pub read_boolean-Advances : Advances reader.read_boolean
  pub read_byte_string-Advances : Advances reader.read_byte_string
  pub read_majors-Advances : Advances reader.read_majors
  pub read_raw_bytes-Advances : (n : ℕ) → Advances (reader.read_raw_bytes n)
  pub read_expect-Advances : (byte : ℕ) → Advances (reader.read_expect byte)
  -- The head of an array is a byte at least.
  pub read_array_length-StrictlyAdvances : StrictlyAdvances reader.read_array_length
