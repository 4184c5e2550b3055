-- ===== src/Bpv7/Env.antt =====
-- What package bpv7 takes from third parties: the byte writers of cboring into a buffer (which
-- cannot fail), the CRC checksums, and Go's regular expression for the part of a "dtn" URI behind
-- its scheme. They are parameters of every definition that uses them.
use ma_sinafadavi_iran.Prelude.{ℕ, String, Bool, List}

pub record Env : Type 0 where
  -- regexp.MustCompile(DtnEndpointRegexpSsp).MatchString("//" + node + "/" + demux)
  pub ssp_matches : String → String → Bool
  pub write_uint : ℕ → List ℕ
  pub write_boolean : Bool → List ℕ
  pub write_array_length : ℕ → List ℕ
  pub write_byte_string_len : ℕ → List ℕ
  pub write_byte_string : List ℕ → List ℕ
  -- WriteTextString of "//" + node + "/" + demux
  pub write_ssp : String → String → List ℕ
  -- crc16.Checksum with the CCITT table and crc32.Checksum with the Castagnoli table
  pub crc16 : List ℕ → ℕ
  pub crc32 : List ℕ → ℕ
