-- ===== src/Bpv7/Decode/Integrity.antt =====
-- The CRC check of PrimaryBlock.UnmarshalCbor and CanonicalBlock.UnmarshalCbor.
use ma_sinafadavi_iran.Prelude.{
  ℕ, ◌≡◌, ap, ◌∙◌, subst, List, ◌++◌, if◌then◌else◌, arith, Bool-cases, inl, inr,
}
use ma_sinafadavi_iran.Bpv7.Env.{Env}
use ma_sinafadavi_iran.Bpv7.Outcome.{ok, err, invalid_crc, ◌>>=◌, >>=-eq-ok}
use ma_sinafadavi_iran.Bpv7.Crc.{calculate_crc_buff}
use ma_sinafadavi_iran.Bpv7.Block.{CanonicalBlock}
use ma_sinafadavi_iran.Bpv7.Decode.{Reader, consumed, bytes_equal, bytes_equal_iff}
use ma_sinafadavi_iran.Bpv7.Decode.Fields.{read_crc, require}
use ma_sinafadavi_iran.Bpv7.Decode.Block.{
  unmarshal_canonical, read_canonical_fields, read_canonical_crc,
}

-- The bytes `r` begin with a CRC value that is that of the bytes in front of them.
abbrev pub IsChecked : Env → Reader → List ℕ → ℕ → List ℕ → List ℕ → List ℕ → Type 0
IsChecked env reader front crc_type crc r rest =
    (calculate_crc_buff env front crc_type ≡ ok crc) × (reader.read_byte_string r ≡ ok (crc, rest))

module _ (env : Env) (reader : Reader) where
  compared :
      (front r calculated : List ℕ) (read : List ℕ × List ℕ) (crc_type : ℕ) {x : List ℕ × List ℕ}
      → calculate_crc_buff env front crc_type ≡ ok calculated
      → reader.read_byte_string r ≡ ok read
      → (if bytes_equal calculated read.0
          then ok (read.0, read.1)
          else err (invalid_crc read.0 calculated))
        ≡ ok x
      → IsChecked env reader front crc_type x.0 r x.1
  compared front r calculated read crc_type {x} e f h =
      elim (Bool-cases (bytes_equal calculated read.0)) [
        | inl equal ↦
            let same = (bytes_equal_iff calculated read.0).0 equal in
            let k : ok read ≡ ok x = (rw equal at h) in
            let whole : read ≡ x = cc in
            subst (λ y. IsChecked env reader front crc_type y.0 r y.1) whole (e ∙ ap ok same, f)
        | inr apart ↦ ground arith
      ]

  read_crc-IsChecked :
      (front r : List ℕ) (crc_type : ℕ) {x : List ℕ × List ℕ}
      → read_crc env reader front crc_type r ≡ ok x
      → IsChecked env reader front crc_type x.0 r x.1
  unfolding read_crc
  read_crc-IsChecked front r crc_type {x} h =
      let (calculated, e, k) = >>=-eq-ok (calculate_crc_buff env front crc_type) _ h in
      let (read, f, l) = >>=-eq-ok (reader.read_byte_string r) _ k in
      compared front r calculated read crc_type {x = x} e f l

  read_canonical_crc-IsChecked :
      (buff : List ℕ) (cb : CanonicalBlock) (r : List ℕ) {x : CanonicalBlock × List ℕ}
      → read_canonical_crc env reader buff 6 cb r ≡ ok x
      → IsChecked env reader (env.write_array_length 6 ++ buff) x.0.crc_type x.0.crc r x.1
  unfolding read_canonical_crc
  read_canonical_crc-IsChecked buff cb r {x} h =
      let (read, e, k) =
        >>=-eq-ok (read_crc env reader (env.write_array_length 6 ++ buff) cb.crc_type r) _ h in
      let whole : ◌≡◌ {A = CanonicalBlock × List ℕ} (record cb { crc = read.0 }, read.1) x = cc in
      subst
        (λ y. IsChecked env reader (env.write_array_length 6 ++ buff) y.0.crc_type y.0.crc r y.1)
        whole (read_crc-IsChecked (env.write_array_length 6 ++ buff) r cb.crc_type {x = read} e)

  -- A block of six elements that decodes has the CRC of its type over its bytes in front of the CRC: its
  -- array's head, written anew, and what the decoder read behind it.
  pub unmarshal_canonical-IsChecked :
      (input start rest : List ℕ) (cb : CanonicalBlock)
      → reader.read_array_length input ≡ ok (6, start)
      → unmarshal_canonical env reader input ≡ ok (cb, rest)
      → (r : List ℕ) × IsChecked env reader
          (env.write_array_length 6 ++ consumed start r)
          cb.crc_type
          cb.crc
          r
          rest
  unfolding unmarshal_canonical require
  unmarshal_canonical-IsChecked input start rest cb h m =
      let six : (read_canonical_fields reader start >>= λ x.
      read_canonical_crc env reader (consumed start x.1) 6 x.0 x.1)
          ≡ ok (cb, rest) =
        (rw h at m) in
      let (read, e, k) = >>=-eq-ok (read_canonical_fields reader start) _ six in
      (
        read.1,
        read_canonical_crc-IsChecked (consumed start read.1) read.0 read.1 {x = (cb, rest)} k,
      )
